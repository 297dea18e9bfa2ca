-- ===== src/Object/Fresh.antt =====
-- The slots of a new block.
use kalorona_kernel.Common.{
  ℕ, zero, suc, ◌+◌, ◌*◌, ◌^◌, ◌≤◌, ◌<◌, ◌≡◌, ◌≢◌, refl, ◌∙◌, ap, sym, true, false, ◌||◌, ltb, leb,
  List, [], ◌∷◌, ◌++◌, arith, write, write_self, write_ne, Bool-cases, inl, inr, ℕ_discrete,
}
use mathlib.Core.List.{append_assoc, append-nil}
use kalorona_kernel.Common.Word.{add64}
use kalorona_kernel.LinkedList.{Links, set_nxt, set_prv}
use kalorona_kernel.LinkedList.Chain.{
  has, ◌∈◌, ◌∉◌, Distinct, last_of, IsChain, IsChain-frame, Joined-frame, SameOutside, has-append,
  append-Joined, last_of-append, last_of-mem, ne_of_mem,
}
use kalorona_kernel.Object.{Objects, Block, allocated_slots, set_block, make_slots}
use kalorona_kernel.Object.Slots.{IsBlock}

-- `count` addresses from `pos` on, `unit_size` apart.
abbrev pub slots : ℕ → ℕ → ℕ → List ℕ
slots unit_size pos zero = []
slots unit_size pos (suc count) = pos ∷ slots unit_size (pos + unit_size) count

Distinct-snoc : (xs : List ℕ) (n : ℕ) → Distinct xs → n ∉ xs → Distinct (xs ++ n ∷ [])
Distinct-snoc [] n d out = (ground arith, tt)
Distinct-snoc (x ∷ xs) n d out =
    (ground (arith, d.0, has-append x xs (n ∷ [])), Distinct-snoc xs n d.1 (ground arith))

-- A node behind the last one.
IsChain-snoc :
    (l : Links) (p pos : ℕ) (xs : List ℕ)
    → IsChain l p xs
    → pos ≢ 0
    → pos ∉ p ∷ xs
    → let prev = last_of p xs in
      let g = set_nxt (set_prv (set_nxt l prev pos) pos prev) pos 0 in
      IsChain g p (xs ++ pos ∷ []) × SameOutside (p ∷ (xs ++ pos ∷ [])) l g
IsChain-snoc l p pos xs c nz out =
    let prev = last_of p xs in
    let g = set_nxt (set_prv (set_nxt l prev pos) pos prev) pos 0 in
    let ne : prev ≢ pos = ne_of_mem prev pos (p ∷ xs) (last_of-mem p xs) out in
    let nxt_other : (a : ℕ) → a ≢ prev → a ≢ pos → g.nxt a ≡ l.nxt a =
      λ a h k. write_ne (write l.nxt prev pos) pos a 0 k ∙ write_ne l.nxt prev a pos h in
    (
      record {
        head_ne_null = c.head_ne_null;
        joined =
            append-Joined g p xs (pos ∷ [])
              (Joined-frame l g p xs c.distinct
                (λ a i h. nxt_other a h (ne_of_mem a pos (p ∷ xs) i out))
                (λ a i. write_ne l.prv pos a prev (ne_of_mem a pos (p ∷ xs) (ground arith) out))
                c.joined)
              (
                write_ne (write l.nxt prev pos) pos prev 0 ne ∙ write_self l.nxt prev pos,
                write_self l.prv pos prev,
                nz,
                tt,
              );
        ends = ap g.nxt (last_of-append p pos xs []) ∙ write_self (write l.nxt prev pos) pos 0;
        distinct = Distinct-snoc (p ∷ xs) pos c.distinct out;
      },
      λ a h.
          let np : a ≢ pos = ground (arith, has-append a xs (pos ∷ [])) in
          let inner : a ∉ p ∷ xs = ground (arith, has-append a xs (pos ∷ [])) in
          let nl : a ≢ prev = λ e. ne_of_mem prev a (p ∷ xs) (last_of-mem p xs) inner (sym e) in
          (nxt_other a nl np, write_ne l.prv pos a prev np),
    )

-- What the loop does to the block's record and to the rest of the state.
pub record IsFilled (s : Objects) (blk page_end made : ℕ) (s' : Objects) : Type 0 where
  pub block_filled : s'.block blk ≡ record (s.block blk) { total = (s.block blk).total + made }
  pub pages_kept : s'.pages ≡ s.pages
  pub managers_kept : s'.manager ≡ s.manager
  pub blocks_kept : (b : ℕ) → b ≢ blk → s'.block b ≡ s.block b
  pub headers_kept :
      (a : ℕ)
      → (ltb a blk || leb page_end a) ≡ true
      → (s'.headers.nxt a ≡ s.headers.nxt a)
        × (s'.headers.prv a ≡ s.headers.prv a)
        × (s'.parent_block a ≡ s.parent_block a)

module _ (blk unit_size page_end : ℕ) where
  with_slot : Objects → ℕ → ℕ → Objects
  with_slot s prev pos =
      let b = s.block blk in
      set_block
        (record s {
          headers = set_nxt (set_prv (set_nxt s.headers prev pos) pos prev) pos 0;
          parent_block = write s.parent_block pos blk;
        })
        blk (record b { total = add64 b.total 1 })

  with_slot-IsFilled :
      (s : Objects) (prev pos : ℕ)
      → (s.block blk).total + 1 < 2 ^ 64
      → blk ≤ prev
      → prev < page_end
      → blk ≤ pos
      → pos < page_end
      → IsFilled s blk page_end 1 (with_slot s prev pos)
  unfolding with_slot set_block
  with_slot-IsFilled s prev pos h lp hp lo hi =
      let b = s.block blk in
      let t : add64 b.total 1 ≡ b.total + 1 = omega arith in
      record {
        block_filled =
            write_self s.block blk (record b { total = add64 b.total 1 })
            ∙ ap (λ (n : ℕ). record b { total = n }) t;
        pages_kept = refl;
        managers_kept = refl;
        blocks_kept = λ c ne. write_ne s.block blk c (record b { total = add64 b.total 1 }) ne;
        headers_kept = λ a far.
            let np : a ≢ prev = ground arith in
            let no_pos : a ≢ pos = ground arith in
            (
              write_ne (write s.headers.nxt prev pos) pos a 0 no_pos
                  ∙ write_ne s.headers.nxt prev a pos np,
              write_ne s.headers.prv pos a prev no_pos,
              write_ne s.parent_block pos a blk no_pos,
            );
      }

  with_slot-IsBlock :
      (s : Objects) (pos : ℕ) (xs : List ℕ)
      → IsBlock s blk xs []
      → allocated_slots blk < pos
      → ((a : ℕ) → a ∈ blk ∷ xs → a < pos)
      → IsBlock (with_slot s (last_of blk xs) pos) blk (xs ++ pos ∷ []) []
  unfolding with_slot set_block
  with_slot-IsBlock s pos xs ok behind below =
      let b = s.block blk in
      let out : pos ∉ blk ∷ xs = elim (Bool-cases (has pos (blk ∷ xs))) [
        | inl i ↦ absurd (omega (arith, below pos i))
        | inr o ↦ o
      ] in
      let (chain, same) = IsChain-snoc s.headers blk pos xs ok.free_chain (omega arith) out in
      record {
        free_chain = chain;
        allocated_chain =
            IsChain-frame
              (set_nxt (set_prv (set_nxt s.headers (last_of blk xs) pos) pos (last_of blk xs)) pos
                0)
              ok.allocated_chain
              (λ a i. same a (elim (Bool-cases (has a (blk ∷ (xs ++ pos ∷ [])))) [
                | inl k ↦ absurd (ground (arith, ok.apart a, has-append a xs (pos ∷ []), behind))
                | inr o ↦ o
              ]));
        apart = λ a i. ground (arith, ok.apart a, has-append a xs (pos ∷ []), behind);
        used_count =
            ap (λ (r : Block). r.used)
              (write_self s.block blk (record b { total = add64 b.total 1 }))
            ∙ ok.used_count;
        parent = λ a i. elim (ℕ_discrete a pos) [
          | yes e ↦ ap (write s.parent_block pos blk) e ∙ write_self s.parent_block pos blk
          | no ne ↦
              write_ne s.parent_block pos a blk ne
              ∙ ok.parent a (ground (arith, ne, has-append a xs (pos ∷ [])))
        ];
      }

  stop_slots :
      (fuel : ℕ) (s : Objects) (prev pos : ℕ)
      → pos + unit_size < 2 ^ 64
      → page_end < pos + unit_size
      → make_slots (suc fuel) s blk unit_size page_end prev pos ≡ s
  unfolding make_slots
  stop_slots fuel s prev pos w h =
      let f : leb (add64 pos unit_size) page_end ≡ false = ground arith in rw (make_slots, f) refl

  next_slot :
      (fuel : ℕ) (s : Objects) (prev pos : ℕ)
      → page_end < 2 ^ 64
      → pos + unit_size ≤ page_end
      → make_slots (suc fuel) s blk unit_size page_end prev pos
        ≡ make_slots fuel (with_slot s prev pos) blk unit_size page_end pos (pos + unit_size)
  unfolding make_slots with_slot
  next_slot fuel s prev pos w h =
      let e : add64 pos unit_size ≡ pos + unit_size = omega arith in
      let f : leb (add64 pos unit_size) page_end ≡ true = ground arith in
      rw (make_slots, f) (ap (make_slots fuel (with_slot s prev pos) blk unit_size page_end pos) e)

  IsFilled-trans :
      {s t u : Objects} {m n : ℕ}
      → IsFilled s blk page_end m t
      → IsFilled t blk page_end n u
      → IsFilled s blk page_end (m + n) u
  IsFilled-trans {s} {m} {n} x y = record {
    block_filled =
        y.block_filled
        ∙ ap (λ (b : Block). record b { total = b.total + n }) x.block_filled
        ∙ ap (λ (k : ℕ). record (s.block blk) { total = k }) (omega arith);
    pages_kept = y.pages_kept ∙ x.pages_kept;
    managers_kept = y.managers_kept ∙ x.managers_kept;
    blocks_kept = λ b h. y.blocks_kept b h ∙ x.blocks_kept b h;
    headers_kept = λ a h.
        let u = y.headers_kept a h in
        let v = x.headers_kept a h in (u.0 ∙ v.0, u.1 ∙ v.1, u.2 ∙ v.2);
  }

  -- With fuel for the slots that fit, all of them are made, behind those of before.
  pub make_slots_lem :
      (count fuel : ℕ) (s : Objects) (pos : ℕ) (xs : List ℕ)
      → count < fuel
      → page_end + unit_size < 2 ^ 64
      → pos + count * unit_size ≤ page_end
      → page_end < pos + count * unit_size + unit_size
      → 0 < unit_size
      → (s.block blk).total + count < 2 ^ 64
      → allocated_slots blk < pos
      → ((a : ℕ) → a ∈ blk ∷ xs → a < pos)
      → ((a : ℕ) → a ∈ blk ∷ xs → blk ≤ a)
      → IsBlock s blk xs []
      → let s' = make_slots fuel s blk unit_size page_end (last_of blk xs) pos in
        IsBlock s' blk (xs ++ slots unit_size pos count) [] × IsFilled s blk page_end count s'
  make_slots_lem count zero s pos xs lt w le full nz few behind below from ok = absurd (omega arith)
  make_slots_lem zero (suc fuel) s pos xs lt w le full nz few behind below from ok =
      let stop = stop_slots fuel s (last_of blk xs) pos (omega arith) (omega arith) in
      rw (stop, append-nil xs)
        (
          ok,
          record {
            block_filled = ap (λ (n : ℕ). record (s.block blk) { total = n }) (omega arith);
            pages_kept = refl;
            managers_kept = refl;
            blocks_kept = λ b h. refl;
            headers_kept = λ a h. (refl, refl, refl);
          },
        )
  make_slots_lem (suc count) (suc fuel) s pos xs lt w le full nz few behind below from ok =
      let prev = last_of blk xs in
      let t = with_slot s prev pos in
      let filled =
        with_slot-IsFilled s prev pos (omega arith) (from prev (last_of-mem blk xs))
          (omega (arith, below prev (last_of-mem blk xs))) (ground (arith, below blk))
          (omega arith) in
      let ready = with_slot-IsBlock s pos xs ok behind below in
      let more = ap (λ (b : Block). b.total) filled.block_filled in
      let (block, rest) =
        make_slots_lem count fuel t (pos + unit_size) (xs ++ pos ∷ []) (omega arith) w (omega arith)
          (omega arith) nz (omega (arith, more)) (omega arith)
          (λ a i. ground (arith, below a, has-append a xs (pos ∷ [])))
          (λ a i. ground (arith, from a, below blk, has-append a xs (pos ∷ []))) ready in
      let go =
        next_slot fuel s prev pos (omega arith) (omega arith)
        ∙ ap (λ (p : ℕ). make_slots fuel t blk unit_size page_end p (pos + unit_size))
            (sym (last_of-append blk pos xs [])) in
      let one : 1 + count ≡ suc count = omega arith in
      rw (go, sym one)
        (
          rw (sym (append_assoc xs (pos ∷ []) (slots unit_size (pos + unit_size) count))) block,
          IsFilled-trans filled rest,
        )
