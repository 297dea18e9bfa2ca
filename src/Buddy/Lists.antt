-- ===== src/Buddy/Lists.antt =====
-- What the lists and the page map say of the free blocks, and what taking a block off its list and
-- putting one on it change.
use kalorona_kernel.Common.{
  ℕ, ◌+◌, ◌*◌, ◌/◌, ◌^◌, ◌≤◌, ◌<◌, ◌≡◌, ◌≢◌, ◌∙◌, ap, sym, subst, List, ◌∷◌, arith, write,
  write_self, write_ne, ℕ_discrete, Bool-cases, inl, inr, dec_lt,
}
use kalorona_kernel.Bitmap.{BitMap, IsBytes, test_bit}
use kalorona_kernel.LinkedList.{Links}
use kalorona_kernel.LinkedList.Chain.{has, ◌∈◌, ◌∉◌, IsChain, IsChain-frame}
use kalorona_kernel.Buddy.Blocks.{
  page_at, nodes, count, cover, cover-two, cover-write, map-has, pow-pos,
}
use native.Mathlib.Nat.{mul-div_left}

module _ (begin_ppn num_ppn : ℕ) (list_head : ℕ → ℕ) where
  -- Where the node and the list heads lie: the physical addresses fit Sv39, the heads differ, and
  -- none is the address of a page of the node.
  pub record IsPlaced : Type 0 where
    pub fits : begin_ppn + num_ppn ≤ 2 ^ 25
    pub heads_differ : (o q : ℕ) → o < 11 → q < 11 → o ≢ q → list_head o ≢ list_head q
    pub heads_apart : (o pn : ℕ) → o < 11 → pn < num_ppn → list_head o ≢ page_at begin_ppn pn

  -- `free o` are the blocks on the list of order `o`. A page is marked in the map, or in exactly
  -- one free block, or among the `extra` pages, which the operation at work holds.
  pub record Holds (extra : ℕ → ℕ) (m : BitMap) (l : Links) (free : ℕ → List ℕ) : Type 0 where
    pub placed : IsPlaced
    pub chained : (o : ℕ) → o < 11 → IsChain l (list_head o) (nodes begin_ppn o (free o))
    pub inside : (o b : ℕ) → o < 11 → b ∈ free o → b * 2 ^ o + 2 ^ o ≤ num_ppn
    pub once : (pn : ℕ) → pn < num_ppn → test_bit m pn + cover free 11 pn + extra pn ≡ 1
    pub bytes : IsBytes m

  module _ {extra : ℕ → ℕ} {m : BitMap} {l : Links} {free : ℕ → List ℕ}
      (h : Holds extra m l free) where
    first_page : (o b : ℕ) → o < 11 → b ∈ free o → b * 2 ^ o < num_ppn
    first_page o b lo i = omega (arith, h.inside o b lo i, pow-pos o)

    -- Two lists have no node in common.
    apart :
        (o q a : ℕ)
        → o < 11
        → q < 11
        → o < q
        → a ∈ nodes begin_ppn o (free o)
        → a ∉ nodes begin_ppn q (free q)
    apart o q a lo lq d i = elim (Bool-cases (has a (nodes begin_ppn q (free q)))) [
      | inr n ↦ n
      | inl j ↦
          let (b, bi, be) = map-has (λ b. page_at begin_ppn (b * 2 ^ o)) a (free o) i in
          let (c, ci, ce) = map-has (λ b. page_at begin_ppn (b * 2 ^ q)) a (free q) j in
          let same : b * 2 ^ o ≡ c * 2 ^ q = omega arith in
          let bq : b * 2 ^ o / 2 ^ o ≡ b = mul-div_left b (pow-pos o) in
          let cq : b * 2 ^ o / 2 ^ q ≡ c =
            ap (λ (t : ℕ). t / 2 ^ q) same ∙ mul-div_left c (pow-pos q) in
          let two = cover-two free 11 o q (b * 2 ^ o) d lq in
          let one = h.once (b * 2 ^ o) (first_page o b lo bi) in
          absurd
            (ground (arith, two, one, ap (λ t. has t (free o)) bq, ap (λ t. has t (free q)) cq))
    ]

    -- Neither the head nor a node of a list is on another list.
    pub other_list :
        (o q a : ℕ)
        → o < 11
        → q < 11
        → q ≢ o
        → a ∈ list_head q ∷ nodes begin_ppn q (free q)
        → a ∉ list_head o ∷ nodes begin_ppn o (free o)
    other_list o q a lo lq ne i = elim (Bool-cases (has a (nodes begin_ppn o (free o)))) [
      | inl j ↦
          let (b, bi, be) = map-has (λ b. page_at begin_ppn (b * 2 ^ o)) a (free o) j in
          let far = h.placed.heads_apart q (b * 2 ^ o) lq (first_page o b lo bi) in
          let k : a ∈ nodes begin_ppn q (free q) = ground (arith, far, be) in
          elim (dec_lt o q) [
            | yes d ↦ absurd (ground (arith, apart o q a lo lq d j))
            | no d ↦ absurd (ground (arith, apart q o a lq lo (omega arith) k))
          ]
      | inr n ↦ elim (ℕ_discrete a (list_head q)) [
        | yes e ↦ ground (arith, h.placed.heads_differ o q lo lq (λ e. ne (sym e)), e)
        | no d ↦
            let (b, bi, be) =
              map-has (λ b. page_at begin_ppn (b * 2 ^ q)) a (free q) (ground arith) in
            ground (arith, h.placed.heads_apart o (b * 2 ^ q) lo (first_page q b lq bi), be)
      ]
    ]

    -- New links and a new list for one order, where the others stay as they are.
    pub relist :
        (extra' : ℕ → ℕ) (g : Links) (o : ℕ) (bs : List ℕ)
        → o < 11
        → IsChain g (list_head o) (nodes begin_ppn o bs)
        → ((q a : ℕ)
            → q < 11
            → q ≢ o
            → a ∈ list_head q ∷ nodes begin_ppn q (free q)
            → (g.nxt a ≡ l.nxt a) × (g.prv a ≡ l.prv a))
        → ((b : ℕ) → b ∈ bs → b * 2 ^ o + 2 ^ o ≤ num_ppn)
        → ((pn : ℕ)
            → pn < num_ppn
            → count (has (pn / 2 ^ o) (free o)) + extra pn
              ≡ count (has (pn / 2 ^ o) bs) + extra' pn)
        → Holds extra' m g (write free o bs)
    relist extra' g o bs lo chain same ins moved = record {
      placed = h.placed;
      chained = λ q lq. elim (ℕ_discrete q o) [
        | yes e ↦
            subst (λ r. IsChain g (list_head r) (nodes begin_ppn r (write free o bs r))) (sym e)
              (rw (write_self free o bs) chain)
        | no ne ↦
            rw (write_ne free o q bs ne)
              (IsChain-frame g (h.chained q lq) (λ a i. same q a lq ne i))
      ];
      inside = λ q b lq i. elim (ℕ_discrete q o) [
        | yes e ↦
            subst (λ r. b ∈ write free o bs r → b * 2 ^ r + 2 ^ r ≤ num_ppn) (sym e)
              (λ i. ins b (ap (has b) (sym (write_self free o bs)) ∙ i)) i
        | no ne ↦ h.inside q b lq (ap (has b) (sym (write_ne free o q bs ne)) ∙ i)
      ];
      once = λ pn lp. omega (arith, cover-write free 11 o pn bs lo, moved pn lp, h.once pn lp);
      bytes = h.bytes;
    }
