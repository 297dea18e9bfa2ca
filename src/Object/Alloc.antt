-- ===== src/Object/Alloc.antt =====
-- `kmem_object_alloc` where a block has a free slot.
use kalorona_kernel.Common.{
  ℕ, ◌+◌, ◌<◌, ◌≡◌, refl, ◌∙◌, ap, sym, subst, Bool, true, false, ◌||◌, ◌&&◌, leb, List, [], ◌∷◌,
  ◌++◌, arith, inl, inr, Bool-cases, done,
}
use kalorona_kernel.Common.Word.{add64}
use kalorona_kernel.Bitmap.{test_bit}
use kalorona_kernel.LinkedList.Chain.{has, has-append}
use kalorona_kernel.Buddy.{Kmem}
use kalorona_kernel.Object.{
  Objects, Block, header_size, free_slots, allocated_slots, kmem_object_alloc_from_block,
}
use kalorona_kernel.Object.Slots.{
  IsBlock, SameElsewhere, count_of, count_of-cons, alloc_from_block_lem,
}
use kalorona_kernel.Object.Managed.{
  BlockView, own, IsPlacedIn, apart_from, Linked, IsFrame, IsPlacedIn-frame, IsBlock-frame,
  Linked-frame,
}

-- Some block of the list has the header among its allocated ones.
abbrev pub in_use : List BlockView → ℕ → Bool
in_use [] a = false
in_use (v ∷ vs) a = has a v.allocated || in_use vs a

pub in_use-append :
    (us vs : List BlockView) (a : ℕ) → in_use (us ++ vs) a ≡ (in_use us a || in_use vs a)
in_use-append [] vs a = refl
in_use-append (u ∷ us) vs a = ground (arith, in_use-append us vs a)

abbrev pub with_lists : BlockView → List ℕ → List ℕ → BlockView
with_lists v free allocated = record v { free = free; allocated = allocated }

apart_from-middle :
    (lo hi : ℕ) (us : List BlockView) (v : BlockView) (ws : List BlockView)
    (free allocated : List ℕ)
    → apart_from lo hi (us ++ with_lists v free allocated ∷ ws) ≡ apart_from lo hi (us ++ v ∷ ws)
apart_from-middle lo hi [] v ws free allocated = refl
apart_from-middle lo hi (u ∷ us) v ws free allocated =
    ap (λ (t : Bool). (leb u.page_end lo || leb hi u.blk) && t)
      (apart_from-middle lo hi us v ws free allocated)

pub apart_from-one :
    (lo hi : ℕ) (us : List BlockView) (v : BlockView) (ws : List BlockView)
    → apart_from lo hi (us ++ v ∷ ws) ≡ true
    → (leb v.page_end lo || leb hi v.blk) ≡ true
apart_from-one lo hi [] v ws h = ground arith
apart_from-one lo hi (u ∷ us) v ws h = apart_from-one lo hi us v ws (ground arith)

-- A change inside one block of the list.
pub Linked-change :
    {s s' : Objects} {unit : ℕ} (at : ℕ) (us : List BlockView) (v : BlockView) (ws : List BlockView)
    (free allocated : List ℕ)
    → Linked s unit at (us ++ v ∷ ws)
    → v.blk < v.page_end
    → IsFrame v.blk v.page_end s s'
    → (s'.block v.blk).block_nxt ≡ (s.block v.blk).block_nxt
    → IsBlock s' v.blk free allocated
    → IsPlacedIn s'.pages unit (with_lists v free allocated)
    → Linked s' unit at (us ++ with_lists v free allocated ∷ ws)
Linked-change {s} {s'} {unit} at [] v ws free allocated (at_is, ok, p, apart, rest) span frame next
      ok' p' =
    (
      at_is,
      ok',
      p',
      apart,
      subst (λ (a : ℕ). Linked s' unit a ws) (sym next)
          (Linked-frame frame span unit (s.block v.blk).block_nxt ws apart rest),
    )
Linked-change {s} {s'} {unit} at (u ∷ us) v ws free allocated (at_is, ok, p, apart, rest) span frame
      next ok' p' =
    let far = apart_from-one u.blk u.page_end us v ws apart in
    let away : (leb u.page_end v.blk || leb v.page_end u.blk) ≡ true = ground arith in
    let own_blk : own u u.blk ≡ true = ground arith in
    let same : s'.block u.blk ≡ s.block u.blk =
      frame.blocks_kept u.blk (λ e. ground (arith, p.inside u.blk own_blk)) in
    (
      at_is,
      IsBlock-frame frame span u ok p away,
      IsPlacedIn-frame frame p,
      apart_from-middle u.blk u.page_end us v ws free allocated ∙ apart,
      subst (λ (b : Block). Linked s' unit b.block_nxt (us ++ with_lists v free allocated ∷ ws))
          (sym same)
          (Linked-change (s.block u.blk).block_nxt us v ws free allocated rest span frame next ok'
            p'),
    )

-- What was changed in a block alone.
pub IsFrame-elsewhere :
    (s s' : Objects) (unit : ℕ) (v : BlockView)
    → IsPlacedIn s.pages unit v
    → SameElsewhere v.blk (free_slots v.blk ∷ (v.free ++ allocated_slots v.blk ∷ v.allocated)) s s'
    → IsFrame v.blk v.page_end s s'
IsFrame-elsewhere s s' unit v p same = record {
  headers_kept = λ a far.
      let away : own v a ≡ false = elim (Bool-cases (own v a)) [
        | inl i ↦ absurd (ground (arith, p.inside a i))
        | inr o ↦ o
      ] in
      let u =
        same.headers_same a
          (ground (arith, has-append a v.free (allocated_slots v.blk ∷ v.allocated))) in
      (u.0, u.1, ap (λ (f : ℕ → ℕ). f a) same.parents_same);
  blocks_kept = same.blocks_same;
  same_begin = ap (λ k. k.begin_ppn) same.pages_same;
  still_marked = λ pn h. ap (λ k. test_bit k.mem_map pn) same.pages_same ∙ h;
}

pub Linked-at :
    (s : Objects) (unit at : ℕ) (us : List BlockView) (v : BlockView) (ws : List BlockView)
    → Linked s unit at (us ++ v ∷ ws)
    → IsBlock s v.blk v.free v.allocated × IsPlacedIn s.pages unit v
Linked-at s unit at [] v ws (at_is, ok, p, apart, rest) = (ok, p)
Linked-at s unit at (u ∷ us) v ws (at_is, ok, p, apart, rest) =
    Linked-at s unit (s.block u.blk).block_nxt us v ws rest

-- The slot `node` goes from one list of the block to the other.
pub IsPlacedIn-moved :
    {k : Kmem} {unit : ℕ} (v : BlockView) (free allocated : List ℕ)
    → IsPlacedIn k unit v
    → ((a : ℕ) → (has a free || has a allocated) ≡ (has a v.free || has a v.allocated))
    → count_of free + count_of allocated ≡ count_of v.free + count_of v.allocated
    → IsPlacedIn k unit (with_lists v free allocated)
IsPlacedIn-moved v free allocated p same counts = record {
  first_page = p.first_page;
  page_count = p.page_count;
  some_page = p.some_page;
  blk_is = p.blk_is;
  end_is = p.end_is;
  marked = p.marked;
  inside = λ a i. p.inside a (ground (arith, same a));
  spaced = λ a i. p.spaced a (sym (same a) ∙ i);
  word = p.word;
  few = omega (arith, p.few);
}

pub alloc_in_old :
    (s : Objects) (unit at : ℕ) (us : List BlockView) (v : BlockView) (ws : List BlockView)
    (node : ℕ) (rest : List ℕ)
    → Linked s unit at (us ++ v ∷ ws)
    → v.free ≡ node ∷ rest
    → (s' : Objects) × (kmem_object_alloc_from_block s v.blk ≡ done (add64 node header_size, s'))
      × Linked s' unit at (us ++ with_lists v rest (node ∷ v.allocated) ∷ ws)
      × (s'.pages ≡ s.pages)
      × (s'.manager ≡ s.manager)
alloc_in_old s unit at us v ws node rest linked e =
    let (ok, p) = Linked-at s unit at us v ws linked in
    let first = subst (λ (xs : List ℕ). IsBlock s v.blk xs v.allocated) e ok in
    let counts = ap count_of e in
    let one = count_of-cons node rest in
    let more = count_of-cons node v.allocated in
    let (s', run, ok', same) =
      alloc_from_block_lem s v.blk node rest v.allocated first (omega (arith, p.few)) in
    let frame = IsFrame-elsewhere s s' unit v p (
      subst
        (λ (xs : List ℕ).
          SameElsewhere v.blk (free_slots v.blk ∷ (xs ++ allocated_slots v.blk ∷ v.allocated)) s s')
        (sym e) same) in
    let p' =
      IsPlacedIn-moved v rest (node ∷ v.allocated) (IsPlacedIn-frame frame p)
        (λ a. ground (arith, ap (has a) e)) (omega arith) in
    (
      s',
      run,
      Linked-change at us v ws rest (node ∷ v.allocated) linked
          (omega (arith, p.some_page, p.blk_is, p.end_is)) frame same.next_same ok' p',
      same.pages_same,
      same.managers_same,
    )
