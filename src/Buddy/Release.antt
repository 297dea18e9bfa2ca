-- ===== src/Buddy/Release.antt =====
-- What `kmem_free_page` and `kmem_free_pages` do to the page map, and that they undo
-- `kmem_alloc_pages`.
use kalorona_kernel.Common.{
  ℕ, zero, suc, ◌+◌, ◌-◌, ◌*◌, ◌/◌, ◌^◌, ◌≤◌, ◌<◌, ◌≡◌, ◌≢◌, refl, ◌∙◌, ap, sym, if◌then◌else◌,
  arith, Outcome, done, panicked, inl, inr, bit_and,
}
use kalorona_kernel.Common.Bits.{bit_and_mask}
use kalorona_kernel.Common.Word.{add64}
use kalorona_kernel.Common.Page.{page_size}
use kalorona_kernel.Bitmap.{test_bit, test_and_clear_bit}
use kalorona_kernel.Bitmap.Laws.{test_and_clear_bit-old, test_bit-clear, IsBytes-clear}
use kalorona_kernel.Bootmem.Bits.{in_run}
use kalorona_kernel.Buddy.{
  Kmem, max_mem_order, page_number, coalesce, kmem_alloc_pages, kmem_free_page, kmem_free_pages,
  free_from,
}
use kalorona_kernel.Buddy.Blocks.{page_at}
use kalorona_kernel.Buddy.Split.{Buddies, page_number_lem}
use kalorona_kernel.Buddy.Alloc.{in_block-run}
use kalorona_kernel.Buddy.Give.{IsKmem, SameNode, Given, kmem_alloc_pages_lem}
use kalorona_kernel.Buddy.Free.{in_hand}
use kalorona_kernel.Buddy.Coalesce.{coalesce_lem}

-- The pages from `pn` on for `n` places are free now, and no other page has changed.
pub record Freed (k : Kmem) (pn n : ℕ) (k' : Kmem) : Type 0 where
  pub cleared :
      (j : ℕ) → test_bit k'.mem_map j ≡ (if in_run pn (pn + n) j then 0 else test_bit k.mem_map j)
  pub same_node : SameNode k k'
  pub valid : IsKmem k'

pub aligned : (begin_ppn pn : ℕ) → bit_and (page_at begin_ppn pn) (page_size - 1) ≡ 0
aligned begin_ppn pn = omega (arith, bit_and_mask 12 (page_at begin_ppn pn))

pub free_run :
    (k : Kmem) (addr pn : ℕ) {o : Outcome Kmem}
    → bit_and addr (page_size - 1) ≡ 0
    → page_number k addr ≡ pn
    → (test_and_clear_bit k.mem_map pn).0 ≡ 1
    → coalesce (record k { mem_map = (test_and_clear_bit k.mem_map pn).1 }) pn max_mem_order 0 ≡ o
    → kmem_free_page k addr ≡ o
unfolding kmem_free_page
free_run k addr pn al number old rest = rw (al, number, old) rest

-- `kmem_free_page` of a marked page of a valid state never panics; the page is free, no other page
-- has changed, and the state is valid again.
pub kmem_free_page_lem :
    (k : Kmem) (pn : ℕ)
    → IsKmem k
    → pn < k.num_ppn
    → test_bit k.mem_map pn ≡ 1
    → (k' : Kmem) × (kmem_free_page k (page_at k.begin_ppn pn) ≡ done k') × Freed k pn 1 k'
kmem_free_page_lem k pn (free, h) lp used =
    let m = (test_and_clear_bit k.mem_map pn).1 in
    let cleared = test_bit-clear k.mem_map pn h.holds.bytes in
    let held : Buddies (in_hand (λ _. 0) 0 (pn / 2 ^ 0)) (record k { mem_map = m }) free = record {
      holds = record {
        placed = h.holds.placed;
        chained = h.holds.chained;
        inside = h.holds.inside;
        once = λ p lq.
            ground (arith, h.holds.once p lq, cleared p, ap (test_bit k.mem_map) {x = p} {y = pn});
        bytes = IsBytes-clear k.mem_map pn h.holds.bytes;
      };
      paired = h.paired;
    } in
    let (g, ar, run, free', h') =
      coalesce_lem (λ _. 0) pn max_mem_order 0 held refl (omega arith) (omega arith) lp in
    (
      record k { mem_map = m; links = g; area_map = ar },
      free_run k (page_at k.begin_ppn pn) pn (aligned k.begin_ppn pn)
          (page_number_lem k pn (omega (arith, h.holds.placed.fits)))
          (test_and_clear_bit-old k.mem_map pn h.holds.bytes ∙ used) run,
      record {
        cleared = λ j. ground (arith, cleared j);
        same_node = record { same_begin = refl; same_num = refl; same_head = refl };
        valid = (free', h');
      },
    )

Freed-none : (k : Kmem) (pn : ℕ) → IsKmem k → Freed k pn 0 k
Freed-none k pn h = record {
  cleared = λ j. ground arith;
  same_node = record { same_begin = refl; same_num = refl; same_head = refl };
  valid = h;
}

Freed-more :
    {k k₁ k₂ : Kmem} (pn n : ℕ) → Freed k pn 1 k₁ → Freed k₁ (pn + 1) n k₂ → Freed k pn (suc n) k₂
Freed-more pn n f g = record {
  cleared = λ j. g.cleared j ∙ ground (arith, f.cleared j);
  same_node = record {
    same_begin = g.same_node.same_begin ∙ f.same_node.same_begin;
    same_num = g.same_node.same_num ∙ f.same_node.same_num;
    same_head = g.same_node.same_head ∙ f.same_node.same_head;
  };
  valid = g.valid;
}

free_from_lem :
    (n : ℕ) (k : Kmem) (pn : ℕ)
    → IsKmem k
    → pn + n ≤ k.num_ppn
    → ((j : ℕ) → pn ≤ j → j < pn + n → test_bit k.mem_map j ≡ 1)
    → (k' : Kmem) × (free_from k (page_at k.begin_ppn pn) n ≡ done k') × Freed k pn n k'
unfolding free_from
free_from_lem zero k pn h le used = (k, refl, Freed-none k pn h)
free_from_lem (suc n) k pn h le used =
    let (k₁, run, f) =
      kmem_free_page_lem k pn h (omega arith) (used pn (omega arith) (omega arith)) in
    let (k₂, rest, g) =
      free_from_lem n k₁ (pn + 1) f.valid (omega (arith, f.same_node.same_num))
        (λ j p q. f.cleared j ∙ ground (arith, used j (omega arith) (omega arith))) in
    let next : add64 (page_at k.begin_ppn pn) page_size ≡ page_at k₁.begin_ppn (pn + 1) =
      omega (arith, f.same_node.same_begin, h.1.holds.placed.fits) in
    (k₂, rw (run, next) rest, Freed-more pn n f g)

-- `kmem_free_pages` of a run of marked pages of a valid state never panics; the pages of the run are
-- free, no other page has changed, and the state is valid again.
pub kmem_free_pages_lem :
    (k : Kmem) (pn n : ℕ)
    → IsKmem k
    → pn + n ≤ k.num_ppn
    → ((j : ℕ) → pn ≤ j → j < pn + n → test_bit k.mem_map j ≡ 1)
    → (k' : Kmem) × (kmem_free_pages k (page_at k.begin_ppn pn) n ≡ done k') × Freed k pn n k'
unfolding kmem_free_pages
kmem_free_pages_lem k pn n h le used =
    let (k', run, f) = free_from_lem n k pn h le used in (k', rw (aligned k.begin_ppn pn) run, f)

give_back :
    {k k' : Kmem} (order b : ℕ)
    → Given k order b k'
    → (k₂ : Kmem) × (kmem_free_pages k' (page_at k.begin_ppn (b * 2 ^ order)) (2 ^ order) ≡ done k₂)
      × ((j : ℕ) → test_bit k₂.mem_map j ≡ test_bit k.mem_map j)
      × SameNode k k₂
      × IsKmem k₂
give_back {k} {k'} order b given =
    let used : (j : ℕ)
        → b * 2 ^ order ≤ j
        → j < b * 2 ^ order + 2 ^ order
        → test_bit k'.mem_map j ≡ 1 =
      λ j p q. given.marked j ∙ ground (arith, in_block-run order b j) in
    let (k₂, run, f) =
      kmem_free_pages_lem k' (b * 2 ^ order) (2 ^ order) given.valid
        (omega (arith, given.inside, given.same_node.same_num)) used in
    (
      k₂,
      ap (λ n. kmem_free_pages k' (page_at n (b * 2 ^ order)) (2 ^ order))
            (sym given.same_node.same_begin)
          ∙ run,
      λ j. f.cleared j ∙ ground (arith, given.marked j, in_block-run order b j, given.was_free j),
      record {
        same_begin = f.same_node.same_begin ∙ given.same_node.same_begin;
        same_num = f.same_node.same_num ∙ given.same_node.same_num;
        same_head = f.same_node.same_head ∙ given.same_node.same_head;
      },
      f.valid,
    )

-- A block that `kmem_alloc_pages` has just returned can be freed by `kmem_free_pages`, which gives the
-- page map back as it was before, bit for bit, in a valid state.
pub free_pages-alloc_pages :
    (k k₁ : Kmem) (order page : ℕ)
    → IsKmem k
    → order < max_mem_order
    → kmem_alloc_pages k order ≡ done (page, k₁)
    → page ≢ 0
    → (k₂ : Kmem) × (kmem_free_pages k₁ page (2 ^ order) ≡ done k₂)
      × ((j : ℕ) → test_bit k₂.mem_map j ≡ test_bit k.mem_map j)
      × SameNode k k₂
      × IsKmem k₂
free_pages-alloc_pages k k₁ order page h lo run ne = elim (kmem_alloc_pages_lem k order h lo) [
  | inl (null, all) ↦ absurd (ne (ap address (sym run ∙ null)))
  | inr (b, k', given_run, given) ↦
      let (k₂, freed, bits, node, valid) = give_back order b given in
      let same = sym run ∙ given_run in
      (
        k₂,
        ap (λ o. kmem_free_pages (state o) (address o) (2 ^ order)) same ∙ freed,
        bits,
        node,
        valid,
      )
]
  where
    address : Outcome (ℕ × Kmem) → ℕ
    address (done (a, k')) = a
    address panicked = 0

    state : Outcome (ℕ × Kmem) → Kmem
    state (done (a, s)) = s
    state panicked = k
