-- ===== src/Buddy/Give.antt =====
-- `kmem_alloc_pages` as a whole.
use kalorona_kernel.Common.{
  ℕ, ◌+◌, ◌-◌, ◌*◌, ◌^◌, ◌≤◌, ◌<◌, ◌≡◌, refl, ◌∙◌, ap, sym, subst, true, false, ltb, leb, List,
  arith, done, ◌⊎◌, inl, inr, some,
}
use kalorona_kernel.Bitmap.{test_bit}
use kalorona_kernel.LinkedList.Chain.{◌∈◌}
use kalorona_kernel.Buddy.{
  Kmem, max_mem_order, find_order, split_block, register_block, kmem_alloc_pages,
}
use kalorona_kernel.Buddy.Blocks.{page_at}
use kalorona_kernel.Buddy.Split.{Buddies}
use kalorona_kernel.Buddy.Alloc.{
  in_block, Marked, find_order_lem, first_block, split_block_lem, register_block_lem,
}

-- The allocator's state between operations: for some free blocks on the lists, each page of the
-- node is either marked in the map or in exactly one of them.
abbrev pub IsKmem : Kmem → Type 0
IsKmem k = (free : (ℕ → List ℕ)) × Buddies (λ _. 0) k free

-- What does not change after the start.
pub record SameNode (k k' : Kmem) : Type 0 where
  pub same_begin : k'.begin_ppn ≡ k.begin_ppn
  pub same_num : k'.num_ppn ≡ k.num_ppn
  pub same_head : k'.list_head ≡ k.list_head

-- Block `b` of the order lies in the node, was free, and is marked now.
pub record Given (k : Kmem) (order b : ℕ) (k' : Kmem) : Type 0 where
  pub inside : b * 2 ^ order + 2 ^ order ≤ k.num_ppn
  pub was_free : (pn : ℕ) → in_block order b pn ≡ true → test_bit k.mem_map pn ≡ 0
  pub marked : Marked 1 order b k.mem_map k'.mem_map
  pub same_node : SameNode k k'
  pub valid : IsKmem k'

alloc_run :
    (k : Kmem) (order c page : ℕ) {k₁ k₂ : Kmem}
    → order < 11
    → find_order k (max_mem_order - order) order ≡ some c
    → order ≤ c
    → k.links.nxt (k.list_head c) ≡ page
    → split_block k page order (c - order) ≡ done k₁
    → register_block k₁ page order ≡ done k₂
    → kmem_alloc_pages k order ≡ done (page, k₂)
unfolding kmem_alloc_pages
alloc_run k order c page lo found le first split marked =
    let small : leb max_mem_order order ≡ false = ground arith in
    let right_way : ltb c order ≡ false = ground arith in
    rw (small, found, right_way, first, split, marked) refl

-- No free list of the order or of a larger one has a block.
abbrev pub NoBlock : Kmem → ℕ → Type 0
NoBlock k order = (q : ℕ) → order ≤ q → q < max_mem_order → k.links.nxt (k.list_head q) ≡ 0

-- `kmem_alloc_pages` of an order below the largest, on a valid state, never panics. Either every list
-- of that order or more is empty, it returns NULL, and the state is as before; or it returns the
-- address of a block of `2 ^ order` pages, aligned to its size from the node's first page on, that lies
-- in the node and was free; its pages and no others are marked, and the state is valid again.
pub kmem_alloc_pages_lem :
    (k : Kmem) (order : ℕ)
    → IsKmem k
    → order < max_mem_order
    → ((kmem_alloc_pages k order ≡ done (0, k))
        × ((q : ℕ) → order ≤ q → q < max_mem_order → k.links.nxt (k.list_head q) ≡ 0))
      ⊎ ((b : ℕ) × (k' : Kmem) × (kmem_alloc_pages k order
            ≡ done (page_at k.begin_ppn (b * 2 ^ order), k'))
          × Given k order b k')
unfolding kmem_alloc_pages
kmem_alloc_pages_lem k order (free, h) lo = elim (find_order_lem k (max_mem_order - order) order) [
  | inl (none_found, all) ↦
      let small : leb max_mem_order order ≡ false = ground arith in
      inl (rw (small, none_found) refl, λ q le lq. all q le (omega arith))
  | inr (c, found, le, lc, ne) ↦
      let (b, bi, first) =
        first_block k.links (k.list_head c) k.begin_ppn c (free c) (h.holds.chained c (omega arith))
          ne in
      let e : order + (c - order) ≡ c = omega arith in
      let (g, ar, split, free₁, h₁, d, di, same) =
        split_block_lem order (c - order) b h (omega arith)
          (subst (λ (o : ℕ). b ∈ free o) (sym e) bi) in
      let (m, g', ar', run, was_free, marked, free₂, h₂) = register_block_lem order d h₁ lo di in
      let at : k.links.nxt (k.list_head c) ≡ page_at k.begin_ppn (d * 2 ^ order) =
        first
        ∙ ap (λ (o : ℕ). page_at k.begin_ppn (b * 2 ^ o)) (sym e)
        ∙ ap (page_at k.begin_ppn) same in
      inr (
        d,
        record k { mem_map = m; links = g'; area_map = ar' },
        alloc_run k order c (page_at k.begin_ppn (d * 2 ^ order)) lo found le at
            (ap (λ (p : ℕ). split_block k (page_at k.begin_ppn p) order (c - order)) (sym same)
              ∙ split)
            run,
        record {
          inside = h₁.holds.inside order d lo di;
          was_free = was_free;
          marked = marked;
          same_node = record { same_begin = refl; same_num = refl; same_head = refl };
          valid = (free₂, h₂);
        },
      )
]
