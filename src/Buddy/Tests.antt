-- ===== src/Buddy/Tests.antt =====
-- Runs of the page allocator on a node of four pages, all in use or in one free block.
use kalorona_kernel.Common.{
  ℕ, zero, suc, ◌+◌, ◌*◌, ◌^◌, ◌<◌, ◌≤◌, ◌≡◌, refl, Outcome, done, panicked, ◌>>=◌, write, arith,
  ◌⊎◌,
}
use kalorona_kernel.Common.Page.{pma_va2pa, pma_pa2va}
use kalorona_kernel.Bitmap.{test_bit, test_and_set_bit, toggle_bit}
use kalorona_kernel.LinkedList.{list_insert, list_detach}
use kalorona_kernel.Buddy.{
  Kmem, max_mem_order, free_unreserved, kmem_alloc_pages, kmem_free_page, kmem_free_pages,
}
use kalorona_kernel.Buddy.Give.{IsKmem, Given, SameNode, kmem_alloc_pages_lem}
use kalorona_kernel.Buddy.Release.{
  Freed, kmem_free_page_lem, kmem_free_pages_lem, free_pages-alloc_pages,
}
use kalorona_kernel.Buddy.Init.{Started, free_unreserved_lem}
use kalorona_kernel.Buddy.Samples.{
  head, page, all_used, all_free, all_used-IsKmem, all_free-IsKmem, after_boot, after_boot-IsBlank,
}

first_free : ℕ → Outcome Kmem → Outcome ℕ
first_free ord o = o >>= λ k. done (k.links.nxt (k.list_head ord))

gives_first : (kmem_alloc_pages all_free 1 >>= λ r. done r.0) ≡ done (page 0)
unfolding kmem_alloc_pages test_bit test_and_set_bit toggle_bit list_insert list_detach pma_va2pa
    pma_pa2va write
gives_first = refl

keeps_second : first_free 1 (kmem_alloc_pages all_free 1 >>= λ r. done r.1) ≡ done (page 2)
unfolding kmem_alloc_pages test_bit test_and_set_bit toggle_bit list_insert list_detach pma_va2pa
    pma_pa2va write first_free
keeps_second = refl

-- What `kmem_alloc_pages all_free 1` returns.
abbrev given : ℕ × Kmem
given = elim (kmem_alloc_pages all_free 1) [ done r ↦ r | panicked ↦ (0, all_free) ]

kmem_alloc_pages_lem_example :
    ((kmem_alloc_pages all_free 1 ≡ done (0, all_free))
      × ((q : ℕ) → 1 ≤ q → q < max_mem_order → all_free.links.nxt (head q) ≡ 0))
    ⊎ ((b : ℕ) × (k' : Kmem) × (kmem_alloc_pages all_free 1 ≡ done (page (b * 2 ^ 1), k'))
        × Given all_free 1 b k')
kmem_alloc_pages_lem_example = kmem_alloc_pages_lem all_free 1 all_free-IsKmem (omega arith)

kmem_free_page_lem_example :
    (k' : Kmem) × (kmem_free_page all_used (page 2) ≡ done k') × Freed all_used 2 1 k'
unfolding test_bit
kmem_free_page_lem_example = kmem_free_page_lem all_used 2 all_used-IsKmem (omega arith) refl

all_set : (j : ℕ) → 0 ≤ j → j < 0 + 4 → test_bit (λ _. 255) j ≡ 1
unfolding test_bit
all_set zero p q = refl
all_set (suc zero) p q = refl
all_set (suc (suc zero)) p q = refl
all_set (suc (suc (suc zero))) p q = refl
all_set (suc (suc (suc (suc j)))) p q = absurd (omega arith)

kmem_free_pages_lem_example :
    (k' : Kmem) × (kmem_free_pages all_used (page 0) 4 ≡ done k') × Freed all_used 0 4 k'
kmem_free_pages_lem_example = kmem_free_pages_lem all_used 0 4 all_used-IsKmem (omega arith) all_set

free_pages-alloc_pages_example :
    (k₂ : Kmem) × (kmem_free_pages given.1 (page 0) (2 ^ 1) ≡ done k₂)
    × ((j : ℕ) → test_bit k₂.mem_map j ≡ test_bit all_free.mem_map j)
    × SameNode all_free k₂
    × IsKmem k₂
unfolding kmem_alloc_pages test_bit test_and_set_bit toggle_bit list_insert list_detach pma_va2pa
    pma_pa2va write
free_pages-alloc_pages_example =
    free_pages-alloc_pages all_free given.1 1 (page 0) all_free-IsKmem (omega arith) refl
      (λ e. omega arith)

free_unreserved_lem_example :
    (k' : Kmem) × (free_unreserved after_boot 0 4 ≡ done k') × Started after_boot k'
free_unreserved_lem_example = free_unreserved_lem after_boot after_boot-IsBlank
