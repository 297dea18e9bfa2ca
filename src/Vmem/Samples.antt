-- ===== src/Vmem/Samples.antt =====
-- An address space without any mapping, its root table in the only page in use.
use kalorona_kernel.Common.{
  ℕ, ◌≡◌, ◌≢◌, refl, ap, sym, subst, write, write_ne, write_self, ℕ_discrete, arith, inl, inr,
  Outcome, done, panicked,
}
use kalorona_kernel.Common.Page.{pma_va2pa, pma_pa2va}
use kalorona_kernel.Bitmap.{test_bit, test_and_set_bit, toggle_bit}
use kalorona_kernel.LinkedList.{list_insert, list_detach}
use kalorona_kernel.Buddy.{Kmem, kmem_alloc_pages}
use kalorona_kernel.Buddy.Give.{IsKmem, kmem_alloc_pages_lem}
use kalorona_kernel.Buddy.Samples.{all_free, all_free-IsKmem, page}
use kalorona_kernel.Vmem.{Vm, is_valid}
use kalorona_kernel.Vmem.Tree.{InUse}
use kalorona_kernel.Vmem.Space.{IsVm}

-- `all_free` after an allocation of two pages, which leaves the two others.
abbrev pub half_free : Kmem
half_free = elim (kmem_alloc_pages all_free 1) [ done r ↦ r.1 | panicked ↦ all_free ]

half_free_run : kmem_alloc_pages all_free 1 ≡ done (page 0, half_free)
unfolding kmem_alloc_pages test_bit test_and_set_bit toggle_bit list_insert list_detach pma_va2pa
    pma_pa2va write
half_free_run = refl

pub half_free-IsKmem : IsKmem half_free
unfolding kmem_alloc_pages test_bit test_and_set_bit toggle_bit list_insert list_detach pma_va2pa
    pma_pa2va write
half_free-IsKmem = elim (kmem_alloc_pages_lem all_free 1 all_free-IsKmem (omega arith)) [
  | inl (run, empty) ↦ absurd (omega (arith, ap address run))
  | inr (b, k', run, given) ↦ subst IsKmem (sym (ap state run)) given.valid
]
  where
    address : Outcome (ℕ × Kmem) → ℕ
    address (done r) = r.0
    address panicked = 0

    state : Outcome (ℕ × Kmem) → Kmem
    state (done r) = r.1
    state panicked = all_free

abbrev pub blank : Vm
blank = record { kmem = half_free; words = λ _. 0; bytes = λ _. 0 }

only_root : ℕ → ℕ
only_root = write (λ _. 0) (page 0) 3

-- The root table is allocated.
root_in_use : InUse half_free (page 0)
unfolding kmem_alloc_pages test_bit test_and_set_bit toggle_bit list_insert list_detach pma_va2pa
    pma_pa2va write
root_in_use = (0, omega arith, refl, refl)

only_root-one : (t : ℕ) → only_root t ≢ 0 → t ≡ page 0
unfolding only_root
only_root-one t nz = elim (ℕ_discrete t (page 0)) [
  | yes e ↦ e
  | no ne ↦ absurd (nz (write_ne {A = ℕ} (λ _. 0) (page 0) t 3 ne))
]

pub blank-IsVm : IsVm blank (page 0)
unfolding only_root is_valid
blank-IsVm = record {
  height = only_root;
  path = λ _. 0;
  tree = record {
    in_use = λ t nz. subst (InUse half_free) (sym (only_root-one t nz)) root_in_use;
    child = λ t lv i h hi ok. absurd (ground arith);
  };
  at_root = write_self (λ _. 0) (page 0) 3;
  valid = half_free-IsKmem;
}
