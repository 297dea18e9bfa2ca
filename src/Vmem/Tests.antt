-- ===== src/Vmem/Tests.antt =====
-- Runs on an address space without any mapping, and with one page mapped.
use kalorona_kernel.Common.{
  Bool, true, false, Outcome, ◌^◌, ◌==◌, ℕ, ◌+◌, ◌-◌, ◌*◌, ◌/◌, ◌≤◌, ◌<◌, ◌≡◌, refl, ◌∙◌, subst,
  sym, arith, true, false, done, panicked, leb, ltb, ◌&&◌,
}
use kalorona_kernel.Common.Int.{pos}
use kalorona_kernel.Common.Page.{
  page_round_up, page_round_down, pma_va2pa, pma_pa2va, va_kernel_begin,
}
use kalorona_kernel.Bitmap.{toggle_bit, test_bit, test_and_clear_bit, test_and_set_bit}
use kalorona_kernel.LinkedList.{list_insert, list_detach}
use kalorona_kernel.Buddy.{kmem_alloc_pages, kmem_free_page}
use kalorona_kernel.Buddy.Samples.{page}
use kalorona_kernel.Vmem.{
  va_get_pn, Vm, is_valid, pa_pte, vm_mappages, vm_translate, vm_unmappages, top_level,
}
use kalorona_kernel.Vmem.Tree.{find, look}
use kalorona_kernel.Vmem.Space.{entry_of, leaf, Mapped}
use kalorona_kernel.Vmem.Map.{MapResult}
use kalorona_kernel.Vmem.Range.{vm_mappages_lem, vm_mappages-done, vm_translate-mappages}
use kalorona_kernel.Vmem.Translate.{vm_translate_lem, vm_translate-unmapped, target}
use kalorona_kernel.Vmem.Unmap.{IsLeaf, Unmapped, vm_unmappages_lem}
use kalorona_kernel.Vmem.Teardown.{vm_reap_pagetable}
use kalorona_kernel.Vmem.Setup.{setup_mmu, giga_pte, flags_rw}
use kalorona_kernel.Vmem.Setup.Giga.{setup_mmu_lem}
use kalorona_kernel.Vmem.Samples.{blank, blank-IsVm}

abbrev va : ℕ
va = 0x200000

abbrev pa : ℕ
pa = 0x80000000

-- PTE_FLAG_R | PTE_FLAG_W
abbrev flags : ℕ
flags = 6

nothing_mapped : (x : ℕ) → is_valid (entry_of blank (page 0) x) ≡ false
unfolding look is_valid
nothing_mapped x = refl

-- Two pages are left for the two tables of this page.
abbrev one_page : Vm
one_page = elim (vm_mappages blank (page 0) va pa 4096 flags) [ done r ↦ r.1 | panicked ↦ blank ]

maps : vm_mappages blank (page 0) va pa 4096 flags ≡ done (pos 0, one_page)
unfolding vm_mappages page_round_up page_round_down kmem_alloc_pages list_detach list_insert
    pma_va2pa test_and_set_bit
maps = refl

one_page-Mapped : Mapped blank (page 0) va pa flags 1 one_page
one_page-Mapped =
    vm_mappages-done blank one_page (page 0) va pa 4096 flags blank-IsVm (λ e. omega arith)
      (omega arith) (omega arith) (λ y p q. nothing_mapped y) maps

mapped_entry : (x : ℕ) → va ≤ x → x < va + 1 * 4096 → entry_of one_page (page 0) x ≡ leaf pa flags
mapped_entry x lo hi =
    let inside : leb va x && ltb x (va + 1 * 4096) ≡ true = ground arith in
    let to : pa + (x - va) / 4096 * 4096 ≡ pa = omega arith in
    one_page-Mapped.entries x (omega arith) ∙ rw (inside, to) refl

leaf_pte-IsLeaf : IsLeaf (leaf pa flags)
unfolding is_valid pa_pte
leaf_pte-IsLeaf = (refl, λ e. omega arith)

mapped-IsLeaf : (x : ℕ) → va ≤ x → x < va + 1 * 4096 → IsLeaf (entry_of one_page (page 0) x)
mapped-IsLeaf x lo hi = subst IsLeaf (sym (mapped_entry x lo hi)) leaf_pte-IsLeaf

vm_mappages_lem_example :
    MapResult (page 0) flags blank va pa 3 (vm_mappages blank (page 0) va pa 12288 flags)
vm_mappages_lem_example =
    vm_mappages_lem blank (page 0) va pa 12288 flags blank-IsVm (λ e. omega arith) (omega arith)
      (omega arith) (λ y p q. nothing_mapped y)

vm_translate-mappages_example :
    vm_translate one_page (page 0) 0x200123 ≡ done (va_kernel_begin + pa + 0x123)
vm_translate-mappages_example =
    vm_translate-mappages blank one_page (page 0) va pa 4096 flags 0x200123 blank-IsVm
      (λ e. omega arith) (omega arith) (omega arith) refl refl (omega arith)
      (λ y p q. nothing_mapped y) maps (omega arith) (omega arith)

vm_translate_lem_example :
    vm_translate one_page (page 0) 0x200123
    ≡ done (target (entry_of one_page (page 0) 0x200123) 0x200123)
vm_translate_lem_example =
    vm_translate_lem one_page (page 0) 0x200123 one_page-Mapped.is_vm
      (mapped-IsLeaf 0x200123 (omega arith) (omega arith)).0

-- The next page has the same tables.
next_entry :
    (find one_page.words (page 0) 0x201123 top_level ≡ page 3 + 8)
    × (one_page.words (find one_page.words (page 0) 0x201123 top_level) ≡ 0)
unfolding vm_mappages page_round_up page_round_down kmem_alloc_pages list_detach list_insert
    pma_va2pa test_and_set_bit find pma_pa2va
next_entry = (refl, refl)

vm_translate-unmapped_example :
    vm_translate one_page (page 0) 0x201123 ≡ done (va_kernel_begin + 0x123)
vm_translate-unmapped_example =
    vm_translate-unmapped one_page (page 0) 0x201123 (λ z. omega (arith, next_entry.0)) next_entry.1

vm_unmappages_lem_example :
    (v' : Vm) × (vm_unmappages one_page (page 0) va 1 false ≡ done v')
    × Unmapped one_page (page 0) va 1 v'
vm_unmappages_lem_example =
    vm_unmappages_lem one_page (page 0) va 1 one_page-Mapped.is_vm refl (omega arith) mapped-IsLeaf

freed : Outcome Vm → Bool
unfolding test_bit
freed (done v) = test_bit v.kmem.mem_map 0 == 0
freed panicked = false

-- Reaping stops at a page that is mapped, and gives the root table back when nothing is.
reaps_blank : freed (vm_reap_pagetable 3 (page 0) blank) ≡ true
unfolding vm_reap_pagetable kmem_alloc_pages list_detach list_insert pma_va2pa pma_pa2va
    test_and_set_bit test_and_clear_bit toggle_bit freed kmem_free_page
reaps_blank = refl

-- The third gigabyte behind the start of the physical memory access.
setup_mmu_lem_example :
    setup_mmu (λ _. 0) 0x80000000 0xFFFFFFFF80000000 0xFFFFFFFF80200000 258
    ≡ giga_pte flags_rw (2 * 2 ^ 30)
unfolding va_get_pn
setup_mmu_lem_example =
    setup_mmu_lem (λ _. 0) 0x80000000 0xFFFFFFFF80000000 0xFFFFFFFF80200000 258 (omega arith)
      (omega arith) (omega arith)
