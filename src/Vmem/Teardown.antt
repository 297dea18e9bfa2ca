-- ===== src/Vmem/Teardown.antt =====
-- kernel/memory/vmem.c: making an address space and taking it down.
use kalorona_kernel.Common.{
  ℕ, zero, suc, ◌+◌, ◌*◌, Bool, false, ◌==◌, ◌&&◌, if◌then◌else◌, bit_and, Outcome, done, panicked,
  panic_if, ◌>>=◌, ◌>>◌, write,
}
use kalorona_kernel.Common.Word.{shr}
use kalorona_kernel.Common.Page.{page_shift}
use kalorona_kernel.Buddy.{kmem_alloc_pages, kmem_free_page}
use kalorona_kernel.Vmem.{
  Vm, is_valid, table_of, clear_page, vm_mappages, vm_unmappages, pte_flag_r, pte_flag_x,
}

abbrev pub va_user_user_handler_begin : ℕ
va_user_user_handler_begin = 0x3FFFFF0000

abbrev pub va_user_user_handler_size : ℕ
va_user_user_handler_size = 0x8000

-- Valid, with none of PTE_FLAG_R, PTE_FLAG_W and PTE_FLAG_X: an entry that leads to a table.
pub leads_down : ℕ → Bool
unfolding is_valid
leads_down pte = is_valid pte && (bit_and pte 14 == 0)

-- `vm_reap_pagetable` of a table with `depth` levels below it: the entries from `i` on, then its page. A table
-- deeper than that, which three levels have not, stands as a panic.
pub reap_entries : ℕ → (ℕ → Vm → Outcome Vm) → Vm → ℕ → ℕ → Outcome Vm
unfolding is_valid leads_down table_of
reap_entries zero reap_below v pgtbl i =
    kmem_free_page v.kmem pgtbl >>= λ k. done (record v { kmem = k })
reap_entries (suc left) reap_below v pgtbl i =
    let pte = v.words (pgtbl + i * 8) in
    let below =
      if leads_down pte
      then (reap_below (table_of pte) v >>= λ w.
          done (record w { words = write w.words (pgtbl + i * 8) 0 }))
      else (panic_if (is_valid pte) >> done v) in
    below >>= λ w. reap_entries left reap_below w pgtbl (i + 1)

unfoldable pub vm_reap_pagetable : ℕ → ℕ → Vm → Outcome Vm
unfolding reap_entries
vm_reap_pagetable zero pgtbl v = panicked
vm_reap_pagetable (suc depth) pgtbl v = reap_entries 512 (vm_reap_pagetable depth) v pgtbl 0

-- The same without the panic at a mapped page.
pub reap_entries_force : ℕ → (ℕ → Vm → Outcome Vm) → Vm → ℕ → ℕ → Outcome Vm
unfolding leads_down table_of
reap_entries_force zero reap_below v pgtbl i =
    kmem_free_page v.kmem pgtbl >>= λ k. done (record v { kmem = k })
reap_entries_force (suc left) reap_below v pgtbl i =
    let pte = v.words (pgtbl + i * 8) in
    let below =
      if leads_down pte
      then (reap_below (table_of pte) v >>= λ w.
          done (record w { words = write w.words (pgtbl + i * 8) 0 }))
      else done v in
    below >>= λ w. reap_entries_force left reap_below w pgtbl (i + 1)

pub vm_reap_pagetable_force : ℕ → ℕ → Vm → Outcome Vm
unfolding reap_entries_force
vm_reap_pagetable_force zero pgtbl v = panicked
vm_reap_pagetable_force (suc depth) pgtbl v =
    reap_entries_force 512 (vm_reap_pagetable_force depth) v pgtbl 0

-- The physical address of the handler, KERNEL_USER_HANDLER_PA_BEGIN, is a symbol of the linker script.
module _ (kernel_user_handler_pa_begin : ℕ) where
  -- The result of `vm_mappages` is dropped.
  pub vm_map_user_handler : Vm → ℕ → Outcome Vm
  unfolding vm_mappages
  vm_map_user_handler v pgtbl =
      vm_mappages v pgtbl va_user_user_handler_begin kernel_user_handler_pa_begin
        va_user_user_handler_size (pte_flag_r + pte_flag_x)
      >>= λ r. done r.1

  -- The page is cleared before the test for NULL.
  pub vm_user_make_pagetable : Vm → Outcome (ℕ × Vm)
  unfolding clear_page vm_map_user_handler
  vm_user_make_pagetable v = kmem_alloc_pages v.kmem 0 >>= λ r.
      let v₁ = record v { kmem = r.1; words = clear_page v.words r.0 } in
      panic_if (r.0 == 0) >> (vm_map_user_handler v₁ r.0 >>= λ w. done (r.0, w))

pub vm_unmap_user_handler : Vm → ℕ → Outcome Vm
unfolding vm_unmappages
vm_unmap_user_handler v pgtbl =
    vm_unmappages v pgtbl va_user_user_handler_begin (shr va_user_user_handler_size page_shift)
      false
