-- ===== src/Vmem/Fork.antt =====
-- kernel/memory/vmem.c: `vm_uvmcpy`, which copies an address space with its pages.
use kalorona_kernel.Common.{
  ℕ, zero, suc, ◌+◌, ◌-◌, ◌^◌, Bool, true, false, ◌==◌, ◌&&◌, not, if◌then◌else◌, bit_and, bit_or,
  Outcome, done, ◌>>=◌, write,
}
use kalorona_kernel.Common.Page.{page_size, pma_va2pa}
use kalorona_kernel.Memory.{memcpy}
use kalorona_kernel.Buddy.{kmem_alloc_pages}
use kalorona_kernel.Vmem.{
  Vm, is_valid, table_of, pa_pte, pte_flags_width, pte_flag_r, pte_flag_x, top_level,
}

-- The address and the flags of an entry, made together.
pub remade : ℕ → ℕ → ℕ
unfolding pa_pte
remade page pte = bit_or (pa_pte (pma_va2pa page)) (bit_and pte (2 ^ pte_flags_width - 1))

-- The copy of a mapped page, and the entry for it.
pub copy_leaf : Vm → ℕ → ℕ → Outcome Vm
unfolding table_of memcpy remade
copy_leaf v pte new_entry = kmem_alloc_pages v.kmem 0 >>= λ r. done (record v {
  kmem = r.1;
  bytes = memcpy v.bytes r.0 (table_of pte) page_size;
  words = write v.words new_entry (remade r.0 pte);
})

-- The entry of the new table leads to a table, new if there was nothing.
pub make_sub : Vm → ℕ → ℕ → Outcome Vm
unfolding remade
make_sub v pte new_entry =
    if v.words new_entry == 0
    then (kmem_alloc_pages v.kmem 0 >>= λ r.
        done (record v { kmem = r.1; words = write v.words new_entry (remade r.0 pte) }))
    else done v

-- One entry; `copy_below` is the call for the level below, which level 0 has not.
pub copy_entry : Bool → (Vm → ℕ → ℕ → Outcome Vm) → Bool → Vm → ℕ → ℕ → Outcome Vm
unfolding is_valid copy_leaf make_sub table_of
copy_entry overwrite copy_below is_lowest v entry new_entry =
    let pte = v.words entry in
    let leaf =
      if not overwrite && not (v.words new_entry == 0) then done v else copy_leaf v pte new_entry in
    let down = make_sub v pte new_entry >>= λ w.
    copy_below w (table_of (w.words entry)) (table_of (w.words new_entry)) in
    if not (is_valid pte)
    then done v
    else if not (bit_and pte (pte_flag_r + pte_flag_x) == 0)
    then leaf
    else if is_lowest
    then done v
    else down

-- The loop over the entries, with those left.
pub copy_entries : (Vm → ℕ → ℕ → Outcome Vm) → ℕ → Vm → ℕ → ℕ → Outcome Vm
copy_entries copy_one zero v entry new_entry = done v
copy_entries copy_one (suc left) v entry new_entry =
    copy_one v entry new_entry >>= λ w. copy_entries copy_one left w (entry + 8) (new_entry + 8)

pub vm_uvmcpy_recursive : Bool → ℕ → Vm → ℕ → ℕ → Outcome Vm
unfolding copy_entry copy_entries
vm_uvmcpy_recursive overwrite zero v pgtbl new_pgtbl =
    copy_entries (copy_entry overwrite (λ w t u. done w) true) 512 v pgtbl new_pgtbl
vm_uvmcpy_recursive overwrite (suc level) v pgtbl new_pgtbl =
    copy_entries (copy_entry overwrite (vm_uvmcpy_recursive overwrite level) false) 512 v pgtbl
      new_pgtbl

pub vm_uvmcpy : Vm → ℕ → ℕ → Bool → Outcome Vm
unfolding vm_uvmcpy_recursive
vm_uvmcpy v pgtbl new_pgtbl overwrite = vm_uvmcpy_recursive overwrite top_level v pgtbl new_pgtbl
