-- ===== src/Vmem.antt =====
-- kernel/memory/vmem.c: page tables of three levels in Sv39 mode. The 64-bit words of page tables are
-- a function of the word's address, the bytes of other pages one of the byte's address. A page
-- table is the address of its page, an entry that of its word, and NULL is 0.
pub mod Pte
pub mod Tree
pub mod Leaf
pub mod Grow
pub mod Extend
pub mod Walk
pub mod Space
pub mod Map
pub mod Translate
pub mod Copyout
pub mod Range
pub mod Unmap
pub mod Samples
pub mod Teardown
pub mod Fork
pub mod Setup
mod Tests
use kalorona_kernel.Common.{
  ℕ, zero, suc, ◌+◌, ◌-◌, ◌*◌, ◌%◌, ◌^◌, Bool, true, false, ◌==◌, ◌&&◌, ◌||◌, not, ltb,
  if◌then◌else◌, bit_and, bit_or, Outcome, done, panicked, panic_if, ◌>>=◌, ◌>>◌, write,
}
use kalorona_kernel.Common.Int.{ℤ, pos, negsuc}
use kalorona_kernel.Common.Word.{add64, sub64, shl64, shr}
use kalorona_kernel.Common.Page.{
  page_size, page_shift, page_round_down, page_round_up, pma_pa2va, pma_va2pa,
}
use kalorona_kernel.Memory.{Memory, memcpy}
use kalorona_kernel.Buddy.{Kmem, kmem_alloc_pages, kmem_free_page}

-- PTE_FLAG_V, and the flags that make an entry a leaf.
abbrev pub pte_flag_v : ℕ
pte_flag_v = 1

abbrev pub pte_flag_r : ℕ
pte_flag_r = 2

abbrev pub pte_flag_x : ℕ
pte_flag_x = 8

abbrev pub pte_flags_width : ℕ
pte_flags_width = 10

-- VA_N_VPN - 1, the level of the root
abbrev pub top_level : ℕ
top_level = 2

-- VA_GET_PN
pub va_get_pn : ℕ → ℕ → ℕ
va_get_pn lv va = bit_and (shr va (9 * lv + 12)) 0x1FF

-- PA_PTE and PTE_PA
pub pa_pte : ℕ → ℕ
pa_pte pa = shl64 (shr pa 12) pte_flags_width

pub pte_pa : ℕ → ℕ
pte_pa pte = shl64 (shr pte pte_flags_width) 12

pub record Vm : Type 0 where
  pub kmem : Kmem
  pub words : ℕ → ℕ
  pub bytes : Memory

-- `&pgtbl[VA_GET_PN(lv, va)]`
pub entry_at : ℕ → ℕ → ℕ → ℕ
unfolding va_get_pn
entry_at pgtbl lv va = pgtbl + va_get_pn lv va * 8

-- `(*e) & PTE_FLAG_V`
pub is_valid : ℕ → Bool
is_valid pte = not (bit_and pte pte_flag_v == 0)

-- `(pagetable_t)PMA_PA2VA(PTE_PA(pte))`
pub table_of : ℕ → ℕ
unfolding pte_pa
table_of pte = pma_pa2va (pte_pa pte)

-- `memset(pgtbl, 0, PAGE_SIZE)` of a page of words
pub clear_page : (ℕ → ℕ) → ℕ → ℕ → ℕ
clear_page words page a = if not (ltb a page) && ltb a (page + page_size) then 0 else words a

-- A new table at `page`, and the entry at `e` that leads to it.
pub install : Vm → ℕ → ℕ → Vm
unfolding clear_page pa_pte
install v e page = record v {
  words = write (clear_page v.words page) e (bit_or (pa_pte (pma_va2pa page)) pte_flag_v);
}

-- The loop of `vm_walk` from level `lv` down.
pub walk : Vm → ℕ → ℕ → Bool → ℕ → Outcome (ℕ × Vm)
unfolding entry_at is_valid table_of install
walk v pgtbl va alloc zero = done (entry_at pgtbl 0 va, v)
walk v pgtbl va alloc (suc lv) =
    let e = entry_at pgtbl (suc lv) va in
    let found = walk v (table_of (v.words e)) va alloc lv in
    let grown = kmem_alloc_pages v.kmem 0 >>= λ r.
    let v₁ = record v { kmem = r.1 } in
    let deeper = walk (install v₁ e r.0) r.0 va alloc lv in
    if r.0 == 0 then done (0, v₁) else deeper in
    let missing = if alloc then grown else done (0, v) in
    if is_valid (v.words e) then found else missing

pub vm_walk : Vm → ℕ → ℕ → Bool → Outcome (ℕ × Vm)
unfolding walk
vm_walk v pgtbl va alloc = walk v pgtbl va alloc top_level

-- The loop of `vm_mappages`, with the pages left: 0, or -1 for want of memory.
pub map_from : Vm → ℕ → ℕ → ℕ → ℕ → ℕ → Outcome (ℤ × Vm)
unfolding vm_walk pa_pte is_valid
map_from v pgtbl current_pg pa flags zero = done (pos 0, v)
map_from v pgtbl current_pg pa flags (suc left) = vm_walk v pgtbl current_pg true >>= λ r.
    let v₁ = r.1 in
    let pte = bit_or (bit_or (pa_pte pa) pte_flag_v) flags in
    let next =
      map_from (record v₁ { words = write v₁.words r.0 pte }) pgtbl (add64 current_pg page_size)
        (add64 pa page_size) flags left in
    if r.0 == 0 then done (negsuc 0, v₁) else (panic_if (is_valid (v₁.words r.0)) >> next)

-- The loop ends when the address is the bound, both multiples of the page size.
pub vm_mappages : Vm → ℕ → ℕ → ℕ → ℕ → ℕ → Outcome (ℤ × Vm)
unfolding map_from
vm_mappages v pgtbl va pa siz flags =
    let first = page_round_down va in
    let rounds = shr (sub64 (page_round_up (add64 va siz)) first) page_shift in
    if siz == 0 then done (negsuc 0, v) else map_from v pgtbl first pa flags rounds

-- The loop of `vm_unmappages`, with the pages left.
pub unmap_from : Vm → ℕ → ℕ → Bool → ℕ → Outcome Vm
unfolding vm_walk is_valid table_of
unmap_from v pgtbl v_addr do_free zero = done v
unmap_from v pgtbl v_addr do_free (suc left) = vm_walk v pgtbl v_addr false >>= λ r.
    let v₁ = r.1 in
    let pte = v₁.words r.0 in
    let freed = if do_free then kmem_free_page v₁.kmem (table_of pte) else done v₁.kmem in
    panic_if
      (r.0 == 0 || not (is_valid pte) || (bit_and pte (2 ^ pte_flags_width - 1) == pte_flag_v))
    >> (freed >>= λ k.
        unmap_from (record v₁ { kmem = k; words = write v₁.words r.0 0 }) pgtbl
          (add64 v_addr page_size) do_free left)

-- The loop ends when the address is no longer below the bound.
pub vm_unmappages : Vm → ℕ → ℕ → ℕ → Bool → Outcome Vm
unfolding unmap_from
vm_unmappages v pgtbl va page_count do_free =
    let bound = add64 va ((page_size * page_count) % 2 ^ 64) in
    let rounds = if ltb va bound then shr (bound - va) page_shift else 0 in
    panic_if (not (bit_and va (2 ^ 9 - 1) == 0)) >> unmap_from v pgtbl va do_free rounds

-- The address, 0 for NULL.
pub vm_translate : Vm → ℕ → ℕ → Outcome ℕ
unfolding vm_walk pte_pa
vm_translate v pgtbl addr = vm_walk v pgtbl addr false >>= λ r. done (
    if r.0 == 0
    then 0
    else pma_pa2va (bit_or (pte_pa (r.1.words r.0)) (bit_and addr (page_size - 1))))

-- The loops of `vm_memcpyin` and `vm_memcpyout`, with the bytes left.
pub vm_memcpyin : Vm → ℕ → ℕ → ℕ → ℕ → Outcome (ℤ × Vm)
unfolding vm_translate
vm_memcpyin v pgtbl dst vsrc zero = done (pos 0, v)
vm_memcpyin v pgtbl dst vsrc (suc left) = vm_translate v pgtbl vsrc >>= λ p.
    let next =
      vm_memcpyin (record v { bytes = write v.bytes dst (v.bytes p) }) pgtbl (add64 dst 1)
        (add64 vsrc 1) left in
    if p == 0 then done (negsuc 0, v) else next

pub vm_memcpyout : Vm → ℕ → ℕ → ℕ → ℕ → Outcome (ℤ × Vm)
unfolding vm_translate
vm_memcpyout v pgtbl vdst src zero = done (pos 0, v)
vm_memcpyout v pgtbl vdst src (suc left) = vm_translate v pgtbl vdst >>= λ p.
    let next =
      vm_memcpyout (record v { bytes = write v.bytes p (v.bytes src) }) pgtbl (add64 vdst 1)
        (add64 src 1) left in
    if p == 0 then done (negsuc 0, v) else next
