-- ===== src/Process/Memory.antt =====
-- The memory of one process: `proc_extend_stack`, `proc_extend_heap` and `proc_reap_detached` of kernel/proc/proc.c
-- and `syscall_sbrk` of kernel/proc/syscall.c, on the page tables of Vmem. The process is there already:
-- `proc_lock_and_find` has found it, and `proc_manager.lock` makes each operation one step.
pub mod Sbrk
mod Tests
use kalorona_kernel.Common.{
  ℕ, zero, suc, ◌+◌, ◌-◌, ◌*◌, ◌%◌, ◌^◌, bit_or, Bool, true, false, not, ◌&&◌, ltb, leb,
  if◌then◌else◌, Option, none, some, Outcome, done, ◌>>=◌, ◌==◌,
}
use kalorona_kernel.Common.Word.{add64, sub64, shl64, shr}
use kalorona_kernel.Common.Page.{page_size, page_shift, pma_va2pa, page_round_up, page_round_down}
use kalorona_kernel.Buddy.{kmem_alloc_pages, kmem_free_pages}
use kalorona_kernel.Vmem.{Vm, pte_flag_r, vm_mappages, vm_unmappages}
use kalorona_kernel.Vmem.Teardown.{va_user_user_handler_begin, vm_unmap_user_handler}

-- The fields of `struct proc_struct` that its memory concerns
pub record Image : Type 0 where
  pub kstack_vaddr : ℕ
  pub stack_vaddr : ℕ
  pub heap_vaddr : ℕ
  pub program_break : ℕ
  pub pgtbl : ℕ

abbrev pub pte_flag_w : ℕ
pte_flag_w = 4

abbrev pub pte_flag_u : ℕ
pte_flag_u = 16

abbrev pub va_user_begin : ℕ
va_user_begin = 0x200000

abbrev pub va_user_trapframe_begin : ℕ
va_user_trapframe_begin = 0x3FFFFF8000

-- `PTE_FLAG_R | PTE_FLAG_W | PTE_FLAG_U`
abbrev pub stack_flags : ℕ
stack_flags = bit_or (bit_or pte_flag_r pte_flag_w) pte_flag_u

-- The result of `vm_mappages` is not looked at.
pub proc_extend_stack : Vm → Image → ℕ → Outcome (ℕ × Vm × Image)
proc_extend_stack v im page_order = kmem_alloc_pages v.kmem page_order >>= λ r.
    let size = shl64 1 (page_order + page_shift) in
    let im' = record im { stack_vaddr = sub64 im.stack_vaddr size } in
    vm_mappages (record v { kmem = r.1 }) im'.pgtbl im'.stack_vaddr (pma_va2pa r.0) size stack_flags
    >>= λ q. done (r.0, q.1, im')

pub proc_extend_heap : Vm → Image → ℕ → ℕ → Outcome (ℕ × Vm × Image)
proc_extend_heap v im page_order mem_flag = kmem_alloc_pages v.kmem page_order >>= λ r.
    let size = shl64 1 (page_order + page_shift) in
    vm_mappages (record v { kmem = r.1 }) im.pgtbl im.heap_vaddr (pma_va2pa r.0) size
      (bit_or mem_flag pte_flag_u)
    >>= λ q. done (r.0, q.1, record im { heap_vaddr = add64 im.heap_vaddr size })

-- `proc_reap_detached` up to its `kmem_free` of the process. `trapframe_size` is the size of the struct.
module _ (trapframe_size : ℕ) where
  pub proc_reap_detached : Vm → Image → Outcome Vm
  proc_reap_detached v im =
      let stack_size = sub64 va_user_user_handler_begin im.stack_vaddr in
      let heap_size = sub64 im.heap_vaddr va_user_begin in
      vm_unmappages v im.pgtbl va_user_trapframe_begin
        (shr (page_round_up trapframe_size) page_shift) true
      >>= λ v₁. vm_unmap_user_handler v₁ im.pgtbl >>= λ v₂.
          kmem_free_pages v₂.kmem im.kstack_vaddr 1 >>= λ k.
          vm_unmappages (record v₂ { kmem = k }) im.pgtbl im.stack_vaddr (shr stack_size page_shift)
            true
          >>= λ v₃. vm_unmappages v₃ im.pgtbl va_user_begin (shr heap_size page_shift) true

-- The loop on `page_order`, with fuel: 53 rounds pass every shift of a page that is a word.
pub expand_order : ℕ → (target heap_vaddr page_order : ℕ) → Option ℕ
expand_order zero target heap_vaddr page_order = none
expand_order (suc fuel) target heap_vaddr page_order =
    let rest = expand_order fuel target heap_vaddr (page_order + 1) in
    if ltb (add64 heap_vaddr (shl64 page_size page_order)) target then rest else some page_order

-- More pages behind the heap. When they are out, nothing changes.
pub expand : Vm → Image → (delta page_order : ℕ) → Outcome (ℕ × Vm × Image)
expand v im delta page_order = kmem_alloc_pages v.kmem page_order >>= λ r.
    let v₁ = record v { kmem = r.1 } in
    let size = shl64 page_size page_order in
    let im' = record im {
      heap_vaddr = add64 im.heap_vaddr size;
      program_break = add64 im.program_break delta;
    } in
    let mapped = vm_mappages v₁ im.pgtbl im.heap_vaddr (pma_va2pa r.0) size stack_flags >>= λ q.
    done (im'.program_break, q.1, im') in
    if r.0 == 0 then done (im.program_break, v₁, im) else mapped

pub shrink : Vm → Image → ℕ → Outcome (ℕ × Vm × Image)
shrink v im delta =
    let im' = record im { program_break = add64 im.program_break delta } in
    let new_end = page_round_up im'.program_break in
    let current_end = page_round_down im.heap_vaddr in
    vm_unmappages v im.pgtbl new_end (shr (sub64 current_end new_end) page_shift) true >>= λ v'.
    done (im'.program_break, v', im')

-- `delta` is the word of the `long`. There is no result where the loop on `page_order` does not end.
pub syscall_sbrk : Vm → Image → ℕ → Option (Outcome (ℕ × Vm × Image))
syscall_sbrk v im delta =
    let negative = not (ltb delta (2 ^ 63)) in
    let target = add64 im.program_break delta in
    let unchanged : Option (Outcome (ℕ × Vm × Image)) = some (done (im.program_break, v, im)) in
    let expanded : Option (Outcome (ℕ × Vm × Image)) =
      elim (expand_order 53 target im.heap_vaddr 0) [
        | none ↦ none
        | some page_order ↦ some (expand v im delta page_order)
      ] in
    let shrunk : Option (Outcome (ℕ × Vm × Image)) = some (shrink v im delta) in
    if negative && ltb (sub64 im.heap_vaddr va_user_begin) (sub64 0 delta)
    then unchanged
    else if ltb im.heap_vaddr target
    then expanded
    else if leb target (sub64 im.heap_vaddr page_size)
    then shrunk
    else unchanged
