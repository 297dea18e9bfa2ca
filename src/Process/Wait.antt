-- ===== src/Process/Wait.antt =====
-- `syscall_wait` of kernel/proc/syscall.c, one round of its loop, with `proc_manager.lock` held: the exit state of a dead
-- child is copied over the page table of the caller, and the child's memory goes back through Memory, its struct
-- through Object. The bytes of a struct are those of the memory at its address.
pub mod Children
pub mod Round
mod Tests
use kalorona_kernel.Common.{
  ℕ, ◌+◌, Bool, true, false, not, ◌==◌, ◌&&◌, ◌||◌, if◌then◌else◌, Option, none, some, List, [],
  ◌∷◌, Outcome, done, ◌>>=◌,
}
use kalorona_kernel.Common.Int.{ℤ, pos, negsuc}
use kalorona_kernel.Common.Word.{add64}
use kalorona_kernel.Vmem.{Vm, vm_memcpyout}
use kalorona_kernel.Object.{Objects}
use kalorona_kernel.Object.Universal.{kmem_free}
use kalorona_kernel.Process.{ProcState, Proc, Manager, find_address, has_child, sleep_begin}
use kalorona_kernel.Process.Memory.{Image, proc_reap_detached}

pub is_zombie : ProcState → Bool
is_zombie ProcState.zombie = true
is_zombie ProcState.sleeping = false
is_zombie ProcState.runnable = false
is_zombie ProcState.running = false
is_zombie ProcState.stopped = false
is_zombie ProcState.allocated = false

-- The first child in the list that is a zombie.
pub find_zombie : List Proc → ℕ → Option Proc
find_zombie [] self = none
find_zombie (p ∷ ps) self =
    let rest = find_zombie ps self in
    if (p.parent == self) && is_zombie p.state then some p else rest

-- `proc_detach` of the process at an address
pub proc_detach : List Proc → ℕ → List Proc
proc_detach [] a = []
proc_detach (p ∷ ps) a = let rest = proc_detach ps a in if p.address == a then rest else p ∷ rest

-- The processes, the memory, the objects, whose pages are those of the memory, and by the address of a process its image.
pub record Kernel : Type 0 where
  pub procs : Manager
  pub vm : Vm
  pub objects : Objects
  pub image : ℕ → Image

pub data Waited : Type 0 where
  returned : ℤ → Kernel → Waited
  asleep : Kernel → Waited

pub is_killed_at : List Proc → ℕ → Bool
is_killed_at ps self = elim (find_address ps self) [ none ↦ false | some p ↦ p.killed ]

pub is_zero : ℤ → Bool
is_zero (pos n) = n == 0
is_zero (negsuc n) = false

-- `sizeof(p->exit_state)`
abbrev pub exit_state_size : ℕ
exit_state_size = 4

-- The size of the trap frame, and the place of `exit_state` in `struct proc_struct`, are the compiler's.
module _ (trapframe_size exit_state_offset : ℕ) where
  -- `proc_reap_detached` of the process at an address, with its `kmem_free`
  pub reap : Kernel → ℕ → Outcome Kernel
  reap k a = proc_reap_detached trapframe_size k.vm (k.image a) >>= λ v.
      kmem_free (record k.objects { pages = v.kmem }) a >>= λ o.
      done (record k { vm = record v { kmem = o.pages }; objects = o })

  -- `ret_addr != NULL && vm_memcpyout(...) != 0` is that the number is not 0.
  pub copy_exit_state : Kernel → (self ret_addr a : ℕ) → Outcome (ℤ × Vm)
  copy_exit_state k self ret_addr a =
      let copied =
        vm_memcpyout k.vm (k.image self).pgtbl ret_addr (add64 a exit_state_offset)
          exit_state_size in
      if ret_addr == 0 then done (pos 0, k.vm) else copied

  -- What the loop does at the child that it finds.
  pub collect : Kernel → (self ret_addr : ℕ) → Proc → Outcome Waited
  unfolding is_zero proc_detach
  collect k self ret_addr p = copy_exit_state k self ret_addr p.address >>= λ r.
      let k₁ = record k { vm = r.1 } in
      let procs = record k.procs { proc_list = proc_detach k.procs.proc_list p.address } in
      let reaped =
        reap (record k₁ { procs = procs }) p.address >>= λ k₂. done (returned (pos p.pid) k₂) in
      if is_zero r.0 then reaped else done (returned (negsuc 0) k₁)

  pub wait_round : Kernel → (self ret_addr : ℕ) → Outcome Waited
  wait_round k self ret_addr = elim (find_zombie k.procs.proc_list self) [
    | some p ↦ collect k self ret_addr p
    | none ↦ done (
        if not (has_child k.procs.proc_list self) || is_killed_at k.procs.proc_list self
        then returned (negsuc 0) k
        else asleep (record k { procs = sleep_begin k.procs self self }))
  ]
