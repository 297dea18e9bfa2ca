-- ===== src/Trap.antt =====
-- kernel/trap/trap.c: what the handlers of traps do for each cause. The state is any type: its parts are changed by
-- the functions that the handlers call, which are parameters here, with those that read it. `proc_exit` does not come
-- back. What other harts do at the same time, such as `proc_kill`, is part of what the calls do to the state; between the
-- check at the end and the return to user space there is none. Registers that the handlers save and restore are left out.
mod Tests
use kalorona_kernel.Common.{
  ℕ, ◌+◌, ◌^◌, Bool, true, false, not, ◌&&◌, ◌==◌, ltb, if◌then◌else◌, Outcome, done, panicked,
  ◌>>=◌,
}
use kalorona_kernel.Common.Int.{ℤ, negsuc}
use kalorona_kernel.Common.Word.{add64, sub64}
use kalorona_kernel.Process.{Manager, proc_wakeup}
use kalorona_kernel.Process.Memory.{va_user_trapframe_begin}

-- `tick`, and the processes that sleep on its address
pub record Clock : Type 0 where
  pub tick : ℕ
  pub procs : Manager

pub tick_handler : Clock → ℕ → Clock
tick_handler c tick_addr = record { tick = add64 c.tick 1; procs = proc_wakeup c.procs tick_addr }

-- `scause` of a timer and of a device, of a system call and of page faults
abbrev pub scause_sti : ℕ
scause_sti = 2 ^ 63 + 5

abbrev pub scause_sei : ℕ
scause_sei = 2 ^ 63 + 9

abbrev pub scause_user_ecall : ℕ
scause_user_ecall = 8

abbrev pub scause_load_page_fault : ℕ
scause_load_page_fault = 13

abbrev pub scause_store_page_fault : ℕ
scause_store_page_fault = 15

abbrev pub stack_auto_expand_threshold : ℕ
stack_auto_expand_threshold = 64

-- The calls of the handlers. `schedule_timer` is `ktrap_schedule_timer(SCHEDULING_TIME_SPAN)`, `ack_timer` clears the bit in
-- `sip`, `skip_ecall` adds 4 to `user_pc`, and `extend_stack` is `proc_extend_stack(p->pid, 0)`. `syscall_handler` is apart,
-- since it can exit the process.
pub data Call : Type 0 where
  schedule_timer : Call
  count_tick : Call
  ack_timer : Call
  yield_hart : Call
  device : Call
  skip_ecall : Call
  enable_interrupt : Call
  extend_stack : Call
  kill : Call

-- Back in user space, or in `proc_exit` for good.
pub data After {ℓ} (S : Type ℓ) : Type ℓ where
  in_user : S → After S
  in_exit : S → ℤ → After S

module _ {ℓ} {S : Type ℓ} (call : Call → S → Outcome S) (syscall_handler : S → Outcome (After S))
    (killed : S → Bool) (runs : S → Bool) (stack_vaddr : S → ℕ) (hart_id : ℕ) where
  pub count_on_first : S → Outcome S
  count_on_first s = if hart_id == 0 then call count_tick s else done s

  pub ktrap_handler : ℕ → S → Outcome S
  ktrap_handler cause s =
      let timer = call schedule_timer s >>= count_on_first >>= call ack_timer >>= λ t.
      (if runs t then call yield_hart t else done t) in
      if cause == scause_sti then timer else if cause == scause_sei then call device s else panicked

  -- The `switch` of `utrap_handler`, with what it exits from at once
  pub utrap_switch : (cause tval : ℕ) → S → Outcome (After S)
  utrap_switch cause tval s =
      let timer = call schedule_timer s >>= count_on_first >>= call ack_timer >>= call yield_hart in
      let ecall = call skip_ecall s >>= call enable_interrupt >>= syscall_handler in
      let low = sub64 (stack_vaddr s) stack_auto_expand_threshold in
      let near_stack = not (ltb tval low) && ltb tval va_user_trapframe_begin in
      let stay : Outcome S → Outcome (After S) = λ m. m >>= λ t. done (in_user t) in
      if cause == scause_sti
      then stay timer
      else if cause == scause_sei
      then stay (call device s)
      else if cause == scause_user_ecall
      then (if killed s then done (in_exit s (negsuc 0)) else ecall)
      else if (cause == scause_store_page_fault) && near_stack
      then stay (call extend_stack s)
      else if (cause == scause_load_page_fault) && near_stack
      then stay (call extend_stack s)
      else stay (call kill s)

  -- The check behind the `switch`, before `utrap_return`
  pub leave : After S → After S
  leave (in_exit s code) = in_exit s code
  leave (in_user s) = if killed s then in_exit s (negsuc 0) else in_user s

  pub utrap_handler : (cause tval : ℕ) → S → Outcome (After S)
  utrap_handler cause tval s = utrap_switch cause tval s >>= λ a. done (leave a)
