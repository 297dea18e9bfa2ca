-- ===== src/Trap/Tests.antt =====
-- Traps of a process whose state is whether it is killed and how many system calls it has made.
use kalorona_kernel.Common.{
  ℕ, ◌+◌, ◌%◌, ◌==◌, if◌then◌else◌, Bool, true, false, ◌≡◌, refl, Outcome, done,
}
use kalorona_kernel.Common.Int.{pos, negsuc}
use kalorona_kernel.Trap.{Call, After, scause_user_ecall, utrap_switch, leave, utrap_handler}

abbrev served : Call → Bool × ℕ → Outcome (Bool × ℕ)
served Call.schedule_timer s = done s
served Call.count_tick s = done s
served Call.ack_timer s = done s
served Call.yield_hart s = done s
served Call.device s = done s
served Call.skip_ecall s = done s
served Call.enable_interrupt s = done s
served Call.extend_stack s = done s
served Call.kill s = done (true, s.1)

-- An even number of calls ends with `sys_exit`.
abbrev called_or_left : Bool × ℕ → Outcome (After (Bool × ℕ))
called_or_left s =
    done (if s.1 % 2 == 0 then After.in_exit s (pos 0) else After.in_user (s.0, s.1 + 1))

abbrev handled : ℕ → ℕ → Bool × ℕ → Outcome (After (Bool × ℕ))
handled cause tval s =
    utrap_handler served called_or_left (λ s. s.0) (λ s. true) (λ s. 0x3FFFFF0000) 0 cause tval s

-- An illegal instruction ends the process, a system call may, and one of a killed process is not made.
ended : handled 2 0 (false, 7) ≡ done (After.in_exit (true, 7) (negsuc 0))
unfolding utrap_handler utrap_switch leave
ended = refl

called : handled scause_user_ecall 0 (false, 7) ≡ done (After.in_user (false, 8))
unfolding utrap_handler utrap_switch leave
called = refl

left : handled scause_user_ecall 0 (false, 6) ≡ done (After.in_exit (false, 6) (pos 0))
unfolding utrap_handler utrap_switch leave
left = refl

refused : handled scause_user_ecall 0 (true, 7) ≡ done (After.in_exit (true, 7) (negsuc 0))
unfolding utrap_handler utrap_switch leave
refused = refl
