-- ===== src/Hart.antt =====
-- kernel/asm/hart.c: each hart counts how often it has turned its interrupts off. A hart runs this code
-- with its own state alone, so the state is that of the current hart.
pub mod Nesting
mod Tests
use kalorona_kernel.Common.{
  ℕ, zero, suc, ◌+◌, ◌-◌, ◌%◌, ◌^◌, Bool, true, false, ◌&&◌, ◌||◌, ◌==◌, if◌then◌else◌, ltb, leb,
  Outcome, done, panicked, panic_if, ◌>>=◌, ◌>>◌,
}

-- The fields of `struct hart_struct` on interrupts, with the 32 bits of the `int` `trap_pushoff_dep`, which wraps around, and the interrupt bit of the hart's status
-- register, which `read_interrupt` reads.
pub record Hart : Type 0 where
  pub interrupt : Bool
  pub trap_enabled : Bool
  pub trap_pushoff_dep : ℕ

-- `x < 1` of an `int`
pub int_less_one : ℕ → Bool
int_less_one x = ltb x 1 || leb (2 ^ 31) x

pub pushoff_hart : Hart → Hart
pushoff_hart h = record {
  interrupt = false;
  trap_enabled = if h.trap_pushoff_dep == 0 then h.interrupt else h.trap_enabled;
  trap_pushoff_dep = (h.trap_pushoff_dep + 1) % 2 ^ 32;
}

pub popoff_hart : Hart → Outcome Hart
unfolding int_less_one
popoff_hart h =
    let dep = (h.trap_pushoff_dep + (2 ^ 32 - 1)) % 2 ^ 32 in
    panic_if h.interrupt
    >> (panic_if (int_less_one h.trap_pushoff_dep)
        >> done (record h {
          interrupt = if (dep == 0) && h.trap_enabled then true else h.interrupt;
          trap_pushoff_dep = dep;
        }))
