-- ===== src/Spinlock.antt =====
-- kernel/spinlock.c: one lock, and harts that acquire and release it over and over. A step is one
-- access to the lock by one hart, so that a list of harts is an interleaving. The fence keeps these
-- accesses in order. The two fields that `is_holding_spinlock` reads are one access here: no other hart makes both
-- hold for the one that reads. What `pushoff_hart` and `popoff_hart` do to a hart is in Hart.
pub mod Exclusion
pub mod Held
mod Tests
use kalorona_kernel.Common.{
  ℕ, ◌+◌, Bool, true, false, not, ◌&&◌, ◌==◌, if◌then◌else◌, List, [], ◌∷◌, Outcome, done, panicked,
  panic_if, ◌>>=◌, ◌>>◌, write,
}

-- Where a hart is: outside both functions; in the loop of `spinlock_acquire`; behind that loop;
-- behind `spinlock_acquire`; in `spinlock_release` with `hart` cleared.
pub data Place : Type 0 where
  outside : Place
  spinning : Place
  taken : Place
  holding : Place
  leaving : Place

-- `locked` and `hart` of `struct spinlock`, where hart `h` is `h + 1` and NULL is 0, and the places.
pub record System : Type 0 where
  pub locked : ℕ
  pub hart : ℕ
  pub place : ℕ → Place

pub is_holding_spinlock : System → ℕ → Bool
is_holding_spinlock s h = (s.hart == h + 1) && not (s.locked == 0)

-- The start of `spinlock_acquire`.
pub enter : System → ℕ → Outcome System
unfolding is_holding_spinlock write
enter s h =
    panic_if (is_holding_spinlock s h) >> done (record s { place = write s.place h spinning })

-- `__sync_lock_test_and_set(&lk->locked, 1)`, which ends the loop if it returns 0
pub test_and_set : System → ℕ → System
unfolding write
test_and_set s h = record s {
  locked = 1;
  place = write s.place h (if s.locked == 0 then taken else spinning);
}

pub set_hart : System → ℕ → System
unfolding write
set_hart s h = record s { hart = h + 1; place = write s.place h holding }

-- The start of `spinlock_release`.
pub clear_hart : System → ℕ → Outcome System
unfolding is_holding_spinlock write
clear_hart s h =
    panic_if (not (is_holding_spinlock s h))
    >> done (record s { hart = 0; place = write s.place h leaving })

-- `__sync_lock_release(&lk->locked)`
pub unlock : System → ℕ → System
unfolding write
unlock s h = record s { locked = 0; place = write s.place h outside }

-- `spinlock_acquire` of one hart, behind the rounds of its loop in which another hart has the lock
unfoldable pub acquire : System → ℕ → Outcome System
unfolding enter test_and_set set_hart
acquire s h = enter s h >>= λ t. done (set_hart (test_and_set t h) h)

unfoldable pub release : System → ℕ → Outcome System
unfolding clear_hart unlock
release s h = clear_hart s h >>= λ t. done (unlock t h)

-- The next access of a hart at a place.
pub step_at : Place → System → ℕ → Outcome System
unfolding enter test_and_set set_hart clear_hart unlock
step_at outside s h = enter s h
step_at spinning s h = done (test_and_set s h)
step_at taken s h = done (set_hart s h)
step_at holding s h = clear_hart s h
step_at leaving s h = done (unlock s h)

-- The harts of the list make a step each, in turn.
pub run : List ℕ → System → Outcome System
unfolding step_at
run [] s = done s
run (h ∷ rest) s = step_at (s.place h) s h >>= λ s'. run rest s'

-- `spinlock_init`, with every hart outside
unfoldable pub spinlock_init : System
spinlock_init = record { locked = 0; hart = 0; place = λ _. outside }
