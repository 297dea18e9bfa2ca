-- ===== src/Sleeplock/Quiet.antt =====
-- The sleepers on a lock.
use kalorona_kernel.Common.{ℕ, ◌≡◌, arith, false, Bool-cases, inl, inr}
use kalorona_kernel.Process.{Manager}
use kalorona_kernel.Process.Wakeup.{NoSleeper, proc_wakeup-NoSleeper}
use kalorona_kernel.Sleeplock.{Sleeplock, sleeplock_acquire, sleeplock_release}

abbrev pub IsQuiet : Sleeplock → Manager → Type 0
IsQuiet lk m = lk.locked ≡ false → NoSleeper lk.address m.proc_list

-- A process that finds the lock taken goes to sleep on it, and one that finds it free has it.
pub sleeplock_acquire-IsQuiet :
    (lk : Sleeplock) (m : Manager) (self pid : ℕ)
    → IsQuiet lk m
    → IsQuiet (sleeplock_acquire lk m self pid).1 (sleeplock_acquire lk m self pid).2
unfolding sleeplock_acquire
sleeplock_acquire-IsQuiet lk m self pid quiet = elim (Bool-cases lk.locked) [
  | inl taken ↦ rw taken (λ free. absurd (ground (arith, taken, free)))
  | inr free ↦ rw free (λ f. absurd (ground (arith, f)))
]

-- Whoever slept on the lock is runnable when it is given back.
pub sleeplock_release-IsQuiet :
    (lk : Sleeplock) (m : Manager) → IsQuiet (sleeplock_release lk m).0 (sleeplock_release lk m).1
unfolding sleeplock_release
sleeplock_release-IsQuiet lk m free = proc_wakeup-NoSleeper m lk.address
