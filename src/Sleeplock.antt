-- ===== src/Sleeplock.antt =====
-- kernel/sleeplock.c: locks whose waiters sleep. The lock's address is the channel on which they sleep. The
-- inner spinlock makes each operation one step up to a call of `proc_sleep`, which gives it back only
-- when the process counts as asleep.
pub mod Quiet
mod Tests
use kalorona_kernel.Common.{ℕ, Bool, true, false, ◌==◌, ◌&&◌, if◌then◌else◌}
use kalorona_kernel.Process.{Manager, sleep_begin, proc_wakeup}

pub record Sleeplock : Type 0 where
  pub address : ℕ
  pub locked : Bool
  pub pid : ℕ

pub sleeplock_init : Sleeplock → Sleeplock
sleeplock_init lk = record lk { locked = false; pid = 0 }

-- One round of the loop for the process at `self`: it has the lock, or it sleeps and tests again.
pub sleeplock_acquire : Sleeplock → Manager → ℕ → ℕ → Bool × Sleeplock × Manager
sleeplock_acquire lk m self pid =
    if lk.locked
    then (false, lk, sleep_begin m self lk.address)
    else (true, record lk { locked = true; pid = pid }, m)

pub sleeplock_release : Sleeplock → Manager → Sleeplock × Manager
sleeplock_release lk m = (record lk { locked = false; pid = 0 }, proc_wakeup m lk.address)

pub is_holding_sleeplock : Sleeplock → ℕ → Bool
is_holding_sleeplock lk pid = lk.locked && (lk.pid == pid)
