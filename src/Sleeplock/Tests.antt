-- ===== src/Sleeplock/Tests.antt =====
-- A lock that is taken and given back.
use kalorona_kernel.Common.{◌≡◌, refl, true, false, []}
use kalorona_kernel.Process.{Manager}
use kalorona_kernel.Sleeplock.{Sleeplock, sleeplock_acquire, is_holding_sleeplock}

abbrev free : Sleeplock
free = record { address = 300; locked = false; pid = 0 }

abbrev nobody : Manager
nobody = record { pid_counter = 0; proc_list = []; root_proc = 0 }

holds : is_holding_sleeplock (sleeplock_acquire free nobody 4096 2).1 2 ≡ true
unfolding is_holding_sleeplock sleeplock_acquire
holds = refl

waits : (sleeplock_acquire (record free { locked = true }) nobody 4096 2).0 ≡ false
unfolding sleeplock_acquire
waits = refl
