-- ===== src/Process/Exit/Tests.antt =====
-- A child that ends while its parent waits for it, and a parent that ends before its child.
use kalorona_kernel.Common.{
  false, ◌≡◌, ◌≢◌, refl, ◌⊎◌, some, none, Option, [], ◌∷◌, Outcome, done, panicked,
}
use kalorona_kernel.Common.Int.{pos}
use kalorona_kernel.Spinlock.{acquire, release, spinlock_init}
use kalorona_kernel.Process.{
  Proc, sleeping, running, runnable, change_at, proc_wakeup, find_address,
}
use kalorona_kernel.Process.Found.{Listed}
use kalorona_kernel.Process.Exit.{Guarded, proc_exit}
use kalorona_kernel.Process.Exit.Outcomes.{IsExited, proc_exit_lem}

abbrev waiting : Proc
waiting = record {
  address = 4096;
  pid = 1;
  state = sleeping;
  killed = false;
  exit_state = pos 0;
  sleeping_chan = 4096;
  parent = 0;
}

abbrev child : Proc
child = record {
  address = 8192;
  pid = 2;
  state = running;
  killed = false;
  exit_state = pos 0;
  sleeping_chan = 0;
  parent = 4096;
}

abbrev both : Guarded
both = record {
  procs = record { pid_counter = 2; proc_list = child ∷ waiting ∷ []; root_proc = 0 };
  lock = spinlock_init;
}

lock_free : both.lock.locked ≡ 0
unfolding spinlock_init
lock_free = refl

child_found : find_address both.procs.proc_list 8192 ≡ some child
unfolding find_address
child_found = refl

proc_exit_lem_example :
    ((c : Proc) × Listed c both.procs.proc_list
      × (c.parent ≡ 8192)
      × (proc_exit 0 both 8192 (pos 3) ≡ panicked))
    ⊎ (((c : Proc) → Listed c both.procs.proc_list → c.parent ≢ 8192)
        × (g' : Guarded) × (proc_exit 0 both 8192 (pos 3) ≡ done g')
        × IsExited both 8192 child (pos 3) g')
proc_exit_lem_example = proc_exit_lem 0 both 8192 (pos 3) child lock_free child_found

-- The parent wakes up.
after : Outcome Guarded → Option Proc
unfolding find_address
after (done g) = find_address g.procs.proc_list 4096
after panicked = none

woken : after (proc_exit 0 both 8192 (pos 3)) ≡ some (record waiting { state = runnable })
unfolding after proc_exit acquire release change_at proc_wakeup spinlock_init
woken = refl

orphaned : proc_exit 0 both 4096 (pos 0) ≡ panicked
unfolding proc_exit acquire release spinlock_init
orphaned = refl
