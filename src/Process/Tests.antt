-- ===== src/Process/Tests.antt =====
-- A parent and a child that sleeps.
use kalorona_kernel.Common.{ℕ, ◌≡◌, ◌≢◌, refl, arith, false, none, some, [], ◌∷◌, ◌⊎◌}
use kalorona_kernel.Common.Int.{pos, negsuc}
use kalorona_kernel.Process.{
  Proc, Manager, sleeping, runnable, running, proc_lock_and_find, proc_kill, proc_wakeup,
}
use kalorona_kernel.Process.States.{Unique, killed_one, proc_kill_lem}

abbrev null : ℕ
null = 0

abbrev parent : Proc
parent = record {
  address = 4096;
  pid = 1;
  state = running;
  killed = false;
  exit_state = pos 0;
  sleeping_chan = 0;
  parent = 0;
}

abbrev child : Proc
child = record {
  address = 8192;
  pid = 2;
  state = sleeping;
  killed = false;
  exit_state = pos 0;
  sleeping_chan = 77;
  parent = 4096;
}

abbrev both : Manager
both = record { pid_counter = 2; proc_list = child ∷ parent ∷ []; root_proc = 0 }

wakes : proc_lock_and_find (proc_wakeup both 77) 2 ≡ some (record child { state = runnable })
unfolding proc_lock_and_find proc_wakeup
wakes = refl

unique : Unique both.proc_list
unique = (((λ e. omega arith), tt), (tt, tt))

proc_kill_lem_example :
    ((proc_lock_and_find both 2 ≡ none) × (proc_kill both 2 ≡ (negsuc 0, both)))
    ⊎ ((p : Proc) × (m' : Manager) × (proc_lock_and_find both 2 ≡ some p)
        × (proc_kill both 2 ≡ (pos 0, m'))
        × (proc_lock_and_find m' 2 ≡ some (killed_one p))
        × ((other : ℕ) → other ≢ 2 → proc_lock_and_find m' other ≡ proc_lock_and_find both other))
proc_kill_lem_example = proc_kill_lem both 2 unique
