-- ===== src/Process.antt =====
-- kernel/proc/proc.c: the states of processes. The list of processes is in the order of its chain, the
-- newest first; a process is known by its address, and NULL is 0. `proc_manager.lock` makes each part between
-- acquire and release one step; Exit has the lock itself.
pub mod States
pub mod Wakeup
pub mod Memory
pub mod Found
pub mod Exit
pub mod Wait
mod Tests
use kalorona_kernel.Common.{
  ℕ, zero, suc, ◌+◌, ◌%◌, ◌^◌, Bool, true, false, ◌==◌, ◌&&◌, not, if◌then◌else◌, Option, none,
  some, List, [], ◌∷◌, map, Outcome, done, panicked, panic_if, ◌>>=◌, ◌>>◌,
}
use kalorona_kernel.Common.Int.{ℤ, pos, negsuc}

pub data ProcState : Type 0 where
  sleeping : ProcState
  runnable : ProcState
  running : ProcState
  stopped : ProcState
  zombie : ProcState
  allocated : ProcState

pub record Proc : Type 0 where
  pub address : ℕ
  pub pid : ℕ
  pub state : ProcState
  pub killed : Bool
  pub exit_state : ℤ
  pub sleeping_chan : ℕ
  pub parent : ℕ

pub record Manager : Type 0 where
  pub pid_counter : ℕ
  pub proc_list : List Proc
  pub root_proc : ℕ

pub is_sleeping : ProcState → Bool
is_sleeping sleeping = true
is_sleeping runnable = false
is_sleeping running = false
is_sleeping stopped = false
is_sleeping zombie = false
is_sleeping allocated = false

pub is_runnable : ProcState → Bool
is_runnable sleeping = false
is_runnable runnable = true
is_runnable running = false
is_runnable stopped = false
is_runnable zombie = false
is_runnable allocated = false

-- The loop of `proc_lock_and_find`.
pub find_pid : List Proc → ℕ → Option Proc
find_pid [] pid = none
find_pid (p ∷ ps) pid = let rest = find_pid ps pid in if p.pid == pid then some p else rest

pub proc_lock_and_find : Manager → ℕ → Option Proc
unfolding find_pid
proc_lock_and_find m pid = find_pid m.proc_list pid

-- A change of the process at an address.
pub change : (Proc → Proc) → ℕ → List Proc → List Proc
change f a [] = []
change f a (p ∷ ps) = (if p.address == a then f p else p) ∷ change f a ps

pub change_at : Manager → ℕ → (Proc → Proc) → Manager
unfolding change
change_at m a f = record m { proc_list = change f a m.proc_list }

pub proc_set_state : Manager → ℕ → ProcState → Manager
unfolding proc_lock_and_find change_at
proc_set_state m pid state = elim (proc_lock_and_find m pid) [
  | none ↦ m
  | some p ↦ change_at m p.address (λ q. record q { state = state })
]

pub proc_is_killed : Proc → Bool
proc_is_killed p = p.killed

-- `proc_sleep` up to its `scheduler_switch`, for the running process at `self`.
pub sleep_begin : Manager → ℕ → ℕ → Manager
unfolding change_at
sleep_begin m self chan =
    change_at m self (λ p. record p { sleeping_chan = chan; state = sleeping })

-- What follows the switch back.
pub sleep_end : Manager → ℕ → Manager
unfolding change_at
sleep_end m self = change_at m self (λ p. record p { sleeping_chan = 0 })

pub wake : ℕ → Proc → Proc
unfolding is_sleeping
wake chan p =
    if (p.sleeping_chan == chan) && is_sleeping p.state then record p { state = runnable } else p

pub proc_wakeup : Manager → ℕ → Manager
unfolding wake
proc_wakeup m chan = record m { proc_list = map (wake chan) m.proc_list }

pub find_address : List Proc → ℕ → Option Proc
find_address [] a = none
find_address (p ∷ ps) a = let rest = find_address ps a in if p.address == a then some p else rest

-- A process whose parent is `self`
pub has_child : List Proc → ℕ → Bool
has_child [] self = false
has_child (p ∷ ps) self = let rest = has_child ps self in if p.parent == self then true else rest

pub proc_kill : Manager → ℕ → ℤ × Manager
unfolding proc_lock_and_find change_at is_sleeping
proc_kill m pid = elim (proc_lock_and_find m pid) [
  | none ↦ (negsuc 0, m)
  | some p ↦
      let killed_one : Proc → Proc = λ q. record q {
        killed = true;
        state = if is_sleeping q.state then runnable else q.state;
      } in
      (pos 0, change_at m p.address killed_one)
]

-- `scheduler_yield` up to its `scheduler_switch`.
pub scheduler_yield : Manager → ℕ → Manager
unfolding change_at
scheduler_yield m self = change_at m self (λ p. record p { state = runnable })

-- One visit of the loop of `scheduler`: the process runs if it is runnable.
pub visit : Manager → Proc → Option Manager
unfolding is_runnable change_at
visit m p =
    if is_runnable p.state
    then some (change_at m p.address (λ q. record q { state = running }))
    else none
