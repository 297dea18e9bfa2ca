-- ===== src/Process/Exit.antt =====
-- `proc_exit` of kernel/proc/proc.c, with `proc_manager.lock`, on hart `hart_id`.
pub mod Outcomes
mod Tests
use kalorona_kernel.Common.{
  ℕ, ◌==◌, if◌then◌else◌, Option, none, some, List, [], ◌∷◌, Outcome, done, panicked, ◌>>=◌,
}
use kalorona_kernel.Common.Int.{ℤ}
use kalorona_kernel.Spinlock.{System, acquire, release}
use kalorona_kernel.Process.{Proc, Manager, zombie, change_at, proc_wakeup, find_address}

-- The processes and `proc_manager.lock`
pub record Guarded : Type 0 where
  pub procs : Manager
  pub lock : System

pub lock_procs : Guarded → ℕ → Outcome Guarded
lock_procs g hart_id = acquire g.lock hart_id >>= λ s. done (record g { lock = s })

pub unlock_procs : Guarded → ℕ → Outcome Guarded
unlock_procs g hart_id = release g.lock hart_id >>= λ s. done (record g { lock = s })

-- `proc_wakeup` as it is called, with its lock
pub wakeup_call : ℕ → Guarded → ℕ → Outcome Guarded
unfolding lock_procs unlock_procs
wakeup_call hart_id g chan = lock_procs g hart_id >>= λ g₁.
    unlock_procs (record g₁ { procs = proc_wakeup g₁.procs chan }) hart_id

-- The loop over the processes, of those that are left
pub give_children : ℕ → ℕ → List Proc → Guarded → Outcome Guarded
unfolding wakeup_call
give_children hart_id self [] g = done g
give_children hart_id self (e ∷ es) g =
    let root = g.procs.root_proc in
    let adopted = change_at g.procs e.address (λ c. record c { parent = root }) in
    let given = wakeup_call hart_id (record g { procs = adopted }) root >>= λ g₁.
    give_children hart_id self es g₁ in
    let kept = give_children hart_id self es g in if e.parent == self then given else kept

-- `proc_wakeup(p->parent)` of the process at `self`
pub wake_parent : ℕ → Guarded → ℕ → Outcome Guarded
wake_parent hart_id g self = elim (find_address g.procs.proc_list self) [
  | none ↦ done g
  | some p ↦ wakeup_call hart_id g p.parent
]

-- `proc_exit` up to its `scheduler_switch`, for the running process at `self`
unfoldable pub proc_exit : ℕ → Guarded → ℕ → ℤ → Outcome Guarded
unfolding give_children wake_parent
proc_exit hart_id g self status_code = lock_procs g hart_id >>= λ g₁.
    give_children hart_id self g₁.procs.proc_list g₁ >>= λ g₂.
    let ended =
      change_at g₂.procs self (λ p. record p { state = zombie; exit_state = status_code }) in
    unlock_procs (record g₂ { procs = ended }) hart_id >>= λ g₃. wake_parent hart_id g₃ self
