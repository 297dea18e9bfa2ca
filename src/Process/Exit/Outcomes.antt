-- ===== src/Process/Exit/Outcomes.antt =====
-- What comes of `proc_exit`.
use kalorona_kernel.Common.{
  ℕ, ◌≡◌, ◌≢◌, refl, ◌∙◌, ap, sym, arith, true, false, ◌==◌, ◌&&◌, Bool-cases, ◌⊎◌, inl, inr, some,
  List, [], ◌∷◌, done, panicked,
}
use kalorona_kernel.Common.Int.{ℤ}
use kalorona_kernel.Spinlock.{is_holding_spinlock}
use kalorona_kernel.Spinlock.Held.{acquire-free, acquire-held, release-held}
use kalorona_kernel.Process.{
  Proc, Manager, zombie, change, change_at, is_sleeping, wake, proc_wakeup, find_address, has_child,
}
use kalorona_kernel.Process.Found.{
  Listed, on_some, has_child_here, has_child_there, has_child-Listed, has_child-none,
  find_address-change, find_address-change_other, find_address-map,
}
use kalorona_kernel.Process.Exit.{
  Guarded, lock_procs, unlock_procs, wakeup_call, give_children, wake_parent, proc_exit,
}

-- Each call of `proc_wakeup` acquires the lock that the hart holds.
give_children-panicked :
    (hart_id self : ℕ) (ps : List Proc) (g : Guarded)
    → is_holding_spinlock g.lock hart_id ≡ true
    → has_child ps self ≡ true
    → give_children hart_id self ps g ≡ panicked
unfolding give_children wakeup_call lock_procs has_child
give_children-panicked hart_id self [] g held e = absurd (ground (arith, e))
give_children-panicked hart_id self (p ∷ ps) g held e = elim (Bool-cases (p.parent == self)) [
  | inl t ↦ rw (t, acquire-held g.lock hart_id held) refl
  | inr f ↦
      rw (f) (give_children-panicked hart_id self ps g held (sym (has_child_there p ps self f) ∙ e))
]

give_children-none :
    (hart_id self : ℕ) (ps : List Proc) (g : Guarded)
    → has_child ps self ≡ false
    → give_children hart_id self ps g ≡ done g
unfolding give_children has_child
give_children-none hart_id self [] g e = refl
give_children-none hart_id self (p ∷ ps) g e = elim (Bool-cases (p.parent == self)) [
  | inl t ↦ absurd (ground (arith, sym (has_child_here p ps self t) ∙ e))
  | inr f ↦ rw (f) (give_children-none hart_id self ps g (sym (has_child_there p ps self f) ∙ e))
]

wakeup_call-free :
    (hart_id : ℕ) (g : Guarded) (chan : ℕ)
    → g.lock.locked ≡ 0
    → (g' : Guarded) × (wakeup_call hart_id g chan ≡ done g')
      × (g'.procs ≡ proc_wakeup g.procs chan)
      × (g'.lock.locked ≡ 0)
unfolding wakeup_call lock_procs unlock_procs
wakeup_call-free hart_id g chan free =
    let (s, taken, held) = acquire-free g.lock hart_id free in
    let (t, left, opened) = release-held s hart_id held in
    (
      record { procs = proc_wakeup g.procs chan; lock = t },
      rw (taken) (rw (left) refl),
      refl,
      opened,
    )

abbrev pub ended : ℤ → Proc → Proc
ended status_code p = record p { state = zombie; exit_state = status_code }

-- The process has ended, those that sleep on its parent are runnable, and the lock is free.
pub record IsExited (g : Guarded) (self : ℕ) (q : Proc) (status_code : ℤ) (g' : Guarded)
    : Type 0 where
  pub own : find_address g'.procs.proc_list self ≡ some (ended status_code q)
  pub others :
      (a : ℕ)
      → a ≢ self
      → find_address g'.procs.proc_list a
        ≡ on_some (wake q.parent) (find_address g.procs.proc_list a)
  pub lock_free : g'.lock.locked ≡ 0

wake-address : (chan : ℕ) (p : Proc) → (wake chan p).address ≡ p.address
unfolding wake
wake-address chan p = elim (Bool-cases ((p.sleeping_chan == chan) && is_sleeping p.state)) [
  | inl t ↦ rw t refl
  | inr f ↦ rw f refl
]

wake-ended :
    (chan : ℕ) (status_code : ℤ) (p : Proc) → wake chan (ended status_code p) ≡ ended status_code p
unfolding wake is_sleeping
wake-ended chan status_code p = elim (Bool-cases (p.sleeping_chan == chan)) [
  | inl t ↦ rw t refl
  | inr f ↦ rw f refl
]

exited :
    (g g' : Guarded) (self : ℕ) (q : Proc) (status_code : ℤ)
    → find_address g.procs.proc_list self ≡ some q
    → g'.procs ≡ proc_wakeup (change_at g.procs self (ended status_code)) q.parent
    → g'.lock.locked ≡ 0
    → IsExited g self q status_code g'
unfolding proc_wakeup change_at
exited g g' self q status_code found same free =
    let f = ended status_code in
    let ps = g.procs.proc_list in
    let seen : (a : ℕ)
        → find_address g'.procs.proc_list a
          ≡ on_some (wake q.parent) (find_address (change f self ps) a) =
      λ a.
        ap (λ (m : Manager). find_address m.proc_list a) same
        ∙ find_address-map (wake q.parent) (wake-address q.parent) (change f self ps) a in
    record {
      own =
          seen self
          ∙ ap (on_some (wake q.parent))
              (find_address-change f (λ p. refl) ps self ∙ ap (on_some f) found)
          ∙ ap some (wake-ended q.parent status_code q);
      others = λ a ne.
          seen a
          ∙ ap (on_some (wake q.parent)) (find_address-change_other f (λ p. refl) ps self a ne);
      lock_free = free;
    }

wake_parent-found :
    (hart_id : ℕ) (g : Guarded) (self : ℕ) (p : Proc)
    → find_address g.procs.proc_list self ≡ some p
    → wake_parent hart_id g self ≡ wakeup_call hart_id g p.parent
unfolding wake_parent
wake_parent-found hart_id g self p found = rw (wake_parent, found) refl

-- `proc_exit` of a process of the list, called with the lock free, has two outcomes. With a child in the list it panics, since
-- the loop calls `proc_wakeup` with the lock held that this acquires. Without one it gives the lock back, the process is
-- a zombie with the status code, and every other one is as before, but runnable if it was asleep on the parent's
-- channel.
pub proc_exit_lem :
    (hart_id : ℕ) (g : Guarded) (self : ℕ) (status_code : ℤ) (q : Proc)
    → g.lock.locked ≡ 0
    → find_address g.procs.proc_list self ≡ some q
    → ((c : Proc) × Listed c g.procs.proc_list
        × (c.parent ≡ self)
        × (proc_exit hart_id g self status_code ≡ panicked))
      ⊎ (((c : Proc) → Listed c g.procs.proc_list → c.parent ≢ self)
          × (g' : Guarded) × (proc_exit hart_id g self status_code ≡ done g')
          × IsExited g self q status_code g')
unfolding proc_exit lock_procs unlock_procs change_at
proc_exit_lem hart_id g self status_code q free found =
    let (s, taken, held) = acquire-free g.lock hart_id free in
    let g₁ = record g { lock = s } in
    elim (Bool-cases (has_child g.procs.proc_list self)) [
      | inl t ↦
          let (c, l, h) = has_child-Listed g.procs.proc_list self t in
          inl (
            c,
            l,
            h,
            rw (taken, give_children-panicked hart_id self g.procs.proc_list g₁ held t) refl,
          )
      | inr f ↦
          let (u, left, opened) = release-held s hart_id held in
          let f₁ = ended status_code in
          let f₁_q = f₁ q in
          let g₃ = record g₁ { procs = change_at g.procs self f₁; lock = u } in
          let now =
            find_address-change f₁ (λ p. refl) g.procs.proc_list self ∙ ap (on_some f₁) found in
          let (g₄, woken, same, free₄) = wakeup_call-free hart_id g₃ q.parent opened in
          inr (
            has_child-none g.procs.proc_list self f,
            g₄,
            rw (taken, give_children-none hart_id self g.procs.proc_list g₁ f, left) refl
                ∙ wake_parent-found hart_id g₃ self f₁_q now
                ∙ woken,
            exited g g₄ self q status_code found same free₄,
          )
    ]
