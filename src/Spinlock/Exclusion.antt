-- ===== src/Spinlock/Exclusion.antt =====
-- At most one hart is between the end of the loop of `spinlock_acquire` and the release.
use kalorona_kernel.Common.{
  ℕ, ◌+◌, ◌≡◌, ◌≢◌, refl, ◌∙◌, sym, ap, Bool, true, false, ◌==◌, if◌then◌else◌, List, [], ◌∷◌, done,
  write, write_self, write_ne, arith, ℕ_discrete,
}
use kalorona_kernel.Spinlock.{
  Place, outside, spinning, taken, holding, leaving, System, is_holding_spinlock, enter,
  test_and_set, set_hart, clear_hart, unlock, step_at, run, spinlock_init,
}

abbrev pub is_inside : Place → Bool
is_inside outside = false
is_inside spinning = false
is_inside taken = true
is_inside holding = true
is_inside leaving = true

abbrev pub is_holding : Place → Bool
is_holding outside = false
is_holding spinning = false
is_holding taken = false
is_holding holding = true
is_holding leaving = false

-- No hart is inside, or hart `o` alone, and `hart` names it exactly while it holds the lock.
pub data IsExclusive (s : System) : Type 0 where
  nobody : s.locked ≡ 0 → s.hart ≡ 0 → ((h : ℕ) → is_inside (s.place h) ≡ false) → IsExclusive s
  somebody :
      (o : ℕ)
      → s.locked ≡ 1
      → is_inside (s.place o) ≡ true
      → ((h : ℕ) → h ≢ o → is_inside (s.place h) ≡ false)
      → s.hart ≡ (if is_holding (s.place o) then o + 1 else 0)
      → IsExclusive s

-- A hart's new place leaves the others where they are.
moved :
    (p : ℕ → Place) (h : ℕ) (c : Place) (q : ℕ)
    → is_inside (write p h c q) ≡ (if q == h then is_inside c else is_inside (p q))
unfolding write
moved p h c q = ground arith

holding_inside : (c : Place) → is_inside c ≡ false → is_holding c ≡ false
holding_inside outside e = refl
holding_inside spinning e = refl
holding_inside taken e = refl
holding_inside holding e = e
holding_inside leaving e = refl

-- `is_holding_spinlock` tells a hart if it holds the lock itself.
pub is_holding_spinlock_lem :
    (s : System) (h : ℕ) → IsExclusive s → is_holding_spinlock s h ≡ is_holding (s.place h)
unfolding is_holding_spinlock
is_holding_spinlock_lem s h (nobody l e all) = ground (arith, holding_inside (s.place h) (all h))
is_holding_spinlock_lem s h (somebody o l i all e) = elim (ℕ_discrete h o) [
  | yes x ↦ ground (arith, ap (λ q. is_holding (s.place q)) x)
  | no ne ↦ ground (arith, holding_inside (s.place h) (all h ne))
]

-- A hart moves outside the section.
still :
    (s : System) (h : ℕ) (c : Place) (l : ℕ)
    → is_inside (s.place h) ≡ false
    → is_inside c ≡ false
    → l ≡ s.locked
    → IsExclusive s
    → IsExclusive (record s { locked = l; place = write s.place h c })
still s h c l out out' same (nobody z e all) =
    nobody (same ∙ z) e (λ q. moved s.place h c q ∙ ground (arith, all q))
still s h c l out out' same (somebody o z i all e) = elim (ℕ_discrete o h) [
  | yes x ↦ absurd (ground (arith, ap (λ q. is_inside (s.place q)) x))
  | no ne ↦
      somebody o (same ∙ z) (rw (write_ne s.place h o c ne) i)
        (λ q nq. moved s.place h c q ∙ ground (arith, all q nq)) (rw (write_ne s.place h o c ne) e)
]

-- The hart that is inside moves and stays inside.
inside_still :
    (s : System) (h : ℕ) (c : Place) (owner : ℕ)
    → s.locked ≡ 1
    → ((q : ℕ) → q ≢ h → is_inside (s.place q) ≡ false)
    → is_inside c ≡ true
    → owner ≡ (if is_holding c then h + 1 else 0)
    → IsExclusive (record s { hart = owner; place = write s.place h c })
inside_still s h c owner l all i e =
    somebody h l (rw (write_self s.place h c) i)
      (λ q nq. moved s.place h c q ∙ ground (arith, all q nq)) (rw (write_self s.place h c) e)

-- What is known of the hart that is inside.
inside_owner :
    (s : System) (h : ℕ)
    → IsExclusive s
    → is_inside (s.place h) ≡ true
    → (s.locked ≡ 1)
      × ((q : ℕ) → q ≢ h → is_inside (s.place q) ≡ false)
      × (s.hart ≡ (if is_holding (s.place h) then h + 1 else 0))
inside_owner s h (nobody l e all) i = absurd (ground (arith, all h))
inside_owner s h (somebody o l io all e) i = elim (ℕ_discrete o h) [
  | yes x ↦ (
    l,
    λ q nq. all q (λ y. nq (y ∙ x)),
    e ∙ ap (λ (q : ℕ). if is_holding (s.place q) then q + 1 else 0) x,
  )
  | no ne ↦ absurd (ground (arith, all h (λ y. ne (sym y))))
]

-- A step of any hart is no panic and keeps the lock exclusive.
step_at-IsExclusive :
    (c : Place) (s : System) (h : ℕ)
    → s.place h ≡ c
    → IsExclusive s
    → (s' : System) × (step_at c s h ≡ done s') × IsExclusive s'
unfolding step_at enter test_and_set set_hart clear_hart unlock
step_at-IsExclusive outside s h at x =
    let free : is_holding_spinlock s h ≡ false = is_holding_spinlock_lem s h x ∙ ap is_holding at in
    (_, rw free refl, still s h spinning s.locked (ap is_inside at) refl refl x)
step_at-IsExclusive spinning s h at (nobody l e all) =
    let won : (s.locked == 0) ≡ true = ground arith in
    (
      record s { locked = 1; place = write s.place h taken },
      rw won refl,
      inside_still (record s { locked = 1 }) h taken s.hart refl (λ q nq. all q) refl e,
    )
step_at-IsExclusive spinning s h at (somebody o l i all e) =
    let lost : (s.locked == 0) ≡ false = ground arith in
    (
      record s { locked = 1; place = write s.place h spinning },
      rw lost refl,
      still s h spinning 1 (ap is_inside at) refl (sym l) (somebody o l i all e),
    )
step_at-IsExclusive taken s h at x =
    let (l, all, e) = inside_owner s h x (ap is_inside at) in
    (_, refl, inside_still s h holding (h + 1) l all refl refl)
step_at-IsExclusive holding s h at x =
    let (l, all, e) = inside_owner s h x (ap is_inside at) in
    let own : is_holding_spinlock s h ≡ true = is_holding_spinlock_lem s h x ∙ ap is_holding at in
    (_, rw own refl, inside_still s h leaving 0 l all refl refl)
step_at-IsExclusive leaving s h at x =
    let (l, all, e) = inside_owner s h x (ap is_inside at) in
    (
      unlock s h,
      refl,
      nobody refl (e ∙ ap (λ c. if is_holding c then h + 1 else 0) at)
          (λ q. moved s.place h outside q ∙ ground (arith, all q)),
    )

run_from :
    (hs : List ℕ) (s : System)
    → IsExclusive s
    → (s' : System) × (run hs s ≡ done s') × IsExclusive s'
unfolding run
run_from [] s x = (s, refl, x)
run_from (h ∷ hs) s x =
    let (s₁, one, x₁) = step_at-IsExclusive (s.place h) s h refl x in
    let (s₂, rest, x₂) = run_from hs s₁ x₁ in (s₂, rw one rest, x₂)

-- In every interleaving of the steps of any number of harts, from `spinlock_init` on, no call panics,
-- at most one hart is inside the lock, and `is_holding_spinlock` is true for the hart behind
-- `spinlock_acquire` alone.
pub run_exclusive :
    (hs : List ℕ)
    → (s : System) × (run hs spinlock_init ≡ done s)
      × ((h g : ℕ) → is_inside (s.place h) ≡ true → is_inside (s.place g) ≡ true → h ≡ g)
      × ((h : ℕ) → is_holding_spinlock s h ≡ is_holding (s.place h))
unfolding spinlock_init
run_exclusive hs =
    let (s, r, x) = run_from hs spinlock_init (nobody refl refl (λ h. refl)) in
    (s, r, (λ h g i j. alone s h g x i j), λ h. is_holding_spinlock_lem s h x)
  where
    alone :
        (s : System) (h g : ℕ)
        → IsExclusive s
        → is_inside (s.place h) ≡ true
        → is_inside (s.place g) ≡ true
        → h ≡ g
    alone s h g x i j = elim (ℕ_discrete h g) [
      | yes e ↦ e
      | no ne ↦ absurd (ground (arith, (inside_owner s g x j).1 h ne))
    ]
