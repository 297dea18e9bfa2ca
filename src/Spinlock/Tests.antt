-- ===== src/Spinlock/Tests.antt =====
-- Two harts at one lock.
use kalorona_kernel.Common.{ℕ, ◌≡◌, refl, true, List, [], ◌∷◌, done, panicked, ◌>>=◌, write}
use kalorona_kernel.Spinlock.{
  System, is_holding_spinlock, enter, clear_hart, run, spinlock_init, spinning, holding,
}
use kalorona_kernel.Spinlock.Exclusion.{is_inside, is_holding, run_exclusive}

-- Hart 0 takes the lock while hart 1 waits; hart 1 has it after the release.
abbrev turns : List ℕ
turns = 0 ∷ 1 ∷ 0 ∷ 1 ∷ 0 ∷ 1 ∷ 0 ∷ 0 ∷ 1 ∷ 1 ∷ []

abbrev one_holds : System
one_holds = record { locked = 1; hart = 1; place = write (λ _. spinning) 0 holding }

second_has_it : (run turns spinlock_init >>= λ s. done (is_holding_spinlock s 1)) ≡ done true
unfolding run spinlock_init is_holding_spinlock write
second_has_it = refl

-- Acquiring twice and releasing what is not held panic.
held_already : enter one_holds 0 ≡ panicked
unfolding enter
held_already = refl

not_held : clear_hart one_holds 1 ≡ panicked
unfolding clear_hart
not_held = refl

run_exclusive_example :
    (s : System) × (run turns spinlock_init ≡ done s)
    × ((h g : ℕ) → is_inside (s.place h) ≡ true → is_inside (s.place g) ≡ true → h ≡ g)
    × ((h : ℕ) → is_holding_spinlock s h ≡ is_holding (s.place h))
run_exclusive_example = run_exclusive turns
