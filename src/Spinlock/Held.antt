-- ===== src/Spinlock/Held.antt =====
-- `spinlock_acquire` and `spinlock_release` of one hart, as whole calls.
use kalorona_kernel.Common.{
  ℕ, ◌+◌, ◌≡◌, refl, true, false, not, ◌&&◌, ◌==◌, arith, done, panicked, write,
}
use kalorona_kernel.Spinlock.{
  System, spinning, leaving, is_holding_spinlock, enter, test_and_set, set_hart, clear_hart, unlock,
  acquire, release,
}

pub acquire-free :
    (s : System) (h : ℕ)
    → s.locked ≡ 0
    → (t : System) × (acquire s h ≡ done t) × (is_holding_spinlock t h ≡ true)
unfolding acquire enter is_holding_spinlock test_and_set set_hart
acquire-free s h free =
    let not_held : (s.hart == h + 1) && not (s.locked == 0) ≡ false = ground arith in
    (
      set_hart (test_and_set (record s { place = write s.place h spinning }) h) h,
      rw (not_held) refl,
      ground arith,
    )

pub acquire-held : (s : System) (h : ℕ) → is_holding_spinlock s h ≡ true → acquire s h ≡ panicked
unfolding acquire enter is_holding_spinlock
acquire-held s h held = rw (held) refl

pub release-held :
    (s : System) (h : ℕ)
    → is_holding_spinlock s h ≡ true
    → (t : System) × (release s h ≡ done t) × (t.locked ≡ 0)
unfolding release clear_hart unlock is_holding_spinlock
release-held s h held =
    (unlock (record s { hart = 0; place = write s.place h leaving }) h, rw (held) refl, refl)
