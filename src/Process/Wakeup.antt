-- ===== src/Process/Wakeup.antt =====
-- The sleepers on a channel.
use kalorona_kernel.Common.{
  ℕ, ◌≡◌, arith, false, ◌==◌, ◌&&◌, List, [], ◌∷◌, map, Bool-cases, inl, inr,
}
use kalorona_kernel.Process.{Proc, Manager, wake, proc_wakeup, is_sleeping}

-- No process of the list is asleep on the channel.
abbrev pub NoSleeper : ℕ → List Proc → Type 0
NoSleeper chan [] = Unit
NoSleeper chan (p ∷ ps) =
    (((p.sleeping_chan == chan) && is_sleeping p.state) ≡ false) × NoSleeper chan ps

woken :
    (chan : ℕ) (p : Proc)
    → (((wake chan p).sleeping_chan == chan) && is_sleeping (wake chan p).state) ≡ false
unfolding wake is_sleeping
woken chan p = elim (Bool-cases ((p.sleeping_chan == chan) && is_sleeping p.state)) [
  | inl y ↦ rw y (ground arith)
  | inr n ↦ rw n n
]

all_woken : (chan : ℕ) (ps : List Proc) → NoSleeper chan (map (wake chan) ps)
all_woken chan [] = tt
all_woken chan (p ∷ ps) = (woken chan p, all_woken chan ps)

pub proc_wakeup-NoSleeper : (m : Manager) (chan : ℕ) → NoSleeper chan (proc_wakeup m chan).proc_list
unfolding proc_wakeup
proc_wakeup-NoSleeper m chan = all_woken chan m.proc_list
