-- ===== src/Process/Wait/Children.antt =====
-- The dead children in a list of processes, and the list without one.
use kalorona_kernel.Common.{
  ℕ, true, false, ◌==◌, ◌&&◌, if◌then◌else◌, Option, none, some, List, [], ◌∷◌, ◌≡◌, ◌≢◌, refl, ◌∙◌,
  ap, arith, ◌⊎◌, inl, inr, Bool-cases,
}
use kalorona_kernel.Process.{Proc, find_address}
use kalorona_kernel.Process.Found.{Listed}
use kalorona_kernel.Process.Wait.{is_zombie, find_zombie, proc_detach}

-- The process is in the list, a child and a zombie.
pub record IsDeadChild (ps : List Proc) (self : ℕ) (p : Proc) : Type 0 where
  pub listed : Listed p ps
  pub child : p.parent ≡ self
  pub dead : is_zombie p.state ≡ true

pub find_zombie-IsDeadChild :
    (ps : List Proc) (self : ℕ)
    → ((p : Proc) × (find_zombie ps self ≡ some p) × IsDeadChild ps self p)
      ⊎ ((find_zombie ps self ≡ none) × ((p : Proc) → IsDeadChild ps self p → ⊥))
unfolding find_zombie
find_zombie-IsDeadChild [] self = inr (refl, λ p d. d.listed)
find_zombie-IsDeadChild (q ∷ ps) self =
    elim (Bool-cases ((q.parent == self) && is_zombie q.state)) [
      | inl t ↦ inl (
        q,
        rw (find_zombie, t) refl,
        record { listed = inl refl; child = ground arith; dead = ground arith },
      )
      | inr f ↦ elim (find_zombie-IsDeadChild ps self) [
        | inl (p, run, d) ↦ inl (
          p,
          rw (find_zombie, f) run,
          record { listed = inr d.listed; child = d.child; dead = d.dead },
        )
        | inr (run, absent) ↦ inr (
          rw (find_zombie, f) run,
          λ p d. elim d.listed [
            | inl e ↦
                let parent = ap (λ (x : Proc). x.parent) e ∙ d.child in
                let dead = ap (λ (x : Proc). is_zombie x.state) e ∙ d.dead in
                absurd (ground (arith, parent, dead, f))
            | inr l ↦ absent p (record { listed = l; child = d.child; dead = d.dead })
          ],
        )
      ]
    ]

pub proc_detach-gone : (ps : List Proc) (a : ℕ) → find_address (proc_detach ps a) a ≡ none
unfolding proc_detach find_address
proc_detach-gone [] a = refl
proc_detach-gone (p ∷ ps) a = elim (Bool-cases (p.address == a)) [
  | inl t ↦ rw (t) (proc_detach-gone ps a)
  | inr f ↦ rw (f) (rw (find_address, f) (proc_detach-gone ps a))
]

pub proc_detach-other :
    (ps : List Proc) (a b : ℕ) → b ≢ a → find_address (proc_detach ps a) b ≡ find_address ps b
unfolding proc_detach find_address
proc_detach-other [] a b ne = refl
proc_detach-other (p ∷ ps) a b ne = elim (Bool-cases (p.address == a)) [
  | inl t ↦
      let other : (p.address == b) ≡ false = ground arith in
      rw (t, other) (proc_detach-other ps a b ne)
  | inr f ↦
      rw (f) (
        ap (λ (o : Option Proc). if p.address == b then some p else o)
          (proc_detach-other ps a b ne))
]
