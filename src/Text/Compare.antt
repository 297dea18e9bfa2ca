-- ===== src/Text/Compare.antt =====
-- `strcmp` and `strncmp`.
use kalorona_kernel.Common.{
  ℕ, zero, suc, ◌+◌, ◌-◌, ◌≤◌, ◌<◌, ◌≡◌, ◌≢◌, refl, ◌∙◌, ap, sym, true, false, arith, ◌==◌, ◌&&◌,
  not, ◌⊎◌, inl, inr, some, ℕ_discrete,
}
use kalorona_kernel.Common.Int.{ℤ, pos, sub_ℕ}
use kalorona_kernel.Memory.{Memory}
use kalorona_kernel.Text.{strcmp}
use kalorona_kernel.Text.Length.{IsString, IsString-rest, first_ne, first_zero}

-- The difference of the first bytes that differ, or 0 for equal strings.
abbrev pub Compared : Memory → ℕ → ℕ → ℕ → ℕ → ℤ → Type 0
Compared m l r nl nr z =
    ((i : ℕ) × (i ≤ nl)
      × (i ≤ nr)
      × (m (l + i) ≢ m (r + i))
      × (z ≡ sub_ℕ (m (l + i)) (m (r + i)))
      × ((j : ℕ) → j < i → m (l + j) ≡ m (r + j)))
    ⊎ ((nl ≡ nr) × (z ≡ pos 0) × ((j : ℕ) → j < nl → m (l + j) ≡ m (r + j)))

same_rest :
    (m : Memory) (l r i : ℕ)
    → m l ≡ m r
    → ((j : ℕ) → j < i → m (l + 1 + j) ≡ m (r + 1 + j))
    → (j : ℕ) → j < suc i
    → m (l + j) ≡ m (r + j)
same_rest m l r i e rest j h = elim (ℕ_discrete j 0) [
  | yes f ↦
      let a : l + j ≡ l = omega arith in let b : r ≡ r + j = omega arith in ap m a ∙ e ∙ ap m b
  | no nf ↦
      let a : l + j ≡ l + 1 + (j - 1) = omega arith in
      let b : r + 1 + (j - 1) ≡ r + j = omega arith in ap m a ∙ rest (j - 1) (omega arith) ∙ ap m b
]

later :
    (m : Memory) (l r nl nr : ℕ) (z : ℤ)
    → m l ≡ m r
    → Compared m (l + 1) (r + 1) nl nr z
    → Compared m l r (suc nl) (suc nr) z
later m l r nl nr z e (inl (i, hl, hr, ne, v, before)) =
    let a : l + 1 + i ≡ l + suc i = omega arith in
    let b : r + 1 + i ≡ r + suc i = omega arith in
    inl (
      suc i,
      omega arith,
      omega arith,
      (λ f. ne (ap m a ∙ f ∙ sym (ap m b))),
      rw (sym a, sym b) v,
      same_rest m l r i e before,
    )
later m l r nl nr z e (inr (n, v, all)) = inr (omega arith, v, same_rest m l r nl e all)

-- The first bytes differ, or both strings end.
stop : (m : Memory) (l r nl nr : ℕ) → m l ≢ m r → Compared m l r nl nr (sub_ℕ (m l) (m r))
stop m l r nl nr ne =
    let a : l ≡ l + 0 = omega arith in
    let b : r ≡ r + 0 = omega arith in
    inl (
      0,
      omega arith,
      omega arith,
      (λ f. ne (ap m a ∙ f ∙ sym (ap m b))),
      ap (λ (x : ℕ). sub_ℕ (m x) (m r)) a ∙ ap (λ (x : ℕ). sub_ℕ (m (l + 0)) (m x)) b,
      λ j h. absurd (omega arith),
    )

-- With fuel for the first string, `strcmp` returns the difference of the first bytes that differ, and 0
-- exactly for equal strings.
pub strcmp_lem :
    (fuel : ℕ) (m : Memory) (l r nl nr : ℕ)
    → IsString m l nl
    → IsString m r nr
    → nl < fuel
    → (z : ℤ) × (strcmp fuel m l r ≡ some z) × Compared m l r nl nr z
unfolding strcmp
strcmp_lem zero m l r nl nr tl tr h = absurd (omega arith)
strcmp_lem (suc fuel) m l r zero zero tl tr h =
    let q : ((m l == m r) && not (m l == 0)) ≡ false = ground (arith, first_zero tl) in
    let z : sub_ℕ (m l) (m r) ≡ pos 0 = ground (arith, first_zero tl, first_zero tr) in
    (pos 0, rw (q, z) refl, inr (refl, refl, λ j h. absurd (omega arith)))
strcmp_lem (suc fuel) m l r zero (suc nr) tl tr h =
    let q : ((m l == m r) && not (m l == 0)) ≡ false = ground (arith, first_zero tl) in
    (_, rw q refl, stop m l r zero (suc nr) (λ e. first_ne tr (sym e ∙ first_zero tl)))
strcmp_lem (suc fuel) m l r (suc nl) zero tl tr h =
    let q : ((m l == m r) && not (m l == 0)) ≡ false = ground (arith, first_zero tr) in
    (_, rw q refl, stop m l r (suc nl) zero (λ e. first_ne tl (e ∙ first_zero tr)))
strcmp_lem (suc fuel) m l r (suc nl) (suc nr) tl tr h = elim (ℕ_discrete (m l) (m r)) [
  | no ne ↦
      let q : ((m l == m r) && not (m l == 0)) ≡ false = ground arith in
      (sub_ℕ (m l) (m r), rw q refl, stop m l r (suc nl) (suc nr) ne)
  | yes e ↦
      let q : ((m l == m r) && not (m l == 0)) ≡ true = ground (arith, first_ne tl) in
      let (z, run, c) =
        strcmp_lem fuel m (l + 1) (r + 1) nl nr (IsString-rest tl) (IsString-rest tr)
          (omega arith) in
      (z, rw q run, later m l r nl nr z e c)
]
