-- ===== src/Ram/Counts.antt =====
-- Counts of the elements of an array up to a number.
use kalorona_kernel.Common.{
  ℕ, zero, suc, ◌+◌, ◌≤◌, ◌<◌, ◌≡◌, refl, sym, ◌∙◌, ap, Bool, true, false, arith, ltb, leb, ◌&&◌,
  ◌||◌, ◌==◌, dec_lt, if◌then◌else◌, ℕ_discrete,
}
use kalorona_kernel.Sort.Shuffle.{count}
use kalorona_kernel.Sort.Order.{IsOrder, IsSorted}

-- How many of the first `n` elements are at most `y`.
abbrev pub up_to : ℕ → (ℕ → ℕ) → ℕ → ℕ
up_to y arr n = count (λ v. leb v y) arr n

-- At least `k`, when the first `k` are at most `y`.
pub up_to_ge :
    (y : ℕ) (arr : ℕ → ℕ) (k n : ℕ) → k ≤ n → ((i : ℕ) → i < k → arr i ≤ y) → k ≤ up_to y arr n
up_to_ge y arr k zero h below = omega arith
up_to_ge y arr k (suc n) h below = elim (ℕ_discrete k (suc n)) [
  | yes e ↦ ground (
    arith,
    e,
    below n (omega (arith, e)),
    up_to_ge y arr n n (omega arith) (λ i l. below i (omega (arith, e))),
  )
  | no ne ↦ ground (arith, up_to_ge y arr k n (omega arith) below)
]

-- At most `k`, when the others are greater than `y`.
pub up_to_le :
    (y : ℕ) (arr : ℕ → ℕ) (k n : ℕ) → ((i : ℕ) → k ≤ i → i < n → y < arr i) → up_to y arr n ≤ k
up_to_le y arr k zero above = omega arith
up_to_le y arr k (suc n) above = elim (dec_lt n k) [
  | yes l ↦ ground (arith, all n)
  | no nl ↦ ground (
    arith,
    above n (omega arith) (omega arith),
    up_to_le y arr k n (λ i l h. above i l (omega arith)),
  )
]
  where
    all : (m : ℕ) → up_to y arr m ≤ m
    all zero = omega arith
    all (suc m) = ground (arith, all m)

module _ (b e : ℕ → ℕ) (y : ℕ) where
  -- Some range from `b i` to `e i` holds `y`.
  abbrev pub covered : ℕ → Bool
  covered zero = false
  covered (suc n) = (leb (b n) y && ltb y (e n)) || covered n

  pub covered-next : (n : ℕ) → covered (n + 1) ≡ ((leb (b n) y && ltb y (e n)) || covered n)
  covered-next n = let next : n + 1 ≡ suc n = omega arith in ap covered next

  pub up_to_mono : (n : ℕ) → ((i : ℕ) → i < n → b i ≤ e i) → up_to y e n ≤ up_to y b n
  up_to_mono zero h = omega arith
  up_to_mono (suc n) h = ground (arith, h n, up_to_mono n (λ i l. h i (omega arith)))

  -- As many begins as ends up to `y`: no range holds it.
  pub covered-up_to :
      (n : ℕ)
      → ((i : ℕ) → i < n → b i ≤ e i)
      → (if covered n then ltb (up_to y e n) (up_to y b n) else up_to y b n == up_to y e n) ≡ true
  covered-up_to zero h = ground arith
  covered-up_to (suc n) h = ground (
    arith,
    h n,
    up_to_mono n (λ i l. h i (omega arith)),
    covered-up_to n (λ i l. h i (omega arith)),
  )

-- The order of the numbers is one.
pub ltb-IsOrder : IsOrder ltb
ltb-IsOrder = record { irrefl = λ a. ground arith; trans = λ a b c h l. ground arith }

pub IsSorted-le : (arr : ℕ → ℕ) (n i j : ℕ) → IsSorted ltb arr 0 n → i ≤ j → j < n → arr i ≤ arr j
IsSorted-le arr n i j sorted h l = elim (ℕ_discrete i j) [
  | yes e ↦ ground (arith, e)
  | no ne ↦ ground (arith, sorted i j (omega arith) (omega arith) l)
]

count-none :
    (p : ℕ → Bool) (arr : ℕ → ℕ) (n : ℕ) → ((i : ℕ) → i < n → p (arr i) ≡ false) → count p arr n ≡ 0
count-none p arr zero h = refl
count-none p arr (suc n) h = ground (arith, h n, count-none p arr n (λ i l. h i (omega arith)))

none-count :
    (p : ℕ → Bool) (arr : ℕ → ℕ) (n : ℕ) → count p arr n ≡ 0 → (i : ℕ) → i < n → p (arr i) ≡ false
none-count p arr zero h i l = absurd (omega arith)
none-count p arr (suc n) h i l = elim (ℕ_discrete i n) [
  | yes e ↦ ap (λ (j : ℕ). p (arr j)) e ∙ ground arith
  | no ne ↦ none-count p arr n (ground arith) i (omega arith)
]

-- What no element of an array has, none of as many elements has.
pub kept-none :
    (p : ℕ → Bool) (arr arr' : ℕ → ℕ) (n : ℕ)
    → count p arr' n ≡ count p arr n
    → ((i : ℕ) → i < n → p (arr i) ≡ false)
    → (i : ℕ) → i < n
    → p (arr' i) ≡ false
kept-none p arr arr' n same h = none-count p arr' n (same ∙ count-none p arr n h)

pub covered-cong :
    (b e b' e' : ℕ → ℕ) (y n : ℕ)
    → ((i : ℕ) → i < n → b i ≡ b' i)
    → ((i : ℕ) → i < n → e i ≡ e' i)
    → covered b e y n ≡ covered b' e' y n
covered-cong b e b' e' y zero f g = refl
covered-cong b e b' e' y (suc n) f g = ground (
  arith,
  f n,
  g n,
  covered-cong b e b' e' y n (λ i l. f i (omega arith)) (λ i l. g i (omega arith)),
)

pub covered-none :
    (b e : ℕ → ℕ) (y n : ℕ)
    → covered b e y n ≡ false
    → (i : ℕ) → i < n
    → ltb y (b i) ≡ false
    → ltb y (e i) ≡ false
covered-none b e y zero h i l f = absurd (omega arith)
covered-none b e y (suc n) h i l f = elim (dec_lt i n) [
  | yes k ↦ covered-none b e y n (ground arith) i k f
  | no nk ↦
      let same : i ≡ n = omega arith in
      let g : ltb y (b n) ≡ false = ap (λ (j : ℕ). ltb y (b j)) (sym same) ∙ f in
      ap (λ (j : ℕ). ltb y (e j)) same ∙ ground arith
]

pub none-covered :
    (b e : ℕ → ℕ) (y n : ℕ)
    → ((i : ℕ) → i < n → ltb y (b i) ≡ false → ltb y (e i) ≡ false)
    → covered b e y n ≡ false
none-covered b e y zero h = refl
none-covered b e y (suc n) h =
    ground (arith, h n (omega arith), none-covered b e y n (λ i l. h i (omega arith)))
