-- ===== src/Sort/Partition.antt =====
-- The partition of a range around its pivot.
use kalorona_kernel.Common.{
  ℕ, zero, suc, ◌+◌, ◌-◌, ◌≤◌, ◌<◌, ◌≡◌, refl, ◌∙◌, ap, Bool, true, false, arith, inl, inr,
  ℕ_discrete, Bool-cases,
}
use kalorona_kernel.Sort.{swap, partition}
use kalorona_kernel.Sort.Shuffle.{
  Shuffled, Shuffled-refl, Shuffled-trans, Shuffled-wider, swap-Shuffled, swap_left, swap_right,
  swap_other,
}

module _ {ℓ} {A : Type ℓ} (less : A → A → Bool) where
  -- The elements of the range that come before `ptr` are those less than the pivot.
  record Parted (arr : ℕ → A) (pivot : A) (low ptr high : ℕ) : Type 0 where
    below : (i : ℕ) → low ≤ i → i < ptr → less (arr i) pivot ≡ true
    above : (i : ℕ) → ptr ≤ i → i < high → less (arr i) pivot ≡ false

  record IsSplit (arr : ℕ → A) (pivot : A) (low high : ℕ) (r : (ℕ → A) × ℕ) : Type ℓ where
    shuffled : Shuffled arr low high r.0
    low_le : low ≤ r.1
    le_high : r.1 ≤ high
    parted : Parted r.0 pivot low r.1 high

  Parted-moved :
      (arr : ℕ → A) (pivot : A) (low ptr j : ℕ)
      → low ≤ ptr
      → ptr ≤ j
      → less (arr j) pivot ≡ true
      → Parted arr pivot low ptr j
      → Parted (swap arr ptr j) pivot low (ptr + 1) (j + 1)
  Parted-moved arr pivot low ptr j lp pj y parted = record {
    below = λ i lo hi. elim (ℕ_discrete i ptr) [
      | yes e ↦ ap (λ (a : A). less a pivot) (ap (swap arr ptr j) e ∙ swap_left arr ptr j) ∙ y
      | no ne ↦
          ap (λ (a : A). less a pivot) (swap_other arr ptr j i ne (λ e. absurd (omega arith)))
          ∙ parted.below i lo (omega arith)
    ];
    above = λ i lo hi. elim (ℕ_discrete i j) [
      | yes e ↦
          ap (λ (a : A). less a pivot) (ap (swap arr ptr j) e ∙ swap_right arr ptr j)
          ∙ parted.above ptr (omega arith) (omega arith)
      | no ne ↦
          ap (λ (a : A). less a pivot) (swap_other arr ptr j i (λ e. absurd (omega arith)) ne)
          ∙ parted.above i (omega arith) (omega arith)
    ];
  }

  Parted-kept :
      (arr : ℕ → A) (pivot : A) (low ptr j : ℕ)
      → less (arr j) pivot ≡ false
      → Parted arr pivot low ptr j
      → Parted arr pivot low ptr (j + 1)
  Parted-kept arr pivot low ptr j n parted = record {
    below = parted.below;
    above = λ i lo hi. elim (ℕ_discrete i j) [
      | yes e ↦ ap (λ (k : ℕ). less (arr k) pivot) e ∙ n
      | no ne ↦ parted.above i lo (omega arith)
    ];
  }

  partition_lem :
      (rounds : ℕ) (arr : ℕ → A) (pivot : A) (low ptr j high : ℕ)
      → j + rounds ≡ high
      → low ≤ ptr
      → ptr ≤ j
      → Parted arr pivot low ptr j
      → IsSplit arr pivot low high (partition less arr pivot ptr j rounds)
  unfolding partition
  partition_lem zero arr pivot low ptr j high e lp pj parted = record {
    shuffled = Shuffled-refl arr low high;
    low_le = lp;
    le_high = omega arith;
    parted = record { below = parted.below; above = λ i lo hi. parted.above i lo (omega arith) };
  }
  partition_lem (suc rounds) arr pivot low ptr j high e lp pj parted =
      elim (Bool-cases (less (arr j) pivot)) [
        | inl y ↦
            let rest =
              partition_lem rounds (swap arr ptr j) pivot low (ptr + 1) (j + 1) high (omega arith)
                (omega arith) (omega arith) (Parted-moved arr pivot low ptr j lp pj y parted) in
            rw y (record {
              shuffled =
                  Shuffled-trans
                    (swap-Shuffled arr low high ptr j lp (omega arith) (omega arith) (omega arith))
                    rest.shuffled;
              low_le = rest.low_le;
              le_high = rest.le_high;
              parted = rest.parted;
            })
        | inr n ↦ rw n (
            partition_lem rounds arr pivot low ptr (j + 1) high (omega arith) lp (omega arith)
              (Parted-kept arr pivot low ptr j n parted))
      ]

  -- The pivot between both sides.
  pub record Pivoted (arr : ℕ → A) (low p end : ℕ) : Type 0 where
    pub low_le : low ≤ p
    pub lt_end : p < end
    pub below : (i : ℕ) → low ≤ i → i < p → less (arr i) (arr p) ≡ true
    pub above : (i : ℕ) → p < i → i < end → less (arr i) (arr p) ≡ false

  pub pivoted :
      (arr : ℕ → A) (low high end : ℕ)
      → high + 1 ≡ end
      → low < high
      → (b : ℕ → A) × (p : ℕ) × (partition less arr (arr high) low low (high - low) ≡ (b, p))
        × Shuffled arr low end (swap b p high)
        × Pivoted (swap b p high) low p end
  pivoted arr low high end he lt =
      let r = partition less arr (arr high) low low (high - low) in
      let s =
        partition_lem (high - low) arr (arr high) low low low high (omega arith) (omega arith)
          (omega arith)
          (record {
            below = λ i lo hi. absurd (omega arith);
            above = λ i lo hi. absurd (omega arith);
          }) in
      let b = r.0 in
      let p = r.1 in
      let last : b high ≡ arr high = s.shuffled.outside high (inr (omega arith)) in
      let mid : swap b p high p ≡ arr high = swap_left b p high ∙ last in
      let le = s.le_high in
      (
        b,
        p,
        refl,
        Shuffled-trans (Shuffled-wider low end (omega arith) (omega arith) s.shuffled)
            (swap-Shuffled b low end p high s.low_le (omega arith) (omega arith) (omega arith)),
        record {
          low_le = s.low_le;
          lt_end = omega arith;
          below = λ i lo hi.
              ap (λ (a : A). less a (swap b p high p))
                (swap_other b p high i (λ e. omega arith) (λ e. omega arith))
              ∙ ap (less (b i)) mid
              ∙ s.parted.below i lo hi;
          above = λ i lo hi. elim (ℕ_discrete i high) [
            | yes e ↦
                ap (λ (a : A). less a (swap b p high p))
                  (ap (swap b p high) e ∙ swap_right b p high)
                ∙ ap (less (b p)) mid
                ∙ s.parted.above p (omega arith) (omega arith)
            | no ne ↦
                ap (λ (a : A). less a (swap b p high p))
                  (swap_other b p high i (λ e. omega arith) ne)
                ∙ ap (less (b i)) mid
                ∙ s.parted.above i (omega arith) (omega arith)
          ];
        },
      )
