-- ===== src/Sort/Order.antt =====
-- The order of the elements, along the recursion on both sides of the pivot.
use kalorona_kernel.Common.{
  ℕ, zero, suc, ◌+◌, ◌-◌, ◌≤◌, ◌<◌, ◌≡◌, refl, ◌∙◌, ap, Bool, true, false, arith, ltb, inl, inr,
  ℕ_discrete, dec_lt, some, Bool-cases,
}
use kalorona_kernel.Sort.{swap, partition, qsort_range, qsort}
use kalorona_kernel.Sort.Shuffle.{Shuffled, Shuffled-refl, Shuffled-trans, Shuffled-wider, count}
use kalorona_kernel.Sort.Partition.{Pivoted, pivoted}

-- What the sorting needs of `<`.
pub record IsOrder {ℓ} {A : Type ℓ} (less : A → A → Bool) : Type ℓ where
  pub irrefl : (a : A) → less a a ≡ false
  pub trans : (a b c : A) → less a b ≡ true → less b c ≡ true → less a c ≡ true

module _ {ℓ} {A : Type ℓ} (less : A → A → Bool) where
  -- No later element of the range is less than an earlier one.
  abbrev pub IsSorted : (ℕ → A) → ℕ → ℕ → Type 0
  IsSorted arr low end = (i j : ℕ) → low ≤ i → i < j → j < end → less (arr j) (arr i) ≡ false

  range_run :
      (fuel : ℕ) (arr b d : ℕ → A) (low p end : ℕ)
      → low + 1 < end
      → partition less arr (arr (end - 1)) low low (end - 1 - low) ≡ (b, p)
      → qsort_range less fuel (swap b p (end - 1)) low p ≡ some d
      → qsort_range less (suc fuel) arr low end ≡ qsort_range less fuel d (p + 1) end
  unfolding qsort_range
  range_run fuel arr b d low p end lt run left =
      let t : ltb (low + 1) end ≡ true = ground arith in
      rw (qsort_range, t, run, left)
        (ap (λ (q : ℕ). qsort_range less fuel d (q + 1) end) (ap (λ r. r.1) run))

  range_stop :
      (fuel : ℕ) (arr : ℕ → A) (low end : ℕ)
      → end ≤ low + 1
      → qsort_range less (suc fuel) arr low end ≡ some arr
  unfolding qsort_range
  range_stop fuel arr low end h =
      let f : ltb (low + 1) end ≡ false = ground arith in rw (qsort_range, f) refl

  module _ (order : IsOrder less) where
    asym : (a b : A) → less a b ≡ true → less b a ≡ false
    asym a b y = elim (Bool-cases (less b a)) [
      | inl z ↦ absurd (ground (arith, order.trans a b a y z, order.irrefl a))
      | inr n ↦ n
    ]

    -- With a pivot between them, what follows is not less than what comes before.
    across : (x y pivot : A) → less x pivot ≡ true → less y pivot ≡ false → less y x ≡ false
    across x y pivot l n = elim (Bool-cases (less y x)) [
      | inl z ↦ absurd (ground (arith, order.trans y x pivot z l))
      | inr n ↦ n
    ]

    join :
        (c d e : ℕ → A) (low p end : ℕ)
        → Pivoted less c low p end
        → Shuffled c low p d
        → IsSorted d low p
        → Shuffled d (p + 1) end e
        → IsSorted e (p + 1) end
        → IsSorted e low end
    join c d e low p end pivot left sorted_left right sorted_right = λ i j li ij je.
        elim (dec_lt j p) [
          | yes jp ↦
              ap (λ (a : A). less a (e i)) (kept j (omega arith))
              ∙ ap (less (d j)) (kept i (omega arith))
              ∙ sorted_left i j li ij jp
          | no njp ↦ elim (dec_lt i p) [
            | yes ip ↦ elim (ℕ_discrete j p) [
              | yes f ↦
                  ap (λ (k : ℕ). less (e k) (e i)) f
                  ∙ ap (λ (a : A). less a (e i)) mid
                  ∙ asym (e i) (c p) (below i li ip)
              | no nf ↦ across (e i) (e j) (c p) (below i li ip) (above j (omega arith) je)
            ]
            | no nip ↦ elim (ℕ_discrete i p) [
              | yes f ↦
                  ap (λ (k : ℕ). less (e j) (e k)) f
                  ∙ ap (less (e j)) mid
                  ∙ above j (omega arith) je
              | no nf ↦ sorted_right i j (omega arith) ij je
            ]
          ]
        ]
      where
        kept : (i : ℕ) → i < p + 1 → e i ≡ d i
        kept i h = right.outside i (inl h)

        mid : e p ≡ c p
        mid = kept p (omega arith) ∙ left.outside p (inr (omega arith))

        below : (i : ℕ) → low ≤ i → i < p → less (e i) (c p) ≡ true
        below i lo hi =
            let (k, lk, hk, f) = left.inside i lo hi in
            ap (λ (a : A). less a (c p)) (kept i (omega arith) ∙ f) ∙ pivot.below k lk hk

        above : (i : ℕ) → p < i → i < end → less (e i) (c p) ≡ false
        above i lo hi =
            let (k, lk, hk, f) = right.inside i (omega arith) hi in
            ap (λ (a : A). less a (c p)) (f ∙ left.outside k (inr (omega arith)))
            ∙ pivot.above k (omega arith) hk

    -- Fuel above the length of the range is enough.
    qsort_range_lem :
        (fuel : ℕ) (arr : ℕ → A) (low end : ℕ)
        → low ≤ end
        → end < low + fuel
        → (arr' : ℕ → A) × (qsort_range less fuel arr low end ≡ some arr')
          × Shuffled arr low end arr'
          × IsSorted arr' low end
    qsort_range_lem zero arr low end le h = absurd (omega arith)
    qsort_range_lem (suc fuel) arr low end le h = elim (dec_lt (low + 1) end) [
      | yes lt ↦
          let (b, p, run, shuffled, pivot) =
            pivoted less arr low (end - 1) end (omega arith) (omega arith) in
          let lp = pivot.low_le in
          let pe = pivot.lt_end in
          let c = swap b p (end - 1) in
          let (d, run_left, left, sorted_left) = qsort_range_lem fuel c low p lp (omega arith) in
          let (e, run_right, right, sorted_right) =
            qsort_range_lem fuel d (p + 1) end (omega arith) (omega arith) in
          (
            e,
            range_run fuel arr b d low p end lt run run_left ∙ run_right,
            Shuffled-trans shuffled (
                Shuffled-trans (Shuffled-wider low end (omega arith) (omega arith) left)
                  (Shuffled-wider low end (omega arith) (omega arith) right)),
            join c d e low p end pivot left sorted_left right sorted_right,
          )
      | no ge ↦ (
        arr,
        range_stop fuel arr low end (omega arith),
        Shuffled-refl arr low end,
        λ i j li ij je. absurd (omega arith),
      )
    ]

    -- The sorting routines end, with the first `len` elements in order and the rest of the array as it
    -- was. Each property of elements holds of as many of the first `len` as before.
    pub qsort_lem :
        (arr : ℕ → A) (len : ℕ)
        → (arr' : ℕ → A) × (qsort less arr len ≡ some arr')
          × IsSorted arr' 0 len
          × ((i : ℕ) → len ≤ i → arr' i ≡ arr i)
          × ((p : A → Bool) → count p arr' len ≡ count p arr len)
    unfolding qsort
    qsort_lem arr len =
        let (arr', run, shuffled, sorted) =
          qsort_range_lem (len + 1) arr 0 len (omega arith) (omega arith) in
        (
          arr',
          run,
          sorted,
          (λ i h. shuffled.outside i (inr h)),
          λ p. shuffled.counts p len (omega arith),
        )
