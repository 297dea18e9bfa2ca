-- ===== src/Sort.antt =====
-- kernel/utilities/algorithm/qsort.c: the sorting routines that the macros make for each integer
-- type. They are alike but for the type's `<`, which is the parameter `less`. An array is a function
-- of the index. `high` and `ptr` of the source can be -1: here `end` is high + 1, and `ptr` is the
-- source's value after the `++` that follows.
pub mod Shuffle
pub mod Partition
pub mod Order
mod Tests
use kalorona_kernel.Common.{
  ℕ, zero, suc, ◌+◌, ◌-◌, Bool, true, false, ltb, if◌then◌else◌, Option, none, some, write,
}

module _ {ℓ} {A : Type ℓ} where
  -- the exchange of two elements by way of `tmp`
  pub swap : (ℕ → A) → ℕ → ℕ → ℕ → A
  swap arr i j = write (write arr i (arr j)) j (arr i)

module _ {ℓ} {A : Type ℓ} (less : A → A → Bool) where
  -- The loop over `j`, with the rounds left.
  pub partition : (ℕ → A) → A → ℕ → ℕ → ℕ → (ℕ → A) × ℕ
  unfolding swap
  partition arr pivot ptr j zero = (arr, ptr)
  partition arr pivot ptr j (suc rounds) =
      let kept = partition arr pivot ptr (j + 1) rounds in
      let moved = partition (swap arr ptr j) pivot (ptr + 1) (j + 1) rounds in
      if less (arr j) pivot then moved else kept

  -- `__qsort_typ`: the fuel bounds the depth of the calls.
  pub qsort_range : ℕ → (ℕ → A) → ℕ → ℕ → Option (ℕ → A)
  unfolding partition swap
  qsort_range zero arr low end = none
  qsort_range (suc fuel) arr low end = elim (ltb (low + 1) end) [
    | false ↦ some arr
    | true ↦
        let high = end - 1 in
        let split = partition arr (arr high) low low (high - low) in
        elim (qsort_range fuel (swap split.0 split.1 high) low split.1) [
          | none ↦ none
          | some arr₁ ↦ qsort_range fuel arr₁ (split.1 + 1) end
        ]
  ]

  unfoldable pub qsort : (ℕ → A) → ℕ → Option (ℕ → A)
  unfolding qsort_range
  qsort arr len = qsort_range (len + 1) arr 0 len
