-- ===== src/Sort/Tests.antt =====
-- Runs of the sorting routines at `<` on numbers, and at `<` on signed bytes.
use kalorona_kernel.Common.{
  ℕ, ◌+◌, ◌≤◌, ◌%◌, ◌≡◌, refl, Bool, arith, ltb, Option, none, some, List, [], ◌∷◌, write,
}
use kalorona_kernel.Sort.{qsort}
use kalorona_kernel.Sort.Shuffle.{count}
use kalorona_kernel.Sort.Order.{IsOrder, IsSorted, qsort_lem}

abbrev arr : ℕ → ℕ
arr = write (write (write (write (λ _. 9) 0 200) 1 7) 2 255) 3 7

abbrev first_four : Option (ℕ → ℕ) → List ℕ
first_four none = []
first_four (some a) = a 0 ∷ a 1 ∷ a 2 ∷ a 3 ∷ []

sorts : first_four (qsort ltb arr 4) ≡ 7 ∷ 7 ∷ 200 ∷ 255 ∷ []
unfolding qsort write
sorts = refl

-- `int8` values, as bytes
abbrev less_int8 : ℕ → ℕ → Bool
less_int8 a b = ltb ((a + 128) % 256) ((b + 128) % 256)

sorts_signed : first_four (qsort less_int8 arr 4) ≡ 200 ∷ 255 ∷ 7 ∷ 7 ∷ []
unfolding qsort write
sorts_signed = refl

sorts_nothing : first_four (qsort ltb arr 0) ≡ first_four (some arr)
unfolding qsort write
sorts_nothing = refl

less_int8-IsOrder : IsOrder less_int8
less_int8-IsOrder = record { irrefl = λ a. ground arith; trans = λ a b c p q. ground arith }

qsort_lem_example :
    (arr' : ℕ → ℕ) × (qsort less_int8 arr 4 ≡ some arr')
    × IsSorted less_int8 arr' 0 4
    × ((i : ℕ) → 4 ≤ i → arr' i ≡ arr i)
    × ((p : ℕ → Bool) → count p arr' 4 ≡ count p arr 4)
qsort_lem_example = qsort_lem less_int8 less_int8-IsOrder arr 4
