-- ===== src/Text/Tests.antt =====
-- Runs of the string routines.
use kalorona_kernel.Common.{ℕ, zero, suc, ◌+◌, ◌<◌, ◌≡◌, ◌≢◌, refl, arith, write, some, inr}
use kalorona_kernel.Common.Int.{ℤ, pos, negsuc}
use kalorona_kernel.Memory.{Memory, memcpy}
use kalorona_kernel.Text.{strlen, strnlen, strchr, strrchr, strcpy, strcmp, strncmp, strtoul}
use kalorona_kernel.Text.Length.{IsString}
use kalorona_kernel.Text.Copy.{strcpy-memcpy}
use kalorona_kernel.Text.Compare.{Compared, strcmp_lem}

-- "abca" at 1 and "abd" at 10, "0x1f" at 20
abbrev memory : Memory
memory =
    write
      (write
        (write
          (write
            (write
              (write (write (write (write (write (write (λ _. 0) 1 97) 2 98) 3 99) 4 97) 10 97) 11
                98)
              12 100)
            20 48)
          21 120)
        22 49)
      23 102

counts : strlen 9 memory 1 ≡ some 4
unfolding strlen write
counts = refl

bounded : strnlen memory 1 2 ≡ 2
unfolding strnlen write
bounded = refl

finds_first : strchr 9 memory 1 97 ≡ some 1
unfolding strchr write
finds_first = refl

finds_last : strrchr 9 memory 1 97 ≡ some 4
unfolding strrchr write
finds_last = refl

finds_none : strrchr 9 memory 1 120 ≡ some 0
unfolding strrchr write
finds_none = refl

compares : strcmp 9 memory 1 10 ≡ some (negsuc 0)
unfolding strcmp write
compares = refl

compares_start : strncmp memory 1 10 2 ≡ pos 0
unfolding strncmp write
compares_start = refl

-- The prefix decides, not the base that is asked for.
reads : strtoul 9 memory 20 10 ≡ some (31, 24)
unfolding strtoul write
reads = refl

first-IsString : IsString memory 1 4
unfolding write
first-IsString = record { filled = filled; ended = refl }
  where
    filled : (i : ℕ) → i < 4 → memory (1 + i) ≢ 0
    filled zero h e = omega arith
    filled (suc zero) h e = omega arith
    filled (suc (suc zero)) h e = omega arith
    filled (suc (suc (suc zero))) h e = omega arith
    filled (suc (suc (suc (suc i)))) h e = omega arith

second-IsString : IsString memory 10 3
unfolding write
second-IsString = record { filled = filled; ended = refl }
  where
    filled : (i : ℕ) → i < 3 → memory (10 + i) ≢ 0
    filled zero h e = omega arith
    filled (suc zero) h e = omega arith
    filled (suc (suc zero)) h e = omega arith
    filled (suc (suc (suc i))) h e = omega arith

strcpy-memcpy_example : strcpy 9 memory 100 1 ≡ some (memcpy memory 100 1 5)
strcpy-memcpy_example =
    strcpy-memcpy 9 memory 100 1 4 first-IsString (inr (omega arith)) (omega arith)

strcmp_lem_example : (z : ℤ) × (strcmp 9 memory 1 10 ≡ some z) × Compared memory 1 10 4 3 z
strcmp_lem_example = strcmp_lem 9 memory 1 10 4 3 first-IsString second-IsString (omega arith)
