-- ===== src/Console/Tests.antt =====
-- Numbers and formats as the console prints them.
use kalorona_kernel.Common.{
  ℕ, ◌+◌, ◌-◌, ◌^◌, ◌≤◌, ◌≡◌, ◌≢◌, refl, arith, write, none, some, List, [], ◌∷◌, true, false,
}
use kalorona_kernel.Common.Int.{pos}
use kalorona_kernel.Memory.{Memory}
use kalorona_kernel.Text.{strtoul}
use kalorona_kernel.Console.{
  Console, acquired, released, sbi_char, print_uint, print_int, printf, print_buffer,
}
use kalorona_kernel.Console.Digits.{horner, size, AllDigits, Leading, print_uint_lem}
use kalorona_kernel.Console.Readback.{Holds, strtoul-print_uint}

prints_hexadecimal : print_uint 0x2af 16 ≡ some (50 ∷ 97 ∷ 102 ∷ [])
unfolding print_uint
prints_hexadecimal = refl

prints_negative : print_int (2 ^ 64 - 12) 10 ≡ some (45 ∷ 49 ∷ 50 ∷ [])
unfolding print_int
prints_negative = refl

-- "%u!" at 1, and "2af" at 8
abbrev memory : Memory
memory = write (write (write (write (write (write (λ _. 0) 1 37) 2 117) 3 33) 8 50) 9 97) 10 102

early : Console
early = record { locking_enabled = true; has_stdout_dev = false }

prints_format :
    printf early 8 memory 1 (70 ∷ [])
    ≡ some (pos 0, acquired ∷ sbi_char 55 ∷ sbi_char 48 ∷ sbi_char 33 ∷ released ∷ [])
unfolding printf early write
prints_format = refl

lacks_argument : printf early 8 memory 1 [] ≡ none
unfolding printf early write
lacks_argument = refl

dumps :
    print_buffer early memory 2 2
    ≡ some (
        acquired
        ∷ sbi_char 55
        ∷ sbi_char 53
        ∷ sbi_char 32
        ∷ sbi_char 50
        ∷ sbi_char 49
        ∷ sbi_char 32
        ∷ sbi_char 10
        ∷ released
        ∷ [])
unfolding print_buffer early write
dumps = refl

abbrev number : ℕ
number = 0x2af

print_uint_lem_example :
    (cs : List ℕ) × (print_uint number 16 ≡ some cs)
    × (horner 16 0 cs ≡ number)
    × AllDigits 16 cs
    × (size cs ≤ 64)
    × (number ≢ 0 → Leading cs)
    × (number ≡ 0 → cs ≡ 48 ∷ [])
print_uint_lem_example = print_uint_lem 16 (omega arith) (omega arith) number (omega arith)

held : Holds memory 8 (50 ∷ 97 ∷ 102 ∷ [])
unfolding write
held = (refl, (refl, (refl, refl)))

strtoul-print_uint_example : strtoul 9 memory 8 16 ≡ some (0x2af, 8 + 3)
strtoul-print_uint_example =
    strtoul-print_uint 0x2af 16 (50 ∷ 97 ∷ 102 ∷ []) 9 memory 8 (omega arith) (omega arith)
      (omega arith) prints_hexadecimal held (omega arith)
