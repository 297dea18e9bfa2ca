-- ===== src/Console/Digits.antt =====
-- The digits that `print_uint` makes, as a number.
use kalorona_kernel.Common.{
  ℕ, zero, suc, ◌+◌, ◌*◌, ◌/◌, ◌%◌, ◌^◌, ◌≤◌, ◌<◌, ◌≡◌, ◌≢◌, refl, ◌∙◌, ap, sym, true, false, ◌==◌,
  ltb, some, List, [], ◌∷◌, arith, ℕ_discrete, dec_lt, ◌⊎◌, inl, inr,
}
use native.Mathlib.Nat.{div-add-mod}
use kalorona_kernel.Console.{digit_char, digits_of, print_uint}
use kalorona_kernel.Text.{decode_digit}
use kalorona_kernel.Text.Number.{decode_digit-decimal, decode_digit-letter}

-- The number that the characters write behind the digits of `acc`.
abbrev pub horner : ℕ → ℕ → List ℕ → ℕ
horner base acc [] = acc
horner base acc (c ∷ cs) = horner base (acc * base + decode_digit c) cs

abbrev pub size : List ℕ → ℕ
size [] = 0
size (c ∷ cs) = suc (size cs)

abbrev pub AllDigits : ℕ → List ℕ → Type 0
AllDigits base [] = Unit
AllDigits base (c ∷ cs) = (decode_digit c < base) × AllDigits base cs

pub decode_digit-digit_char : (d : ℕ) → d < 16 → decode_digit (digit_char d) ≡ d
unfolding digit_char
decode_digit-digit_char d h = elim (dec_lt d 10) [
  | yes l ↦ let t : ltb d 10 ≡ true = ground arith in rw t (decode_digit-decimal d l)
  | no n ↦
      let t : ltb d 10 ≡ false = ground arith in
      rw t (decode_digit-letter d (omega arith) (omega arith))
]

-- The first character is a digit other than 0.
abbrev pub Leading : List ℕ → Type 0
Leading [] = ⊥
Leading (c ∷ cs) = c ≢ 48

digit_char-ne : (d : ℕ) → d ≢ 0 → digit_char d ≢ 48
unfolding digit_char
digit_char-ne d nz = ground arith

-- A smaller power of 2 is above the quotient.
quotient_small : (x base p : ℕ) → 2 ≤ base → x < 2 * p → x / base < p
quotient_small x base p hb h = grind (arith, div-add-mod x base)

module _ (base : ℕ) (low : 2 ≤ base) (high : base ≤ 16) where
  remainder_small : (x : ℕ) → x % base < base
  remainder_small x = omega arith

  -- The loop ends at 0.
  spent :
      (left x : ℕ) (buf : List ℕ)
      → AllDigits base buf
      → x ≡ 0
      → (cs : List ℕ) × (digits_of left x base buf ≡ some cs)
        × (horner base 0 cs ≡ horner base x buf)
        × AllDigits base cs
        × (size cs ≤ size buf + left)
        × ((x ≢ 0) ⊎ Leading buf → Leading cs)
  unfolding digits_of
  spent left x buf all e = (
    buf,
    stopped left,
    ap (λ (a : ℕ). horner base a buf) (sym e),
    all,
    omega arith,
    λ c. elim c [ inl ne ↦ absurd (ne e) | inr l ↦ l ],
  )
    where
      stopped : (left : ℕ) → digits_of left x base buf ≡ some buf
      stopped zero = let z : (x == 0) ≡ true = ground arith in rw (digits_of, z) refl
      stopped (suc left) = let z : (x == 0) ≡ true = ground arith in rw (digits_of, z) refl

  -- The places of `buf` suffice for a number below the power of 2, and the number is in front of what `buf` has.
  digits_of_lem :
      (left x : ℕ) (buf : List ℕ)
      → x < 2 ^ left
      → AllDigits base buf
      → (cs : List ℕ) × (digits_of left x base buf ≡ some cs)
        × (horner base 0 cs ≡ horner base x buf)
        × AllDigits base cs
        × (size cs ≤ size buf + left)
        × ((x ≢ 0) ⊎ Leading buf → Leading cs)
  unfolding digits_of
  digits_of_lem zero x buf h all = spent zero x buf all (omega arith)
  digits_of_lem (suc left) x buf h all = elim (ℕ_discrete x 0) [
    | yes e ↦ spent (suc left) x buf all e
    | no ne ↦
        let z : (x == 0) ≡ false = ground arith in
        let d : decode_digit (digit_char (x % base)) ≡ x % base =
          decode_digit-digit_char (x % base) (omega (arith, remainder_small x)) in
        let (cs, run, v, all', len, lead) =
          digits_of_lem left (x / base) (digit_char (x % base) ∷ buf)
            (quotient_small x base (2 ^ left) low (omega arith))
            (omega (arith, remainder_small x, d), all) in
        let whole : x / base * base + decode_digit (digit_char (x % base)) ≡ x =
          grind (arith, d, div-add-mod x base) in
        (
          cs,
          rw z run,
          v ∙ ap (λ (a : ℕ). horner base a buf) whole,
          all',
          omega arith,
          λ c. lead (elim (ℕ_discrete (x / base) 0) [
            | yes f ↦ inr (digit_char-ne (x % base) (λ g. ne (grind (arith, div-add-mod x base))))
            | no nf ↦ inl nf
          ]),
        )
  ]

  print_zero : (x : ℕ) → x ≡ 0 → print_uint x base ≡ some (48 ∷ [])
  unfolding print_uint
  print_zero x e = let z : (x == 0) ≡ true = ground arith in rw z refl

  print_run : (x : ℕ) → x ≢ 0 → print_uint x base ≡ digits_of 64 x base []
  unfolding print_uint
  print_run x ne = let z : (x == 0) ≡ false = ground arith in rw z refl

  -- `print_uint` of a 64-bit number in a base from 2 to 16 never writes past the 64 characters of its
  -- buffer: it prints at most as many digits of the base, which write the number, without leading zeros.
  pub print_uint_lem :
      (x : ℕ)
      → x < 2 ^ 64
      → (cs : List ℕ) × (print_uint x base ≡ some cs)
        × (horner base 0 cs ≡ x)
        × AllDigits base cs
        × (size cs ≤ 64)
        × (x ≢ 0 → Leading cs)
        × (x ≡ 0 → cs ≡ 48 ∷ [])
  print_uint_lem x h = elim (ℕ_discrete x 0) [
    | yes e ↦
        let d = decode_digit-decimal 0 (omega arith) in
        (
          48 ∷ [],
          print_zero x e,
          omega (arith, d),
          (omega (arith, d), tt),
          omega arith,
          (λ n. absurd (n e)),
          λ f. refl,
        )
    | no ne ↦
        let (cs, run, v, all, len, lead) = digits_of_lem 64 x [] h tt in
        (cs, print_run x ne ∙ run, v, all, len, (λ n. lead (inl n)), λ f. absurd (ne f))
  ]
