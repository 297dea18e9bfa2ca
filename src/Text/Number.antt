-- ===== src/Text/Number.antt =====
-- `strtoul` and the value of digits.
use kalorona_kernel.Common.{
  ℕ, zero, suc, ◌+◌, ◌-◌, ◌*◌, ◌/◌, ◌%◌, ◌^◌, ◌≤◌, ◌<◌, ◌≡◌, ◌≢◌, refl, ◌∙◌, ap, true, false, arith,
  ltb, ◌==◌, ◌&&◌, some, ℕ_discrete,
}
use kalorona_kernel.Memory.{Memory}
use kalorona_kernel.Text.{tolower, parse_integer_fixup_radix, decode_digit, strtoul_from, strtoul}

-- The number that the first `n` bytes write in the base.
abbrev pub value : Memory → ℕ → ℕ → ℕ → ℕ
value m s base zero = 0
value m s base (suc n) = value m s base n * base + decode_digit (m (s + n))

-- `n` digits of the base, and what follows is none.
pub record IsNumber (m : Memory) (s base n : ℕ) : Type 0 where
  pub digits : (i : ℕ) → i < n → decode_digit (m (s + i)) < base
  pub ended : base ≤ decode_digit (m (s + n))

spread : (q r b v : ℕ) → (q * 2 ^ 64 + r) * b + v ≡ q * b * 2 ^ 64 + (r * b + v)
spread q r b v = grind arith

mod_step : (a b v : ℕ) → (a % 2 ^ 64 * b + v) % 2 ^ 64 ≡ (a * b + v) % 2 ^ 64
mod_step a b v =
    let e : a ≡ a / 2 ^ 64 * 2 ^ 64 + a % 2 ^ 64 = omega arith in
    let f : a * b + v ≡ a / 2 ^ 64 * b * 2 ^ 64 + (a % 2 ^ 64 * b + v) =
      ap (λ (x : ℕ). x * b + v) e ∙ spread (a / 2 ^ 64) (a % 2 ^ 64) b v in
    omega (arith, f)

strtoul_from_lem :
    (fuel : ℕ) (m : Memory) (s base n i : ℕ)
    → IsNumber m s base n
    → i ≤ n
    → n < i + fuel
    → strtoul_from fuel m (s + i) base (value m s base i % 2 ^ 64)
      ≡ some (value m s base n % 2 ^ 64, s + n)
unfolding strtoul_from
strtoul_from_lem zero m s base n i t le h = absurd (omega arith)
strtoul_from_lem (suc fuel) m s base n i t le h = elim (ℕ_discrete i n) [
  | yes e ↦
      let q : ltb (decode_digit (m (s + i))) base ≡ false =
        ground (arith, t.ended, ap (λ (k : ℕ). decode_digit (m (s + k))) e) in
      rw q (ap (λ (k : ℕ). some (value m s base k % 2 ^ 64, s + k)) e)
  | no ne ↦
      let q : ltb (decode_digit (m (s + i))) base ≡ true =
        ground (arith, t.digits i (omega arith)) in
      let at : s + i + 1 ≡ s + suc i = omega arith in
      let v = mod_step (value m s base i) base (decode_digit (m (s + i))) in
      rw (q, at, v) (strtoul_from_lem fuel m s base n (suc i) t (omega arith) (omega arith))
]

-- No prefix of a number stands at `s`: no 0, or no `x` behind it.
abbrev pub NoPrefix : Memory → ℕ → Type 0
NoPrefix m s = (m s ≡ 48) → (tolower (m (s + 1)) ≢ 120)

-- With fuel for the digits, `strtoul` in a given base reads `n` digits and returns their value, modulo
-- 2 ^ 64, with the address behind them, where the string does not start like a hexadecimal number.
pub strtoul_lem :
    (fuel : ℕ) (m : Memory) (s base n : ℕ)
    → base ≢ 0
    → NoPrefix m s
    → IsNumber m s base n
    → n < fuel
    → strtoul fuel m s base ≡ some (value m s base n % 2 ^ 64, s + n)
unfolding strtoul parse_integer_fixup_radix
strtoul_lem fuel m s base n nz np t h =
    let hex : ((m s == 48) && (tolower (m (s + 1)) == 120)) ≡ false = elim (ℕ_discrete (m s) 48) [
      | yes e ↦ ground (arith, np e)
      | no ne ↦ ground arith
    ] in
    let octal : ((m s == 48) && (base == 0)) ≡ false = ground arith in
    let decimal : (base == 0) ≡ false = ground arith in
    let at : s ≡ s + 0 = omega arith in
    rw (hex, octal, decimal)
      (ap (λ (a : ℕ). strtoul_from fuel m a base 0) at
        ∙ strtoul_from_lem fuel m s base n 0 t (omega arith) (omega arith))

-- After `0x` the base is 16, whatever base is asked for.
pub strtoul-hexadecimal :
    (fuel : ℕ) (m : Memory) (s base n : ℕ)
    → m s ≡ 48
    → tolower (m (s + 1)) ≡ 120
    → IsNumber m (s + 2) 16 n
    → n < fuel
    → strtoul fuel m s base ≡ some (value m (s + 2) 16 n % 2 ^ 64, s + 2 + n)
unfolding strtoul parse_integer_fixup_radix
strtoul-hexadecimal fuel m s base n zero_first ex t h =
    let hex : ((m s == 48) && (tolower (m (s + 1)) == 120)) ≡ true =
      ground (arith, zero_first, ex) in
    let at : s + 2 ≡ s + 2 + 0 = omega arith in
    rw hex (
      ap (λ (a : ℕ). strtoul_from fuel m a 16 0) at
      ∙ strtoul_from_lem fuel m (s + 2) 16 n 0 t (omega arith) (omega arith))

pub decode_digit-decimal : (d : ℕ) → d < 10 → decode_digit (48 + d) ≡ d
unfolding decode_digit tolower
decode_digit-decimal d h = ground arith

pub decode_digit-letter : (d : ℕ) → 10 ≤ d → d < 36 → decode_digit (87 + d) ≡ d
unfolding decode_digit tolower
decode_digit-letter d lo hi = ground arith

-- A NUL byte is no digit, and no part of a prefix.
pub decode_digit-nul : decode_digit 0 ≡ 2 ^ 32 - 48
unfolding decode_digit tolower
decode_digit-nul = refl

pub tolower-nul : tolower 0 ≢ 120
unfolding tolower
tolower-nul e = omega arith
