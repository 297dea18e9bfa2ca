-- ===== src/Common/Bits/Step.antt =====
-- One equation for the lowest digit of `&`, of `|` and of `^`, from the recursion on binary digits that the
-- native operations stand for.
use Prim.Native.Nat.{
  ℕ, zero, suc, ◌+◌, ◌*◌, ◌/◌, ◌%◌, ◌≤◌, bit_and, bit_or, bit_and-bitwise, bit_or-bitwise, min, max,
  digits, bit_xor, bit_xor-bitwise, differ,
}
use mathlib.Core.Path.{◌≡◌, refl, ap}
use native.Mathlib.Omega.{arith}

-- Any two depths that reach the last digit of `x` give one result.
module _ (high : ℕ → ℕ) (digit : ℕ → ℕ → ℕ) where
  same_digits : (x y d e : ℕ) → x ≤ d → x ≤ e → digits high digit d x y ≡ digits high digit e x y
  same_digits zero y zero zero hd he = refl
  same_digits zero y zero (suc e) hd he = refl
  same_digits zero y (suc d) zero hd he = refl
  same_digits zero y (suc d) (suc e) hd he = refl
  same_digits (suc x) y zero e hd he = absurd (omega arith)
  same_digits (suc x) y (suc d) zero hd he = absurd (omega arith)
  same_digits (suc x) y (suc d) (suc e) hd he =
      ap (λ (t : ℕ). t * 2 + digit (suc x % 2) (y % 2))
        (same_digits (suc x / 2) (y / 2) d e (omega arith) (omega arith))

-- So the depth `x / 2` that the digits of `x / 2` take by themselves may be raised to `x - 1`.
and_depth :
    (x y : ℕ)
    → digits (λ _. zero) min x (suc x / 2) (y / 2)
      ≡ digits (λ _. zero) min (suc x / 2) (suc x / 2) (y / 2)
and_depth x y =
    same_digits (λ _. zero) min (suc x / 2) (y / 2) x (suc x / 2) (omega arith) (omega arith)

or_depth :
    (x y : ℕ)
    → digits (λ b. b) max x (suc x / 2) (y / 2)
      ≡ digits (λ b. b) max (suc x / 2) (suc x / 2) (y / 2)
or_depth x y =
    same_digits (λ b. b) max (suc x / 2) (y / 2) x (suc x / 2) (omega arith) (omega arith)

xor_depth :
    (x y : ℕ)
    → digits (λ b. b) differ x (suc x / 2) (y / 2)
      ≡ digits (λ b. b) differ (suc x / 2) (suc x / 2) (y / 2)
xor_depth x y =
    same_digits (λ b. b) differ (suc x / 2) (y / 2) x (suc x / 2) (omega arith) (omega arith)

pub bit_and_step : (x y : ℕ) → bit_and x y ≡ bit_and (x / 2) (y / 2) * 2 + min (x % 2) (y % 2)
bit_and_step zero y = rw (bit_and-bitwise, bit_and-bitwise) (omega arith)
bit_and_step (suc x) y =
    let whole = bit_and-bitwise (suc x) y in
    let halves = bit_and-bitwise (suc x / 2) (y / 2) in omega (arith, and_depth x y, halves, whole)

pub bit_or_step : (x y : ℕ) → bit_or x y ≡ bit_or (x / 2) (y / 2) * 2 + max (x % 2) (y % 2)
bit_or_step zero y = rw (bit_or-bitwise, bit_or-bitwise) (omega arith)
bit_or_step (suc x) y =
    let whole = bit_or-bitwise (suc x) y in
    let halves = bit_or-bitwise (suc x / 2) (y / 2) in omega (arith, or_depth x y, halves, whole)

pub bit_xor_step : (x y : ℕ) → bit_xor x y ≡ bit_xor (x / 2) (y / 2) * 2 + differ (x % 2) (y % 2)
bit_xor_step zero y = rw (bit_xor-bitwise, bit_xor-bitwise) (omega arith)
bit_xor_step (suc x) y =
    let whole = bit_xor-bitwise (suc x) y in
    let halves = bit_xor-bitwise (suc x / 2) (y / 2) in omega (arith, xor_depth x y, halves, whole)
