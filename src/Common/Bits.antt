-- ===== src/Common/Bits.antt =====
-- `&` with masks as arithmetic, at every width.
mod Step
use Step.{bit_and_step, bit_or_step, bit_xor_step}
use Prim.Native.Nat.{
  ℕ, zero, suc, ◌+◌, ◌-◌, ◌*◌, ◌/◌, ◌%◌, ◌^◌, ◌≤◌, ◌<◌, bit_and, bit_or, bit_and-bitwise,
  bit_or-bitwise, bit_xor, bit_xor-bitwise, differ, min, max, digits,
}
use mathlib.Core.Path.{◌≡◌, refl, sym, ap, ◌∙◌, ◌≡⟨◌⟩◌, ◌∎}
use native.Mathlib.Nat.{
  pow-suc, pow-succ', one-le-pow, div-div-eq-div-mul, div-add-mod', mod-lt, mod-eq_of_lt,
  div-lt_iff_lt-mul,
}
use native.Mathlib.Omega.{arith}

pub bit_and-zero : (a : ℕ) → bit_and a 0 ≡ 0
bit_and-zero a = bit_and-bitwise a 0 ∙ no_digits a a
  where
    no_digits : (depth b : ℕ) → digits (λ _. zero) min depth b 0 ≡ 0
    no_digits zero zero = refl
    no_digits zero (suc b) = refl
    no_digits (suc depth) zero = refl
    no_digits (suc depth) (suc b) = omega (arith, no_digits depth (suc b / 2))

-- `x << (k + 1)` is twice `x << k`.
shift-suc : (k x : ℕ) → x * 2 ^ suc k ≡ x * 2 ^ k + x * 2 ^ k
shift-suc k x = rw pow-suc (omega arith)

pub pow-add : (j k : ℕ) → 2 ^ (j + k) ≡ 2 ^ j * 2 ^ k
pow-add zero k = ground arith
pow-add (suc j) k =
    2 ^ (suc j + k)
    ≡⟨ ap (λ (n : ℕ). 2 ^ n) (omega arith) ⟩ 2 ^ suc (j + k)
    ≡⟨ omega (arith, pow-suc 2 (j + k), pow-add j k) ⟩ 2 ^ j * 2 ^ k * 2
    ≡⟨ omega (arith, ap (λ (t : ℕ). t * 2 ^ k) (pow-suc 2 j)) ⟩ 2 ^ suc j * 2 ^ k ∎

low_ones : (k low high : ℕ) → low < 2 ^ k → bit_and (low + high * 2 ^ k) (2 ^ k - 1) ≡ low
low_ones zero low high fits = rw bit_and-zero (omega arith)
low_ones (suc k) low high fits =
    let room : 2 ^ suc k ≡ 2 ^ k + 2 ^ k = omega (arith, pow-suc 2 k) in
    ground (
      arith,
      bit_and_step (low + high * 2 ^ suc k) (2 ^ suc k - 1),
      room,
      shift-suc k high,
      low_ones k (low / 2) high (omega (arith, room)),
      one-le-pow k 2,
    )

-- A mask of `k` low ones is the remainder by `2 ^ k`.
pub bit_and_mask : (k a : ℕ) → bit_and a (2 ^ k - 1) ≡ a % 2 ^ k
bit_and_mask k a =
    ap (λ (t : ℕ). bit_and t (2 ^ k - 1)) {y = a % 2 ^ k + a / 2 ^ k * 2 ^ k}
      (omega (arith, div-add-mod' a (2 ^ k)))
    ∙ low_ones k (a % 2 ^ k) (a / 2 ^ k) (mod-lt a (one-le-pow k 2 (omega arith)))

-- A mask with `k` low zeros acts above them.
pub bit_and_shifted : (k a b : ℕ) → bit_and a (b * 2 ^ k) ≡ bit_and (a / 2 ^ k) b * 2 ^ k
bit_and_shifted zero a b =
    let e : a / 1 ≡ a = omega arith in let f : b * 1 ≡ b = omega arith in rw (e, f) (omega arith)
bit_and_shifted (suc k) a b =
    bit_and a (b * 2 ^ suc k)
    ≡⟨ bit_and_step a (b * 2 ^ suc k) ⟩
      bit_and (a / 2) (b * 2 ^ suc k / 2) * 2 + min (a % 2) (b * 2 ^ suc k % 2)
    ≡⟨ omega (
      arith,
      shift-suc k b,
      ap (λ (t : ℕ). bit_and (a / 2) t) half,
      bit_and_shifted k (a / 2) b,
    ) ⟩
      bit_and (a / 2 / 2 ^ k) b * 2 ^ k * 2
    ≡⟨ omega (
      arith,
      ap (λ (t : ℕ). bit_and t b * 2 ^ k) (div-div-eq-div-mul a 2 (2 ^ k)),
      ap (λ (t : ℕ). bit_and (a / t) b * 2 ^ k) (pow-succ' 2 k),
      shift-suc k (bit_and (a / 2 ^ suc k) b),
    ) ⟩
      bit_and (a / 2 ^ suc k) b * 2 ^ suc k ∎
  where
    half : b * 2 ^ suc k / 2 ≡ b * 2 ^ k
    half = omega (arith, shift-suc k b)

-- A mask of `j` ones above `k` zeros drops the remainder by `2 ^ k` of what fits `j + k` bits.
pub bit_and_high_mask :
    (j k a : ℕ) → a < 2 ^ (j + k) → bit_and a (2 ^ (j + k) - 2 ^ k) ≡ a / 2 ^ k * 2 ^ k
bit_and_high_mask j k a fits =
    bit_and a (2 ^ (j + k) - 2 ^ k)
    ≡⟨ ap (bit_and a) regroup ⟩ bit_and a ((2 ^ j - 1) * 2 ^ k)
    ≡⟨ bit_and_shifted k a (2 ^ j - 1) ⟩ bit_and (a / 2 ^ k) (2 ^ j - 1) * 2 ^ k
    ≡⟨ ap (λ (t : ℕ). t * 2 ^ k) (bit_and_mask j (a / 2 ^ k) ∙ mod-eq_of_lt small) ⟩
      a / 2 ^ k * 2 ^ k ∎
  where
    one_less : 2 ^ j ≡ 2 ^ j - 1 + 1
    one_less = omega (arith, one-le-pow j 2 (omega arith))

    regroup : 2 ^ (j + k) - 2 ^ k ≡ (2 ^ j - 1) * 2 ^ k
    regroup = omega (arith, pow-add j k, ap (λ (t : ℕ). t * 2 ^ k) one_less)

    small : a / 2 ^ k < 2 ^ j
    small = (div-lt_iff_lt-mul (one-le-pow k 2 (omega arith))).1 (rw (← pow-add j k) fits)

-- Ones above `k` bits, joined to a number of `k` bits, are a sum.
pub bit_or_split : (k q r : ℕ) → r < 2 ^ k → bit_or r (q * 2 ^ k) ≡ r + q * 2 ^ k
bit_or_split zero q r fits = let e : r ≡ 0 = omega arith in rw (e, bit_or-bitwise) (omega arith)
bit_or_split (suc k) q r fits =
    let room : 2 ^ suc k ≡ 2 ^ k + 2 ^ k = omega (arith, pow-suc 2 k) in
    ground (
      arith,
      shift-suc k q,
      bit_or_split k q (r / 2) (omega (arith, room)),
      bit_or_step r (q * 2 ^ suc k),
    )

pub bit_or-zero : (b : ℕ) → bit_or 0 b ≡ b
bit_or-zero b = rw bit_or-bitwise refl

pub bit_or-zero_right : (a : ℕ) → bit_or a 0 ≡ a
bit_or-zero_right a = bit_or-bitwise a 0 ∙ all_digits a a (omega arith)
  where
    all_digits : (depth b : ℕ) → b ≤ depth → digits (λ c. c) max depth b 0 ≡ b
    all_digits zero zero h = refl
    all_digits zero (suc b) h = absurd (omega arith)
    all_digits (suc depth) zero h = refl
    all_digits (suc depth) (suc b) h = omega (arith, all_digits depth (suc b / 2) (omega arith))

pub bit_or-mod_two : (x y : ℕ) → bit_or x y % 2 ≡ max (x % 2) (y % 2)
bit_or-mod_two x y = omega (arith, bit_or_step x y)

-- Below bit `k`, `|` is that of the low parts, and the high part is kept.
pub bit_or_low :
    (k q r s : ℕ)
    → r < 2 ^ k
    → s < 2 ^ k
    → (bit_or (r + q * 2 ^ k) s ≡ bit_or r s + q * 2 ^ k) × (bit_or r s < 2 ^ k)
bit_or_low zero q r s hr hs =
    let er : r ≡ 0 = omega arith in
    let es : s ≡ 0 = omega arith in
    let zeros : bit_or 0 0 ≡ 0 = bit_or-zero 0 in
    let e : 0 + q * 1 ≡ q = omega arith in
    rw (er, es, e) (omega (arith, zeros, bit_or-zero_right q))
bit_or_low (suc k) q r s hr hs =
    let room : 2 ^ suc k ≡ 2 ^ k + 2 ^ k = omega (arith, pow-suc 2 k) in
    let ih = bit_or_low k q (r / 2) (s / 2) (omega (arith, room)) (omega (arith, room)) in
    let half : (r + q * 2 ^ suc k) / 2 ≡ r / 2 + q * 2 ^ k = omega (arith, shift-suc k q) in
    let low : (r + q * 2 ^ suc k) % 2 ≡ r % 2 = omega (arith, shift-suc k q) in
    let whole : bit_or (r + q * 2 ^ suc k) s
        ≡ bit_or (r / 2 + q * 2 ^ k) (s / 2) * 2 + max (r % 2) (s % 2) =
      bit_or_step (r + q * 2 ^ suc k) s ∙ rw (half, low) refl in
    ground (arith, whole, bit_or_step r s, room, shift-suc k q, ih)

differ-zero : (x : ℕ) → differ x 0 ≡ x
differ-zero zero = refl
differ-zero (suc x) = refl

pub bit_xor-zero : (a : ℕ) → bit_xor a 0 ≡ a
bit_xor-zero a = bit_xor-bitwise a 0 ∙ all_digits a a (omega arith)
  where
    all_digits : (depth b : ℕ) → b ≤ depth → digits (λ c. c) differ depth b 0 ≡ b
    all_digits zero zero h = refl
    all_digits zero (suc b) h = absurd (omega arith)
    all_digits (suc depth) zero h = refl
    all_digits (suc depth) (suc b) h =
        omega (arith, all_digits depth (suc b / 2) (omega arith), differ-zero (suc b % 2))

-- The other one of a pair of neighbours.
abbrev pub other_of : ℕ → ℕ
other_of c = c / 2 * 2 + (1 - c % 2)

bit_xor-one : (c : ℕ) → bit_xor c 1 ≡ other_of c
bit_xor-one c =
    let half : bit_xor (c / 2) (1 / 2) ≡ c / 2 = bit_xor-zero (c / 2) in
    omega (arith, bit_xor_step c 1, half, flip (c % 2) (omega arith))
  where
    flip : (x : ℕ) → x < 2 → differ x 1 ≡ 1 - x
    flip zero h = refl
    flip (suc zero) h = refl
    flip (suc (suc x)) h = absurd (omega arith)

bit_xor-shifted : (k a b : ℕ) → bit_xor (a * 2 ^ k) (b * 2 ^ k) ≡ bit_xor a b * 2 ^ k
bit_xor-shifted zero a b =
    let e : a * 1 ≡ a = omega arith in let f : b * 1 ≡ b = omega arith in rw (e, f) (omega arith)
bit_xor-shifted (suc k) a b =
    let low : differ (a * 2 ^ suc k % 2) (b * 2 ^ suc k % 2) ≡ 0 = rw (even a, even b) refl in
    let high : bit_xor (a * 2 ^ suc k / 2) (b * 2 ^ suc k / 2) ≡ bit_xor (a * 2 ^ k) (b * 2 ^ k) =
      rw (halved a, halved b) refl in
    omega (
      arith,
      bit_xor_step (a * 2 ^ suc k) (b * 2 ^ suc k),
      low,
      high,
      bit_xor-shifted k a b,
      shift-suc k (bit_xor a b),
    )
  where
    even : (x : ℕ) → x * 2 ^ suc k % 2 ≡ 0
    even x = omega (arith, shift-suc k x)

    halved : (x : ℕ) → x * 2 ^ suc k / 2 ≡ x * 2 ^ k
    halved x = omega (arith, shift-suc k x)

-- Flipping bit `k` of a multiple of `2 ^ k` gives its neighbour.
pub bit_xor_buddy : (k c : ℕ) → bit_xor (c * 2 ^ k) (2 ^ k) ≡ other_of c * 2 ^ k
bit_xor_buddy k c =
    let one : 1 * 2 ^ k ≡ 2 ^ k = omega arith in
    ap (bit_xor (c * 2 ^ k)) (sym one)
    ∙ bit_xor-shifted k c 1
    ∙ ap (λ (t : ℕ). t * 2 ^ k) (bit_xor-one c)
