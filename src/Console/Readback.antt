-- ===== src/Console/Readback.antt =====
-- The characters of `print_uint` as a string for `strtoul`.
use kalorona_kernel.Common.{
  ℕ, suc, ◌+◌, ◌-◌, ◌*◌, ◌%◌, ◌^◌, ◌≤◌, ◌<◌, ◌≡◌, ◌≢◌, ◌∙◌, ap, sym, subst, arith, some, List, [],
  ◌∷◌, ℕ_discrete,
}
use mathlib.Core.Option.{some-injective}
use kalorona_kernel.Memory.{Memory}
use kalorona_kernel.Text.{tolower, decode_digit, strtoul}
use kalorona_kernel.Text.Number.{
  value, IsNumber, NoPrefix, strtoul_lem, decode_digit-nul, tolower-nul,
}
use kalorona_kernel.Console.{print_uint}
use kalorona_kernel.Console.Digits.{horner, size, AllDigits, Leading, print_uint_lem}

-- The characters lie at `s`, with a NUL byte behind them.
abbrev pub Holds : Memory → ℕ → List ℕ → Type 0
Holds m s [] = m s ≡ 0
Holds m s (c ∷ cs) = (m s ≡ c) × Holds m (s + 1) cs

-- The characters behind the first `i`.
value_lem :
    (m : Memory) (s base i : ℕ) (cs : List ℕ)
    → Holds m (s + i) cs
    → value m s base (i + size cs) ≡ horner base (value m s base i) cs
value_lem m s base i [] h = let e : i + 0 ≡ i = omega arith in ap (value m s base) e
value_lem m s base i (c ∷ cs) (at, h) =
    let e : i + suc (size cs) ≡ suc i + size cs = omega arith in
    let f : s + i + 1 ≡ s + suc i = omega arith in
    ap (value m s base) e
    ∙ value_lem m s base (suc i) cs (subst (λ (a : ℕ). Holds m a cs) f h)
    ∙ ap (λ (b : ℕ). horner base (value m s base i * base + decode_digit b) cs) at

held-IsNumber :
    (m : Memory) (base : ℕ) (cs : List ℕ) (s : ℕ)
    → base ≤ 16
    → Holds m s cs
    → AllDigits base cs
    → IsNumber m s base (size cs)
held-IsNumber m base [] s hb h all = record {
  digits = λ i hi. absurd (omega arith);
  ended =
      let e : s + 0 ≡ s = omega arith in
      omega (arith, ap (λ (a : ℕ). decode_digit (m a)) e, ap decode_digit h, decode_digit-nul);
}
held-IsNumber m base (c ∷ cs) s hb (at, h) (d, all) =
    let rest = held-IsNumber m base cs (s + 1) hb h all in
    record {
      digits = λ i hi. elim (ℕ_discrete i 0) [
        | yes e ↦
            let f : s + i ≡ s = omega arith in
            omega (arith, ap (λ (a : ℕ). decode_digit (m a)) f, ap decode_digit at)
        | no ne ↦
            let f : s + i ≡ s + 1 + (i - 1) = omega arith in
            omega (arith, ap (λ (a : ℕ). decode_digit (m a)) f, rest.digits (i - 1) (omega arith))
      ];
      ended =
          let f : s + suc (size cs) ≡ s + 1 + size cs = omega arith in
          omega (arith, ap (λ (a : ℕ). decode_digit (m a)) f, rest.ended);
    }

no_prefix :
    (m : Memory) (s x : ℕ) (cs : List ℕ)
    → Holds m s cs
    → (x ≢ 0 → Leading cs)
    → (x ≡ 0 → cs ≡ 48 ∷ [])
    → NoPrefix m s
no_prefix m s x cs h lead is_zero first ex = elim (ℕ_discrete x 0) [
  | yes e ↦ tolower-nul (ap tolower (sym (subst (Holds m s) (is_zero e) h).1) ∙ ex)
  | no ne ↦ starts cs h (lead ne)
]
  where
    starts : (cs : List ℕ) → Holds m s cs → Leading cs → ⊥
    starts [] h l = l
    starts (c ∷ cs) (at, h) l = l (sym at ∙ first)

pair : {a b c d : ℕ} → a ≡ b → c ≡ d → ◌≡◌ {A = ℕ × ℕ} (a, c) (b, d)
pair {a} {b} {c} {d} e f = ap {B = ℕ × ℕ} (λ x. (x, c)) e ∙ ap {B = ℕ × ℕ} (λ y. (b, y)) f

-- What `print_uint` prints of a 64-bit number in a base from 2 to 16, as a string, `strtoul` reads as that
-- number in the same base, up to the end of the string.
pub strtoul-print_uint :
    (x base : ℕ) (cs : List ℕ) (fuel : ℕ) (m : Memory) (s : ℕ)
    → 2 ≤ base
    → base ≤ 16
    → x < 2 ^ 64
    → print_uint x base ≡ some cs
    → Holds m s cs
    → size cs < fuel
    → strtoul fuel m s base ≡ some (x, s + size cs)
strtoul-print_uint x base cs fuel m s low high hx run h hf =
    let (ds, run', v, all, len, lead, is_zero) = print_uint_lem base low high x hx in
    let same : cs ≡ ds = some-injective cs ds (sym run ∙ run') in
    let held = subst (Holds m s) same h in
    let e : s ≡ s + 0 = omega arith in
    let read =
      strtoul_lem fuel m s base (size ds) (λ z. omega arith) (no_prefix m s x ds held lead is_zero)
        (held-IsNumber m base ds s high held all) (omega (arith, ap size same)) in
    let val : value m s base (size ds) ≡ x =
      let f : size ds ≡ 0 + size ds = omega arith in
      ap (value m s base) f
      ∙ value_lem m s base 0 ds (subst (λ (a : ℕ). Holds m a ds) e held)
      ∙ v in
    read ∙ ap some (pair (val_mod val) (omega (arith, ap size same)))
  where
    val_mod : {v : ℕ} → v ≡ x → v % 2 ^ 64 ≡ x
    val_mod {v} e = omega arith
