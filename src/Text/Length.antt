-- ===== src/Text/Length.antt =====
-- NUL-terminated strings, `strlen` and `strnlen`.
use kalorona_kernel.Common.{
  ℕ, zero, suc, ◌+◌, ◌≤◌, ◌<◌, ◌≡◌, ◌≢◌, ◌∙◌, ap, true, false, arith, ◌==◌, ℕ_discrete, some,
}
use kalorona_kernel.Memory.{Memory}
use kalorona_kernel.Text.{strlen_from, strlen}

-- At `s` there are `n` bytes that are not 0, and a 0 behind them.
pub record IsString (m : Memory) (s n : ℕ) : Type 0 where
  pub filled : (i : ℕ) → i < n → m (s + i) ≢ 0
  pub ended : m (s + n) ≡ 0

-- What follows the first byte.
pub IsString-rest : {m : Memory} {s n : ℕ} → IsString m s (suc n) → IsString m (s + 1) n
IsString-rest {m} {s} {n} t = record {
  filled = λ i h e.
      let moved : s + (i + 1) ≡ s + 1 + i = omega arith in
      t.filled (i + 1) (omega arith) (ap m moved ∙ e);
  ended = let moved : s + 1 + n ≡ s + suc n = omega arith in ap m moved ∙ t.ended;
}

pub first_ne : {m : Memory} {s n : ℕ} → IsString m s (suc n) → m s ≢ 0
first_ne {m} {s} t e = let at : s + 0 ≡ s = omega arith in t.filled 0 (omega arith) (ap m at ∙ e)

pub first_zero : {m : Memory} {s : ℕ} → IsString m s 0 → m s ≡ 0
first_zero {m} {s} t = let at : s ≡ s + 0 = omega arith in ap m at ∙ t.ended

strlen_from_lem :
    (fuel : ℕ) (m : Memory) (s n ret : ℕ)
    → IsString m s n
    → ret ≤ n
    → n < ret + fuel
    → strlen_from fuel m s ret ≡ some n
unfolding strlen_from
strlen_from_lem zero m s n ret t le h = absurd (omega arith)
strlen_from_lem (suc fuel) m s n ret t le h = elim (ℕ_discrete ret n) [
  | yes e ↦
      let z : (m (s + ret) == 0) ≡ true = ground (arith, ap (λ (k : ℕ). m (s + k)) e, t.ended) in
      rw z (ap some e)
  | no ne ↦
      let z : (m (s + ret) == 0) ≡ false = ground (arith, t.filled ret (omega arith)) in
      rw z (strlen_from_lem fuel m s n (ret + 1) t (omega arith) (omega arith))
]

-- With fuel for the string, `strlen` returns its length.
pub strlen_lem :
    (fuel : ℕ) (m : Memory) (s n : ℕ) → s ≢ 0 → IsString m s n → n < fuel → strlen fuel m s ≡ some n
unfolding strlen
strlen_lem fuel m s n nz t h =
    let z : (s == 0) ≡ false = ground arith in
    rw z (strlen_from_lem fuel m s n 0 t (omega arith) (omega arith))
