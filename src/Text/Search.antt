-- ===== src/Text/Search.antt =====
-- `strchr` and `strrchr`.
use kalorona_kernel.Common.{
  ℕ, zero, suc, ◌+◌, ◌-◌, ◌%◌, ◌≤◌, ◌<◌, ◌≡◌, ◌≢◌, refl, ◌∙◌, ap, sym, true, false, arith, ◌==◌,
  ◌⊎◌, inl, inr, ℕ_discrete, some,
}
use kalorona_kernel.Memory.{Memory}
use kalorona_kernel.Text.{strchr, strrchr_down, strrchr}
use kalorona_kernel.Text.Length.{IsString, IsString-rest, first_ne, first_zero, strlen_lem}

-- The first byte `c` of the `n` at `s` is at `s + i`, or there is none and the result is NULL.
abbrev pub FirstAt : Memory → ℕ → ℕ → ℕ → ℕ → Type 0
FirstAt m s n c r =
    ((i : ℕ) × (i < n) × (r ≡ s + i) × (m (s + i) ≡ c) × ((j : ℕ) → j < i → m (s + j) ≢ c))
    ⊎ ((r ≡ 0) × ((j : ℕ) → j < n → m (s + j) ≢ c))

-- The last one.
abbrev pub LastAt : Memory → ℕ → ℕ → ℕ → ℕ → Type 0
LastAt m s n c r =
    ((i : ℕ) × (i < n) × (r ≡ s + i) × (m (s + i) ≡ c) × ((j : ℕ) → i < j → j < n → m (s + j) ≢ c))
    ⊎ ((r ≡ 0) × ((j : ℕ) → j < n → m (s + j) ≢ c))

-- With fuel for the string, `strchr` returns the first occurrence of the byte, or NULL when there is none.
pub strchr_lem :
    (fuel : ℕ) (m : Memory) (s n ch : ℕ)
    → IsString m s n
    → n < fuel
    → (r : ℕ) × (strchr fuel m s ch ≡ some r) × FirstAt m s n (ch % 256) r
unfolding strchr
strchr_lem zero m s n ch t h = absurd (omega arith)
strchr_lem (suc fuel) m s zero ch t h =
    let z : (m s == 0) ≡ true = ground (arith, first_zero t) in
    (0, rw z refl, inr (refl, λ j lj. absurd (omega arith)))
strchr_lem (suc fuel) m s (suc n) ch t h =
    let z : (m s == 0) ≡ false = ground (arith, first_ne t) in
    elim (ℕ_discrete (m s) (ch % 256)) [
      | yes e ↦
          let q : (m s == ch % 256) ≡ true = ground (arith, e) in
          let at : s + 0 ≡ s = omega arith in
          (
            s,
            rw (z, q) refl,
            inl (0, omega arith, sym at, ap m at ∙ e, λ j lj. absurd (omega arith)),
          )
      | no ne ↦
          let q : (m s == ch % 256) ≡ false = ground arith in
          let (r, run, found) = strchr_lem fuel m (s + 1) n ch (IsString-rest t) (omega arith) in
          (r, rw (z, q) run, later m s n (ch % 256) r ne found)
    ]
  where
    skip :
        (m : Memory) (s n c : ℕ)
        → m s ≢ c
        → ((j : ℕ) → j < n → m (s + 1 + j) ≢ c)
        → (j : ℕ) → j < suc n
        → m (s + j) ≢ c
    skip m s n c ne rest j lj e = elim (ℕ_discrete j 0) [
      | yes f ↦ let at : s ≡ s + j = omega arith in ne (ap m at ∙ e)
      | no nf ↦
          let at : s + 1 + (j - 1) ≡ s + j = omega arith in rest (j - 1) (omega arith) (ap m at ∙ e)
    ]

    later : (m : Memory) (s n c r : ℕ) → m s ≢ c → FirstAt m (s + 1) n c r → FirstAt m s (suc n) c r
    later m s n c r ne (inl (i, li, e, v, before)) =
        let at : s + 1 + i ≡ s + (i + 1) = omega arith in
        inl (
          i + 1,
          omega arith,
          e ∙ at,
          ap m (sym at) ∙ v,
          λ j lj. skip m s i c ne before j (omega arith),
        )
    later m s n c r ne (inr (e, all)) = inr (e, skip m s n c ne all)

-- From `str + k` down, `tail` stops at the last byte `c`, or at `str`.
strrchr_down_lem :
    (m : Memory) (s ch k : ℕ)
    → (i : ℕ) × (i ≤ k)
      × (strrchr_down m s ch k ≡ s + i)
      × ((j : ℕ) → i < j → j ≤ k → m (s + j) ≢ ch % 256)
      × ((i ≡ 0) ⊎ (m (s + i) ≡ ch % 256))
unfolding strrchr_down
strrchr_down_lem m s ch zero =
    (0, omega arith, omega arith, (λ j lj hj. absurd (omega arith)), inl refl)
strrchr_down_lem m s ch (suc k) = elim (ℕ_discrete (m (s + suc k)) (ch % 256)) [
  | yes e ↦
      let q : (m (s + suc k) == ch % 256) ≡ true = ground (arith, e) in
      (suc k, omega arith, rw q refl, (λ j lj hj. absurd (omega arith)), inr e)
  | no ne ↦
      let q : (m (s + suc k) == ch % 256) ≡ false = ground arith in
      let (i, le, run, above, at) = strrchr_down_lem m s ch k in
      (
        i,
        omega arith,
        rw q run,
        (λ j lj hj. elim (ℕ_discrete j (suc k)) [
          | yes f ↦ λ v. ne (ap (λ (x : ℕ). m (s + x)) (sym f) ∙ v)
          | no nf ↦ above j lj (omega arith)
        ]),
        at,
      )
]

-- With fuel for a string that is not empty, `strrchr` returns the last occurrence of the byte, or NULL when there is none.
pub strrchr_lem :
    (fuel : ℕ) (m : Memory) (s n ch : ℕ)
    → s ≢ 0
    → n ≢ 0
    → IsString m s n
    → n < fuel
    → (r : ℕ) × (strrchr fuel m s ch ≡ some r) × LastAt m s n (ch % 256) r
unfolding strrchr
strrchr_lem fuel m s n ch nz nn t h =
    let len = strlen_lem fuel m s n nz t h in
    let z : (n == 0) ≡ false = ground arith in
    let (i, le, run, above, at) = strrchr_down_lem m s ch (n - 1) in
    elim (ℕ_discrete (m (s + i)) (ch % 256)) [
      | yes e ↦
          let q : (m (s + i) == ch % 256) ≡ true = ground (arith, e) in
          (
            s + i,
            rw (strrchr, len, z, run, q) refl,
            inl (i, omega arith, refl, e, λ j lj hj. above j lj (omega arith)),
          )
      | no ne ↦
          let q : (m (s + i) == ch % 256) ≡ false = ground arith in
          let first : i ≡ 0 = elim at [ inl f ↦ f | inr v ↦ absurd (ne v) ] in
          (
            0,
            rw (strrchr, len, z, run, q) refl,
            inr (
              refl,
              λ j hj. elim (ℕ_discrete j i) [
                | yes f ↦ λ v. ne (ap (λ (x : ℕ). m (s + x)) (sym f) ∙ v)
                | no nf ↦ above j (omega arith) (omega arith)
              ],
            ),
          )
    ]
