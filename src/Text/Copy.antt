-- ===== src/Text/Copy.antt =====
-- `strcpy` and `strncpy` beside `memcpy`.
use kalorona_kernel.Common.{
  ℕ, zero, suc, ◌+◌, ◌≤◌, ◌<◌, ◌≡◌, ◌≢◌, refl, ◌∙◌, ap, sym, true, false, arith, ltb, ◌==◌,
  if◌then◌else◌, ◌⊎◌, inl, inr, some, write, write_ne,
}
use kalorona_kernel.Memory.{Memory, memcpy}
use kalorona_kernel.Text.{strcpy, strncpy}
use kalorona_kernel.Text.Length.{IsString, IsString-rest, first_ne, first_zero}

-- A write beside the string.
write-IsString :
    {m : Memory} {s n : ℕ} (a v : ℕ)
    → ((i : ℕ) → i ≤ n → s + i ≢ a)
    → IsString m s n
    → IsString (write m a v) s n
write-IsString {m} {s} {n} a v ne t = record {
  filled = λ i h e. t.filled i h (sym (write_ne m a (s + i) v (ne i (omega arith))) ∙ e);
  ended = write_ne m a (s + n) v (ne n (omega arith)) ∙ t.ended;
}

-- `dst` is not inside the string behind its first byte.
abbrev pub IsApart : ℕ → ℕ → ℕ → Type 0
IsApart dst src n = (dst ≤ src) ⊎ (src + n < dst)

copied_rest :
    {m : Memory} {src n : ℕ} (dst : ℕ)
    → IsApart dst src (suc n)
    → IsString m src (suc n)
    → IsString (write m dst (m src)) (src + 1) n
copied_rest {m} {src} {n} dst apart t =
    write-IsString dst (m src)
      (λ i h e. elim apart [ inl a ↦ absurd (omega arith) | inr b ↦ absurd (omega arith) ])
      (IsString-rest t)

IsApart-rest : (dst src n : ℕ) → IsApart dst src (suc n) → IsApart (dst + 1) (src + 1) n
IsApart-rest dst src n (inl a) = inl (omega arith)
IsApart-rest dst src n (inr b) = inr (omega arith)

-- With fuel for the string, `strcpy` is `memcpy` of the string and its NUL byte, unless `dst` is
-- inside the string.
pub strcpy-memcpy :
    (fuel : ℕ) (m : Memory) (dst src n : ℕ)
    → IsString m src n
    → IsApart dst src n
    → n < fuel
    → strcpy fuel m dst src ≡ some (memcpy m dst src (n + 1))
unfolding strcpy memcpy
strcpy-memcpy zero m dst src n t apart h = absurd (omega arith)
strcpy-memcpy (suc fuel) m dst src zero t apart h =
    let z : (m src == 0) ≡ true = ground (arith, first_zero t) in
    rw z (ap (λ (v : ℕ). some (write m dst v)) (sym (first_zero t)))
strcpy-memcpy (suc fuel) m dst src (suc n) t apart h =
    let z : (m src == 0) ≡ false = ground (arith, first_ne t) in
    let more : suc n + 1 ≡ suc (n + 1) = omega arith in
    rw z (
      strcpy-memcpy fuel (write m dst (m src)) (dst + 1) (src + 1) n (copied_rest dst apart t)
        (IsApart-rest dst src n apart) (omega arith)
      ∙ ap (λ (k : ℕ). some (memcpy m dst src k)) (sym more))

-- `strncpy` copies the string, or its first `siz` bytes when it is longer, and puts a NUL byte
-- behind them: at `dst + siz`, outside of the `siz` bytes, when the string has `siz` bytes or more.
pub strncpy-memcpy :
    (m : Memory) (dst src n siz : ℕ)
    → IsString m src n
    → IsApart dst src n
    → strncpy m dst src siz
      ≡ (let k = if ltb n siz then n else siz in write (memcpy m dst src k) (dst + k) 0)
unfolding strncpy memcpy
strncpy-memcpy m dst src n zero t apart =
    let none_left : (if ltb n 0 then n else 0) ≡ 0 = ground arith in
    let at : dst + 0 ≡ dst = omega arith in rw (none_left, at) refl
strncpy-memcpy m dst src zero (suc siz) t apart =
    let z : (m src == 0) ≡ true = ground (arith, first_zero t) in
    let k : (if ltb 0 (suc siz) then 0 else suc siz) ≡ 0 = ground arith in
    let at : dst + 0 ≡ dst = omega arith in rw (z, k, at) refl
strncpy-memcpy m dst src (suc n) (suc siz) t apart =
    let z : (m src == 0) ≡ false = ground (arith, first_ne t) in
    let k : (if ltb (suc n) (suc siz) then suc n else suc siz)
        ≡ suc (if ltb n siz then n else siz) =
      ground arith in
    let at : dst + suc (if ltb n siz then n else siz) ≡ dst + 1 + (if ltb n siz then n else siz) =
      omega arith in
    rw (z, k, at)
      (strncpy-memcpy (write m dst (m src)) (dst + 1) (src + 1) n siz (copied_rest dst apart t)
        (IsApart-rest dst src n apart))
