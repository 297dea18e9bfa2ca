-- ===== src/Bootmem/Bits.antt =====
-- kernel/memory/bootmem.c: the loops that mark and unmark a run of pages.
use kalorona_kernel.Common.{
  ℕ, zero, suc, ◌+◌, ◌≤◌, ◌<◌, ◌^◌, ◌≡◌, refl, ◌∙◌, ◌&&◌, Bool, true, false, arith, leb, ltb, ◌==◌,
  if◌then◌else◌, done, panicked, ℕ_discrete,
}
use kalorona_kernel.Common.Word.{add64}
use kalorona_kernel.Bitmap.{BitMap, IsBytes, test_bit, test_and_set_bit, test_and_clear_bit}
use kalorona_kernel.Bitmap.Laws.{
  test_and_set_bit-old, test_bit-set, IsBytes-set, test_and_clear_bit-old, test_bit-clear,
  IsBytes-clear, test_bit-lt,
}
use kalorona_kernel.Bootmem.{set_bits, clear_bits}

abbrev pub in_run : ℕ → ℕ → ℕ → Bool
in_run lo hi j = leb lo j && ltb j hi

-- Bit `j` of `g` is `v` from `i` on for `n` places, and elsewhere that of `m`.
abbrev pub Filled : ℕ → ℕ → ℕ → BitMap → BitMap → Type 0
Filled v i n m g = (j : ℕ) → test_bit g j ≡ (if in_run i (i + n) j then v else test_bit m j)

abbrev pub AllAre : ℕ → ℕ → ℕ → BitMap → Type 0
AllAre v i n m = (j : ℕ) → i ≤ j → j < i + n → test_bit m j ≡ v

-- A run of clear bits is set.
set_bits-suc :
    (n i : ℕ) (m : BitMap)
    → IsBytes m
    → i + 1 < 2 ^ 64
    → test_bit m i ≡ 0
    → set_bits (suc n) i m ≡ set_bits n (i + 1) (test_and_set_bit m i).1
unfolding set_bits
set_bits-suc n i m b h e =
    let e' : add64 i 1 ≡ i + 1 = omega arith in
    let old : ((test_and_set_bit m i).0 == 0) ≡ true = ground (arith, test_and_set_bit-old m i b) in
    rw (old, e')

pub set_bits-done :
    (n i : ℕ) (m : BitMap)
    → IsBytes m
    → i + n < 2 ^ 64
    → AllAre 0 i n m
    → (g : BitMap) × (set_bits n i m ≡ done g) × IsBytes g × Filled 1 i n m g
set_bits-done zero i m b h all = (m, unfold set_bits in refl, b, λ j. ground arith)
set_bits-done (suc n) i m b h all =
    let (g, run, bytes, filled) =
      set_bits-done n (i + 1) (test_and_set_bit m i).1 (IsBytes-set m i b) (omega arith)
        (λ j p q. test_bit-set m i b j ∙ ground (arith, all j)) in
    (
      g,
      set_bits-suc n i m b (omega arith) (all i (omega arith) (omega arith)) ∙ run,
      bytes,
      λ j. filled j ∙ ground (arith, test_bit-set m i b j),
    )

-- A set bit in the run makes it panic.
pub set_bits-panicked :
    (n i j : ℕ) (m : BitMap)
    → IsBytes m
    → i + n < 2 ^ 64
    → i ≤ j
    → j < i + n
    → test_bit m j ≡ 1
    → set_bits n i m ≡ panicked
set_bits-panicked zero i j m b h p q e = absurd (omega arith)
set_bits-panicked (suc n) i j m b h p q e = elim (ℕ_discrete (test_bit m i) 0) [
  | yes v ↦
      set_bits-suc n i m b (omega arith) v
      ∙ set_bits-panicked n (i + 1) j (test_and_set_bit m i).1 (IsBytes-set m i b) (omega arith)
          (ground arith) (omega arith) (test_bit-set m i b j ∙ ground arith)
  | no v ↦ unfold set_bits in ground (arith, test_and_set_bit-old m i b, test_bit-lt m i)
]

-- A run of set bits is cleared.
clear_bits-suc :
    (n i : ℕ) (m : BitMap)
    → IsBytes m
    → i + 1 < 2 ^ 64
    → test_bit m i ≡ 1
    → clear_bits (suc n) i m ≡ clear_bits n (i + 1) (test_and_clear_bit m i).1
unfolding clear_bits
clear_bits-suc n i m b h e =
    let e' : add64 i 1 ≡ i + 1 = omega arith in
    let old : ((test_and_clear_bit m i).0 == 0) ≡ false =
      ground (arith, test_and_clear_bit-old m i b) in
    rw (old, e')

pub clear_bits-done :
    (n i : ℕ) (m : BitMap)
    → IsBytes m
    → i + n < 2 ^ 64
    → AllAre 1 i n m
    → (g : BitMap) × (clear_bits n i m ≡ done g) × IsBytes g × Filled 0 i n m g
clear_bits-done zero i m b h all = (m, unfold clear_bits in refl, b, λ j. ground arith)
clear_bits-done (suc n) i m b h all =
    let (g, run, bytes, filled) =
      clear_bits-done n (i + 1) (test_and_clear_bit m i).1 (IsBytes-clear m i b) (omega arith)
        (λ j p q. test_bit-clear m i b j ∙ ground (arith, all j)) in
    (
      g,
      clear_bits-suc n i m b (omega arith) (all i (omega arith) (omega arith)) ∙ run,
      bytes,
      λ j. filled j ∙ ground (arith, test_bit-clear m i b j),
    )

-- A clear bit in the run makes it panic.
pub clear_bits-panicked :
    (n i j : ℕ) (m : BitMap)
    → IsBytes m
    → i + n < 2 ^ 64
    → i ≤ j
    → j < i + n
    → test_bit m j ≡ 0
    → clear_bits n i m ≡ panicked
clear_bits-panicked zero i j m b h p q e = absurd (omega arith)
clear_bits-panicked (suc n) i j m b h p q e = elim (ℕ_discrete (test_bit m i) 1) [
  | yes v ↦
      clear_bits-suc n i m b (omega arith) v
      ∙ clear_bits-panicked n (i + 1) j (test_and_clear_bit m i).1 (IsBytes-clear m i b)
          (omega arith) (ground arith) (omega arith) (test_bit-clear m i b j ∙ ground arith)
  | no v ↦ unfold clear_bits in ground (arith, test_and_clear_bit-old m i b, test_bit-lt m i)
]
