-- ===== src/Bitmap/Laws.antt =====
-- kernel/utilities/bytes.c: each operation changes one bit of the map, and returns a bit of it.
use kalorona_kernel.Common.{
  ℕ, ◌-◌, ◌^◌, ◌/◌, ◌<◌, ◌≡◌, ◌∙◌, refl, arith, ◌==◌, if◌then◌else◌, write,
}
use kalorona_kernel.Common.Bits.{bit_and_mask}
use kalorona_kernel.Bitmap.{
  BitMap, IsBytes, bit_of, byte_index, bit_index, test_bit, test_and_set_bit, test_and_clear_bit,
  toggle_bit,
}
use kalorona_kernel.Bitmap.Table.{bit_or_row, bit_and_row, bit_xor_row}

pub bit_index-lt : (i : ℕ) → bit_index i < 8
bit_index-lt i = omega (arith, bit_and_mask 3 i)

-- The pair of indices determines the bit.
index_eq : (i j : ℕ) → byte_index i ≡ byte_index j → bit_index i ≡ bit_index j → i ≡ j
index_eq i j p q = omega (arith, bit_and_mask 3 i, bit_and_mask 3 j)

-- A write of a byte in which only bit `i` is new is a write of that bit.
write_bit :
    (m : BitMap) (i v new : ℕ)
    → ((k : ℕ)
        → k < 8
        → bit_of v k ≡ (if k == bit_index i then new else bit_of (m (byte_index i)) k))
    → (j : ℕ) → test_bit (write m (byte_index i) v) j ≡ (if j == i then new else test_bit m j)
unfolding test_bit write
write_bit m i v new row j = ground (arith, row (bit_index j) (bit_index-lt j), index_eq j i)

-- Only byte `byte_index i` is written.
IsBytes-write : (m : BitMap) (i v : ℕ) → IsBytes m → v < 256 → IsBytes (write m (byte_index i) v)
unfolding write
IsBytes-write m i v h hv j = ground (arith, h j)

module _ (m : BitMap) (i : ℕ) (bytes : IsBytes m) where
  -- `test_and_set_bit` returns the old bit.
  pub test_and_set_bit-old : (test_and_set_bit m i).0 ≡ test_bit m i
  unfolding test_and_set_bit test_bit
  test_and_set_bit-old = refl

  -- After it, bit `i` is set and every other bit is as before.
  pub test_bit-set :
      (j : ℕ) → test_bit (test_and_set_bit m i).1 j ≡ (if j == i then 1 else test_bit m j)
  unfolding test_and_set_bit
  test_bit-set =
      write_bit m i _ 1
        (λ k hk. (bit_or_row (m (byte_index i)) (bit_index i) k (bytes _) (bit_index-lt i) hk).1)

  pub IsBytes-set : IsBytes (test_and_set_bit m i).1
  unfolding test_and_set_bit
  IsBytes-set =
      IsBytes-write m i _ bytes
        (bit_or_row (m (byte_index i)) (bit_index i) 0 (bytes _) (bit_index-lt i) (omega arith)).0

  pub test_and_clear_bit-old : (test_and_clear_bit m i).0 ≡ test_bit m i
  unfolding test_and_clear_bit test_bit
  test_and_clear_bit-old = refl

  pub test_bit-clear :
      (j : ℕ) → test_bit (test_and_clear_bit m i).1 j ≡ (if j == i then 0 else test_bit m j)
  unfolding test_and_clear_bit
  test_bit-clear =
      write_bit m i _ 0
        (λ k hk. (bit_and_row (m (byte_index i)) (bit_index i) k (bytes _) (bit_index-lt i) hk).1)

  pub IsBytes-clear : IsBytes (test_and_clear_bit m i).1
  unfolding test_and_clear_bit
  IsBytes-clear =
      IsBytes-write m i _ bytes
        (bit_and_row (m (byte_index i)) (bit_index i) 0 (bytes _) (bit_index-lt i) (omega arith)).0

  pub test_bit-toggle :
      (j : ℕ) → test_bit (toggle_bit m i).1 j ≡ (if j == i then 1 - test_bit m i else test_bit m j)
  unfolding toggle_bit test_bit
  test_bit-toggle =
      write_bit m i _ (1 - test_bit m i)
        (λ k hk. (bit_xor_row (m (byte_index i)) (bit_index i) k (bytes _) (bit_index-lt i) hk).1)

  pub IsBytes-toggle : IsBytes (toggle_bit m i).1
  unfolding toggle_bit
  IsBytes-toggle =
      IsBytes-write m i _ bytes
        (bit_xor_row (m (byte_index i)) (bit_index i) 0 (bytes _) (bit_index-lt i) (omega arith)).0

  -- `toggle_bit` returns the new bit.
  pub toggle_bit-new : (toggle_bit m i).0 ≡ 1 - test_bit m i
  unfolding toggle_bit test_bit write
  toggle_bit-new =
      (bit_xor_row (m (byte_index i)) (bit_index i) (bit_index i) (bytes _) (bit_index-lt i)
        (bit_index-lt i)).1
      ∙ ground arith

pub test_bit-lt : (m : BitMap) (i : ℕ) → test_bit m i < 2
unfolding test_bit
test_bit-lt m i = omega (arith, bit_and_mask 1 (m (byte_index i) / 2 ^ bit_index i))

-- `test_and_set_bit` on a map of bytes returns bit `i`, sets it, keeps every other bit, and leaves
-- a map of bytes.
pub test_and_set_bit_lem :
    (m : BitMap) (i : ℕ)
    → IsBytes m
    → ((test_and_set_bit m i).0 ≡ test_bit m i)
      × ((j : ℕ) → test_bit (test_and_set_bit m i).1 j ≡ (if j == i then 1 else test_bit m j))
      × IsBytes (test_and_set_bit m i).1
test_and_set_bit_lem m i b = (test_and_set_bit-old m i b, test_bit-set m i b, IsBytes-set m i b)

-- `test_and_clear_bit` on a map of bytes returns bit `i`, clears it, keeps every other bit, and
-- leaves a map of bytes.
pub test_and_clear_bit_lem :
    (m : BitMap) (i : ℕ)
    → IsBytes m
    → ((test_and_clear_bit m i).0 ≡ test_bit m i)
      × ((j : ℕ) → test_bit (test_and_clear_bit m i).1 j ≡ (if j == i then 0 else test_bit m j))
      × IsBytes (test_and_clear_bit m i).1
test_and_clear_bit_lem m i b =
    (test_and_clear_bit-old m i b, test_bit-clear m i b, IsBytes-clear m i b)

-- `toggle_bit` on a map of bytes inverts bit `i`, returns its new value, keeps every other bit, and
-- leaves a map of bytes.
pub toggle_bit_lem :
    (m : BitMap) (i : ℕ)
    → IsBytes m
    → ((toggle_bit m i).0 ≡ 1 - test_bit m i)
      × ((j : ℕ)
          → test_bit (toggle_bit m i).1 j ≡ (if j == i then 1 - test_bit m i else test_bit m j))
      × IsBytes (toggle_bit m i).1
toggle_bit_lem m i b = (toggle_bit-new m i b, test_bit-toggle m i b, IsBytes-toggle m i b)
