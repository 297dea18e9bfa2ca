-- ===== src/Bitmap.antt =====
-- kernel/utilities/bytes.c: bit maps, an array of bytes reached through a pointer. The array is a
-- function of the offset from that pointer; what bounds the offset is the caller's.
mod Table
pub mod Laws
mod Tests
use kalorona_kernel.Common.{ℕ, ◌-◌, ◌*◌, ◌/◌, ◌^◌, ◌<◌, bit_and, bit_or, bit_xor, write}

-- `uint8 *map`
abbrev pub BitMap : Type 0
BitMap = ℕ → ℕ

-- `(byte >> k) & 1`
abbrev pub bit_of : ℕ → ℕ → ℕ
bit_of b k = bit_and (b / 2 ^ k) 1

abbrev pub byte_index : ℕ → ℕ
byte_index index = index / 2 ^ 3

abbrev pub bit_index : ℕ → ℕ
bit_index index = bit_and index 0x7

unfoldable pub test_bit : BitMap → ℕ → ℕ
test_bit m index = bit_of (m (byte_index index)) (bit_index index)

unfoldable pub test_and_set_bit : BitMap → ℕ → ℕ × BitMap
unfolding write
test_and_set_bit m index =
    let old = bit_of (m (byte_index index)) (bit_index index) in
    (old, write m (byte_index index) (bit_or (m (byte_index index)) (2 ^ bit_index index)))

-- The complement is that of a byte: the higher ones of `~` meet only zeros.
unfoldable pub test_and_clear_bit : BitMap → ℕ → ℕ × BitMap
unfolding write
test_and_clear_bit m index =
    let old = bit_of (m (byte_index index)) (bit_index index) in
    (old, write m (byte_index index) (bit_and (m (byte_index index)) (255 - 2 ^ bit_index index)))

-- The bit that it returns is the new one.
unfoldable pub toggle_bit : BitMap → ℕ → ℕ × BitMap
unfolding write
toggle_bit m index =
    let new = bit_xor (m (byte_index index)) (2 ^ bit_index index) in
    (bit_of new (bit_index index), write m (byte_index index) new)

-- Every element is a byte.
abbrev pub IsBytes : BitMap → Type 0
IsBytes m = (i : ℕ) → m i < 256
