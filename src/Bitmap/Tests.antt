-- ===== src/Bitmap/Tests.antt =====
-- The bit maps at concrete bytes.
use kalorona_kernel.Common.{◌≡◌, refl, arith, write}
use kalorona_kernel.Bitmap.{
  BitMap, IsBytes, test_bit, test_and_set_bit, test_and_clear_bit, toggle_bit,
}

-- the bytes 0, 5, 0, 0, …
abbrev five : BitMap
unfolding write
five = write (λ _. 0) 1 5

five-IsBytes : IsBytes five
unfolding write
five-IsBytes i = ground arith

bits_of_five : (test_bit five 8 ≡ 1) × (test_bit five 9 ≡ 0) × (test_bit five 10 ≡ 1)
unfolding test_bit write
bits_of_five = (refl, refl, refl)

set_bit : ((test_and_set_bit five 9).0 ≡ 0) × ((test_and_set_bit five 9).1 1 ≡ 7)
unfolding test_and_set_bit write
set_bit = (refl, refl)

clear_bit : ((test_and_clear_bit five 10).0 ≡ 1) × ((test_and_clear_bit five 10).1 1 ≡ 1)
unfolding test_and_clear_bit write
clear_bit = (refl, refl)

toggled : ((toggle_bit five 8).0 ≡ 0) × ((toggle_bit five 8).1 1 ≡ 4)
unfolding toggle_bit write
toggled = (refl, refl)
