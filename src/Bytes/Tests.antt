-- ===== src/Bytes/Tests.antt =====
-- Reversals of numbers of each width.
use kalorona_kernel.Common.{◌≡◌, refl, write}
use kalorona_kernel.Bytes.{flip_bytes_16, flip_bytes_32, flip_bytes_64}

flips_16 : flip_bytes_16 0x1234 ≡ 0x3412
unfolding flip_bytes_16 write
flips_16 = refl

flips_32 : flip_bytes_32 0x12345678 ≡ 0x78563412
unfolding flip_bytes_32 write
flips_32 = refl

flips_64 : flip_bytes_64 0x0123456789ABCDEF ≡ 0xEFCDAB8967452301
unfolding flip_bytes_64 write
flips_64 = refl
