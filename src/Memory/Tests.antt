-- ===== src/Memory/Tests.antt =====
-- The memory routines on a few bytes.
use kalorona_kernel.Common.{◌*◌, ◌%◌, ◌≡◌, arith, inr}
use kalorona_kernel.Memory.{Memory, memcpy, memmove, memcmp, memchr}
use kalorona_kernel.Memory.Compare.{Compared, memcmp-Compared, Found, memchr-Found}
use kalorona_kernel.Memory.Copy.{copied, memcpy_lem, memmove_lem}

-- byte `a` holds `10 * a`
abbrev tens : Memory
tens a = 10 * a

memcpy_lem_example : memcpy tens 8 2 3 9 ≡ copied tens 8 2 3 9
memcpy_lem_example = memcpy_lem tens 8 2 3 (inr (omega arith)) 9

-- the ranges overlap
memmove_lem_example : memmove tens 4 2 4 7 ≡ copied tens 4 2 4 7
memmove_lem_example = memmove_lem tens 4 2 4 7

-- the bytes at 4 and 5 differ in every place
memcmp-Compared_example : Compared tens 4 5 3 (memcmp tens 4 5 3)
memcmp-Compared_example = memcmp-Compared tens 4 5 3

-- byte 7 is the first that holds 70, and none holds 71
memchr-Found_example : Found tens 4 (326 % 256) 6 (memchr tens 4 326 6)
memchr-Found_example = memchr-Found tens 4 326 6
