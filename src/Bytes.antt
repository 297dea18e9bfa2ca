-- ===== src/Bytes.antt =====
-- kernel/utilities/bytes.c: the reversal of the order of bytes. The pointer to a number is that to its bytes,
-- the lowest first, as on the target.
pub mod Flip
mod Tests
use kalorona_kernel.Common.{ℕ, zero, suc, ◌+◌, ◌-◌, ◌*◌, ◌/◌, ◌%◌, ◌^◌, ltb, if◌then◌else◌, write}
use kalorona_kernel.Memory.{Memory}

-- The loop over both ends, with the fuel for its rounds.
pub flip_from : ℕ → Memory → ℕ → ℕ → Memory
flip_from zero m lft rig = m
flip_from (suc left) m lft rig =
    let next = flip_from left (write (write m lft (m rig)) rig (m lft)) (lft + 1) (rig - 1) in
    if ltb lft rig then next else m

pub flip_bytes_inplace : Memory → ℕ → ℕ → Memory
unfolding flip_from
flip_bytes_inplace m x num_of_bytes = flip_from num_of_bytes m x (x + (num_of_bytes - 1))

-- The bytes of a number at address 0, and the number that bytes make.
pub bytes_of : ℕ → Memory
bytes_of x i = x / 2 ^ (8 * i) % 256

pub number_at : Memory → ℕ → ℕ
number_at m zero = 0
number_at m (suc n) = number_at m n + m n * 2 ^ (8 * n)

pub flip_bytes_16 : ℕ → ℕ
unfolding flip_bytes_inplace bytes_of number_at
flip_bytes_16 x = number_at (flip_bytes_inplace (bytes_of x) 0 2) 2

pub flip_bytes_32 : ℕ → ℕ
unfolding flip_bytes_inplace bytes_of number_at
flip_bytes_32 x = number_at (flip_bytes_inplace (bytes_of x) 0 4) 4

pub flip_bytes_64 : ℕ → ℕ
unfolding flip_bytes_inplace bytes_of number_at
flip_bytes_64 x = number_at (flip_bytes_inplace (bytes_of x) 0 8) 8
