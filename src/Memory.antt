-- ===== src/Memory.antt =====
-- The routines on raw memory of kernel/utilities/string.c. Memory is a function from addresses to
-- bytes; an object does not run over the end of the address space, so `p++` is `p + 1`. A routine
-- that returns its own `dst` returns the memory alone.
pub mod Copy
pub mod Compare
mod Tests
use kalorona_kernel.Common.{ℕ, zero, suc, ◌+◌, ◌%◌, ltb, ◌==◌, if◌then◌else◌, write}
use kalorona_kernel.Common.Int.{ℤ, pos, negsuc}

abbrev pub Memory : Type 0
Memory = ℕ → ℕ

pub memset : Memory → ℕ → ℕ → ℕ → Memory
unfolding write
memset m dst val zero = m
memset m dst val (suc siz) = memset (write m dst (val % 256)) (dst + 1) val siz

unfoldable pub memcpy : Memory → ℕ → ℕ → ℕ → Memory
unfolding write
memcpy m dst src zero = m
memcpy m dst src (suc siz) = memcpy (write m dst (m src)) (dst + 1) (src + 1) siz

-- the loop of `memmove` that runs from the last byte down: `p1` is `dst + siz - 1`
memcpy_down : Memory → ℕ → ℕ → ℕ → Memory
unfolding write
memcpy_down m dst src zero = m
memcpy_down m dst src (suc siz) = memcpy_down (write m (dst + siz) (m (src + siz))) dst src siz

pub memmove : Memory → ℕ → ℕ → ℕ → Memory
unfolding memcpy memcpy_down
memmove m dst src siz =
    if dst == src
    then m
    else if ltb dst src
    then memcpy m dst src siz
    else memcpy_down m dst src siz

memcmp_from : Memory → ℕ → ℕ → ℕ → ℤ
memcmp_from m lhs rhs zero = pos 0
memcmp_from m lhs rhs (suc rest) =
    let next = memcmp_from m (lhs + 1) (rhs + 1) rest in
    if ltb (m lhs) (m rhs) then negsuc 0 else if ltb (m rhs) (m lhs) then pos 1 else next

-- `i` of the loop is the distance run, so each round has both pointers one further.
pub memcmp : Memory → ℕ → ℕ → ℕ → ℤ
unfolding memcmp_from
memcmp m lhs rhs siz = memcmp_from m lhs rhs siz

memchr_from : Memory → ℕ → ℕ → ℕ → ℕ
memchr_from m p c zero = 0
memchr_from m p c (suc rest) =
    let next = memchr_from m (p + 1) c rest in if m p == c then p else next

-- NULL is 0.
pub memchr : Memory → ℕ → ℕ → ℕ → ℕ
unfolding memchr_from
memchr m ptr ch siz = memchr_from m ptr (ch % 256) siz
