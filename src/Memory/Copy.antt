-- ===== src/Memory/Copy.antt =====
-- kernel/utilities/string.c: what `memset`, `memcpy` and `memmove` leave in memory.
use kalorona_kernel.Common.{
  ℕ, zero, suc, ◌+◌, ◌-◌, ◌%◌, ◌≤◌, ◌≡◌, ◌⊎◌, inl, inr, ◌&&◌, arith, leb, ltb, ◌==◌, if◌then◌else◌,
  write, Bool-cases, ap, ==_iff, ◌∙◌,
}
use kalorona_kernel.Memory.{Memory, memset, memcpy, memcpy_down, memmove}

-- `memset` writes the low byte of `val` at every address of the range and nowhere else.
pub memset_lem :
    (m : Memory) (dst val siz j : ℕ)
    → memset m dst val siz j ≡ (if leb dst j && ltb j (dst + siz) then val % 256 else m j)
unfolding memset
memset_lem m dst val zero j = ground arith
memset_lem m dst val (suc siz) j =
    ground (arith, memset_lem (write m dst (val % 256)) (dst + 1) val siz j)

-- the memory with the `siz` bytes from `src` copied to `dst`, all read before any is written
abbrev pub copied : Memory → ℕ → ℕ → ℕ → Memory
copied m dst src siz j = if leb dst j && ltb j (dst + siz) then m (src + (j - dst)) else m j

-- The destination does not lie inside the source, behind its start.
abbrev pub Forward : ℕ → ℕ → ℕ → Type 0
Forward dst src siz = (dst ≤ src) ⊎ (src + siz ≤ dst)

Forward-suc : (dst src siz : ℕ) → Forward dst src (suc siz) → Forward (dst + 1) (src + 1) siz
Forward-suc dst src siz (inl p) = inl (omega arith)
Forward-suc dst src siz (inr p) = inr (omega arith)

-- The first byte that a forward copy writes is none that it has yet to read.
copied-suc :
    (m : Memory) (dst src siz j : ℕ)
    → Forward dst src (suc siz)
    → copied (write m dst (m src)) (dst + 1) (src + 1) siz j ≡ copied m dst src (suc siz) j
unfolding write
copied-suc m dst src siz j (inl p) = ground arith
copied-suc m dst src siz j (inr p) = ground arith

-- `memcpy` copies the range if its destination does not lie inside its source, behind the start.
pub memcpy_lem :
    (m : Memory) (dst src siz : ℕ)
    → (dst ≤ src) ⊎ (src + siz ≤ dst)
    → (j : ℕ) → memcpy m dst src siz j ≡ copied m dst src siz j
unfolding memcpy
memcpy_lem m dst src zero h j = ground arith
memcpy_lem m dst src (suc siz) h j =
    memcpy_lem (write m dst (m src)) (dst + 1) (src + 1) siz (Forward-suc dst src siz h) j
    ∙ copied-suc m dst src siz j h

memcpy_down_lem :
    (m : Memory) (dst src siz : ℕ)
    → src ≤ dst
    → (j : ℕ) → memcpy_down m dst src siz j ≡ copied m dst src siz j
unfolding memcpy_down
memcpy_down_lem m dst src zero h j = ground arith
memcpy_down_lem m dst src (suc siz) h j =
    ground (arith, memcpy_down_lem (write m (dst + siz) (m (src + siz))) dst src siz h j)

-- `memmove` copies the range whether or not source and destination overlap.
pub memmove_lem :
    (m : Memory) (dst src siz j : ℕ) → memmove m dst src siz j ≡ copied m dst src siz j
unfolding memmove
memmove_lem m dst src siz j = elim (Bool-cases (dst == src)) [
  | inl e ↦ rw e (ground (arith, ap m ((==_iff dst src).0 e)))
  | inr n ↦ rw n (elim (Bool-cases (ltb dst src)) [
    | inl lt ↦ rw lt (memcpy_lem m dst src siz (inl (ground arith)) j)
    | inr ge ↦ rw ge (memcpy_down_lem m dst src siz (ground arith) j)
  ])
]
