-- ===== src/Memory/Compare.antt =====
-- kernel/utilities/string.c: `memcmp` orders two ranges by their first difference, and `memchr`
-- finds the first byte.
use kalorona_kernel.Common.{
  ℕ, zero, suc, ◌+◌, ◌%◌, ◌≤◌, ◌<◌, ◌≡◌, ◌≢◌, ◌∙◌, ap, arith, ltb, ◌==◌, ltb→lt, Bool-cases,
  ℕ_discrete, inl, inr,
}
use kalorona_kernel.Common.Int.{ℤ, pos, negsuc}
use kalorona_kernel.Memory.{Memory, memcmp, memcmp_from, memchr, memchr_from}

-- The ranges agree below `i`.
abbrev pub AgreeBelow : Memory → ℕ → ℕ → ℕ → Type 0
AgreeBelow m lhs rhs i = (j : ℕ) → j < i → m (lhs + j) ≡ m (rhs + j)

-- What a comparison of two ranges says: they agree, or they first differ at byte `i`, in the
-- order that the sign of the result gives.
pub data Compared (m : Memory) (lhs rhs siz : ℕ) : ℤ → Type 0 where
  same : AgreeBelow m lhs rhs siz → Compared m lhs rhs siz (pos 0)
  less :
      (i : ℕ)
      → i < siz
      → AgreeBelow m lhs rhs i
      → m (lhs + i) < m (rhs + i)
      → Compared m lhs rhs siz (negsuc 0)
  more :
      (i : ℕ)
      → i < siz
      → AgreeBelow m lhs rhs i
      → m (rhs + i) < m (lhs + i)
      → Compared m lhs rhs siz (pos 1)

module _ (m : Memory) where
  -- The first bytes agree, and so do the ranges behind them.
  AgreeBelow-suc :
      (lhs rhs i : ℕ)
      → m lhs ≡ m rhs
      → AgreeBelow m (lhs + 1) (rhs + 1) i
      → AgreeBelow m lhs rhs (i + 1)
  AgreeBelow-suc lhs rhs i e h zero lt =
      ap m {x = lhs + 0} (omega arith) ∙ e ∙ ap m {y = rhs + 0} (omega arith)
  AgreeBelow-suc lhs rhs i e h (suc j) lt =
      ap m {x = lhs + suc j} {y = lhs + 1 + j} (omega arith)
      ∙ h j (omega arith)
      ∙ ap m {y = rhs + suc j} (omega arith)

  shifted : (p i : ℕ) → m (p + 1 + i) ≡ m (p + (i + 1))
  shifted p i = ap m {y = p + (i + 1)} (omega arith)

  Compared-suc :
      (lhs rhs siz : ℕ) {r : ℤ}
      → m lhs ≡ m rhs
      → Compared m (lhs + 1) (rhs + 1) siz r
      → Compared m lhs rhs (suc siz) r
  Compared-suc lhs rhs siz e (same h) =
      same (λ j lt. AgreeBelow-suc lhs rhs siz e h j (omega arith))
  Compared-suc lhs rhs siz e (less i lt h d) =
      less (i + 1) (omega arith) (AgreeBelow-suc lhs rhs i e h)
        (omega (arith, shifted lhs i, shifted rhs i))
  Compared-suc lhs rhs siz e (more i lt h d) =
      more (i + 1) (omega arith) (AgreeBelow-suc lhs rhs i e h)
        (omega (arith, shifted lhs i, shifted rhs i))

  at_start : (p : ℕ) → m (p + 0) ≡ m p
  at_start p = ap m {x = p + 0} (omega arith)

  memcmp_from-Compared : (lhs rhs siz : ℕ) → Compared m lhs rhs siz (memcmp_from m lhs rhs siz)
  unfolding memcmp_from
  memcmp_from-Compared lhs rhs zero = same (λ j lt. absurd (omega arith))
  memcmp_from-Compared lhs rhs (suc siz) = elim (Bool-cases (ltb (m lhs) (m rhs))) [
    | inl l ↦ rw l (
        less 0 (omega arith) (λ j lt. absurd (omega arith))
          (omega (arith, at_start lhs, at_start rhs, ltb→lt _ _ l)))
    | inr nl ↦ rw nl (elim (Bool-cases (ltb (m rhs) (m lhs))) [
      | inl g ↦ rw g (
          more 0 (omega arith) (λ j lt. absurd (omega arith))
            (omega (arith, at_start lhs, at_start rhs, ltb→lt _ _ g)))
      | inr ng ↦
          rw ng
            (Compared-suc lhs rhs siz (ground arith) (memcmp_from-Compared (lhs + 1) (rhs + 1) siz))
    ])
  ]

  -- `memcmp` returns 0 if the ranges agree, and else the sign of their first difference.
  pub memcmp-Compared : (lhs rhs siz : ℕ) → Compared m lhs rhs siz (memcmp m lhs rhs siz)
  unfolding memcmp
  memcmp-Compared lhs rhs siz = memcmp_from-Compared lhs rhs siz

-- What a search for the byte `c` says: there is none, or the first is at `p`.
pub data Found (m : Memory) (ptr c siz : ℕ) : ℕ → Type 0 where
  nowhere : ((j : ℕ) → ptr ≤ j → j < ptr + siz → m j ≢ c) → Found m ptr c siz 0
  first :
      (p : ℕ)
      → ptr ≤ p
      → p < ptr + siz
      → m p ≡ c
      → ((j : ℕ) → ptr ≤ j → j < p → m j ≢ c)
      → Found m ptr c siz p

Found-suc :
    (m : Memory) (ptr c siz : ℕ) {r : ℕ}
    → m ptr ≢ c
    → Found m (ptr + 1) c siz r
    → Found m ptr c (suc siz) r
Found-suc m ptr c siz ne (nowhere h) = nowhere (λ j lo hi e. elim (ℕ_discrete ptr j) [
  | yes s ↦ ne (ap m s ∙ e)
  | no o ↦ h j (omega arith) (omega arith) e
])
Found-suc m ptr c siz ne (first p lo hi e h) =
    first p (omega arith) (omega arith) e (λ j lo' hi' e'. elim (ℕ_discrete ptr j) [
      | yes s ↦ ne (ap m s ∙ e')
      | no o ↦ h j (omega arith) (omega arith) e'
    ])

memchr_from-Found : (m : Memory) (ptr c siz : ℕ) → Found m ptr c siz (memchr_from m ptr c siz)
unfolding memchr_from
memchr_from-Found m ptr c zero = nowhere (λ j lo hi e. absurd (omega arith))
memchr_from-Found m ptr c (suc siz) = elim (Bool-cases (m ptr == c)) [
  | inl e ↦
      rw e (first ptr (omega arith) (omega arith) (ground arith) (λ j lo hi. absurd (omega arith)))
  | inr ne ↦ rw ne (Found-suc m ptr c siz (ground arith) (memchr_from-Found m (ptr + 1) c siz))
]

-- `memchr` returns the first address of the range that holds the low byte of `ch`, and NULL if there
-- is none.
pub memchr-Found : (m : Memory) (ptr ch siz : ℕ) → Found m ptr (ch % 256) siz (memchr m ptr ch siz)
unfolding memchr
memchr-Found m ptr ch siz = memchr_from-Found m ptr (ch % 256) siz
