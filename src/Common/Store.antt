-- ===== src/Common/Store.antt =====
-- A memory region as a function of the offset, and one write to it.
use Prim.Native.Nat.{ℕ, compare, Ordering}
use mathlib.Core.Path.{◌≡◌}
use mathlib.Core.Logic.{◌≢◌}
use native.Mathlib.Omega.{arith}

module _ {ℓ} {A : Type ℓ} where
  unfoldable pub write : (ℕ → A) → ℕ → A → ℕ → A
  write m i v j = elim (compare j i) [ Ordering.eq ↦ v | _ ↦ m j ]

  pub write_self : (m : ℕ → A) (i : ℕ) (v : A) → write m i v i ≡ v
  unfolding write
  write_self m i v = ground arith

  pub write_ne : (m : ℕ → A) (i j : ℕ) (v : A) → j ≢ i → write m i v j ≡ m j
  unfolding write
  write_ne m i j v h = ground arith

  -- The second of two writes to an address counts.
  write_twice : (m : ℕ → A) (i : ℕ) (v w : A) (j : ℕ) → write (write m i v) i w j ≡ write m i w j
  unfolding write
  write_twice m i v w j = ground arith

  pub write-write : (m : ℕ → A) (i : ℕ) (v w : A) → write (write m i v) i w ≡ write m i w
  write-write m i v w k j = write_twice m i v w j k
