-- ===== src/Object/Disjoint.antt =====
-- Objects in use share no memory.
use kalorona_kernel.Common.{
  ℕ, ◌+◌, ◌*◌, ◌≤◌, ◌<◌, ◌≡◌, ◌≢◌, ◌∙◌, ap, sym, Bool, true, ◌||◌, leb, List, [], ◌∷◌, ◌++◌, arith,
  inl, inr, Bool-cases, dec_lt,
}
use kalorona_kernel.LinkedList.Chain.{has}
use kalorona_kernel.Object.{Objects, block_size}
use kalorona_kernel.Object.Managed.{BlockView, own, apart_from, Linked}
use kalorona_kernel.Object.Alloc.{in_use, apart_from-one, Linked-at}
use native.Mathlib.Nat.{mul-le-mul_right}

-- Two stretches of `unit` bytes do not meet.
abbrev pub separate : ℕ → ℕ → ℕ → Bool
separate unit a b = leb (a + unit) b || leb (b + unit) a

multiples : (unit p i j : ℕ) → i ≢ j → separate unit (p + i * unit) (p + j * unit) ≡ true
multiples unit p i j ne = elim (dec_lt i j) [
  | yes l ↦ let m : (i + 1) * unit ≤ j * unit = mul-le-mul_right unit (omega arith) in ground arith
  | no nl ↦ let m : (j + 1) * unit ≤ i * unit = mul-le-mul_right unit (omega arith) in ground arith
]

-- An object in use elsewhere lies before `lo` or from `hi` on.
in_use-elsewhere :
    (s : Objects) (unit lo hi at : ℕ) (vs : List BlockView) (a : ℕ)
    → Linked s unit at vs
    → apart_from lo hi vs ≡ true
    → in_use vs a ≡ true
    → (leb (a + unit) lo || leb hi a) ≡ true
in_use-elsewhere s unit lo hi at [] a linked far i = absurd (ground arith)
in_use-elsewhere s unit lo hi at (v ∷ vs) a (at_is, ok, p, apart, rest) far i =
    elim (Bool-cases (has a v.allocated)) [
      | inl k ↦
          let (j, here, end) = p.spaced a (ground arith) in
          let in_span = p.inside a (ground arith) in ground arith
      | inr k ↦
          in_use-elsewhere s unit lo hi (s.block v.blk).block_nxt vs a rest (ground arith)
            (ground arith)
    ]

pub in_use-separate :
    (s : Objects) (unit at : ℕ) (vs : List BlockView) (a b : ℕ)
    → Linked s unit at vs
    → in_use vs a ≡ true
    → in_use vs b ≡ true
    → a ≢ b
    → separate unit a b ≡ true
in_use-separate s unit at [] a b linked i k ne = absurd (ground arith)
in_use-separate s unit at (v ∷ vs) a b (at_is, ok, p, apart, rest) i k ne =
    let next = (s.block v.blk).block_nxt in
    let elsewhere = λ (c : ℕ). in_use-elsewhere s unit v.blk v.page_end next vs c rest apart in
    elim (Bool-cases (has a v.allocated)) [
      | inl x ↦ elim (Bool-cases (has b v.allocated)) [
        | inl y ↦
            let (j, a_is, a_end) = p.spaced a (ground arith) in
            let (l, b_is, b_end) = p.spaced b (ground arith) in
            let nj : j ≢ l =
              λ e. ne (a_is ∙ ap (λ (n : ℕ). v.blk + block_size + n * unit) e ∙ sym b_is) in
            ground (arith, multiples unit (v.blk + block_size) j l nj)
        | inr y ↦
            let (j, a_is, a_end) = p.spaced a (ground arith) in
            let in_span = p.inside a (ground arith) in ground (arith, elsewhere b)
      ]
      | inr x ↦ elim (Bool-cases (has b v.allocated)) [
        | inl y ↦
            let (j, b_is, b_end) = p.spaced b (ground arith) in
            let in_span = p.inside b (ground arith) in ground (arith, elsewhere a)
        | inr y ↦ in_use-separate s unit next vs a b rest (ground arith) (ground arith) ne
      ]
    ]

-- A header of a block of the list is in use exactly if the block has it among its allocated ones.
pub in_use-own :
    (s : Objects) (unit at : ℕ) (us : List BlockView) (v : BlockView) (ws : List BlockView) (a : ℕ)
    → 0 < unit
    → Linked s unit at (us ++ v ∷ ws)
    → own v a ≡ true
    → in_use (us ++ v ∷ ws) a ≡ has a v.allocated
in_use-own s unit at [] v ws a some_unit (at_is, ok, p, apart, rest) o =
    elim (Bool-cases (in_use ws a)) [
      | inl i ↦
          let far =
            in_use-elsewhere s unit v.blk v.page_end (s.block v.blk).block_nxt ws a rest apart i in
          let in_span = p.inside a o in absurd (ground arith)
      | inr n ↦ ground arith
    ]
in_use-own s unit at (u ∷ us) v ws a some_unit (at_is, ok, p, apart, rest) o =
    elim (Bool-cases (has a u.allocated)) [
      | inl i ↦
          let far = apart_from-one u.blk u.page_end us v ws apart in
          let in_u = p.inside a (ground arith) in
          let in_v = (Linked-at s unit (s.block u.blk).block_nxt us v ws rest).1.inside a o in
          absurd (ground arith)
      | inr n ↦
          ground (arith, in_use-own s unit (s.block u.blk).block_nxt us v ws a some_unit rest o)
    ]
