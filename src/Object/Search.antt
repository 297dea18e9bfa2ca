-- ===== src/Object/Search.antt =====
-- The search for a block with a free slot.
use kalorona_kernel.Common.{
  ℕ, zero, suc, ◌*◌, ◌%◌, ◌^◌, ◌<◌, ◌≡◌, ◌≢◌, refl, ◌∙◌, ap, subst, true, false, ◌==◌, some, List,
  [], ◌∷◌, ◌++◌, arith, ◌⊎◌, inl, inr,
}
use kalorona_kernel.Common.Word.{add64}
use kalorona_kernel.LinkedList.Chain.{IsChain}
use kalorona_kernel.Object.{Objects, find_block}
use kalorona_kernel.Object.Managed.{BlockView, Linked, blocks_of, all_full, is_nil}

find_null :
    (fuel : ℕ) (s : Objects) (unit_size at sum : ℕ)
    → at ≡ 0
    → find_block (suc fuel) s unit_size at sum ≡ some (0, sum)
unfolding find_block
find_null fuel s unit_size at sum e =
    let t : (at == 0) ≡ true = ground arith in rw (find_block, t) refl

find_full :
    (fuel : ℕ) (s : Objects) (unit_size at sum : ℕ)
    → at ≢ 0
    → s.headers.nxt at ≡ 0
    → find_block (suc fuel) s unit_size at sum
      ≡ find_block fuel s unit_size
          (s.block at).block_nxt
          (add64 sum ((s.block at).used * unit_size % 2 ^ 64))
unfolding find_block
find_full fuel s unit_size at sum nz e =
    let t : (at == 0) ≡ false = ground arith in
    let u : (s.headers.nxt at == 0) ≡ true = ground arith in rw (find_block, t, u) refl

find_here :
    (fuel : ℕ) (s : Objects) (unit_size at sum : ℕ)
    → at ≢ 0
    → s.headers.nxt at ≢ 0
    → find_block (suc fuel) s unit_size at sum ≡ some (at, sum)
unfolding find_block
find_here fuel s unit_size at sum nz ne =
    let t : (at == 0) ≡ false = ground arith in
    let u : (s.headers.nxt at == 0) ≡ false = ground arith in rw (find_block, t, u) refl

pub first_of : (xs : List ℕ) → (xs ≡ []) ⊎ ((x : ℕ) × (ys : List ℕ) × (xs ≡ x ∷ ys))
first_of [] = inl refl
first_of (x ∷ xs) = inr (x, xs, refl)

-- With fuel for the blocks, the search ends at the first block with a free slot, or finds all full.
pub find_block_lem :
    (fuel : ℕ) (s : Objects) (unit_size at sum : ℕ) (vs : List BlockView)
    → Linked s unit_size at vs
    → blocks_of vs < fuel
    → ((sum' : ℕ) × (find_block fuel s unit_size at sum ≡ some (0, sum')) × (all_full vs ≡ true))
      ⊎ ((us : List BlockView) × (v : BlockView) × (ws : List BlockView) × (node : ℕ) × (rest : List
            ℕ)
          × (sum' : ℕ) × (vs ≡ us ++ v ∷ ws)
          × (v.free ≡ node ∷ rest)
          × (find_block fuel s unit_size at sum ≡ some (v.blk, sum')))
find_block_lem zero s unit_size at sum vs l h = absurd (omega arith)
find_block_lem (suc fuel) s unit_size at sum [] l h =
    inl (sum, find_null fuel s unit_size at sum l, refl)
find_block_lem (suc fuel) s unit_size at sum (v ∷ vs) (at_is, ok, p, apart, rest) h =
    let nz = ok.free_chain.head_ne_null in
    let start = ap (λ (a : ℕ). find_block (suc fuel) s unit_size a sum) at_is in
    elim (first_of v.free) [
      | inl e ↦
          let none_free = subst (IsChain s.headers v.blk) e ok.free_chain in
          let go = find_full fuel s unit_size v.blk sum nz none_free.ends in
          elim (find_block_lem fuel s unit_size (s.block v.blk).block_nxt
            (add64 sum ((s.block v.blk).used * unit_size % 2 ^ 64)) vs rest (omega arith)) [
              | inl (sum', run, full) ↦
                  inl (sum', start ∙ go ∙ run, ground (arith, full, ap is_nil e))
              | inr (us, w, ws, node, behind, sum', split, here, run) ↦ inr (
                v ∷ us,
                w,
                ws,
                node,
                behind,
                sum',
                ap {B = List BlockView} (λ (xs : List BlockView). v ∷ xs) split,
                here,
                start ∙ go ∙ run,
              )
            ]
      | inr (node, behind, e) ↦
          let chain = subst (IsChain s.headers v.blk) e ok.free_chain in
          let ne : s.headers.nxt v.blk ≢ 0 = omega (arith, chain.joined.0, chain.joined.2) in
          inr (
            [],
            v,
            vs,
            node,
            behind,
            sum,
            refl,
            e,
            start ∙ find_here fuel s unit_size v.blk sum nz ne,
          )
    ]
