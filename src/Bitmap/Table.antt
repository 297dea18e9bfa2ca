-- ===== src/Bitmap/Table.antt =====
-- What `|`, `&` and `^` with one bit do to each bit of a byte, by evaluation over all bytes.
use kalorona_kernel.Common.{
  ℕ, zero, suc, ◌-◌, ◌^◌, ◌/◌, ◌<◌, bit_and, bit_or, bit_xor, ◌≡◌, refl, Bool, true, ◌&&◌, arith,
  ◌==◌, ltb, ltb→lt, ℕ_discrete, ap, ◌∙◌, ==_iff, if◌then◌else◌,
}

and_true : (p q : Bool) → (p && q) ≡ true → (p ≡ true) × (q ≡ true)
and_true p q h = ground arith

every_under : (ℕ → Bool) → ℕ → Bool
every_under test zero = true
every_under test (suc k) = every_under test k && test k

every_under-at : (test : ℕ → Bool) (k n : ℕ) → every_under test k ≡ true → n < k → test n ≡ true
unfolding every_under
every_under-at test zero n all lt = elim lt [ ]
every_under-at test (suc k) n all lt =
    let (before, here) = and_true (every_under test k) (test k) all in
    elim (ℕ_discrete n k) [
      | yes last ↦ ap test last ∙ here
      | no other ↦ every_under-at test k n before (omega arith)
    ]

abbrev row : (ℕ → ℕ) → ℕ → (ℕ → ℕ) → ℕ → Bool
row f k new b =
    ltb (f b) 256
    && every_under
        (λ j.
          bit_and (f b / 2 ^ j) 1
          == (if j == k then new (bit_and (b / 2 ^ k) 1) else bit_and (b / 2 ^ j) 1))
        8

abbrev table : (ℕ → ℕ → ℕ) → (ℕ → ℕ) → Bool
table f new = every_under (λ k. every_under (row (λ b. f b k) k new) 256) 8

row_lem :
    (f : ℕ → ℕ → ℕ) (new : ℕ → ℕ) (b k j : ℕ)
    → table f new ≡ true
    → b < 256
    → k < 8
    → j < 8
    → (f b k < 256)
      × (bit_and (f b k / 2 ^ j) 1
          ≡ (if j == k then new (bit_and (b / 2 ^ k) 1) else bit_and (b / 2 ^ j) 1))
row_lem f new b k j t hb hk hj =
    let r = every_under-at _ 256 b (every_under-at _ 8 k t hk) hb in
    (ltb→lt _ _ (and_true _ _ r).0, (==_iff _ _).0 (every_under-at _ 8 j (and_true _ _ r).1 hj))

module _ (b k j : ℕ) (hb : b < 256) (hk : k < 8) (hj : j < 8) where
  pub bit_or_row :
      (bit_or b (2 ^ k) < 256)
      × (bit_and (bit_or b (2 ^ k) / 2 ^ j) 1 ≡ (if j == k then 1 else bit_and (b / 2 ^ j) 1))
  unfolding every_under
  bit_or_row = row_lem (λ c i. bit_or c (2 ^ i)) (λ _. 1) b k j refl hb hk hj

  pub bit_and_row :
      (bit_and b (255 - 2 ^ k) < 256)
      × (bit_and (bit_and b (255 - 2 ^ k) / 2 ^ j) 1
          ≡ (if j == k then 0 else bit_and (b / 2 ^ j) 1))
  unfolding every_under
  bit_and_row = row_lem (λ c i. bit_and c (255 - 2 ^ i)) (λ _. 0) b k j refl hb hk hj

  pub bit_xor_row :
      (bit_xor b (2 ^ k) < 256)
      × (bit_and (bit_xor b (2 ^ k) / 2 ^ j) 1
          ≡ (if j == k then 1 - bit_and (b / 2 ^ k) 1 else bit_and (b / 2 ^ j) 1))
  unfolding every_under
  bit_xor_row = row_lem (λ c i. bit_xor c (2 ^ i)) (λ old. 1 - old) b k j refl hb hk hj
