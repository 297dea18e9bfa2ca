-- ===== src/Sort/Shuffle.antt =====
-- Exchanges inside a range: the elements of the range stay the same.
use kalorona_kernel.Common.{
  ℕ, zero, suc, ◌+◌, ◌≤◌, ◌<◌, ◌≡◌, ◌≢◌, refl, ◌∙◌, ap, sym, Bool, arith, if◌then◌else◌, ◌⊎◌, inl,
  inr, write, write_self, write_ne, ℕ_discrete, dec_lt,
}
use kalorona_kernel.Sort.{swap}

module _ {ℓ} {A : Type ℓ} where
  -- How many of the first `n` elements have a property.
  abbrev pub count : (A → Bool) → (ℕ → A) → ℕ → ℕ
  count p arr zero = 0
  count p arr (suc n) = (if p (arr n) then 1 else 0) + count p arr n

  pub record Shuffled (arr : ℕ → A) (low end : ℕ) (arr' : ℕ → A) : Type ℓ where
    pub outside : (i : ℕ) → (i < low) ⊎ (end ≤ i) → arr' i ≡ arr i
    pub inside : (i : ℕ) → low ≤ i → i < end → (j : ℕ) × (low ≤ j) × (j < end) × (arr' i ≡ arr j)
    pub counts : (p : A → Bool) (n : ℕ) → end ≤ n → count p arr' n ≡ count p arr n

  count-write_out :
      (p : A → Bool) (arr : ℕ → A) (i : ℕ) (v : A) (n : ℕ)
      → n ≤ i
      → count p (write arr i v) n ≡ count p arr n
  count-write_out p arr i v zero h = refl
  count-write_out p arr i v (suc n) h =
      rw (write_ne arr i n v (λ e. omega arith)) (
        ap (λ (c : ℕ). (if p (arr n) then 1 else 0) + c)
          (count-write_out p arr i v n (omega arith)))

  count-write :
      (p : A → Bool) (arr : ℕ → A) (i : ℕ) (v : A) (n : ℕ)
      → i < n
      → count p (write arr i v) n + (if p (arr i) then 1 else 0)
        ≡ count p arr n + (if p v then 1 else 0)
  count-write p arr i v zero h = absurd (omega arith)
  count-write p arr i v (suc n) h = elim (ℕ_discrete i n) [
    | yes e ↦
        rw
          (
            ap (write arr i v) (sym e) ∙ write_self arr i v,
            ap arr e,
            count-write_out p arr i v n (omega (arith, e)),
          )
          (omega arith)
    | no ne ↦
        rw (write_ne arr i n v (λ e. ne (sym e)))
          (omega (arith, count-write p arr i v n (omega arith)))
  ]

  pub swap_left : (arr : ℕ → A) (i j : ℕ) → swap arr i j i ≡ arr j
  unfolding swap
  swap_left arr i j = elim (ℕ_discrete i j) [
    | yes e ↦
        ap (write (write arr i (arr j)) j (arr i)) e
        ∙ write_self (write arr i (arr j)) j (arr i)
        ∙ ap arr e
    | no ne ↦ write_ne (write arr i (arr j)) j i (arr i) ne ∙ write_self arr i (arr j)
  ]

  pub swap_right : (arr : ℕ → A) (i j : ℕ) → swap arr i j j ≡ arr i
  unfolding swap
  swap_right arr i j = write_self (write arr i (arr j)) j (arr i)

  pub swap_other : (arr : ℕ → A) (i j k : ℕ) → k ≢ i → k ≢ j → swap arr i j k ≡ arr k
  unfolding swap
  swap_other arr i j k ni nj =
      write_ne (write arr i (arr j)) j k (arr i) nj ∙ write_ne arr i k (arr j) ni

  pub swap-Shuffled :
      (arr : ℕ → A) (low end i j : ℕ)
      → low ≤ i
      → i < end
      → low ≤ j
      → j < end
      → Shuffled arr low end (swap arr i j)
  unfolding swap
  swap-Shuffled arr low end i j li hi lj hj = record {
    outside = λ k h.
        let l : k ≢ j =
          λ e. elim h [ inl a ↦ absurd (omega arith) | inr a ↦ absurd (omega arith) ] in
        let m : k ≢ i =
          λ e. elim h [ inl a ↦ absurd (omega arith) | inr a ↦ absurd (omega arith) ] in
        swap_other arr i j k m l;
    inside = λ k lk hk. elim (ℕ_discrete k j) [
      | yes e ↦ (i, li, hi, ap (swap arr i j) e ∙ swap_right arr i j)
      | no ne ↦ elim (ℕ_discrete k i) [
        | yes e ↦ (j, lj, hj, ap (swap arr i j) e ∙ swap_left arr i j)
        | no nf ↦ (k, lk, hk, swap_other arr i j k nf ne)
      ]
    ];
    counts = λ p n h.
        let one = count-write p arr i (arr j) n (omega arith) in
        let two = count-write p (write arr i (arr j)) j (arr i) n (omega arith) in
        let at : write arr i (arr j) j ≡ arr j = elim (ℕ_discrete j i) [
          | yes e ↦ ap (write arr i (arr j)) e ∙ write_self arr i (arr j)
          | no ne ↦ write_ne arr i j (arr j) ne
        ] in
        omega (arith, one, two, ap {B = ℕ} (λ (a : A). if p a then 1 else 0) at);
  }

  pub Shuffled-refl : (arr : ℕ → A) (low end : ℕ) → Shuffled arr low end arr
  Shuffled-refl arr low end = record {
    outside = λ i h. refl;
    inside = λ i lo hi. (i, lo, hi, refl);
    counts = λ p n h. refl;
  }

  pub Shuffled-trans :
      {a b c : ℕ → A} {low end : ℕ}
      → Shuffled a low end b
      → Shuffled b low end c
      → Shuffled a low end c
  Shuffled-trans x y = record {
    outside = λ i h. y.outside i h ∙ x.outside i h;
    inside = λ i lo hi.
        let (j, lj, hj, e) = y.inside i lo hi in
        let (k, lk, hk, f) = x.inside j lj hj in (k, lk, hk, e ∙ f);
    counts = λ p n h. y.counts p n h ∙ x.counts p n h;
  }

  -- A larger range.
  pub Shuffled-wider :
      {a b : ℕ → A} {low end : ℕ} (low' end' : ℕ)
      → low' ≤ low
      → end ≤ end'
      → Shuffled a low end b
      → Shuffled a low' end' b
  Shuffled-wider {low} {end} low' end' hl he x = record {
    outside = λ i h. x.outside i (elim h [ inl l ↦ inl (omega arith) | inr r ↦ inr (omega arith) ]);
    inside = λ i lo hi. elim (dec_lt i low) [
      | yes l ↦ (i, lo, hi, x.outside i (inl l))
      | no nl ↦ elim (dec_lt i end) [
        | yes r ↦
            let (j, lj, hj, e) = x.inside i (omega arith) r in (j, omega arith, omega arith, e)
        | no nr ↦ (i, lo, hi, x.outside i (inr (omega arith)))
      ]
    ];
    counts = λ p n h. x.counts p n (omega arith);
  }
