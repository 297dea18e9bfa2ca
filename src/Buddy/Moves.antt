-- ===== src/Buddy/Moves.antt =====
-- Taking a free block off its list, and putting one on it.
use kalorona_kernel.Common.{
  ℕ, ◌+◌, ◌*◌, ◌/◌, ◌^◌, ◌≤◌, ◌<◌, ◌≡◌, ◌≢◌, refl, ◌∙◌, ap, sym, subst, false, ◌==◌, ◌&&◌, not,
  List, ◌∷◌, ◌++◌, map, arith, write, ℕ_discrete, Bool-cases, inl, inr, done,
}
use kalorona_kernel.Bitmap.{BitMap}
use kalorona_kernel.LinkedList.{Links, list_detach, list_insert}
use kalorona_kernel.LinkedList.Chain.{has, ◌∈◌, ◌∉◌, Distinct, IsChain}
use kalorona_kernel.LinkedList.Detach.{list_detach_lem}
use kalorona_kernel.LinkedList.Insert.{list_insert_lem}
use kalorona_kernel.Buddy.Blocks.{
  page_at, nodes, count, cover-one, has-split, has-without, map-has, Distinct-map, pow-pos,
}
use mathlib.Core.List.{map-append}
use native.Mathlib.Nat.{mul-div_left}
use kalorona_kernel.Buddy.Lists.{Holds, relist, other_list}

module _ (begin_ppn num_ppn : ℕ) (list_head : ℕ → ℕ) where
  module _ {extra : ℕ → ℕ} {m : BitMap} {l : Links} {free : ℕ → List ℕ}
      (h : Holds begin_ppn num_ppn list_head extra m l free) where
    -- `list_detach` of a free block takes it off its list; its pages are now `extra` ones.
    pub detach_block :
        (o b : ℕ)
        → o < 11
        → b ∈ free o
        → (g : Links) × (list_detach l (page_at begin_ppn (b * 2 ^ o)) ≡ done g)
          × (bs : List ℕ) × ((x : ℕ) → has x bs ≡ (has x (free o) && not (x == b)))
          × Holds begin_ppn num_ppn list_head
              (λ pn. extra pn + count (pn / 2 ^ o == b))
              m
              g
              (write free o bs)
    detach_block o b lo i =
        let f : ℕ → ℕ = λ b. page_at begin_ppn (b * 2 ^ o) in
        let (ps, qs, e) = has-split b (free o) i in
        let cut : nodes begin_ppn o (free o) ≡ map f ps ++ f b ∷ map f qs =
          ap (map f) e ∙ map-append f ps (b ∷ qs) in
        let chain = subst (IsChain l (list_head o)) cut (h.chained o lo) in
        let (g, run, chain', nulls, same) = list_detach_lem (map f ps) (f b) (map f qs) chain in
        let unique : Distinct (ps ++ b ∷ qs) =
          subst Distinct e (Distinct-map f (free o) (h.chained o lo).distinct.1) in
        let without : (x : ℕ) → has x (ps ++ qs) ≡ (has x (free o) && not (x == b)) =
          λ x. has-without b ps qs x unique ∙ ap (λ c. has x c && not (x == b)) (sym e) in
        (
          g,
          run,
          ps ++ qs,
          without,
          relist begin_ppn num_ppn list_head h (λ pn. extra pn + count (pn / 2 ^ o == b)) g o
              (ps ++ qs) lo (subst (IsChain g (list_head o)) (sym (map-append f ps qs)) chain')
              (λ q a lq ne j. same a (
                subst (λ c. a ∉ list_head o ∷ c) cut
                  (other_list begin_ppn num_ppn list_head h o q a lo lq ne j)))
              (λ c j. h.inside o c lo (ground (arith, without c)))
              (λ pn lp. moved (ps ++ qs) pn (without (pn / 2 ^ o))),
        )
      where
        moved :
            (bs : List ℕ) (pn : ℕ)
            → has (pn / 2 ^ o) bs ≡ (has (pn / 2 ^ o) (free o) && not (pn / 2 ^ o == b))
            → count (has (pn / 2 ^ o) (free o)) + extra pn
              ≡ count (has (pn / 2 ^ o) bs) + (extra pn + count (pn / 2 ^ o == b))
        moved bs pn w = ground (arith, w, ap (λ c. has c (free o)), i)

    -- A page that is an `extra` one lies in no free block.
    outside : (pn o b : ℕ) → pn < num_ppn → 1 ≤ extra pn → o < 11 → b ∈ free o → pn ≢ b * 2 ^ o
    outside pn o b lp x lo i e =
        let back : pn / 2 ^ o ≡ b = ap (λ (t : ℕ). t / 2 ^ o) e ∙ mul-div_left b (pow-pos o) in
        ground (arith, h.once pn lp, cover-one free 11 o pn lo, ap (λ t. has t (free o)) back)

    node_free :
        (pn o a : ℕ)
        → pn < num_ppn
        → 1 ≤ extra pn
        → o < 11
        → a ∈ list_head o ∷ nodes begin_ppn o (free o)
        → a ≢ page_at begin_ppn pn
    node_free pn o a lp x lo i e = elim (ℕ_discrete a (list_head o)) [
      | yes eh ↦ h.placed.heads_apart o pn lo lp (sym eh ∙ e)
      | no d ↦
          let (b, bi, be) =
            map-has (λ b. page_at begin_ppn (b * 2 ^ o)) a (free o) (ground arith) in
          outside pn o b lp x lo bi (omega arith)
    ]

    -- `list_insert` of a block of `extra` pages puts it on the list.
    pub insert_block :
        (extra' : ℕ → ℕ) (o b : ℕ)
        → o < 11
        → b * 2 ^ o + 2 ^ o ≤ num_ppn
        → ((pn : ℕ) → pn < num_ppn → extra pn ≡ extra' pn + count (pn / 2 ^ o == b))
        → (g : Links) × (list_insert l (list_head o) (page_at begin_ppn (b * 2 ^ o)) ≡ done g)
          × Holds begin_ppn num_ppn list_head extra' m g (write free o (b ∷ free o))
    insert_block extra' o b lo ins given =
        let pn = b * 2 ^ o in
        let lp : pn < num_ppn = omega (arith, pow-pos o) in
        let held : 1 ≤ extra pn = ground (arith, given pn lp, mul-div_left b (pow-pos o)) in
        let new : (q a : ℕ)
            → q < 11
            → a ∈ list_head q ∷ nodes begin_ppn q (free q)
            → a ≢ page_at begin_ppn pn =
          λ q a lq i. node_free pn q a lp held lq i in
        let fresh : page_at begin_ppn pn ∉ list_head o ∷ nodes begin_ppn o (free o) =
          elim (Bool-cases
            (has (page_at begin_ppn pn) (list_head o ∷ nodes begin_ppn o (free o)))) [
              | inl i ↦ absurd (new o (page_at begin_ppn pn) lo i refl)
              | inr n ↦ n
            ] in
        let (g, run, chain, same) =
          list_insert_lem (nodes begin_ppn o (free o)) (page_at begin_ppn pn) (h.chained o lo)
            (omega arith) fresh in
        (
          g,
          run,
          relist begin_ppn num_ppn list_head h extra' g o (b ∷ free o) lo chain
              (λ q a lq ne i. same a (
                ground
                  (arith, other_list begin_ppn num_ppn list_head h o q a lo lq ne i, new q a lq i)))
              (λ c i. ground (arith, ap (λ (t : ℕ). t * 2 ^ o) {x = c} {y = b}, h.inside o c lo))
              (λ p lq. ground (arith, given p lq, once_new p lq)),
        )
      where
        once_new : (p : ℕ) → p < num_ppn → 1 ≤ extra p → has (p / 2 ^ o) (free o) ≡ false
        once_new p lp x = ground (arith, h.once p lp, cover-one free 11 o p lo)

    pub block_free : (o b : ℕ) → o < 11 → b * 2 ^ o < num_ppn → 1 ≤ extra (b * 2 ^ o) → b ∉ free o
    block_free o b lo lp x = elim (Bool-cases (has b (free o))) [
      | inl i ↦ absurd (outside (b * 2 ^ o) o b lp x lo i refl)
      | inr n ↦ n
    ]

    -- Only the pages of the node matter to `extra`.
    pub Holds-extra :
        (extra' : ℕ → ℕ)
        → ((pn : ℕ) → pn < num_ppn → extra pn ≡ extra' pn)
        → Holds begin_ppn num_ppn list_head extra' m l free
    Holds-extra extra' e = record {
      placed = h.placed;
      chained = h.chained;
      inside = h.inside;
      once = λ pn lp. omega (arith, e pn lp, h.once pn lp);
      bytes = h.bytes;
    }
