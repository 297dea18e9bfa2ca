-- ===== src/Bootmem/Find.antt =====
-- kernel/memory/bootmem.c: the scan of `bootmem_alloc` finds the first run of free pages.
use kalorona_kernel.Common.{
  ℕ, zero, suc, ◌+◌, ◌-◌, ◌≤◌, ◌<◌, ◌^◌, ◌≡◌, ◌≢◌, ◌⊎◌, ℕ_discrete, dec_le, refl, ◌∙◌, Bool, true,
  false, not, arith, ◌==◌, if◌then◌else◌, Option, none, some, Bool-cases, inl, inr, Option-cases,
  ap, subst, sym,
}
use kalorona_kernel.Common.Word.{add64}
use kalorona_kernel.Bitmap.{BitMap, test_bit}
use kalorona_kernel.Bootmem.Bits.{AllAre}
use kalorona_kernel.Bootmem.Scan.{area_free, find_spot, find_spots}

-- From page `spot` on there are `area` pages of the node, all of them free.
pub record FreeRun (m : BitMap) (num spot area : ℕ) : Type 0 where
  pub fits : spot + area ≤ num
  pub free : AllAre 0 spot area m

module _ (m : BitMap) (num : ℕ) where
  area_free-true :
      (rounds j k : ℕ)
      → area_free m num rounds j ≡ true
      → j ≤ k
      → k < j + rounds
      → (k < num) × (test_bit m k ≡ 0)
  unfolding area_free
  area_free-true zero j k h p q = absurd (omega arith)
  area_free-true (suc rounds) j k h p q = ground (arith, area_free-true rounds (j + 1) k)

  area_free_of :
      (rounds j : ℕ)
      → ((k : ℕ) → j ≤ k → k < j + rounds → (k < num) × (test_bit m k ≡ 0))
      → area_free m num rounds j ≡ true
  unfolding area_free
  area_free_of zero j h = refl
  area_free_of (suc rounds) j h =
      ground (arith, h j, area_free_of rounds (j + 1) (λ k p q. h k (omega arith) (omega arith)))

  module _ (area : ℕ) (pos : 0 < area) (small : num + area < 2 ^ 64) where
    rounds_lem : (i : ℕ) → i < num → (add64 i area - add64 i 1 ≡ area - 1) × (add64 i 1 ≡ i + 1)
    rounds_lem i h = omega arith

    -- What one round of the scan tests.
    spot_free : (i : ℕ) → Bool
    spot_free i = area_free m num (area - 1) (i + 1)

    FreeRun-sound : (i : ℕ) → i < num → test_bit m i ≡ 0 → spot_free i ≡ true → FreeRun m num i area
    unfolding spot_free
    FreeRun-sound i h e f = record {
      fits = ground (arith, area_free-true (area - 1) (i + 1) (i + area - 1));
      free = λ j p q. ground (arith, area_free-true (area - 1) (i + 1) j);
    }

    FreeRun-complete : (i : ℕ) → FreeRun m num i area → (test_bit m i ≡ 0) × (spot_free i ≡ true)
    unfolding spot_free
    FreeRun-complete i r = (
      r.free i (omega arith) (omega arith),
      area_free_of (area - 1) (i + 1)
          (λ k p q. (omega (arith, r.fits), r.free k (omega arith) (omega arith))),
    )

    find_spot-suc :
        (rounds i : ℕ)
        → i < num
        → find_spot m num area (suc rounds) i ≡ (
            if not (test_bit m i == 0)
            then find_spot m num area rounds (i + 1)
            else if spot_free i
            then some i
            else find_spot m num area rounds (i + 1))
    unfolding find_spot spot_free
    find_spot-suc rounds i h = rw ((rounds_lem i h).0, (rounds_lem i h).1)

    -- the two ways that a round ends
    find_spot-here :
        (rounds i : ℕ)
        → i < num
        → test_bit m i ≡ 0
        → spot_free i ≡ true
        → find_spot m num area (suc rounds) i ≡ some i
    find_spot-here rounds i h z f = find_spot-suc rounds i h ∙ ground arith

    find_spot-next :
        (rounds i : ℕ)
        → i < num
        → (test_bit m i ≢ 0) ⊎ (spot_free i ≡ false)
        → find_spot m num area (suc rounds) i ≡ find_spot m num area rounds (i + 1)
    find_spot-next rounds i h n = find_spot-suc rounds i h ∙ ground arith

    data Round (i : ℕ) : Type 0 where
      here : test_bit m i ≡ 0 → spot_free i ≡ true → Round i
      next : (test_bit m i ≢ 0) ⊎ (spot_free i ≡ false) → Round i

    Round-of : (i : ℕ) → Round i
    Round-of i = elim (ℕ_discrete (test_bit m i) 0) [
      | no n ↦ next (inl n)
      | yes z ↦ elim (Bool-cases (spot_free i)) [ inl f ↦ here z f | inr n ↦ next (inr n) ]
    ]

    find_spot-some :
        (rounds i spot : ℕ)
        → i + rounds ≤ num
        → find_spot m num area rounds i ≡ some spot
        → FreeRun m num spot area
    find_spot-some zero i spot h e = absurd (unfold find_spot in cc)
    find_spot-some (suc rounds) i spot h e = elim (Round-of i) [
      | here z f ↦
          let same : i ≡ spot = cc (find_spot-here rounds i (omega arith) z f) in
          subst (λ k. FreeRun m num k area) same (FreeRun-sound i (omega arith) z f)
      | next n ↦
          find_spot-some rounds (i + 1) spot (omega arith)
            (sym (find_spot-next rounds i (omega arith) n) ∙ e)
    ]

    find_spot-none :
        (rounds i : ℕ)
        → i + rounds ≤ num
        → find_spot m num area rounds i ≡ none
        → (spot : ℕ) → i ≤ spot
        → spot < i + rounds
        → ¬ FreeRun m num spot area
    find_spot-none zero i h e spot p q r = absurd (omega arith)
    find_spot-none (suc rounds) i h e spot p q r = elim (Round-of i) [
      | here z f ↦ cc (find_spot-here rounds i (omega arith) z f)
      | next n ↦ elim (ℕ_discrete i spot) [
        | yes same ↦
            let at_i : FreeRun m num i area = subst (λ k. FreeRun m num k area) (sym same) r in
            ground (arith, FreeRun-complete i at_i)
        | no other ↦
            find_spot-none rounds (i + 1) (omega arith)
              (sym (find_spot-next rounds i (omega arith) n) ∙ e) spot (omega arith) (omega arith) r
      ]
    ]

    pass-some :
        (start spot : ℕ)
        → find_spot m num area (num - start) start ≡ some spot
        → FreeRun m num spot area
    pass-some start spot e = elim (dec_le start num) [
      | yes h ↦ find_spot-some (num - start) start spot (omega arith) e
      | no h ↦
          let none_left : num - start ≡ 0 = omega arith in
          absurd (unfold find_spot in cc (ap (λ r. find_spot m num area r start) none_left))
    ]

    pass-none :
        (start : ℕ)
        → find_spot m num area (num - start) start ≡ none
        → (spot : ℕ) → start ≤ spot
        → ¬ FreeRun m num spot area
    pass-none start e spot p r =
        find_spot-none (num - start) start (omega (arith, r.fits)) e spot p (omega (arith, r.fits))
          r

    -- What the two passes find is a run of free pages inside the node.
    pub find_spots-some :
        (preferred offset spot : ℕ)
        → find_spots m num area preferred offset ≡ some spot
        → FreeRun m num spot area
    unfolding find_spots
    find_spots-some preferred offset spot e =
        elim (Option-cases (find_spot m num area (num - preferred) preferred)) [
          | inl nothing ↦ pass-some offset spot (rw (nothing, find_spots) at e)
          | inr (s, found) ↦ pass-some preferred spot (found ∙ (rw (found, find_spots) at e))
        ]

    -- If they find none, there is none from the second start on.
    pub find_spots-none :
        (preferred offset : ℕ)
        → find_spots m num area preferred offset ≡ none
        → (spot : ℕ) → offset ≤ spot
        → ¬ FreeRun m num spot area
    unfolding find_spots
    find_spots-none preferred offset e spot p r =
        elim (Option-cases (find_spot m num area (num - preferred) preferred)) [
          | inl nothing ↦ pass-none offset (rw (nothing, find_spots) at e) spot p r
          | inr (s, found) ↦ cc (ap second found)
        ]
      where
        second : Option ℕ → Option ℕ
        second o = elim o [ some s ↦ some s | none ↦ find_spot m num area (num - offset) offset ]
