-- ===== src/Bootmem/Scan.antt =====
-- The scan of `bootmem_alloc` for a run of free pages.
use kalorona_kernel.Common.{
  ℕ, zero, suc, ◌+◌, ◌-◌, leb, ◌==◌, ◌||◌, not, Bool, true, false, if◌then◌else◌, Option, none,
  some,
}
use kalorona_kernel.Common.Word.{add64}
use kalorona_kernel.Bitmap.{BitMap, test_bit}

module _ (m : BitMap) (num : ℕ) where
  -- the loop on `j`: the value of `found` after the rounds left
  unfoldable pub area_free : ℕ → ℕ → Bool
  area_free zero j = true
  area_free (suc rounds) j =
      let rest = area_free rounds (j + 1) in
      if leb num j || not (test_bit m j == 0) then false else rest

  module _ (area_size : ℕ) where
    -- The loop on `i`, which stays below `num`. That on `j` runs from `i + 1` to below `i + area_size`.
    unfoldable pub find_spot : ℕ → ℕ → Option ℕ
    unfolding area_free
    find_spot zero i = none
    find_spot (suc rounds) i =
        let rest = find_spot rounds (i + 1) in
        let found = area_free (add64 i area_size - add64 i 1) (add64 i 1) in
        if not (test_bit m i == 0) then rest else if found then some i else rest

    -- the loop on `b` over the two starts
    unfoldable pub find_spots : ℕ → ℕ → Option ℕ
    unfolding find_spot
    find_spots preferred offset = elim (find_spot (num - preferred) preferred) [
      | some spot ↦ some spot
      | none ↦ find_spot (num - offset) offset
    ]
