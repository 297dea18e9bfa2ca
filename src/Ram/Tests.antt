-- ===== src/Ram/Tests.antt =====
-- Runs of `device_calc_available_ram` and of the walk over a small tree.
use kalorona_kernel.Common.{
  ℕ, ◌-◌, ◌==◌, if◌then◌else◌, ◌^◌, ◌≤◌, ◌<◌, ◌≡◌, ◌↔◌, refl, true, arith, Option, some, List, [],
  ◌∷◌, write,
}
use kalorona_kernel.Common.Word.{add64}
use kalorona_kernel.Common.Page.{page_round_down, page_round_up}
use kalorona_kernel.Bootmem.{Segment}
use kalorona_kernel.Sort.{qsort}
use kalorona_kernel.Ram.{Segments, device_calc_available_ram, device_memory_init}
use kalorona_kernel.Ram.Settled.{within}
use kalorona_kernel.Ram.Available.{IsLaidOut, device_calc_available_ram_lem}

-- A megabyte of RAM.
abbrev ram : Segment
ram = record { pa_begin = 0x80000000; pa_len = 0x100000 }

-- half a page of firmware, in the middle
abbrev one_range : Segments
one_range = record { seg_begin = λ i. 0x80020000; seg_end = λ i. 0x80020800; seg_num = 1 }

abbrev one_range-available : Option (List Segment)
one_range-available = device_calc_available_ram 0x80010123 ram one_range

one_range-found :
    one_range-available
    ≡ some (
        record { pa_begin = 0x80011000; pa_len = 0xF000 }
        ∷ record { pa_begin = 0x80021000; pa_len = 0xDF000 }
        ∷ [])
unfolding device_calc_available_ram qsort write page_round_down page_round_up
one_range-found = refl

one_range-IsLaidOut : IsLaidOut 0x80010123 ram one_range
one_range-IsLaidOut = record {
  fits = omega arith;
  page = refl;
  ram_end = omega arith;
  image = omega arith;
  image_end = omega arith;
  from = λ i l. omega arith;
  order = λ i l. omega arith;
  to = λ i l. omega arith;
}

device_calc_available_ram_lem_example :
    (segs : List Segment) × (one_range-available ≡ some segs)
    × ((y : ℕ)
        → y < 2 ^ 64 - 1
        → (within segs y ≡ true) ↔ (
            (0x80000000 ≤ y)
            × (page_round_up 0x80010123 ≤ y)
            × (y < page_round_down (add64 0x80000000 0x100000))
            × ((i : ℕ) → i < 1 → page_round_down 0x80020000 ≤ y → page_round_up 0x80020800 ≤ y)))
device_calc_available_ram_lem_example =
    device_calc_available_ram_lem 0x80010123 ram one_range one_range-IsLaidOut

-- A range below the RAM: the sweep takes its end for the end of a segment.
abbrev below : Segments
below = record { seg_begin = λ i. 0x70000000; seg_end = λ i. 0x70010000; seg_num = 1 }

below-found :
    device_calc_available_ram 0x80010123 ram below
    ≡ some (
        record { pa_begin = 0x70010000; pa_len = 0xFFF0000 }
        ∷ record { pa_begin = 0x80011000; pa_len = 0xEF000 }
        ∷ [])
unfolding device_calc_available_ram qsort write page_round_down page_round_up
below-found = refl

-- The root 0 with the nodes 1 `memory@80000000` and 2 `reserved-memory`, which has the node 3.
abbrev name_of : ℕ → List ℕ
name_of node =
    if node == 1
    then 109 ∷ 101 ∷ 109 ∷ 111 ∷ 114 ∷ 121 ∷ 64 ∷ []
    else if node == 2
    then 114 ∷ 101 ∷ 115 ∷ 101 ∷ 114 ∷ 118 ∷ 101 ∷ 100 ∷ 45 ∷ 109 ∷ 101 ∷ 109 ∷ 111 ∷ 114 ∷ 121 ∷ []
    else []

abbrev subnodes_of : ℕ → List ℕ
subnodes_of node = if node == 0 then 1 ∷ 2 ∷ [] else if node == 2 then 3 ∷ [] else []

-- The words are stored in the order of the machine.
abbrev words_of : ℕ → ℕ → ℕ
words_of node i =
    if node == 1
    then (if i == 0 then 0x80000000 else 0x100000)
    else if node == 3
    then (if i == 0 then 0x80020000 else 0x800)
    else 0

walked :
    device_memory_init name_of subnodes_of words_of
      (λ word. word)
      3
      0x80010123
      (
        record { pa_begin = 0; pa_len = 0 },
        record { seg_begin = λ i. 0; seg_end = λ i. 0; seg_num = 7 },
      )
    ≡ one_range-available
unfolding device_memory_init device_calc_available_ram qsort write page_round_down page_round_up
walked = refl
