-- ===== src/Bootmem.antt =====
-- kernel/memory/bootmem.c: the allocator of the boot, one bit of a map for each page. The map is a
-- function of the offset from `mem_map`, apart from the rest of memory. One hart runs, so no lock.
pub mod Scan
pub mod Place
pub mod Bits
pub mod Reserve
pub mod Find
pub mod Layout
pub mod Used
pub mod Alloc
mod Tests
use Scan.{find_spots}
use Place.{place}
use kalorona_kernel.Common.{
  ℕ, zero, suc, ◌+◌, ◌-◌, ◌/◌, ◌^◌, bit_and, bit_or, ltb, leb, ◌==◌, ◌&&◌, ◌||◌, not, if◌then◌else◌,
  List, [], ◌∷◌, Option, none, some, Outcome, done, panicked, panic_if, ◌>>=◌, ◌>>◌,
}
use kalorona_kernel.Common.Word.{add64, sub64, not64, shl64, shr}
use kalorona_kernel.Common.Page.{
  page_size, page_shift, page_round_up, page_round_down, pma_pa2va, pma_va2pa,
}
use kalorona_kernel.Bitmap.{BitMap, test_bit, test_and_set_bit, test_and_clear_bit}
use kalorona_kernel.Memory.{Memory, memset}

-- `struct bootmem_node_struct`; the address `mem_map` and the map behind it are two fields.
pub record Bootmem : Type 0 where
  pub begin_ppn : ℕ
  pub num_ppn : ℕ
  pub mem_map_addr : ℕ
  pub mem_map : BitMap
  pub mem_map_size : ℕ
  pub last_page : ℕ
  pub last_page_offset : ℕ

-- `struct ram_segment_descriptor_struct`
pub record Segment : Type 0 where
  pub pa_begin : ℕ
  pub pa_len : ℕ

-- the bounds that the loop of `bootmem_init_uma_node` gathers
pub bounds_of : List Segment → (lower upper : ℕ) → ℕ × ℕ
bounds_of [] lower upper = (lower, upper)
bounds_of (s ∷ rest) lower upper =
    let beg_ppn = shr (page_round_up s.pa_begin) page_shift in
    let end_ppn = shr (page_round_down (add64 s.pa_begin s.pa_len)) page_shift in
    bounds_of rest (if ltb beg_ppn lower then beg_ppn else lower)
      (if ltb upper end_ppn then end_ppn else upper)

-- The page offsets are those of the zeroed global.
pub bootmem_init_uma_node : List Segment → Memory → Bootmem
unfolding bounds_of
bootmem_init_uma_node segments old =
    let (lower, upper) = bounds_of segments (2 ^ 64 - 1) 0 in
    let num = sub64 upper lower in
    let size = shr (add64 num 0x7) 3 in
    record {
      begin_ppn = lower;
      num_ppn = num;
      mem_map_addr = pma_pa2va (shl64 lower page_shift);
      mem_map = memset old 0 0xff size;
      mem_map_size = size;
      last_page = 0;
      last_page_offset = 0;
    }

-- `for (i = bidx; i != eidx; i++) if (test_and_set_bit(...)) panic(...)`, with the rounds left
unfoldable pub set_bits : ℕ → ℕ → BitMap → Outcome BitMap
set_bits zero i m = done m
set_bits (suc rounds) i m =
    let (old, m') = test_and_set_bit m i in
    let rest = set_bits rounds (add64 i 1) m' in if old == 0 then rest else panicked

-- the same for `if (!test_and_clear_bit(...)) panic(...)`
pub clear_bits : ℕ → ℕ → BitMap → Outcome BitMap
clear_bits zero i m = done m
clear_bits (suc rounds) i m =
    let (old, m') = test_and_clear_bit m i in
    let rest = clear_bits rounds (add64 i 1) m' in if old == 0 then panicked else rest

-- The page range of `paddr` and `size`, from `mem_map`'s first page on: its start and the rounds of
-- a loop that runs to its end. Both callers panic outside the node.
page_range : Bootmem → ℕ → ℕ → Outcome (ℕ × ℕ)
page_range u paddr size =
    let beg_ppn = shr (page_round_down paddr) page_shift in
    let end_ppn = shr (page_round_up (add64 paddr size)) page_shift in
    do
      panic_if (ltb beg_ppn u.begin_ppn)
      panic_if (ltb (add64 u.begin_ppn u.num_ppn) end_ppn)
      let bidx = sub64 beg_ppn u.begin_ppn
      let eidx = sub64 end_ppn u.begin_ppn
      done (bidx, sub64 eidx bidx)

pub bootmem_reserve : Bootmem → ℕ → ℕ → Outcome Bootmem
unfolding page_range set_bits
bootmem_reserve u paddr size = do
  (bidx, rounds) ← page_range u paddr size
  m ← set_bits rounds bidx u.mem_map
  done (record u { mem_map = m })

pub bootmem_free : Bootmem → ℕ → ℕ → Outcome Bootmem
unfolding page_range clear_bits
bootmem_free u paddr size = do
  (bidx, rounds) ← page_range u paddr size
  m ← clear_bits rounds bidx u.mem_map
  done (record u { mem_map = m })

pub bootmem_free_available_segments : Bootmem → List Segment → Outcome Bootmem
unfolding bootmem_free
bootmem_free_available_segments u [] = done u
bootmem_free_available_segments u (s ∷ rest) =
    bootmem_free u s.pa_begin s.pa_len >>= λ u'. bootmem_free_available_segments u' rest

-- The message is not modelled. `old` is what the map's memory held.
pub bootmem_init : List Segment → Memory → Outcome Bootmem
unfolding bootmem_init_uma_node bootmem_free_available_segments bootmem_reserve
bootmem_init segments old = do
  let u = bootmem_init_uma_node segments old
  u' ← bootmem_free_available_segments u segments
  bootmem_reserve u' (pma_va2pa u'.mem_map_addr) u'.mem_map_size

-- The page to start at, for the alignment alone and for the goal too.
pub start_offset : Bootmem → ℕ → ℕ
start_offset u alignment =
    let mask = sub64 alignment 1 in
    let gap = bit_and (sub64 alignment (bit_and (shl64 u.begin_ppn page_shift) mask)) mask in
    shr (if alignment == 0 then 0 else gap) page_shift

pub preferred_page : Bootmem → ℕ → ℕ → ℕ
unfolding start_offset
preferred_page u alignment goal =
    let goal_ppn = shr goal page_shift in
    let inside =
      not (goal == 0) && leb u.begin_ppn goal_ppn && ltb goal_ppn (add64 u.begin_ppn u.num_ppn) in
    let preferred = if inside then sub64 goal (shl64 u.begin_ppn page_shift) else 0 in
    let rounded = bit_and (sub64 (add64 preferred alignment) 1) (not64 (sub64 alignment 1)) in
    add64 (shr rounded page_shift) (start_offset u alignment)

-- The address, 0 for NULL, the node and the memory. The source computes `step` and never reads it.
pub bootmem_alloc : Bootmem → Memory → ℕ → ℕ → ℕ → Outcome (ℕ × Bootmem × Memory)
unfolding start_offset preferred_page find_spots place set_bits
bootmem_alloc u mem size alignment goal =
    if size == 0 || not (bit_and alignment (sub64 alignment 1) == 0)
    then done (0, u, mem)
    else let area_size = shr (sub64 (add64 size page_size) 1) page_shift in
      elim (find_spots u.mem_map u.num_ppn area_size (preferred_page u alignment goal)
        (start_offset u alignment)) [
          | none ↦ done (0, u, mem)
          | some spot ↦
              let p =
                place u.begin_ppn u.last_page u.last_page_offset size alignment area_size spot in
              set_bits (sub64 (add64 spot p.area_size) spot) spot u.mem_map >>= λ m. done (
                p.ret_addr,
                record u {
                  mem_map = m;
                  last_page = p.last_page;
                  last_page_offset = p.last_page_offset;
                },
                memset mem p.ret_addr 0 size,
              )
        ]
