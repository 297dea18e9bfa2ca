-- ===== src/Ram.antt =====
-- kernel/device/memory.c: which segments of the RAM are available. The device tree is read by libfdt, whose functions are
-- parameters: the name of a node, its subnodes in order, the 64-bit words of its `reg` property as they are stored,
-- and `fdt64_to_cpu`. The arrays of the sweep are functions of the index, without the bound of their length,
-- MAX_RAM_SEGMENT.
pub mod Counts
pub mod Events
pub mod Settled
pub mod Sweeping
pub mod Available
mod Tests
use kalorona_kernel.Common.{
  ℕ, zero, suc, ◌+◌, ◌-◌, ◌*◌, ◌%◌, ◌^◌, Bool, true, false, not, ◌==◌, ◌&&◌, ◌||◌, ltb, leb,
  if◌then◌else◌, Option, none, some, List, [], ◌∷◌, ◌++◌, write,
}
use kalorona_kernel.Common.Word.{add64, sub64}
use kalorona_kernel.Common.Page.{page_round_down, page_round_up}
use kalorona_kernel.Bootmem.{Segment}
use kalorona_kernel.Sort.{qsort}

-- `__sort_seg_begin`, `__sort_seg_end` and `__sort_seg_num`
pub record Segments : Type 0 where
  pub seg_begin : ℕ → ℕ
  pub seg_end : ℕ → ℕ
  pub seg_num : ℕ

pub add_segment : Segments → ℕ → ℕ → Segments
add_segment s from to = record {
  seg_begin = write s.seg_begin s.seg_num from;
  seg_end = write s.seg_end s.seg_num to;
  seg_num = s.seg_num + 1;
}

-- `strncmp` of a name with the first characters of a text
pub begins_with : List ℕ → List ℕ → Bool
begins_with [] name = true
begins_with (c ∷ cs) [] = false
begins_with (c ∷ cs) (d ∷ ds) = (c == d) && begins_with cs ds

pub for_each : {A : Type 0} → (A → ℕ → Option A) → A → List ℕ → Option A
for_each f a [] = some a
for_each f a (node ∷ nodes) = elim (f a node) [ none ↦ none | some b ↦ for_each f b nodes ]

module _ (fdt_get_name : ℕ → List ℕ) (fdt_subnodes : ℕ → List ℕ) (reg_prop : ℕ → ℕ → ℕ)
    (fdt64_to_cpu : ℕ → ℕ) where
  -- `device_fdt_get_reg`
  pub device_fdt_get_reg : ℕ → ℕ × ℕ
  device_fdt_get_reg node = (fdt64_to_cpu (reg_prop node 0), fdt64_to_cpu (reg_prop node 1))

  -- The ranges of the subnodes of `reserved-memory`.
  pub reserve_subnodes : Segments → List ℕ → Segments
  unfolding add_segment device_fdt_get_reg
  reserve_subnodes s [] = s
  reserve_subnodes s (node ∷ nodes) =
      let r = device_fdt_get_reg node in reserve_subnodes (add_segment s r.0 (add64 r.0 r.1)) nodes

  -- `device_walk_fdt_for_memory`; `depth` bounds the depth of the tree. The comparisons leave out the last character
  -- of `memory` and of `reserved-memory`.
  pub device_walk_fdt_for_memory : ℕ → Segment × Segments → ℕ → Option (Segment × Segments)
  unfolding begins_with for_each reserve_subnodes device_fdt_get_reg
  device_walk_fdt_for_memory zero st node = none
  device_walk_fdt_for_memory (suc depth) st node =
      let name = fdt_get_name node in
      let reg = device_fdt_get_reg node in
      let is_memory = begins_with (109 ∷ 101 ∷ 109 ∷ 111 ∷ 114 ∷ []) name in
      let is_reserved =
        begins_with
          (114 ∷ 101 ∷ 115 ∷ 101 ∷ 114 ∷ 118 ∷ 101 ∷ 100 ∷ 45 ∷ 109 ∷ 101 ∷ 109 ∷ 111 ∷ 114 ∷ [])
          name in
      let ram = if is_memory then record { pa_begin = reg.0; pa_len = reg.1 } else st.0 in
      let walked = for_each (device_walk_fdt_for_memory depth) (ram, st.1) (fdt_subnodes node) in
      if not is_memory && is_reserved
      then some (ram, reserve_subnodes st.1 (fdt_subnodes node))
      else walked

-- How many elements from `ptr` on are `x`, of those left.
pub run_length : (ℕ → ℕ) → ℕ → ℕ → ℕ → ℕ
run_length arr x ptr zero = 0
run_length arr x ptr (suc left) =
    let rest = run_length arr x (ptr + 1) left in if arr ptr == x then rest + 1 else 0

pub record Event : Type 0 where
  pub pos : ℕ
  pub begins : ℕ
  pub ends : ℕ

-- Where the next begins or ends of segments are, and how many each; `val` is their difference.
pub next_event : (ℕ → ℕ) → (ℕ → ℕ) → ℕ → ℕ → ℕ → Event
unfolding run_length
next_event b e n bptr eptr =
    if bptr == n
    then record { pos = e eptr; begins = 0; ends = 1 }
    else if eptr == n
    then record { pos = b bptr; begins = 1; ends = 0 }
    else if b bptr == e eptr
    then record {
      pos = b bptr;
      begins = run_length b (b bptr) bptr (n - bptr);
      ends = run_length e (b bptr) eptr (n - eptr);
    }
    else if ltb (b bptr) (e eptr)
    then record { pos = b bptr; begins = 1; ends = 0 }
    else record { pos = e eptr; begins = 0; ends = 1 }

-- `acc` is a 32-bit `int`.
pub record Sweep : Type 0 where
  pub bptr : ℕ
  pub eptr : ℕ
  pub acc : ℕ
  pub last_ptr : ℕ
  pub available : List Segment

is_positive : ℕ → Bool
is_positive acc = ltb 0 acc && ltb acc (2 ^ 31)

-- One round of the loop.
pub sweep_one : (ℕ → ℕ) → (ℕ → ℕ) → ℕ → Sweep → Sweep
unfolding next_event is_positive
sweep_one b e n s =
    let v = next_event b e n s.bptr s.eptr in
    let new_acc = (s.acc + v.begins + 2 ^ 32 - v.ends) % 2 ^ 32 in
    let closes = (new_acc == 0) && is_positive s.acc in
    let opens = is_positive new_acc && (s.acc == 0) && ltb s.last_ptr v.pos in
    record {
      bptr = s.bptr + v.begins;
      eptr = s.eptr + v.ends;
      acc = new_acc;
      last_ptr = if closes then v.pos else s.last_ptr;
      available =
          if opens
          then s.available
            ++ (record { pa_begin = s.last_ptr; pa_len = sub64 v.pos s.last_ptr } ∷ [])
          else s.available;
    }

-- The loop, with fuel for its rounds: each handles one begin or end at least.
pub sweep : ℕ → (ℕ → ℕ) → (ℕ → ℕ) → ℕ → Sweep → Option Sweep
unfolding sweep_one
sweep zero b e n s = none
sweep (suc fuel) b e n s =
    let next = sweep fuel b e n (sweep_one b e n s) in
    if ltb s.bptr n || ltb s.eptr n then next else some s

-- The segments before they are sorted: the kernel image, whole pages, and what lies behind the RAM.
pub prepare : ℕ → Segment → Segments → Segments
unfolding add_segment
prepare kernel_img_pa_end ram s =
    let s₁ = add_segment s ram.pa_begin kernel_img_pa_end in
    let s₂ = record s₁ {
      seg_begin =
          λ i. if ltb i s₁.seg_num then page_round_down (s₁.seg_begin i) else s₁.seg_begin i;
      seg_end = λ i. if ltb i s₁.seg_num then page_round_up (s₁.seg_end i) else s₁.seg_end i;
    } in
    add_segment s₂ (page_round_down (add64 ram.pa_begin ram.pa_len)) (2 ^ 64 - 1)

-- The segments that are available, where the list was empty.
pub device_calc_available_ram : ℕ → Segment → Segments → Option (List Segment)
unfolding prepare sweep
device_calc_available_ram kernel_img_pa_end ram s =
    let t = prepare kernel_img_pa_end ram s in
    elim (qsort ltb t.seg_begin t.seg_num) [
      | none ↦ none
      | some b ↦ elim (qsort ltb t.seg_end t.seg_num) [
        | none ↦ none
        | some e ↦
            elim (sweep (2 * t.seg_num + 1) b e t.seg_num
              (record { bptr = 0; eptr = 0; acc = 0; last_ptr = ram.pa_begin; available = [] })) [
                | none ↦ none
                | some r ↦ some r.available
              ]
      ]
    ]

-- `device_memory_init` from the root on; its messages are not modelled.
module _ (fdt_get_name : ℕ → List ℕ) (fdt_subnodes : ℕ → List ℕ) (reg_prop : ℕ → ℕ → ℕ)
    (fdt64_to_cpu : ℕ → ℕ) where
  pub device_memory_init : ℕ → ℕ → Segment × Segments → Option (List Segment)
  unfolding device_walk_fdt_for_memory device_calc_available_ram
  device_memory_init depth kernel_img_pa_end st =
      elim (device_walk_fdt_for_memory fdt_get_name fdt_subnodes reg_prop fdt64_to_cpu depth
        (st.0, record st.1 { seg_num = 0 }) 0) [
          | none ↦ none
          | some r ↦ device_calc_available_ram kernel_img_pa_end r.0 r.1
        ]
