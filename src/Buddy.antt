-- ===== src/Buddy.antt =====
-- kernel/memory/buddy.c: pages in blocks of 2 ^ order. A free block is a node of its order's list,
-- which lies in the block's first page; a bit for each pair of buddies says if exactly one of them
-- is in the list. The spinlock makes each operation one step, so it is left out.
pub mod Blocks
pub mod Lists
pub mod Moves
pub mod Parity
pub mod Split
pub mod Alloc
pub mod Give
pub mod Free
pub mod Coalesce
pub mod Release
pub mod Init
pub mod Samples
mod Tests
use kalorona_kernel.Common.{
  ℕ, zero, suc, ◌+◌, ◌-◌, ◌^◌, bit_and, bit_xor, ltb, leb, ◌==◌, ◌&&◌, not, if◌then◌else◌, Option,
  none, some, Outcome, done, panicked, panic_if, ◌>>=◌, ◌>>◌, write,
}
use kalorona_kernel.Common.Word.{add64, sub64, not64, shl64, shr}
use kalorona_kernel.Common.Page.{page_size, page_shift, pma_pa2va, pma_va2pa}
use kalorona_kernel.Bitmap.{BitMap, test_bit, test_and_set_bit, test_and_clear_bit, toggle_bit}
use kalorona_kernel.LinkedList.{Links, list_insert, list_detach}
use kalorona_kernel.Bootmem.{set_bits}

abbrev pub max_mem_order : ℕ
max_mem_order = 11

-- The part of `struct kmem_node_struct` that pages concern. Of `free_areas[ord]` the list's head
-- lies at `list_head ord`, and `area_map ord` is the map; the links of all nodes are in `links`.
pub record Kmem : Type 0 where
  pub begin_ppn : ℕ
  pub num_ppn : ℕ
  pub mem_map : BitMap
  pub links : Links
  pub list_head : ℕ → ℕ
  pub area_map : ℕ → BitMap

pub page_number : Kmem → ℕ → ℕ
page_number k vaddr = sub64 (shr (pma_va2pa vaddr) page_shift) k.begin_ppn

pub page_vaddr : Kmem → ℕ → ℕ
page_vaddr k pn = pma_pa2va (shl64 (add64 pn k.begin_ppn) page_shift)

pub insert_node : Kmem → ℕ → ℕ → Outcome Kmem
insert_node k ord node =
    list_insert k.links (k.list_head ord) node >>= λ l. done (record k { links = l })

pub detach_node : Kmem → ℕ → Outcome Kmem
detach_node k node = list_detach k.links node >>= λ l. done (record k { links = l })

-- `toggle_bit(kmem.free_areas[ord].free_area_map, pos)`
pub toggle_area : Kmem → ℕ → ℕ → ℕ × Kmem
unfolding write
toggle_area k ord pos =
    let r = toggle_bit (k.area_map ord) pos in
    (r.0, record k { area_map = write k.area_map ord r.1 })

-- the loop on `current_order`, with the orders left
pub find_order : Kmem → ℕ → ℕ → Option ℕ
find_order k zero current = none
find_order k (suc left) current =
    let rest = find_order k left (current + 1) in
    if k.links.nxt (k.list_head current) == 0 then rest else some current

-- One round of the loop on `ord`: the block at `page` becomes two of the order below.
pub split_once : Kmem → ℕ → ℕ → Outcome Kmem
unfolding page_number insert_node detach_node toggle_area
split_once k page ord =
    let block_pn = page_number k page in
    let right = add64 page (shl64 (2 ^ (ord - 1)) page_shift) in
    detach_node k page >>= λ k₁.
    let k₂ = (toggle_area k₁ ord (shr block_pn (ord + 1))).1 in
    insert_node k₂ (ord - 1) page >>= λ k₃. insert_node k₃ (ord - 1) right

-- The loop runs from `order + rounds` down to above `order`.
pub split_block : Kmem → ℕ → ℕ → ℕ → Outcome Kmem
unfolding split_once
split_block k page order zero = done k
split_block k page order (suc rounds) =
    split_once k page (order + suc rounds) >>= λ k'. split_block k' page order rounds

-- Take the block at `page` off its list, and mark its pages.
pub register_block : Kmem → ℕ → ℕ → Outcome Kmem
unfolding page_number detach_node toggle_area set_bits
register_block k page order =
    let page_pn = page_number k page in
    detach_node k page >>= λ k₁.
    let k₂ = (toggle_area k₁ order (shr page_pn (order + 1))).1 in
    set_bits (sub64 (add64 page_pn (2 ^ order)) page_pn) page_pn k₂.mem_map >>= λ m.
    done (record k₂ { mem_map = m })

-- The address, 0 for NULL, and the new state.
unfoldable pub kmem_alloc_pages : Kmem → ℕ → Outcome (ℕ × Kmem)
unfolding find_order split_block register_block
kmem_alloc_pages k order =
    panic_if (leb max_mem_order order) >> elim (find_order k (max_mem_order - order) order) [
      | none ↦ done (0, k)
      | some current ↦
          let page = k.links.nxt (k.list_head current) in
          panic_if (ltb current order)
          >> (split_block k page order (current - order) >>= λ k₁.
              register_block k₁ page order >>= λ k₂. done (page, k₂))
    ]

-- the loop on `dep`, with the rounds left
pub coalesce : Kmem → ℕ → ℕ → ℕ → Outcome Kmem
unfolding page_vaddr insert_node detach_node toggle_area
coalesce k pn zero dep = done k
coalesce k pn (suc rounds) dep =
    let current_pn = bit_and pn (not64 (sub64 (2 ^ dep) 1)) in
    let buddy_pn = bit_xor current_pn (2 ^ dep) in
    let map_pos = shr current_pn (dep + 1) in
    let bit = (toggle_area k dep map_pos).0 in
    let k₁ = (toggle_area k dep map_pos).1 in
    let merged =
      detach_node k₁ (page_vaddr k₁ buddy_pn) >>= λ k₂. coalesce k₂ pn rounds (dep + 1) in
    if (bit == 0) && not (dep == max_mem_order - 1)
    then merged
    else insert_node k₁ dep (page_vaddr k₁ current_pn)

unfoldable pub kmem_free_page : Kmem → ℕ → Outcome Kmem
unfolding page_number coalesce
kmem_free_page k addr =
    let pn = page_number k addr in
    let (old, m) = test_and_clear_bit k.mem_map pn in
    panic_if (not (bit_and addr (page_size - 1) == 0))
    >> (panic_if (old == 0) >> coalesce (record k { mem_map = m }) pn max_mem_order 0)

free_from : Kmem → ℕ → ℕ → Outcome Kmem
unfolding kmem_free_page
free_from k vaddr zero = done k
free_from k vaddr (suc count) =
    kmem_free_page k vaddr >>= λ k'. free_from k' (add64 vaddr page_size) count

pub kmem_free_pages : Kmem → ℕ → ℕ → Outcome Kmem
unfolding free_from
kmem_free_pages k addr page_count =
    panic_if (not (bit_and addr (page_size - 1) == 0)) >> free_from k addr page_count

-- The loop of `kmem_page_manager_init` that frees what the boot has not reserved, from page `pn` on
-- for the rounds left.
pub free_unreserved : Kmem → ℕ → ℕ → Outcome Kmem
unfolding page_vaddr kmem_free_page
free_unreserved k pn zero = done k
free_unreserved k pn (suc rounds) =
    let k₁ = record k { mem_map = (test_and_set_bit k.mem_map pn).1 } in
    let freed = kmem_free_page k₁ (page_vaddr k₁ pn) in
    (if test_bit k.mem_map pn == 0 then freed else done k) >>= λ k'.
    free_unreserved k' (add64 pn 1) rounds
