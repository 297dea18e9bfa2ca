-- ===== src/Object.antt =====
-- kernel/memory/object.c: objects of one size in blocks of pages. The fields of headers, blocks, managers and list nodes are functions
-- of their addresses, apart from the rest of memory. The locks make each operation one step. NULL is 0, and what is
-- stored through NULL ends in a trap, where the kernel panics.
pub mod Headers
pub mod Slots
pub mod Fresh
pub mod Create
pub mod Managed
pub mod Search
pub mod Alloc
pub mod Grow
pub mod Disjoint
pub mod Manage
pub mod Free
pub mod Universal
mod Tests
use kalorona_kernel.Common.{
  ℕ, zero, suc, ◌+◌, ◌-◌, ◌*◌, ◌%◌, ◌^◌, bit_and, Bool, true, false, not, ◌==◌, ◌&&◌, ◌||◌, ltb,
  leb, if◌then◌else◌, Option, none, some, List, [], ◌∷◌, write, Outcome, done, panicked, panic_if,
  ◌>>=◌, ◌>>◌,
}
use kalorona_kernel.Common.Word.{add64, sub64, not64}
use kalorona_kernel.Common.Page.{page_shift}
use kalorona_kernel.LinkedList.{Links, set_prv, set_nxt, list_insert}
use kalorona_kernel.Buddy.{Kmem, max_mem_order, kmem_alloc_pages, kmem_free_pages}

-- `sizeof` of the structs of a header and of a block
abbrev pub header_size : ℕ
header_size = 24

abbrev pub block_size : ℕ
block_size = 96

abbrev pub object_alignment : ℕ
object_alignment = 8

pub binary_round_up : ℕ → ℕ
binary_round_up x = bit_and (sub64 (add64 x object_alignment) 1) (not64 (object_alignment - 1))

pub binary_round_down : ℕ → ℕ
binary_round_down x = bit_and x (not64 (object_alignment - 1))

-- `struct kmem_object_block_struct`. The heads of its lists are at its address and behind it: see below.
pub record Block : Type 0 where
  pub block_nxt : ℕ
  pub used : ℕ
  pub total : ℕ
  pub slot_size : ℕ
  pub page_count : ℕ
  pub parent_manager : ℕ

-- `struct kmem_object_manager_struct`
pub record Manager : Type 0 where
  pub object_size : ℕ
  pub blocks : ℕ
  pub manager_nxt : ℕ

pub record Objects : Type 0 where
  pub pages : Kmem
  -- `prv`, `nxt` and `parent_block` of the headers
  pub headers : Links
  pub parent_block : ℕ → ℕ
  pub block : ℕ → Block
  pub manager : ℕ → Manager
  -- `prv`, `nxt` and `val` of the nodes of `uni_managers`
  pub nodes : Links
  pub val : ℕ → ℕ

-- `&blk->free_slots` and `&blk->allocated_slots`
abbrev pub free_slots : ℕ → ℕ
free_slots blk = blk

abbrev pub allocated_slots : ℕ → ℕ
allocated_slots blk = add64 blk header_size

pub kmem_object_header_detach : Links → ℕ → Outcome Links
unfolding write
kmem_object_header_detach l node =
    if node == 0
    then panicked
    else (let l₁ = if not (l.prv node == 0) then set_nxt l (l.prv node) (l.nxt node) else l in
        let l₂ = if not (l₁.nxt node == 0) then set_prv l₁ (l₁.nxt node) (l₁.prv node) else l₁ in
        done (set_nxt (set_prv l₂ node 0) node 0))

pub kmem_object_header_insert : Links → ℕ → ℕ → Outcome Links
unfolding write
kmem_object_header_insert l head node =
    if head == 0 || node == 0
    then panicked
    else (let l₁ = set_prv l node head in
        let l₂ = set_nxt l₁ node (l₁.nxt head) in
        let l₃ = if not (l₂.nxt node == 0) then set_prv l₂ (l₂.nxt node) node else l₂ in
        done (set_nxt l₃ head node))

pub set_block : Objects → ℕ → Block → Objects
set_block s blk b = record s { block = write s.block blk b }

pub set_manager : Objects → ℕ → Manager → Objects
set_manager s mgr m = record s { manager = write s.manager mgr m }

-- From the list of the free slots to that of the allocated ones.
pub kmem_object_alloc_from_block : Objects → ℕ → Outcome (ℕ × Objects)
kmem_object_alloc_from_block s blk =
    let node = s.headers.nxt (free_slots blk) in
    let b = s.block blk in
    panic_if (node == 0)
    >> (kmem_object_header_detach s.headers node >>= λ l.
        kmem_object_header_insert l (allocated_slots blk) node >>= λ l'. done (
          add64 node header_size,
          set_block (record s { headers = l' }) blk (record b { used = add64 b.used 1 }),
        ))

-- The loop over the blocks, with fuel: the first block with a free slot, or NULL, and `allocated_sum`.
pub find_block : ℕ → Objects → ℕ → ℕ → ℕ → Option (ℕ × ℕ)
find_block zero s unit_size blk sum = none
find_block (suc fuel) s unit_size blk sum =
    let b = s.block blk in
    let rest = find_block fuel s unit_size b.block_nxt (add64 sum (b.used * unit_size % 2 ^ 64)) in
    if blk == 0
    then some (0, sum)
    else if not (s.headers.nxt (free_slots blk) == 0)
    then some (blk, sum)
    else rest

-- What a block of this order has behind its struct.
pub room : ℕ → ℕ
room ord = binary_round_down (sub64 (2 ^ (ord + page_shift)) block_size)

-- The first loop on `nxt_ord`, with the rounds left.
pub next_order : ℕ → ℕ → ℕ → ℕ
next_order sum zero ord = ord
next_order sum (suc left) ord =
    let rest = next_order sum left (ord + 1) in if leb (room ord) sum then rest else ord

-- The slots of a new block, from `pos` on, with fuel for the loop.
pub make_slots : ℕ → Objects → (blk unit_size page_end previous pos : ℕ) → Objects
make_slots zero s blk unit_size page_end previous pos = s
make_slots (suc fuel) s blk unit_size page_end previous pos =
    let l₁ = set_nxt s.headers previous pos in
    let l₂ = set_prv l₁ pos previous in
    let l₃ = set_nxt l₂ pos 0 in
    let b = s.block blk in
    let s₁ =
      set_block (record s { headers = l₃; parent_block = write s.parent_block pos blk }) blk
        (record b { total = add64 b.total 1 }) in
    let rest = make_slots fuel s₁ blk unit_size page_end pos (add64 pos unit_size) in
    if leb (add64 pos unit_size) page_end then rest else s

-- The fields of a new block, before its slots.
pub init_block : Objects → (blk mgr page_order object_size : ℕ) → Objects
init_block s blk mgr page_order object_size =
    let l₁ = set_nxt (set_nxt s.headers (allocated_slots blk) 0) (free_slots blk) 0 in
    let l₂ = set_prv (set_prv l₁ (allocated_slots blk) 0) (free_slots blk) 0 in
    set_block
      (record s {
        headers = l₂;
        parent_block = write (write s.parent_block (allocated_slots blk) blk) (free_slots blk) blk;
      })
      blk
      (record {
        block_nxt = 0;
        used = 0;
        total = 0;
        slot_size = binary_round_up object_size;
        page_count = 2 ^ page_order;
        parent_manager = mgr;
      })

pub kmem_object_create_block : Objects → (mgr page_order object_size : ℕ) → Outcome (ℕ × Objects)
kmem_object_create_block s mgr page_order object_size =
    panic_if (leb max_mem_order page_order)
    >> (kmem_alloc_pages s.pages page_order >>= λ r.
        let blk = r.0 in
        let s₁ = record s { pages = r.1 } in
        let page_end = add64 blk (2 ^ (page_order + page_shift)) in
        let unit_size = add64 header_size (binary_round_up object_size) in
        let made =
          make_slots (2 ^ (page_order + page_shift)) (init_block s₁ blk mgr page_order object_size)
            blk unit_size page_end (free_slots blk) (binary_round_up (add64 blk block_size)) in
        if blk == 0 then done (0, s₁) else done (blk, made))

-- The second loop on `nxt_ord`, downwards.
pub create_from : ℕ → Objects → ℕ → Outcome (ℕ × Objects)
create_from zero s mgr =
    let size = (s.manager mgr).object_size in
    let created = kmem_object_create_block s mgr 0 size in
    if leb (add64 size header_size) (room 0) then created else done (0, s)
create_from (suc ord) s mgr =
    let size = (s.manager mgr).object_size in
    let created = kmem_object_create_block s mgr (suc ord) size >>= λ r.
    let lower = create_from ord r.1 mgr in if r.0 == 0 then lower else done r in
    if leb (add64 size header_size) (room (suc ord)) then created else done (0, s)

-- Where no block has a free slot.
pub alloc_in_new_block : Objects → ℕ → ℕ → Outcome (ℕ × Objects)
alloc_in_new_block s mgr sum = create_from (next_order sum (max_mem_order - 1) 0) s mgr >>= λ r.
    let blk = r.0 in
    let m = r.1.manager mgr in
    let s₁ = set_block r.1 blk (record (r.1.block blk) { block_nxt = m.blocks }) in
    let s₂ = set_manager s₁ mgr (record m { blocks = blk }) in
    let taken = kmem_object_alloc_from_block s₂ blk in if blk == 0 then done (0, r.1) else taken

-- `kmem_object_alloc`, with fuel for the loop over the blocks.
pub kmem_object_alloc : ℕ → Objects → ℕ → Option (Outcome (ℕ × Objects))
kmem_object_alloc fuel s mgr =
    let m = s.manager mgr in
    let unit_size = add64 m.object_size header_size in
    elim (find_block fuel s unit_size m.blocks 0) [
      | none ↦ none
      | some r ↦
          let least = unit_size * 4 % 2 ^ 64 in
          let sum = if ltb r.1 least then least else r.1 in
          let in_new = alloc_in_new_block s mgr sum in
          let in_old = kmem_object_alloc_from_block s r.0 in
          some (if r.0 == 0 then in_new else in_old)
    ]

pub kmem_object_free : Objects → ℕ → Outcome Objects
kmem_object_free s vaddr =
    let header = sub64 vaddr header_size in
    let blk = s.parent_block header in
    kmem_object_header_detach s.headers header >>= λ l.
    kmem_object_header_insert l (free_slots blk) header >>= λ l'.
    let b = s.block blk in
    done (set_block (record s { headers = l' }) blk (record b { used = sub64 b.used 1 }))

-- The loop that takes a block out of the list, with fuel.
pub disconnect_behind : ℕ → Objects → ℕ → ℕ → Option Objects
disconnect_behind zero s blk i = none
disconnect_behind (suc fuel) s blk i =
    let b = s.block i in
    let rest = disconnect_behind fuel s blk b.block_nxt in
    if i == 0
    then some s
    else if b.block_nxt == blk
    then some (set_block s i (record b { block_nxt = (s.block blk).block_nxt }))
    else rest

pub disconnect : ℕ → Objects → ℕ → Option Objects
disconnect fuel s blk =
    let mgr = (s.block blk).parent_manager in
    let m = s.manager mgr in
    let behind = disconnect_behind fuel s blk m.blocks in
    if m.blocks == blk
    then some (set_manager s mgr (record m { blocks = (s.block blk).block_nxt }))
    else behind

pub kmem_object_free_block : ℕ → Objects → ℕ → Option (Outcome Objects)
kmem_object_free_block fuel s blk =
    let freed : Option (Outcome Objects) = elim (disconnect fuel s blk) [
      | none ↦ none
      | some s₁ ↦ some (
          kmem_free_pages s₁.pages blk (s₁.block blk).page_count >>= λ k.
          done (record s₁ { pages = k }))
    ] in
    if not (s.headers.nxt (allocated_slots blk) == 0) then some panicked else freed

-- `root` is the address of `kmem.object_manager`.
pub kmem_object_create_manager : ℕ → Objects → ℕ → ℕ → Option (Outcome (ℕ × Objects))
kmem_object_create_manager fuel s root object_size = elim (kmem_object_alloc fuel s root) [
  | none ↦ none
  | some run ↦ some (
      run >>= λ r.
      let new = r.0 in
      let next = (r.1.manager root).manager_nxt in
      let s₁ =
        set_manager r.1 new
          (record { object_size = binary_round_up object_size; blocks = 0; manager_nxt = next }) in
      panic_if (new == 0)
      >> done (new, set_manager s₁ root (record (s₁.manager root) { manager_nxt = new })))
]

-- `sizeof(struct kmem_object_manager_struct)`
abbrev pub manager_size : ℕ
manager_size = 56

pub kmem_object_init : Objects → ℕ → Objects
kmem_object_init s root =
    set_manager s root (record (s.manager root) { object_size = binary_round_up manager_size })
