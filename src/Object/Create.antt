-- ===== src/Object/Create.antt =====
-- `kmem_object_create_block` as a whole, with pages from Buddy.
use kalorona_kernel.Common.{
  ℕ, ◌+◌, ◌-◌, ◌*◌, ◌/◌, ◌^◌, bit_and, ◌≤◌, ◌<◌, ◌≡◌, ◌≢◌, refl, ◌∙◌, ap, sym, subst, true, false,
  ◌==◌, ◌||◌, ltb, leb, [], arith, write, write_self, write_ne, ◌⊎◌, inl, inr, done,
}
use kalorona_kernel.Common.Bits.{bit_and_high_mask, pow-add}
use kalorona_kernel.Common.Word.{add64, not64}
use kalorona_kernel.Common.Page.{page_shift}
use kalorona_kernel.Buddy.{Kmem, max_mem_order, kmem_alloc_pages}
use kalorona_kernel.Buddy.Blocks.{page_at, pow-pos}
use kalorona_kernel.Buddy.Give.{IsKmem, NoBlock, Given, kmem_alloc_pages_lem}
use kalorona_kernel.Object.{
  Objects, Block, header_size, block_size, free_slots, set_block, binary_round_up, make_slots,
  init_block, kmem_object_create_block,
}
use kalorona_kernel.Object.Slots.{count_of-none, IsBlock}
use kalorona_kernel.Object.Fresh.{slots, make_slots_lem}
use native.Mathlib.Nat.{div-add-mod', mod-lt, le-mul_of_pos_right}

binary_round_up_lem : (x : ℕ) → x + 8 < 2 ^ 64 → binary_round_up x ≡ (x + 7) / 8 * 8
unfolding binary_round_up
binary_round_up_lem x h =
    ap (λ (t : ℕ). bit_and t (not64 7)) (omega arith) ∙ bit_and_high_mask 61 3 (x + 7) (omega arith)

abbrev pub new_block : ℕ → ℕ → ℕ → ℕ → Block
new_block mgr page_order made size = record {
  block_nxt = 0;
  used = 0;
  total = made;
  slot_size = size;
  page_count = 2 ^ page_order;
  parent_manager = mgr;
}

same_fields :
    (mgr page_order m n : ℕ) {x y : ℕ}
    → m ≡ n
    → x ≡ y
    → new_block mgr page_order m x ≡ new_block mgr page_order n y
same_fields mgr page_order m n {x} {y} e f =
    ap (λ (k : ℕ). new_block mgr page_order k x) e ∙ ap (new_block mgr page_order n) f

-- The block that `kmem_object_create_block` makes from `blk` on, whose memory ends at `page_end`.
pub record IsCreated (s : Objects) (mgr page_order object_size blk : ℕ) (s' : Objects)
    : Type 0 where
  pub made : ℕ
  pub unit_size : ℕ
  pub page_end : ℕ
  pub unit_size_lem : unit_size ≡ (object_size + 7) / 8 * 8 + header_size
  pub page_end_lem : page_end ≡ blk + 2 ^ (page_order + page_shift)
  pub slots_fit : blk + block_size + made * unit_size ≤ page_end
  pub no_more : page_end < blk + block_size + made * unit_size + unit_size
  pub block_lists : IsBlock s' blk (slots unit_size (blk + block_size) made) []
  pub block_fields : s'.block blk ≡ new_block mgr page_order made ((object_size + 7) / 8 * 8)
  pub managers_kept : s'.manager ≡ s.manager
  pub blocks_kept : (b : ℕ) → b ≢ blk → s'.block b ≡ s.block b
  pub headers_kept :
      (a : ℕ)
      → (ltb a blk || leb page_end a) ≡ true
      → (s'.headers.nxt a ≡ s.headers.nxt a)
        × (s'.headers.prv a ≡ s.headers.prv a)
        × (s'.parent_block a ≡ s.parent_block a)

init_block-IsBlock :
    (s : Objects) (blk mgr page_order object_size : ℕ)
    → blk ≢ 0
    → blk + block_size < 2 ^ 64
    → IsBlock (init_block s blk mgr page_order object_size) blk [] []
unfolding init_block set_block write
init_block-IsBlock s blk mgr page_order object_size nz w = record {
  free_chain = record {
    head_ne_null = nz;
    joined = tt;
    ends = ground arith;
    distinct = (refl, tt);
  };
  allocated_chain = record {
    head_ne_null = λ e. omega arith;
    joined = tt;
    ends = ground arith;
    distinct = (refl, tt);
  };
  apart = λ a i. ground arith;
  used_count = ground (arith, count_of-none);
  parent = λ a i. cc;
}

init_block-far :
    (s : Objects) (blk mgr page_order object_size a : ℕ)
    → blk + block_size < 2 ^ 64
    → (ltb a blk || leb (blk + block_size) a) ≡ true
    → let s' = init_block s blk mgr page_order object_size in
      (s'.headers.nxt a ≡ s.headers.nxt a)
      × (s'.headers.prv a ≡ s.headers.prv a)
      × (s'.parent_block a ≡ s.parent_block a)
unfolding init_block set_block write
init_block-far s blk mgr page_order object_size a w far = (ground arith, ground arith, ground arith)

init_block-fields :
    (s : Objects) (blk mgr page_order object_size : ℕ)
    → let s' = init_block s blk mgr page_order object_size in
      (s'.block blk ≡ record {
        block_nxt = 0;
        used = 0;
        total = 0;
        slot_size = binary_round_up object_size;
        page_count = 2 ^ page_order;
        parent_manager = mgr;
      })
      × ((b : ℕ) → b ≢ blk → s'.block b ≡ s.block b)
      × (s'.pages ≡ s.pages)
      × (s'.manager ≡ s.manager)
unfolding init_block set_block
init_block-fields s blk mgr page_order object_size =
    let b : Block = record {
      block_nxt = 0;
      used = 0;
      total = 0;
      slot_size = binary_round_up object_size;
      page_count = 2 ^ page_order;
      parent_manager = mgr;
    } in
    (write_self s.block blk b, (λ c h. write_ne s.block blk c b h), refl, refl)

-- The slots of a block of `size` bytes at `blk`.
filled_block :
    (s : Objects) (blk mgr page_order object_size size : ℕ)
    → size ≡ 2 ^ (page_order + page_shift)
    → 4096 ≤ size
    → blk ≢ 0
    → blk + size + object_size + 64 < 2 ^ 64
    → let s' =
        make_slots size
          (init_block s blk mgr page_order object_size)
          blk
          (add64 header_size (binary_round_up object_size))
          (add64 blk size)
          (free_slots blk)
          (blk + block_size) in
      IsCreated s mgr page_order object_size blk s' × (s'.pages ≡ s.pages)
filled_block s blk mgr page_order object_size size whole large nz w =
    let round = binary_round_up_lem object_size (omega arith) in
    let t = init_block s blk mgr page_order object_size in
    let unit = add64 header_size (binary_round_up object_size) in
    let page_end = add64 blk size in
    let end_is : page_end ≡ blk + size = omega arith in
    let unit_is : unit ≡ (object_size + 7) / 8 * 8 + header_size = omega arith in
    let start = blk + block_size in
    let left = page_end - start in
    let made = left / unit in
    let whole_units = div-add-mod' left unit in
    let rest = mod-lt left {m = unit} (omega arith) in
    let bound = le-mul_of_pos_right {m = unit} made (omega arith) in
    let (fields, others, pages, managers) = init_block-fields s blk mgr page_order object_size in
    let none_yet = ap (λ (b : Block). b.total) fields in
    let (lists, filled) =
      make_slots_lem blk unit page_end made size t start [] (omega arith) (omega arith)
        (omega arith) (omega arith) (omega arith) (omega (arith, none_yet)) (omega arith)
        (λ a i. ground arith) (λ a i. ground arith)
        (init_block-IsBlock s blk mgr page_order object_size nz (omega arith)) in
    (
      record {
        made = made;
        unit_size = unit;
        page_end = page_end;
        unit_size_lem = unit_is;
        page_end_lem = end_is ∙ ap (λ (k : ℕ). blk + k) whole;
        slots_fit = omega arith;
        no_more = omega arith;
        block_lists = lists;
        block_fields =
            filled.block_filled
            ∙ ap (λ (b : Block). record b { total = b.total + made }) fields
            ∙ same_fields mgr page_order (0 + made) made (omega arith) round;
        managers_kept = filled.managers_kept ∙ managers;
        blocks_kept = λ b h. filled.blocks_kept b h ∙ others b h;
        headers_kept = λ a far.
            let u = filled.headers_kept a far in
            let v =
              init_block-far s blk mgr page_order object_size a (omega arith) (ground arith) in
            (u.0 ∙ v.0, u.1 ∙ v.1, u.2 ∙ v.2);
      },
      filled.pages_kept ∙ pages,
    )

create_run :
    (s : Objects) (mgr page_order object_size blk : ℕ) (k : Kmem)
    → page_order < max_mem_order
    → kmem_alloc_pages s.pages page_order ≡ done (blk, k)
    → binary_round_up (add64 blk block_size) ≡ blk + block_size
    → blk ≢ 0
    → kmem_object_create_block s mgr page_order object_size
      ≡ done (
        blk,
        make_slots
            (2 ^ (page_order + page_shift))
            (init_block (record s { pages = k }) blk mgr page_order object_size)
            blk
            (add64 header_size (binary_round_up object_size))
            (add64 blk (2 ^ (page_order + page_shift)))
            (free_slots blk)
            (blk + block_size),
      )
unfolding kmem_object_create_block
create_run s mgr page_order object_size blk k lo run start nz =
    let small : leb max_mem_order page_order ≡ false = ground arith in
    let not_null : (blk == 0) ≡ false = ground arith in
    rw (kmem_object_create_block, small, run, not_null, start) refl

create_failed :
    (s : Objects) (mgr page_order object_size : ℕ)
    → page_order < max_mem_order
    → kmem_alloc_pages s.pages page_order ≡ done (0, s.pages)
    → kmem_object_create_block s mgr page_order object_size ≡ done (0, s)
unfolding kmem_object_create_block
create_failed s mgr page_order object_size lo run =
    let small : leb max_mem_order page_order ≡ false = ground arith in
    rw (kmem_object_create_block, small, run) refl

-- `kmem_object_create_block` of an order below the largest, on valid pages, never panics. Either no
-- free list of the order or of a larger one has a block, and it returns NULL with nothing changed; or it returns a block in pages that were free and are its own now, with
-- as many free slots as fit behind its struct, one after the other, and none allocated.
pub kmem_object_create_block_lem :
    (s : Objects) (mgr page_order object_size : ℕ)
    → IsKmem s.pages
    → page_order < max_mem_order
    → object_size < 2 ^ 32
    → ((kmem_object_create_block s mgr page_order object_size ≡ done (0, s))
        × NoBlock s.pages page_order)
      ⊎ ((b : ℕ) × (s' : Objects) × (kmem_object_create_block s mgr page_order object_size
            ≡ done (page_at s.pages.begin_ppn (b * 2 ^ page_order), s'))
          × Given s.pages page_order b s'.pages
          × IsCreated s mgr page_order object_size
              (page_at s.pages.begin_ppn (b * 2 ^ page_order))
              s')
kmem_object_create_block_lem s mgr page_order object_size (free, h) lo small =
    elim (kmem_alloc_pages_lem s.pages page_order (free, h) lo) [
      | inl (run, out) ↦ inl (create_failed s mgr page_order object_size lo run, out)
      | inr (b, k, run, given) ↦
          let blk = page_at s.pages.begin_ppn (b * 2 ^ page_order) in
          let fits = h.holds.placed.fits in
          let inside = given.inside in
          let one = pow-pos page_order in
          let size : 2 ^ (page_order + page_shift) ≡ 2 ^ page_order * 4096 =
            pow-add page_order page_shift in
          let start : binary_round_up (add64 blk block_size) ≡ blk + block_size =
            binary_round_up_lem (add64 blk block_size) (omega arith) ∙ omega arith in
          let s₁ = record s { pages = k } in
          let (created, pages) =
            filled_block s₁ blk mgr page_order object_size (2 ^ (page_order + page_shift)) refl
              (omega arith) (omega arith) (omega arith) in
          inr (
            b,
            make_slots (2 ^ (page_order + page_shift))
                (init_block s₁ blk mgr page_order object_size) blk
                (add64 header_size (binary_round_up object_size))
                (add64 blk (2 ^ (page_order + page_shift))) (free_slots blk) (blk + block_size),
            create_run s mgr page_order object_size blk k lo run start (omega arith),
            subst (Given s.pages page_order b) (sym pages) given,
            record {
              made = created.made;
              unit_size = created.unit_size;
              page_end = created.page_end;
              unit_size_lem = created.unit_size_lem;
              page_end_lem = created.page_end_lem;
              slots_fit = created.slots_fit;
              no_more = created.no_more;
              block_lists = created.block_lists;
              block_fields = created.block_fields;
              managers_kept = created.managers_kept;
              blocks_kept = created.blocks_kept;
              headers_kept = created.headers_kept;
            },
          )
    ]
