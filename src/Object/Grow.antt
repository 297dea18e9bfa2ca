-- ===== src/Object/Grow.antt =====
-- A new block at the front of a manager's list.
use kalorona_kernel.Common.{
  ℕ, zero, suc, ◌+◌, ◌-◌, ◌*◌, ◌/◌, ◌%◌, ◌^◌, bit_and, ◌≤◌, ◌<◌, ◌≡◌, ◌≢◌, refl, ◌∙◌, ap, sym,
  subst, true, false, ◌==◌, ◌||◌, leb, List, [], ◌∷◌, arith, ◌⊎◌, inl, inr, Bool-cases, write_self,
  write_ne, done, ℕ_discrete, dec_lt,
}
use kalorona_kernel.Common.Bits.{bit_and_high_mask, pow-add}
use kalorona_kernel.Common.Word.{add64, not64}
use kalorona_kernel.Common.Page.{page_shift}
use kalorona_kernel.Bitmap.{test_bit}
use kalorona_kernel.LinkedList.Chain.{has, ◌∈◌}
use kalorona_kernel.Buddy.Blocks.{page_at, pow-pos}
use kalorona_kernel.Buddy.Alloc.{in_block-run}
use kalorona_kernel.Buddy.Give.{IsKmem, Given}
use kalorona_kernel.Object.{
  Objects, Block, Manager, header_size, block_size, set_block, set_manager, binary_round_down, room,
  create_from, kmem_object_create_block,
}
use kalorona_kernel.Object.Slots.{count_of, count_of-cons, count_of-none}
use kalorona_kernel.Object.Fresh.{slots}
use kalorona_kernel.Object.Create.{IsCreated, kmem_object_create_block_lem}
use kalorona_kernel.Object.Managed.{
  BlockView, IsPlacedIn, apart_from, Linked, IsFrame, Linked-frame,
}
use native.Mathlib.Nat.{pow-le-pow_right, le-mul_of_pos_right}

-- The room of an order is that of its pages without the struct, in multiples of 8 bytes.
room_lem : (ord : ℕ) → ord < 11 → room ord ≡ (2 ^ ord * 4096 - block_size) / 8 * 8
unfolding room binary_round_down
room_lem ord h =
    let pages = pow-add ord page_shift in
    let one = pow-pos ord in
    let bound = pow-le-pow_right {n = 2} (omega arith) {i = ord} {j = 10} (omega arith) in
    ap (λ (t : ℕ). bit_and t (not64 7)) (omega arith)
    ∙ bit_and_high_mask 61 3 (2 ^ ord * 4096 - block_size) (omega arith)

-- The block that the second loop makes.
pub record IsMade (s : Objects) (mgr object_size : ℕ) (r : ℕ × Objects) : Type 0 where
  pub order : ℕ
  pub number : ℕ
  pub address : r.0 ≡ page_at s.pages.begin_ppn (number * 2 ^ order)
  pub given : Given s.pages order number r.1.pages
  pub created : IsCreated s mgr order object_size r.0 r.1
  pub fits : object_size + header_size + block_size ≤ 2 ^ order * 4096

create_one :
    (s : Objects) (mgr ord : ℕ)
    → IsKmem s.pages
    → ord < 11
    → (s.manager mgr).object_size < 2 ^ 32
    → leb (add64 (s.manager mgr).object_size header_size) (room ord) ≡ true
    → (kmem_object_create_block s mgr ord (s.manager mgr).object_size ≡ done (0, s))
      ⊎ ((r : ℕ × Objects) × (kmem_object_create_block s mgr ord (s.manager mgr).object_size
            ≡ done r)
          × (r.0 ≢ 0)
          × IsMade s mgr (s.manager mgr).object_size r)
create_one s mgr ord valid lo small room_fits =
    let one = pow-pos ord in
    elim (kmem_object_create_block_lem s mgr ord (s.manager mgr).object_size valid lo small) [
      | inl (run, out) ↦ inl run
      | inr (b, s', run, given, created) ↦ inr (
        (page_at s.pages.begin_ppn (b * 2 ^ ord), s'),
        run,
        omega arith,
        record {
          order = ord;
          number = b;
          address = refl;
          given = given;
          created = created;
          fits = ground (arith, room_lem ord lo, room_fits);
        },
      )
    ]

-- The second loop on `nxt_ord` never panics: it returns NULL with nothing changed, or a block with room for an object.
pub create_from_lem :
    (ord : ℕ) (s : Objects) (mgr : ℕ)
    → IsKmem s.pages
    → ord < 11
    → (s.manager mgr).object_size < 2 ^ 32
    → (create_from ord s mgr ≡ done (0, s))
      ⊎ ((r : ℕ × Objects) × (create_from ord s mgr ≡ done r)
          × (r.0 ≢ 0)
          × IsMade s mgr (s.manager mgr).object_size r)
unfolding create_from
create_from_lem zero s mgr valid lo small =
    elim (Bool-cases (leb (add64 (s.manager mgr).object_size header_size) (room 0))) [
      | inr f ↦ inl (rw (create_from, f) refl)
      | inl t ↦ elim (create_one s mgr 0 valid lo small t) [
        | inl run ↦ inl (rw (create_from, t) run)
        | inr (r, run, nz, made) ↦ inr (r, rw (create_from, t) run, nz, made)
      ]
    ]
create_from_lem (suc ord) s mgr valid lo small =
    elim (Bool-cases (leb (add64 (s.manager mgr).object_size header_size) (room (suc ord)))) [
      | inr f ↦ inl (rw (create_from, f) refl)
      | inl t ↦ elim (create_one s mgr (suc ord) valid lo small t) [
        | inl run ↦ elim (create_from_lem ord s mgr valid (omega arith) small) [
          | inl lower ↦ inl (rw (create_from, t, run) lower)
          | inr (r, lower, nz, made) ↦ inr (r, rw (create_from, t, run) lower, nz, made)
        ]
        | inr (r, run, nz, made) ↦
            let not_null : (r.0 == 0) ≡ false = ground arith in
            inr (r, rw (create_from, t, run, not_null) refl, nz, made)
      ]
    ]

in-slots :
    (unit pos count a : ℕ)
    → a ∈ slots unit pos count
    → (j : ℕ) × (a ≡ pos + j * unit) × (a + unit ≤ pos + count * unit)
in-slots unit pos zero a i = absurd (ground arith)
in-slots unit pos (suc count) a i = elim (ℕ_discrete a pos) [
  | yes e ↦ (0, omega (arith, e), omega (arith, e))
  | no ne ↦
      let (j, at, end) = in-slots unit (pos + unit) count a (ground arith) in
      (suc j, omega arith, omega arith)
]

slots-first :
    (unit pos count : ℕ) → 1 ≤ count → (rest : List ℕ) × (slots unit pos count ≡ pos ∷ rest)
slots-first unit pos zero h = absurd (omega arith)
slots-first unit pos (suc count) h = (slots unit (pos + unit) count, refl)

count_of-slots : (unit pos count : ℕ) → count_of (slots unit pos count) ≡ count
count_of-slots unit pos zero = sym count_of-none
count_of-slots unit pos (suc count) =
    count_of-cons pos (slots unit (pos + unit) count)
    ∙ ap (λ (n : ℕ). n + 1) (count_of-slots unit (pos + unit) count)
    ∙ omega arith

module _ (s : Objects) (mgr object_size : ℕ) (r : ℕ × Objects) (valid : IsKmem s.pages)
    (made : IsMade s mgr object_size r) (aligned : object_size % 8 ≡ 0) where
  abbrev c : IsCreated s mgr made.order object_size r.0 r.1
  c = made.created

  abbrev pub new_view : BlockView
  new_view = record {
    blk = r.0;
    page_end = c.page_end;
    free = slots c.unit_size (r.0 + block_size) c.made;
    allocated = [];
  }

  pub unit_is : c.unit_size ≡ object_size + header_size
  unit_is = omega (arith, c.unit_size_lem)

  end_lem : c.page_end ≡ r.0 + 2 ^ made.order * 4096
  end_lem = c.page_end_lem ∙ ap (λ (n : ℕ). r.0 + n) (pow-add made.order page_shift)

  some_slot : 1 ≤ c.made
  some_slot = elim (ℕ_discrete c.made 0) [
    | no ne ↦ omega arith
    | yes e ↦
        let none_made = ap (λ (n : ℕ). n * c.unit_size) e in
        absurd (omega (arith, c.no_more, end_lem, unit_is, made.fits, none_made))
  ]

  new_view-IsPlacedIn : IsPlacedIn (r.1).pages (object_size + header_size) new_view
  new_view-IsPlacedIn =
      let one = pow-pos made.order in
      let begin = made.given.same_node.same_begin in
      let fits = (valid.1).holds.placed.fits in
      let inside = made.given.inside in
      let at : (a : ℕ)
          → a ∈ slots c.unit_size (r.0 + block_size) c.made
          → (j : ℕ) × (a ≡ r.0 + block_size + j * c.unit_size)
            × (a + c.unit_size ≤ r.0 + block_size + c.made * c.unit_size) =
        λ a i. in-slots c.unit_size (r.0 + block_size) c.made a i in
      record {
        first_page = made.number * 2 ^ made.order;
        page_count = 2 ^ made.order;
        some_page = one;
        blk_is =
            made.address ∙ ap (λ (n : ℕ). page_at n (made.number * 2 ^ made.order)) (sym begin);
        end_is = omega (arith, end_lem, made.address, begin);
        marked =
            λ pn h l. made.given.marked pn ∙ ground (arith, in_block-run made.order made.number pn);
        inside = λ a i. elim (Bool-cases (has a new_view.free)) [
          | inl k ↦
              let (j, here, end) = at a k in
              (omega arith, omega (arith, end_lem, unit_is, c.slots_fit))
          | inr k ↦ (
            ground (arith, end_lem, made.address),
            ground (arith, end_lem, made.address, one, fits, inside),
          )
        ];
        spaced = λ a i.
            let (j, here, end) = at a (ground arith) in
            (
              j,
              here ∙ ap (λ (u : ℕ). r.0 + block_size + j * u) unit_is,
              omega (arith, unit_is, c.slots_fit),
            );
        word = omega (arith, end_lem, made.address, fits, inside);
        few =
            let many = le-mul_of_pos_right {m = c.unit_size} c.made (omega (arith, unit_is)) in
            omega (
              arith,
              count_of-slots c.unit_size (r.0 + block_size) c.made,
              count_of-none,
              c.slots_fit,
              end_lem,
              made.address,
            );
      }

  -- Its pages were free, and those of the other blocks were not.
  new_view-apart :
      (at : ℕ) (vs : List BlockView)
      → Linked s (object_size + header_size) at vs
      → apart_from r.0 c.page_end vs ≡ true
  new_view-apart at [] linked = refl
  new_view-apart at (v ∷ vs) (at_is, ok, p, apart, rest) =
      let one = pow-pos made.order in
      let lo = made.number * 2 ^ made.order in
      let hi = lo + 2 ^ made.order in
      let was_free : (pn : ℕ) → lo ≤ pn → pn < hi → test_bit s.pages.mem_map pn ≡ 0 =
        λ pn h l. made.given.was_free pn (ground (arith, in_block-run made.order made.number pn)) in
      let one_of : (leb (p.first_page + p.page_count) lo || leb hi p.first_page) ≡ true =
        elim (dec_lt p.first_page lo) [
          | yes l ↦ elim (dec_lt lo (p.first_page + p.page_count)) [
            | yes k ↦ absurd (
                clash lo (was_free lo (omega arith) (omega arith))
                  (p.marked lo (omega arith) (omega arith)))
            | no nk ↦ ground arith
          ]
          | no nl ↦ elim (dec_lt p.first_page hi) [
            | yes k ↦ absurd (
                clash p.first_page (was_free p.first_page (omega arith) (omega arith))
                  (p.marked p.first_page (omega arith) (omega (arith, p.some_page))))
            | no nk ↦ ground arith
          ]
        ] in
      ground (
        arith,
        one_of,
        p.blk_is,
        p.end_is,
        end_lem,
        made.address,
        new_view-apart (s.block v.blk).block_nxt vs rest,
      )
    where
      clash : (pn : ℕ) → test_bit s.pages.mem_map pn ≡ 0 → test_bit s.pages.mem_map pn ≡ 1 → ⊥
      clash pn z o = omega arith

  -- The state once the block is first in the manager's list.
  abbrev pub connected : Objects
  connected =
      let m = (r.1).manager mgr in
      let s₁ = set_block r.1 r.0 (record ((r.1).block r.0) { block_nxt = m.blocks }) in
      set_manager s₁ mgr (record m { blocks = r.0 })

  connected-IsFrame : IsFrame r.0 c.page_end s connected
  unfolding set_block set_manager
  connected-IsFrame = record {
    headers_kept = c.headers_kept;
    blocks_kept = λ b h.
        write_ne (r.1).block r.0 b
          (record ((r.1).block r.0) { block_nxt = ((r.1).manager mgr).blocks }) h
        ∙ c.blocks_kept b h;
    same_begin = made.given.same_node.same_begin;
    still_marked = λ pn h. made.given.marked pn ∙ ground (arith, h);
  }

  pub connected-Linked :
      (vs : List BlockView)
      → Linked s (object_size + header_size) (s.manager mgr).blocks vs
      → Linked connected (object_size + header_size) r.0 (new_view ∷ vs)
  unfolding set_block set_manager
  connected-Linked vs linked =
      let m = (r.1).manager mgr in
      let b = record ((r.1).block r.0) { block_nxt = m.blocks } in
      let here = write_self (r.1).block r.0 b in
      let ok = c.block_lists in
      let one = pow-pos made.order in
      let same : (s.manager mgr).blocks ≡ (connected.block r.0).block_nxt =
        ap (λ (f : ℕ → Manager). (f mgr).blocks) (sym c.managers_kept)
        ∙ sym (ap (λ (d : Block). d.block_nxt) here) in
      let apart = new_view-apart (s.manager mgr).blocks vs linked in
      (
        refl,
        record {
          free_chain = ok.free_chain;
          allocated_chain = ok.allocated_chain;
          apart = ok.apart;
          used_count = ap (λ (d : Block). d.used) here ∙ ok.used_count;
          parent = ok.parent;
        },
        new_view-IsPlacedIn,
        apart,
        subst (λ (a : ℕ). Linked connected (object_size + header_size) a vs) same
            (Linked-frame connected-IsFrame (omega (arith, end_lem)) (object_size + header_size)
              (s.manager mgr).blocks vs apart linked),
      )

  -- It has a free slot.
  pub new_view-first : (rest : List ℕ) × (new_view.free ≡ (r.0 + block_size) ∷ rest)
  new_view-first = slots-first c.unit_size (r.0 + block_size) c.made some_slot
