-- ===== src/Bootmem/Layout.antt =====
-- kernel/memory/bootmem.c: the two ways to place an object, in plain arithmetic. `off` is the
-- object's offset from the first byte of the node.
use native.Mathlib.Nat.{
  div-lt_iff_lt-mul, one-le-pow, mul-mod_left, div-add-mod', mod-lt, mul-add-mod_self_right,
}
use kalorona_kernel.Common.{
  ℕ, ◌+◌, ◌-◌, ◌*◌, ◌/◌, ◌%◌, ◌≤◌, ◌<◌, ◌^◌, ◌≡◌, ◌≢◌, refl, ◌∙◌, ◌&&◌, not, arith, ltb, leb, ◌==◌,
  if◌then◌else◌, ap, sym, bit_and, Bool-cases, inl, inr, ltb→lt, dec_le, Bool, true,
}
use kalorona_kernel.Common.Bits.{bit_and_high_mask, bit_and_mask, pow-add}
use kalorona_kernel.Common.Word.{add64, sub64, not64, shl64, shr}
use kalorona_kernel.Common.Page.{pma_pa2va, page_size}
use kalorona_kernel.Bootmem.Place.{Placed, extend_last_page, new_pages, place}

-- `l` rounded up to a multiple of `2 ^ k`
abbrev pub up_to : ℕ → ℕ → ℕ
up_to k l = (l + 2 ^ k - 1) / 2 ^ k * 2 ^ k

pow_split : (k : ℕ) → k ≤ 12 → 2 ^ (12 - k) * 2 ^ k ≡ 4096
pow_split k hk = sym (pow-add (12 - k) k) ∙ ap (λ (n : ℕ). 2 ^ n) {y = 12} (omega arith)

-- A page is aligned at every alignment up to its own size.
pub multiple_aligned :
    (k page offset : ℕ) → k ≤ 12 → offset % 2 ^ k ≡ 0 → (page * page_size + offset) % 2 ^ k ≡ 0
multiple_aligned k page offset hk e =
    ap (λ (n : ℕ). n % 2 ^ k) regroup
    ∙ mul-add-mod_self_right (page * 2 ^ (12 - k)) (2 ^ k) offset
    ∙ e
  where
    regroup : page * page_size + offset ≡ page * 2 ^ (12 - k) * 2 ^ k + offset
    regroup = omega (arith, ap (λ (t : ℕ). page * t) (pow_split k hk))

module _ (k l : ℕ) (hk : k ≤ 12) (hl : l ≤ 4096) where
  pub pow_bounds : (1 ≤ 2 ^ k) × (2 ^ k ≤ 4096)
  pow_bounds = (one-le-pow k 2 (omega arith), grind (arith, pow_split k hk, one-le-pow (12 - k) 2))

  rounded_mask : bit_and (sub64 (add64 l (2 ^ k)) 1) (not64 (sub64 (2 ^ k) 1)) ≡ up_to k l
  rounded_mask =
      let sum : sub64 (add64 l (2 ^ k)) 1 ≡ l + 2 ^ k - 1 = omega (arith, pow_bounds) in
      let width : 64 - k + k ≡ 64 = omega arith in
      let mask : not64 (sub64 (2 ^ k) 1) ≡ 2 ^ (64 - k + k) - 2 ^ k =
        omega (arith, pow_bounds, ap (λ (n : ℕ). 2 ^ n) width) in
      rw (sum, mask)
        (bit_and_high_mask (64 - k) k (l + 2 ^ k - 1)
          (omega (arith, pow_bounds, ap (λ (n : ℕ). 2 ^ n) width)))

  pub up_to_bounds : (l ≤ up_to k l) × (up_to k l ≤ 4096) × (up_to k l % 2 ^ k ≡ 0)
  up_to_bounds = (
    omega (
      arith,
      pow_bounds,
      div-add-mod' (l + 2 ^ k - 1) (2 ^ k),
      mod-lt (l + 2 ^ k - 1) {m = 2 ^ k},
    ),
    grind (arith, pow_split k hk, few),
    mul-mod_left ((l + 2 ^ k - 1) / 2 ^ k) (2 ^ k),
  )
    where
      few : (l + 2 ^ k - 1) / 2 ^ k < 2 ^ (12 - k) + 1
      few = (div-lt_iff_lt-mul pow_bounds.0).1 (omega (arith, pow_bounds, pow_split k hk))

-- Where the parts of the object go, in the three cases.
module _ (begin_ppn last_page size : ℕ) where
  -- all of it behind the last object, in that object's last page
  abbrev pub inside_page : ℕ → Placed
  inside_page offset = record {
    ret_addr = pma_pa2va (begin_ppn * page_size + (last_page * page_size + offset));
    last_page = last_page;
    last_page_offset = offset + size;
    area_size = 0;
  }

  -- behind the last object and on into the pages after it; `back` bytes of it lie there
  abbrev pub across_pages : ℕ → Placed
  across_pages offset =
      let back : ℕ = size - (page_size - offset) in
      record {
        ret_addr = pma_pa2va (begin_ppn * page_size + (last_page * page_size + offset));
        last_page = last_page + (back + 4095) / page_size;
        last_page_offset = back % page_size;
        area_size = (back + 4095) / page_size;
      }

  -- in pages of its own
  abbrev pub own_pages : ℕ → Placed
  own_pages spot = record {
    ret_addr = pma_pa2va (begin_ppn * page_size + spot * page_size);
    last_page = spot + (size + 4095) / page_size - 1;
    last_page_offset = size % page_size;
    area_size = (size + 4095) / page_size;
  }

Placed_eq :
    (p q : Placed)
    → p.ret_addr ≡ q.ret_addr
    → p.last_page ≡ q.last_page
    → p.last_page_offset ≡ q.last_page_offset
    → p.area_size ≡ q.area_size
    → p ≡ q
Placed_eq p q a l o s =
    λ i. record { ret_addr = a i; last_page = l i; last_page_offset = o i; area_size = s i }

-- Bounds under which no sum of the placement wraps.
pub record Bounds (begin_ppn last_page last_page_offset size spot : ℕ) : Type 0 where
  pub begin_small : begin_ppn ≤ 2 ^ 25
  pub offset_small : last_page_offset < page_size
  pub size_pos : 0 < size
  pub size_small : size ≤ 2 ^ 40
  pub spot_small : spot ≤ 2 ^ 25

module _ (begin_ppn last_page last_page_offset size k spot : ℕ)
    (b : Bounds begin_ppn last_page last_page_offset size spot) where
  own_pages_lem :
      new_pages begin_ppn last_page last_page_offset size (2 ^ k) ((size + 4095) / page_size) spot
      ≡ own_pages begin_ppn last_page size spot
  unfolding new_pages
  own_pages_lem =
      Placed_eq _ _ (ap pma_pa2va (omega (arith, b.begin_small, b.spot_small)))
        (omega (arith, b.size_pos, b.size_small, b.spot_small)) (bit_and_mask 12 size) refl

  -- With the rounded offset known, the branches of the code are these two.
  extend_at : ℕ → Placed
  extend_at offset =
      if ltb size (sub64 page_size offset)
      then record {
        ret_addr = pma_pa2va (add64 offset (shl64 (add64 last_page begin_ppn) 12));
        last_page = last_page;
        last_page_offset = bit_and (add64 offset size) (page_size - 1);
        area_size = 0;
      }
      else record {
        ret_addr = pma_pa2va (add64 offset (shl64 (add64 last_page begin_ppn) 12));
        last_page =
            sub64
              (add64 spot
                (shr (sub64 (add64 (sub64 size (sub64 page_size offset)) page_size) 1) 12))
              1;
        last_page_offset = bit_and (sub64 size (sub64 page_size offset)) (page_size - 1);
        area_size = shr (sub64 (add64 (sub64 size (sub64 page_size offset)) page_size) 1) 12;
      }

  extend_at_lem :
      (offset : ℕ)
      → offset ≤ page_size
      → last_page < 2 ^ 25
      → spot ≡ last_page + 1
      → extend_at offset ≡ (
          if ltb size (page_size - offset)
          then inside_page begin_ppn last_page size offset
          else across_pages begin_ppn last_page size offset)
  unfolding extend_at
  extend_at_lem offset h page_small e = rw rem (elim (Bool-cases (ltb size (page_size - offset))) [
    | inl in_page ↦ rw in_page (
        Placed_eq _ _ (ap pma_pa2va addr) refl
          (bit_and_mask 12 (add64 offset size)
            ∙ omega (arith, b.size_small, ltb→lt size (page_size - offset) in_page))
          refl)
    | inr past ↦ rw past (
        let more : page_size - offset ≤ size = ground arith in
        let back : sub64 size (page_size - offset) ≡ size - (page_size - offset) =
          omega (arith, b.size_small) in
        let area : shr (sub64 (add64 (sub64 size (page_size - offset)) page_size) 1) 12
            ≡ (size - (page_size - offset) + 4095) / page_size =
          omega (arith, b.size_small) in
        Placed_eq _ _ (ap pma_pa2va addr) (omega (arith, area, b.size_small, b.spot_small))
          (bit_and_mask 12 (sub64 size (page_size - offset)) ∙ ap (λ (n : ℕ). n % page_size) back)
          area)
  ])
    where
      rem : sub64 page_size offset ≡ page_size - offset
      rem = omega arith

      addr :
          add64 offset (shl64 (add64 last_page begin_ppn) 12)
          ≡ begin_ppn * page_size + (last_page * page_size + offset)
      addr = omega (arith, b.begin_small, page_small)

  extend_lem :
      k ≤ 12
      → last_page < 2 ^ 25
      → spot ≡ last_page + 1
      → extend_last_page begin_ppn last_page last_page_offset size
          (2 ^ k)
          ((size + 4095) / page_size)
          spot
        ≡ (if ltb size (page_size - up_to k last_page_offset)
            then inside_page begin_ppn last_page size (up_to k last_page_offset)
            else across_pages begin_ppn last_page size (up_to k last_page_offset))
  unfolding extend_last_page extend_at
  extend_lem hk page_small e =
      ap extend_at (rounded_mask k last_page_offset hk (omega (arith, b.offset_small)))
      ∙ extend_at_lem (up_to k last_page_offset)
          (up_to_bounds k last_page_offset hk (omega (arith, b.offset_small))).1 page_small e

  -- What `place` returns, with the facts that led there.
  pub data Where (p : Placed) : Type 0 where
    own : p ≡ own_pages begin_ppn last_page size spot → Where p
    inside :
        k ≤ 12
        → last_page_offset ≢ 0
        → spot ≡ last_page + 1
        → size < page_size - up_to k last_page_offset
        → p ≡ inside_page begin_ppn last_page size (up_to k last_page_offset)
        → Where p
    across :
        k ≤ 12
        → last_page_offset ≢ 0
        → spot ≡ last_page + 1
        → page_size - up_to k last_page_offset ≤ size
        → p ≡ across_pages begin_ppn last_page size (up_to k last_page_offset)
        → Where p

  abbrev pub placed : Placed
  placed = place begin_ppn last_page last_page_offset size (2 ^ k) ((size + 4095) / page_size) spot

  appends : Bool
  appends = leb (2 ^ k) page_size && not (last_page_offset == 0) && (add64 last_page 1 == spot)

  small_shift : leb (2 ^ k) page_size ≡ true → k ≤ 12
  small_shift h = elim (dec_le k 12) [
    | yes p ↦ p
    | no p ↦
        let big : 2 ^ k ≡ 2 ^ (k - 13) * 2 ^ 13 =
          ap (λ (n : ℕ). 2 ^ n) {y = k - 13 + 13} (omega arith) ∙ pow-add (k - 13) 13 in
        ground (arith, big, one-le-pow (k - 13) 2)
  ]

  pub place-Where : (last_page_offset ≢ 0 → last_page < 2 ^ 25) → Where placed
  unfolding place appends
  place-Where last_small = elim (Bool-cases appends) [
    | inr new ↦ own (rw new own_pages_lem)
    | inl old ↦
        let hk : k ≤ 12 = small_shift (ground arith) in
        let used : last_page_offset ≢ 0 = ground arith in
        let next : spot ≡ last_page + 1 = ground (arith, last_small used) in
        elim (Bool-cases (ltb size (page_size - up_to k last_page_offset))) [
          | inl fits ↦
              inside hk used next (ground arith)
                (rw (old, extend_lem hk (last_small used) next, fits))
          | inr past ↦
              across hk used next (ground arith)
                (rw (old, extend_lem hk (last_small used) next, past))
        ]
  ]
