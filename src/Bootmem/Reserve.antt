-- ===== src/Bootmem/Reserve.antt =====
-- kernel/memory/bootmem.c: `bootmem_reserve` and `bootmem_free` on the pages of an address range.
use kalorona_kernel.Common.{
  ℕ, ◌+◌, ◌-◌, ◌/◌, ◌≤◌, ◌<◌, ◌^◌, ◌≡◌, refl, ◌∙◌, arith, done, panicked, ◌>>=◌, ◌⊎◌, inl, inr,
  dec_le, ◌≢◌,
}
use kalorona_kernel.Common.Word.{add64, shr}
use kalorona_kernel.Common.Page.{
  page_size, page_round_up, page_round_down, page_round_down_lem, page_round_up_lem,
}
use kalorona_kernel.Bitmap.{BitMap, IsBytes, test_bit}
use kalorona_kernel.Bootmem.{Bootmem, page_range, bootmem_reserve, bootmem_free}
use kalorona_kernel.Bootmem.Bits.{
  AllAre, Filled, set_bits-done, set_bits-panicked, clear_bits-done, clear_bits-panicked,
}

-- The node of a machine whose pages lie in the 128 GiB that the kernel maps, and whose last
-- page, if some of it is left, is marked.
pub record IsValid (u : Bootmem) : Type 0 where
  pub bytes : IsBytes u.mem_map
  pub small : u.begin_ppn + u.num_ppn ≤ 2 ^ 25
  pub last_marked :
      u.last_page_offset ≢ 0 → (u.last_page < u.num_ppn) × (test_bit u.mem_map u.last_page ≡ 1)
  pub last_offset : u.last_page_offset < page_size

-- The pages that an address range meets: the first, and the one behind the last.
abbrev pub first_page : ℕ → ℕ
first_page paddr = paddr / page_size

abbrev pub page_behind : ℕ → ℕ → ℕ
page_behind paddr size = (paddr + size + 4095) / page_size

-- The range does not wrap round the address space.
abbrev pub NoWrap : ℕ → ℕ → Type 0
NoWrap paddr size = paddr + size + 4095 < 2 ^ 64

pub record Inside (u : Bootmem) (paddr size : ℕ) : Type 0 where
  pub no_wrap : NoWrap paddr size
  pub above : u.begin_ppn ≤ first_page paddr
  pub below : page_behind paddr size ≤ u.begin_ppn + u.num_ppn

module _ (u : Bootmem) (paddr size : ℕ) (small : u.begin_ppn + u.num_ppn ≤ 2 ^ 25) where
  first_lem : NoWrap paddr size → shr (page_round_down paddr) 12 ≡ first_page paddr
  first_lem h = omega (arith, page_round_down_lem paddr)

  behind_lem :
      NoWrap paddr size → shr (page_round_up (add64 paddr size)) 12 ≡ page_behind paddr size
  behind_lem h =
      let e : add64 paddr size ≡ paddr + size = omega arith in
      rw e (omega (arith, page_round_up_lem (paddr + size)))

  page_range-done :
      Inside u paddr size
      → page_range u paddr size
        ≡ done (first_page paddr - u.begin_ppn, page_behind paddr size - first_page paddr)
  unfolding page_range
  page_range-done h =
      rw (first_lem h.no_wrap, behind_lem h.no_wrap) (ground (arith, h.no_wrap, h.above, h.below))

  page_range-panicked :
      NoWrap paddr size
      → (first_page paddr < u.begin_ppn) ⊎ (u.begin_ppn + u.num_ppn < page_behind paddr size)
      → page_range u paddr size ≡ panicked
  unfolding page_range
  page_range-panicked h out = rw (first_lem h, behind_lem h) (ground arith)

-- the bits of the range in the map
abbrev pub first_bit : Bootmem → ℕ → ℕ
first_bit u paddr = first_page paddr - u.begin_ppn

abbrev pub bit_count : ℕ → ℕ → ℕ
bit_count paddr size = page_behind paddr size - first_page paddr

module _ {u : Bootmem} (paddr size : ℕ) (valid : IsValid u) where
  run_fits : Inside u paddr size → first_bit u paddr + bit_count paddr size < 2 ^ 64
  run_fits inside = omega (arith, valid.small, inside.above, inside.below)

  -- If all pages of the range are free, `bootmem_reserve` marks them and changes nothing else.
  pub bootmem_reserve-done :
      Inside u paddr size
      → AllAre 0 (first_bit u paddr) (bit_count paddr size) u.mem_map
      → (g : BitMap) × (bootmem_reserve u paddr size ≡ done (record u { mem_map = g }))
        × IsBytes g
        × Filled 1 (first_bit u paddr) (bit_count paddr size) u.mem_map g
  unfolding bootmem_reserve
  bootmem_reserve-done inside free =
      let (g, run, bytes, filled) =
        set_bits-done (bit_count paddr size) (first_bit u paddr) u.mem_map valid.bytes
          (run_fits inside) free in
      (g, rw (page_range-done u paddr size valid.small inside, run) refl, bytes, filled)

  -- If all pages of the range are marked, `bootmem_free` frees them and changes nothing else.
  pub bootmem_free-done :
      Inside u paddr size
      → AllAre 1 (first_bit u paddr) (bit_count paddr size) u.mem_map
      → (g : BitMap) × (bootmem_free u paddr size ≡ done (record u { mem_map = g }))
        × IsBytes g
        × Filled 0 (first_bit u paddr) (bit_count paddr size) u.mem_map g
  unfolding bootmem_free
  bootmem_free-done inside marked =
      let (g, run, bytes, filled) =
        clear_bits-done (bit_count paddr size) (first_bit u paddr) u.mem_map valid.bytes
          (run_fits inside) marked in
      (g, rw (page_range-done u paddr size valid.small inside, run) refl, bytes, filled)

  module _ (page : ℕ) (lo : first_page paddr ≤ page) (hi : page < page_behind paddr size) where
    -- A range that does not wrap makes `bootmem_reserve` panic if it leaves the node or meets a page
    -- that is marked.
    pub bootmem_reserve-panicked :
        NoWrap paddr size
        → (page < u.begin_ppn)
          ⊎ (u.begin_ppn + u.num_ppn ≤ page)
          ⊎ (test_bit u.mem_map (page - u.begin_ppn) ≡ 1)
        → bootmem_reserve u paddr size ≡ panicked
    unfolding bootmem_reserve
    bootmem_reserve-panicked h bad = elim (dec_le u.begin_ppn (first_page paddr)) [
      | no below ↦ rw (page_range-panicked u paddr size valid.small h (inl (omega arith)))
      | yes above ↦ elim (dec_le (page_behind paddr size) (u.begin_ppn + u.num_ppn)) [
        | no past ↦ rw (page_range-panicked u paddr size valid.small h (inr (omega arith)))
        | yes under ↦
            let inside : Inside u paddr size = record {
              no_wrap = h;
              above = above;
              below = under;
            } in
            let marked : test_bit u.mem_map (page - u.begin_ppn) ≡ 1 = ground arith in
            rw (
              page_range-done u paddr size valid.small inside,
              set_bits-panicked (bit_count paddr size) (first_bit u paddr) (page - u.begin_ppn)
                  u.mem_map valid.bytes (run_fits inside) (omega arith) (omega arith) marked,
            )
      ]
    ]

    -- It makes `bootmem_free` panic if it leaves the node or meets a page that is free.
    pub bootmem_free-panicked :
        NoWrap paddr size
        → (page < u.begin_ppn)
          ⊎ (u.begin_ppn + u.num_ppn ≤ page)
          ⊎ (test_bit u.mem_map (page - u.begin_ppn) ≡ 0)
        → bootmem_free u paddr size ≡ panicked
    unfolding bootmem_free
    bootmem_free-panicked h bad = elim (dec_le u.begin_ppn (first_page paddr)) [
      | no below ↦ rw (page_range-panicked u paddr size valid.small h (inl (omega arith)))
      | yes above ↦ elim (dec_le (page_behind paddr size) (u.begin_ppn + u.num_ppn)) [
        | no past ↦ rw (page_range-panicked u paddr size valid.small h (inr (omega arith)))
        | yes under ↦
            let inside : Inside u paddr size = record {
              no_wrap = h;
              above = above;
              below = under;
            } in
            let free : test_bit u.mem_map (page - u.begin_ppn) ≡ 0 = ground arith in
            rw (
              page_range-done u paddr size valid.small inside,
              clear_bits-panicked (bit_count paddr size) (first_bit u paddr) (page - u.begin_ppn)
                  u.mem_map valid.bytes (run_fits inside) (omega arith) (omega arith) free,
            )
      ]
    ]

  -- Freeing what was just reserved gives back every bit.
  pub free-reserve :
      Inside u paddr size
      → AllAre 0 (first_bit u paddr) (bit_count paddr size) u.mem_map
      → (g : BitMap) × ((bootmem_reserve u paddr size >>= λ v. bootmem_free v paddr size)
          ≡ done (record u { mem_map = g }))
        × ((j : ℕ) → test_bit g j ≡ test_bit u.mem_map j)
  unfolding bootmem_free
  free-reserve inside free =
      let (m, reserved, bytes, filled) = bootmem_reserve-done inside free in
      let (g, run, bytes', emptied) =
        clear_bits-done (bit_count paddr size) (first_bit u paddr) m bytes (run_fits inside)
          (λ j p q. filled j ∙ ground arith) in
      (
        g,
        rw reserved (
            rw
              (
                page_range-done (record u { mem_map = m }) paddr size valid.small
                    (record {
                      no_wrap = inside.no_wrap;
                      above = inside.above;
                      below = inside.below;
                    }),
                run,
              )
              refl),
        λ j. emptied j ∙ ground (arith, filled j, free j),
      )
