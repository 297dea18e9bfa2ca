-- ===== src/Bootmem/Alloc.antt =====
-- kernel/memory/bootmem.c: `bootmem_alloc` never panics; it hands out bytes that were free.
use native.Mathlib.Nat.{one-le-pow, mod_self, mod-lt, mod-eq_of_lt}
use kalorona_kernel.Common.{
  ℕ, ◌+◌, ◌-◌, ◌*◌, ◌/◌, ◌%◌, ◌≤◌, ◌<◌, ◌^◌, ◌≡◌, refl, ◌∙◌, sym, ◌||◌, not, false, arith, ◌==◌, ap,
  bit_and, Outcome, done, ◌>>=◌, Option, none, some, subst,
}
use kalorona_kernel.Common.Bits.{bit_and_mask, pow-add}
use kalorona_kernel.Common.Word.{add64, sub64, shr, shl64}
use kalorona_kernel.Common.Page.{page_size, pma_pa2va, pma_pa2va_lem, va_kernel_begin}
use kalorona_kernel.Bitmap.{BitMap, IsBytes}
use kalorona_kernel.Memory.{Memory, memset}
use kalorona_kernel.Bootmem.{Bootmem, set_bits, start_offset, preferred_page, bootmem_alloc}
use kalorona_kernel.Bootmem.Scan.{find_spots}
use kalorona_kernel.Bootmem.Place.{Placed, place}
use kalorona_kernel.Bootmem.Bits.{Filled, set_bits-done}
use kalorona_kernel.Bootmem.Reserve.{IsValid}
use kalorona_kernel.Bootmem.Find.{FreeRun, find_spots-some, find_spots-none}
use kalorona_kernel.Bootmem.Layout.{
  inside_page, across_pages, own_pages, up_to, up_to_bounds, Bounds, own, inside, across,
  place-Where, multiple_aligned, pow_bounds,
}
use kalorona_kernel.Bootmem.Used.{
  Taken, after, own_pages-Taken, own_pages-IsValid, inside_page-Taken, inside_page-IsValid,
  across_pages-Taken, across_pages-IsValid,
}

-- the pages that an object needs if it gets pages of its own
abbrev pub pages_of : ℕ → ℕ
pages_of size = (size + 4095) / page_size

-- What an allocation of `size` bytes, aligned at `2 ^ k`, may leave. An object lies `off` bytes
-- from the start of the node, and is zeroed.
pub data Allocated (u : Bootmem) (mem : Memory) (size k : ℕ)
    : Outcome (ℕ × Bootmem × Memory) → Type 0 where
  nothing :
      (k ≤ 12 → (spot : ℕ) → ¬ FreeRun u.mem_map u.num_ppn spot (pages_of size))
      → Allocated u mem size k (done (0, u, mem))
  object :
      (off addr : ℕ) (u' : Bootmem)
      → addr ≡ va_kernel_begin + (u.begin_ppn * page_size + off)
      → (k ≤ 12 → off % 2 ^ k ≡ 0)
      → Taken u u' off size
      → IsValid u'
      → (u'.begin_ppn ≡ u.begin_ppn) × (u'.num_ppn ≡ u.num_ppn)
      → Allocated u mem size k (done (addr, u', memset mem addr 0 size))

module _ {u : Bootmem} (mem : Memory) (size k spot : ℕ) (valid : IsValid u) (pos : 0 < size)
    (small : size + 4095 < 2 ^ 64) (run : FreeRun u.mem_map u.num_ppn spot (pages_of size)) where
  bounds : Bounds u.begin_ppn u.last_page u.last_page_offset size spot
  bounds = record {
    begin_small = omega (arith, valid.small);
    offset_small = valid.last_offset;
    size_pos = pos;
    size_small = omega (arith, valid.small, run.fits);
    spot_small = omega (arith, valid.small, run.fits);
  }

  -- the end of `bootmem_alloc`, once the object is placed
  marked_result : Placed → BitMap → Outcome (ℕ × Bootmem × Memory)
  marked_result p m = done (
    p.ret_addr,
    record u { mem_map = m; last_page = p.last_page; last_page_offset = p.last_page_offset },
    memset mem p.ret_addr 0 size,
  )

  finish : Placed → Outcome (ℕ × Bootmem × Memory)
  unfolding marked_result
  finish p = set_bits (sub64 (add64 spot p.area_size) spot) spot u.mem_map >>= marked_result p

  finish-done :
      (p : Placed)
      → p.area_size ≤ pages_of size
      → (g : BitMap) × (finish p ≡ done (p.ret_addr, after u p g, memset mem p.ret_addr 0 size))
        × IsBytes g
        × Filled 1 spot p.area_size u.mem_map g
  unfolding finish
  finish-done p h =
      let rounds : sub64 (add64 spot p.area_size) spot ≡ p.area_size =
        omega (arith, valid.small, run.fits) in
      let (g, marked, bytes, filled) =
        set_bits-done p.area_size spot u.mem_map valid.bytes (omega (arith, valid.small, run.fits))
          (λ j lo hi. run.free j lo (omega arith)) in
      (
        g,
        ap (λ r. set_bits r spot u.mem_map >>= marked_result p) rounds
            ∙ ap (λ o. o >>= marked_result p) marked,
        bytes,
        filled,
      )

  -- Each placement gives an allocation.
  placed_object :
      (p : Placed) (off : ℕ)
      → p.area_size ≤ pages_of size
      → p.ret_addr ≡ pma_pa2va (u.begin_ppn * page_size + off)
      → (k ≤ 12 → off % 2 ^ k ≡ 0)
      → ((g : BitMap)
          → IsBytes g
          → Filled 1 spot p.area_size u.mem_map g
          → Taken u (after u p g) off size × IsValid (after u p g))
      → Allocated u mem size k (finish p)
  placed_object p off h addr aligned correct =
      let (g, run_eq, bytes, filled) = finish-done p h in
      let (taken, valid') = correct g bytes filled in
      subst (Allocated u mem size k) (sym run_eq) (
        object off p.ret_addr (after u p g)
          (addr
            ∙ pma_pa2va_lem (u.begin_ppn * page_size + off)
                (omega (arith, taken.fits, valid.small, pos))
            ∙ omega arith)
          aligned taken valid' (refl, refl))

  own_aligned : k ≤ 12 → (spot * page_size) % 2 ^ k ≡ 0
  own_aligned hk =
      ap (λ (n : ℕ). n % 2 ^ k) {y = spot * page_size + 0} (omega arith)
      ∙ multiple_aligned k spot 0 hk (mod-eq_of_lt (one-le-pow k 2 (omega arith)))

  finish-Allocated :
      Allocated u mem size k (
        finish (place u.begin_ppn u.last_page u.last_page_offset size (2 ^ k) (pages_of size) spot))
  finish-Allocated =
      elim (place-Where u.begin_ppn u.last_page u.last_page_offset size k spot bounds
        (λ used. omega (arith, (valid.last_marked used).0, valid.small))) [
          | own e ↦
              subst (λ p. Allocated u mem size k (finish p)) (sym e)
                (placed_object (own_pages u.begin_ppn u.last_page size spot) (spot * page_size)
                  (omega arith) refl own_aligned
                  (λ g bytes filled. (
                    own_pages-Taken valid size spot g bytes pos run filled,
                    own_pages-IsValid valid size spot g bytes pos run filled,
                  )))
          | inside hk used next fits e ↦
              let (lo, hi, al) =
                up_to_bounds k u.last_page_offset hk (omega (arith, valid.last_offset)) in
              subst (λ p. Allocated u mem size k (finish p)) (sym e)
                (placed_object
                  (inside_page u.begin_ppn u.last_page size (up_to k u.last_page_offset))
                  (u.last_page * page_size + up_to k u.last_page_offset) (omega arith) refl
                  (λ hk'. multiple_aligned k u.last_page (up_to k u.last_page_offset) hk al)
                  (λ g bytes filled. (
                    inside_page-Taken valid size spot g bytes pos (up_to k u.last_page_offset) used
                        lo fits filled,
                    inside_page-IsValid valid size spot g bytes pos (up_to k u.last_page_offset)
                        used lo fits filled,
                  )))
          | across hk used next past e ↦
              let (lo, hi, al) =
                up_to_bounds k u.last_page_offset hk (omega (arith, valid.last_offset)) in
              subst (λ p. Allocated u mem size k (finish p)) (sym e)
                (placed_object
                  (across_pages u.begin_ppn u.last_page size (up_to k u.last_page_offset))
                  (u.last_page * page_size + up_to k u.last_page_offset) (omega arith) refl
                  (λ hk'. multiple_aligned k u.last_page (up_to k u.last_page_offset) hk al)
                  (λ g bytes filled. (
                    across_pages-Taken valid size spot g bytes pos (up_to k u.last_page_offset) used
                        lo hi past next run filled,
                    across_pages-IsValid valid size spot g bytes pos (up_to k u.last_page_offset)
                        used lo hi past next run filled,
                  )))
        ]

module _ (k : ℕ) (hk : k < 64) where
  pow_small : (1 ≤ 2 ^ k) × (2 ^ k ≤ 2 ^ 63)
  pow_small = (
    one-le-pow k 2 (omega arith),
    grind (
      arith,
      pow-add (63 - k) k,
      one-le-pow (63 - k) 2,
      ap (λ (n : ℕ). 2 ^ n) {x = 63 - k + k} {y = 63} (omega arith),
    ),
  )

  bit_and_low : (a : ℕ) → bit_and a (sub64 (2 ^ k) 1) ≡ a % 2 ^ k
  bit_and_low a = ap (bit_and a) {y = 2 ^ k - 1} (omega (arith, pow_small)) ∙ bit_and_mask k a

  -- The scan from page 0 on sees every run, if the alignment is at most a page.
  start_offset-zero : (u : Bootmem) → k ≤ 12 → start_offset u (2 ^ k) ≡ 0
  unfolding start_offset
  start_offset-zero u h =
      let gap = sub64 (2 ^ k) (bit_and (shl64 u.begin_ppn 12) (sub64 (2 ^ k) 1)) in
      ground
        (arith, bit_and_low gap, mod-lt gap {m = 2 ^ k} pow_small.0, pow_bounds k 0 h (omega arith))

-- `bootmem_alloc` of some bytes at an alignment that is a power of two, from a valid node, returns.
-- Its result is NULL, nothing is changed, and for an alignment of at most a page there is no run of
-- free pages that would do; or it is the address of a zeroed object whose bytes were free and are
-- now in use, which is aligned as asked for an alignment of at most a page, and the node is valid.
pub bootmem_alloc-Allocated :
    {u : Bootmem} (mem : Memory) (size k goal : ℕ)
    → IsValid u
    → 0 < size
    → size + 4095 < 2 ^ 64
    → k < 64
    → Allocated u mem size k (bootmem_alloc u mem size (2 ^ k) goal)
unfolding bootmem_alloc finish marked_result
bootmem_alloc-Allocated {u} mem size k goal valid pos small hk = rw accepted (
    subst
      (λ n. Allocated u mem size k (continue n (find_spots u.mem_map u.num_ppn n preferred offset)))
      (sym area) (scanned (find_spots u.mem_map u.num_ppn (pages_of size) preferred offset) refl))
  where
    preferred : ℕ
    preferred = preferred_page u (2 ^ k) goal

    offset : ℕ
    offset = start_offset u (2 ^ k)

    -- what follows the scan for `n` pages
    continue : ℕ → Option ℕ → Outcome (ℕ × Bootmem × Memory)
    continue n o = elim o [
      | none ↦ done (0, u, mem)
      | some spot ↦
          let p = place u.begin_ppn u.last_page u.last_page_offset size (2 ^ k) n spot in
          set_bits (sub64 (add64 spot p.area_size) spot) spot u.mem_map >>= λ m. done (
            p.ret_addr,
            record u {
              mem_map = m;
              last_page = p.last_page;
              last_page_offset = p.last_page_offset;
            },
            memset mem p.ret_addr 0 size,
          )
    ]

    accepted : ((size == 0) || not (bit_and (2 ^ k) (sub64 (2 ^ k) 1) == 0)) ≡ false
    accepted = ground (arith, bit_and_low k hk (2 ^ k), mod_self (2 ^ k))

    area : shr (sub64 (add64 size page_size) 1) 12 ≡ pages_of size
    area = omega arith

    pages_pos : 0 < pages_of size
    pages_pos = omega arith

    pages_small : u.num_ppn + pages_of size < 2 ^ 64
    pages_small = omega (arith, valid.small)

    scanned :
        (o : Option ℕ)
        → find_spots u.mem_map u.num_ppn (pages_of size) preferred offset ≡ o
        → Allocated u mem size k (continue (pages_of size) o)
    scanned none e = nothing (λ h spot.
        find_spots-none u.mem_map u.num_ppn (pages_of size) pages_pos pages_small preferred offset e
          spot (omega (arith, start_offset-zero k hk u h)))
    scanned (some spot) e = finish-Allocated mem size k spot valid pos small (
        find_spots-some u.mem_map u.num_ppn (pages_of size) pages_pos pages_small preferred offset
          spot e)
