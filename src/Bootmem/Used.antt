-- ===== src/Bootmem/Used.antt =====
-- kernel/memory/bootmem.c: which bytes of the node are in use, and how an allocation changes that.
use kalorona_kernel.Common.{
  ℕ, ◌+◌, ◌-◌, ◌*◌, ◌/◌, ◌%◌, ◌≤◌, ◌<◌, ◌≡◌, ◌≢◌, ◌∙◌, ◌&&◌, not, Bool, true, false, arith, leb,
  ◌==◌,
}
use kalorona_kernel.Common.Page.{page_size}
use kalorona_kernel.Bitmap.{BitMap, IsBytes, test_bit}
use kalorona_kernel.Bootmem.{Bootmem}
use kalorona_kernel.Bootmem.Bits.{Filled}
use kalorona_kernel.Bootmem.Reserve.{IsValid}
use kalorona_kernel.Bootmem.Find.{FreeRun}
use kalorona_kernel.Bootmem.Place.{Placed}
use kalorona_kernel.Bootmem.Layout.{inside_page, across_pages, own_pages}

-- Byte `a` of the node lies in a marked page, and not in what the last object leaves of its page.
abbrev pub in_use : Bootmem → ℕ → Bool
in_use u a =
    (test_bit u.mem_map (a / page_size) == 1)
    && not (
        (a / page_size == u.last_page)
        && (not (u.last_page_offset == 0) && leb u.last_page_offset (a % page_size)))

-- The bytes from `off` on for `size` were free in `u` and are in use in `u'`; what was in use still is.
pub record Taken (u u' : Bootmem) (off size : ℕ) : Type 0 where
  pub fits : off + size ≤ u.num_ppn * page_size
  pub fresh : (a : ℕ) → off ≤ a → a < off + size → in_use u a ≡ false
  pub taken : (a : ℕ) → off ≤ a → a < off + size → in_use u' a ≡ true
  pub kept : (a : ℕ) → in_use u a ≡ true → in_use u' a ≡ true

-- the node after the allocation that `p` and the new map `g` stand for
abbrev pub after : Bootmem → Placed → BitMap → Bootmem
after u p g = record u {
  mem_map = g;
  last_page = p.last_page;
  last_page_offset = p.last_page_offset;
}

module _ {u : Bootmem} (valid : IsValid u) (size spot : ℕ) (g : BitMap) (bytes : IsBytes g)
    (pos : 0 < size) where
  module _ (run : FreeRun u.mem_map u.num_ppn spot ((size + 4095) / page_size))
      (filled : Filled 1 spot ((size + 4095) / page_size) u.mem_map g) where
    pub own_pages-Taken :
        Taken u (after u (own_pages u.begin_ppn u.last_page size spot) g) (spot * page_size) size
    own_pages-Taken = record {
      fits = omega (arith, run.fits);
      fresh = λ a lo hi. ground (arith, run.free (a / 4096));
      taken = λ a lo hi. ground (arith, filled (a / 4096));
      kept = λ a h. ground (arith, filled (a / 4096), run.free (a / 4096));
    }

    pub own_pages-IsValid : IsValid (after u (own_pages u.begin_ppn u.last_page size spot) g)
    own_pages-IsValid = record {
      bytes = bytes;
      small = valid.small;
      last_marked = λ h. (omega (arith, run.fits), filled _ ∙ ground arith);
      last_offset = omega arith;
    }

  module _ (offset : ℕ) (used : u.last_page_offset ≢ 0) (le : u.last_page_offset ≤ offset) where
    module _ (fits : size < page_size - offset) (filled : Filled 1 spot 0 u.mem_map g) where
      pub inside_page-Taken :
          Taken u
            (after u (inside_page u.begin_ppn u.last_page size offset) g)
            (u.last_page * page_size + offset)
            size
      inside_page-Taken = record {
        fits = omega (arith, (valid.last_marked used).0);
        fresh = λ a lo hi. ground arith;
        taken = λ a lo hi. ground (arith, filled (a / 4096), (valid.last_marked used).1);
        kept = λ a h. ground (arith, filled (a / 4096));
      }

      pub inside_page-IsValid :
          IsValid (after u (inside_page u.begin_ppn u.last_page size offset) g)
      inside_page-IsValid = record {
        bytes = bytes;
        small = valid.small;
        last_marked = λ h.
            ((valid.last_marked used).0, filled _ ∙ ground (arith, (valid.last_marked used).1));
        last_offset = omega arith;
      }

    module _ (le' : offset ≤ page_size) (past : page_size - offset ≤ size)
        (next : spot ≡ u.last_page + 1)
        (run : FreeRun u.mem_map u.num_ppn spot ((size + 4095) / page_size))
        (filled : Filled 1 spot
          ((size - (page_size - offset) + 4095) / page_size)
          u.mem_map
          g) where
      pub across_pages-Taken :
          Taken u
            (after u (across_pages u.begin_ppn u.last_page size offset) g)
            (u.last_page * page_size + offset)
            size
      across_pages-Taken = record {
        fits = omega (arith, run.fits);
        fresh = λ a lo hi. ground (arith, run.free (a / 4096));
        taken = λ a lo hi. ground (arith, filled (a / 4096), (valid.last_marked used).1);
        kept = λ a h. ground (arith, filled (a / 4096), run.free (a / 4096));
      }

      pub across_pages-IsValid :
          IsValid (after u (across_pages u.begin_ppn u.last_page size offset) g)
      across_pages-IsValid = record {
        bytes = bytes;
        small = valid.small;
        last_marked = λ h. (omega (arith, run.fits), filled _ ∙ ground arith);
        last_offset = omega arith;
      }
