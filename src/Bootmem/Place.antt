-- ===== src/Bootmem/Place.antt =====
-- Where `bootmem_alloc` puts the object, once the scan has found the page `spot`: behind the last
-- object, or in new pages.
use kalorona_kernel.Common.{ℕ, ◌-◌, bit_and, ltb, leb, ◌==◌, ◌&&◌, not, if◌then◌else◌}
use kalorona_kernel.Common.Word.{add64, sub64, not64, shl64, shr}
use kalorona_kernel.Common.Page.{page_size, page_shift, pma_pa2va}

-- what the two branches assign
pub record Placed : Type 0 where
  pub ret_addr : ℕ
  pub last_page : ℕ
  pub last_page_offset : ℕ
  pub area_size : ℕ

module _ (begin_ppn last_page last_page_offset size alignment area_size spot : ℕ) where
  unfoldable pub extend_last_page : Placed
  extend_last_page =
      let offset =
        bit_and (sub64 (add64 last_page_offset alignment) 1) (not64 (sub64 alignment 1)) in
      let rem_size = sub64 page_size offset in
      let addr = pma_pa2va (add64 offset (shl64 (add64 last_page begin_ppn) page_shift)) in
      let back_size = sub64 size rem_size in
      let back_area = shr (sub64 (add64 back_size page_size) 1) page_shift in
      if ltb size rem_size
      then record {
        ret_addr = addr;
        last_page = last_page;
        last_page_offset = bit_and (add64 offset size) (page_size - 1);
        area_size = 0;
      }
      else record {
        ret_addr = addr;
        last_page = sub64 (add64 spot back_area) 1;
        last_page_offset = bit_and back_size (page_size - 1);
        area_size = back_area;
      }

  unfoldable pub new_pages : Placed
  new_pages = record {
    ret_addr = pma_pa2va (shl64 (add64 spot begin_ppn) page_shift);
    last_page = sub64 (add64 spot area_size) 1;
    last_page_offset = bit_and size (page_size - 1);
    area_size = area_size;
  }

  unfoldable pub place : Placed
  unfolding extend_last_page new_pages
  place =
      if leb alignment page_size && not (last_page_offset == 0) && (add64 last_page 1 == spot)
      then extend_last_page
      else new_pages
