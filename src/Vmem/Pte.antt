-- ===== src/Vmem/Pte.antt =====
-- Page table entries as numbers: the address of a page and the flags come back out of an entry, and an
-- address picks one entry of each level.
use kalorona_kernel.Common.{
  ℕ, ◌+◌, ◌*◌, ◌/◌, ◌%◌, ◌^◌, ◌<◌, ◌≡◌, refl, ◌∙◌, ap, true, arith, bit_or, not, ◌==◌,
}
use kalorona_kernel.Common.Bits.{bit_and_mask, bit_or_low, bit_or-zero, bit_or-mod_two}
use kalorona_kernel.Common.Word.{shl64, shr}
use kalorona_kernel.Common.Page.{page_size, pma_va2pa, pma_pa2va_lem, pma_va2pa_lem}
use kalorona_kernel.Buddy.Blocks.{page_at}
use kalorona_kernel.Vmem.{va_get_pn, pa_pte, pte_pa, is_valid, table_of, pte_flag_v}

pub is_valid_lem : (pte : ℕ) → is_valid pte ≡ not (pte % 2 == 0)
unfolding is_valid
is_valid_lem pte = ap (λ (t : ℕ). not (t == 0)) (bit_and_mask 1 pte)

pub va_get_pn_lem : (lv va : ℕ) → va_get_pn lv va ≡ va / 2 ^ (9 * lv + 12) % 512
unfolding va_get_pn
va_get_pn_lem lv va = bit_and_mask 9 (va / 2 ^ (9 * lv + 12))

pub va_get_pn-lt : (lv va : ℕ) → va_get_pn lv va < 512
va_get_pn-lt lv va = omega (arith, va_get_pn_lem lv va)

-- The entry that `vm_walk` makes for a table in page `pn` is valid and leads there.
module _ (begin_ppn pn : ℕ) (fits : begin_ppn + pn < 2 ^ 26) where
  table_pte :
      bit_or (pa_pte (pma_va2pa (page_at begin_ppn pn))) pte_flag_v ≡ (begin_ppn + pn) * 1024 + 1
  unfolding pa_pte
  table_pte =
      let e : pa_pte (pma_va2pa (page_at begin_ppn pn)) ≡ 0 + (begin_ppn + pn) * 2 ^ 10 =
        omega (arith, pma_va2pa_lem (page_at begin_ppn pn)) in
      ap (λ (t : ℕ). bit_or t 1) e
      ∙ omega (arith, bit_or_low 10 (begin_ppn + pn) 0 1 (omega arith) (omega arith), bit_or-zero 1)

  pub table_of_lem :
      table_of (bit_or (pa_pte (pma_va2pa (page_at begin_ppn pn))) pte_flag_v)
      ≡ page_at begin_ppn pn
  unfolding table_of pte_pa
  table_of_lem =
      let e : shl64 (shr (bit_or (pa_pte (pma_va2pa (page_at begin_ppn pn))) pte_flag_v) 10) 12
          ≡ (begin_ppn + pn) * page_size =
        omega (arith, table_pte) in
      rw e (omega (arith, pma_pa2va_lem ((begin_ppn + pn) * page_size)))

  pub table-valid : is_valid (bit_or (pa_pte (pma_va2pa (page_at begin_ppn pn))) pte_flag_v) ≡ true
  table-valid = is_valid_lem _ ∙ ground (arith, table_pte)

-- The entry that `vm_mappages` makes: the flags, the valid bit and the page of `pa`.
module _ (pa flags : ℕ) (small : pa < 2 ^ 56) (low : flags < 1024) where
  leaf_pte :
      (f : ℕ) × (f < 1024)
      × (f ≡ bit_or 1 flags)
      × (bit_or (bit_or (pa_pte pa) pte_flag_v) flags ≡ f + pa / 4096 * 1024)
  unfolding pa_pte
  leaf_pte =
      let e : pa_pte pa ≡ 0 + pa / 4096 * 2 ^ 10 = omega arith in
      let one = bit_or_low 10 (pa / 4096) 0 1 (omega arith) (omega arith) in
      let two = bit_or_low 10 (pa / 4096) 1 flags (omega arith) low in
      let v : bit_or (pa_pte pa) 1 ≡ 1 + pa / 4096 * 2 ^ 10 =
        ap (λ (t : ℕ). bit_or t 1) e ∙ omega (arith, one, bit_or-zero 1) in
      (bit_or 1 flags, two.1, refl, ap (λ (t : ℕ). bit_or t flags) v ∙ omega (arith, two))

  pub leaf-pte_pa : pte_pa (bit_or (bit_or (pa_pte pa) pte_flag_v) flags) ≡ pa / 4096 * 4096
  unfolding pte_pa
  leaf-pte_pa = omega (arith, leaf_pte.1, leaf_pte.3)

  pub leaf-valid : is_valid (bit_or (bit_or (pa_pte pa) pte_flag_v) flags) ≡ true
  leaf-valid =
      is_valid_lem _
      ∙ ground (
        arith,
        bit_or-mod_two (bit_or (pa_pte pa) pte_flag_v) flags,
        bit_or-mod_two (pa_pte pa) pte_flag_v,
      )
