-- ===== src/Vmem/Translate.antt =====
-- `vm_translate` and the walk that makes no tables.
use kalorona_kernel.Common.{
  ℕ, zero, suc, ◌+◌, ◌-◌, ◌*◌, ◌/◌, ◌%◌, ◌^◌, ◌<◌, ◌≡◌, ◌≢◌, refl, ◌∙◌, ap, sym, true, false, arith,
  ◌==◌, bit_or, bit_and, Bool-cases, inl, inr, done,
}
use kalorona_kernel.Common.Bits.{bit_and_mask, bit_or_low, bit_or-zero}
use kalorona_kernel.Common.Page.{page_size, va_kernel_begin, pma_pa2va, pma_pa2va_lem}
use kalorona_kernel.Vmem.{
  Vm, is_valid, entry_at, table_of, walk, vm_walk, top_level, pte_pa, vm_translate,
}
use kalorona_kernel.Vmem.Pte.{leaf-pte_pa, is_valid_lem}
use kalorona_kernel.Vmem.Tree.{find, look-find}
use kalorona_kernel.Vmem.Space.{IsVm, entry_of, leaf}

-- Without `alloc` the walk changes nothing, and NULL means that a table is missing.
pub walk-find : (lv : ℕ) (v : Vm) (t va : ℕ) → walk v t va false lv ≡ done (find v.words t va lv, v)
unfolding walk find
walk-find zero v t va = refl
walk-find (suc lv) v t va = elim (Bool-cases (is_valid (v.words (entry_at t (suc lv) va)))) [
  | inl y ↦ rw y (walk-find lv v (table_of (v.words (entry_at t (suc lv) va))) va)
  | inr n ↦ rw n refl
]

-- An entry that is not 0 has its tables.
pub find-ne_zero :
    {v : Vm} {root : ℕ} (va : ℕ)
    → IsVm v root
    → entry_of v root va ≢ 0
    → (find v.words root va top_level ≢ 0)
      × (v.words (find v.words root va top_level) ≡ entry_of v root va)
find-ne_zero {v} {root} va vm nz =
    let e = look-find vm.tree 2 root va vm.at_root in
    let found : find v.words root va 2 ≢ 0 = λ z. nz (e ∙ ground (arith, z)) in
    (found, sym (e ∙ ground (arith, found)))

-- The physical address that an entry gives for an address of its page.
pub target : ℕ → ℕ → ℕ
unfolding pte_pa
target pte va = pma_pa2va (bit_or (pte_pa pte) (bit_and va (page_size - 1)))

translate_run :
    (v : Vm) (root va : ℕ)
    → find v.words root va top_level ≢ 0
    → vm_translate v root va ≡ done (target (v.words (find v.words root va top_level)) va)
unfolding vm_translate vm_walk target
translate_run v root va nz =
    let z : (find v.words root va 2 == 0) ≡ false = ground arith in
    rw (walk-find 2 v root va, z) refl

-- `vm_translate` of an address whose entry is valid gives the byte of the page that the entry names.
pub vm_translate_lem :
    (v : Vm) (root va : ℕ)
    → IsVm v root
    → is_valid (entry_of v root va) ≡ true
    → vm_translate v root va ≡ done (target (entry_of v root va) va)
vm_translate_lem v root va vm ok =
    let nz : entry_of v root va ≢ 0 =
      λ z. absurd (ground (arith, is_valid_lem (entry_of v root va))) in
    let (found, e) = find-ne_zero va vm nz in
    translate_run v root va found ∙ ap (λ (w : ℕ). done (target w va)) e

-- `vm_translate` does not look at the valid bit of the last entry: for an address that is not mapped
-- but whose tables are there, it gives not NULL but an address in physical page 0.
pub vm_translate-unmapped :
    (v : Vm) (root va : ℕ)
    → find v.words root va top_level ≢ 0
    → v.words (find v.words root va top_level) ≡ 0
    → vm_translate v root va ≡ done (va_kernel_begin + va % 4096)
vm_translate-unmapped v root va found z =
    translate_run v root va found
    ∙ ap (λ (w : ℕ). done (target w va)) z
    ∙ ap done (unfold target pte_pa in nowhere)
  where
    nowhere : pma_pa2va (bit_or 0 (bit_and va 4095)) ≡ va_kernel_begin + va % 4096
    nowhere =
        ap pma_pa2va (bit_or-zero (bit_and va 4095) ∙ bit_and_mask 12 va)
        ∙ pma_pa2va_lem (va % 4096) (omega arith)
        ∙ omega arith

-- The target of the entry that `vm_mappages` writes.
pub target-leaf :
    (pa flags va : ℕ)
    → pa < 2 ^ 38
    → pa % 4096 ≡ 0
    → flags < 1024
    → target (leaf pa flags) va ≡ va_kernel_begin + pa + va % 4096
unfolding target
target-leaf pa flags va hp al hf =
    let page : pte_pa (leaf pa flags) ≡ 0 + pa / 4096 * 2 ^ 12 =
      leaf-pte_pa pa flags (omega arith) hf ∙ omega arith in
    let sum : bit_or (pte_pa (leaf pa flags)) (bit_and va 4095) ≡ pa + va % 4096 =
      ap (λ (p : ℕ). bit_or p (bit_and va 4095)) page
      ∙ omega (
        arith,
        bit_and_mask 12 va,
        bit_or_low 12 (pa / 4096) 0 (bit_and va 4095) (omega arith)
            (omega (arith, bit_and_mask 12 va)),
        bit_or-zero (bit_and va 4095),
      ) in
    ap pma_pa2va sum ∙ pma_pa2va_lem (pa + va % 4096) (omega arith) ∙ omega arith
