-- ===== src/Vmem/Range.antt =====
-- `vm_mappages` on a range of addresses, and what `vm_translate` gives behind it.
use kalorona_kernel.Common.{
  ℕ, ◌+◌, ◌-◌, ◌*◌, ◌/◌, ◌%◌, ◌^◌, ◌≤◌, ◌<◌, ◌≡◌, ◌≢◌, refl, ◌∙◌, ap, sym, subst, true, false,
  arith, ◌==◌, ◌&&◌, leb, ltb, Outcome, done, panicked, inl, inr,
}
use kalorona_kernel.Common.Int.{ℤ, pos}
use kalorona_kernel.Common.Word.{add64, sub64, shr}
use kalorona_kernel.Common.Page.{
  page_shift, page_round_down, page_round_up, page_round_down_lem, page_round_up_lem,
  va_kernel_begin,
}
use kalorona_kernel.Vmem.{Vm, is_valid, map_from, vm_mappages, vm_translate}
use kalorona_kernel.Vmem.Pte.{leaf-valid}
use kalorona_kernel.Vmem.Space.{IsVm, entry_of, leaf, Mapped}
use kalorona_kernel.Vmem.Map.{MapResult, map_from_lem}
use kalorona_kernel.Vmem.Translate.{vm_translate_lem, target, target-leaf}

-- The page of an address, and how many pages a range meets.
abbrev pub page_of : ℕ → ℕ
page_of va = va / 4096 * 4096

abbrev pub pages_in : ℕ → ℕ → ℕ
pages_in va siz = (va + siz + 4095) / 4096 - va / 4096

range_run :
    (v : Vm) (root va pa siz flags : ℕ)
    → siz ≢ 0
    → va + siz ≤ 2 ^ 39
    → vm_mappages v root va pa siz flags ≡ map_from v root (page_of va) pa flags (pages_in va siz)
unfolding vm_mappages
range_run v root va pa siz flags nz hv =
    let z : (siz == 0) ≡ false = ground arith in
    let sum : add64 va siz ≡ va + siz = omega arith in
    let first : page_round_down va ≡ page_of va = page_round_down_lem va (omega arith) in
    let last : page_round_up (va + siz) ≡ (va + siz + 4095) / 4096 * 4096 =
      page_round_up_lem (va + siz) (omega arith) in
    let rounds : shr (sub64 ((va + siz + 4095) / 4096 * 4096) (page_of va)) page_shift
        ≡ pages_in va siz =
      omega arith in
    rw (z, sum, first, last, rounds) refl

-- `vm_mappages` of a range of user addresses none of whose pages is mapped, on a valid page table, never panics. It
-- returns 0 with every page of the range mapped to the pages from `pa` on, or -1 with fewer of them mapped, from the first on, and
-- with every free list of the page allocator empty; no other address is mapped otherwise than before.
pub vm_mappages_lem :
    (v : Vm) (root va pa siz flags : ℕ)
    → IsVm v root
    → siz ≢ 0
    → va + siz ≤ 2 ^ 39
    → pa < 2 ^ 55
    → ((x : ℕ)
        → page_of va ≤ x
        → x < page_of va + pages_in va siz * 4096
        → is_valid (entry_of v root x) ≡ false)
    → MapResult root flags v (page_of va) pa (pages_in va siz) (vm_mappages v root va pa siz flags)
vm_mappages_lem v root va pa siz flags vm nz hv hp free =
    subst (MapResult root flags v (page_of va) pa (pages_in va siz))
      (sym (range_run v root va pa siz flags nz hv))
      (map_from_lem root flags (pages_in va siz) v (page_of va) pa vm (omega arith) (omega arith)
        (omega arith) free)

translate-Mapped :
    (v v' : Vm) (root first pa flags m x : ℕ)
    → Mapped v root first pa flags m v'
    → flags < 1024
    → pa % 4096 ≡ 0
    → pa + m * 4096 ≤ 2 ^ 38
    → first % 4096 ≡ 0
    → first ≤ x
    → x < first + m * 4096
    → x < 2 ^ 39
    → vm_translate v' root x ≡ done (va_kernel_begin + pa + (x - first))
translate-Mapped v v' root first pa flags m x mapped hf ap4 hp al lo hi hx =
    let inside : leb first x && ltb x (first + m * 4096) ≡ true = ground arith in
    let to = pa + (x - first) / 4096 * 4096 in
    let e : entry_of v' root x ≡ leaf to flags = mapped.entries x hx ∙ rw inside refl in
    vm_translate_lem v' root x mapped.is_vm (ap is_valid e ∙ leaf-valid to flags (omega arith) hf)
    ∙ ap (λ (w : ℕ). done (target w x)) e
    ∙ ap done (target-leaf to flags x (omega arith) (omega arith) hf ∙ omega arith)

done-eq : {a b : ℤ × Vm} → done a ≡ done b → a ≡ b
done-eq {a} e = ap back e
  where
    back : Outcome (ℤ × Vm) → ℤ × Vm
    back (done r) = r
    back panicked = a

-- A return of 0 means that the whole range is mapped.
pub vm_mappages-done :
    (v v' : Vm) (root va pa siz flags : ℕ)
    → IsVm v root
    → siz ≢ 0
    → va + siz ≤ 2 ^ 39
    → pa < 2 ^ 55
    → ((y : ℕ)
        → page_of va ≤ y
        → y < page_of va + pages_in va siz * 4096
        → is_valid (entry_of v root y) ≡ false)
    → vm_mappages v root va pa siz flags ≡ done (pos 0, v')
    → Mapped v root (page_of va) pa flags (pages_in va siz) v'
vm_mappages-done v v' root va pa siz flags vm nz hv hp free run =
    let (m, code, w, run', mapped, end) = vm_mappages_lem v root va pa siz flags vm nz hv hp free in
    let same = done-eq (sym run' ∙ run) in
    let all : m ≡ pages_in va siz = elim end [
      | inl (c, e) ↦ e
      | inr (c, e, out) ↦ absurd (ground (arith, ap (λ r. r.0) same))
    ] in
    subst (λ (v' : Vm). Mapped v root (page_of va) pa flags (pages_in va siz) v')
      (ap (λ r. r.1) same) (subst (λ (m : ℕ). Mapped v root (page_of va) pa flags m w) all mapped)

-- After a call of `vm_mappages` that returned 0, on pages that were not mapped, `vm_translate` takes
-- each address of the range to its place behind `pa`, if these are multiples of the page size.
pub vm_translate-mappages :
    (v v' : Vm) (root va pa siz flags x : ℕ)
    → IsVm v root
    → siz ≢ 0
    → va + siz ≤ 2 ^ 39
    → pa + siz + 4096 ≤ 2 ^ 38
    → va % 4096 ≡ 0
    → pa % 4096 ≡ 0
    → flags < 1024
    → ((y : ℕ)
        → page_of va ≤ y
        → y < page_of va + pages_in va siz * 4096
        → is_valid (entry_of v root y) ≡ false)
    → vm_mappages v root va pa siz flags ≡ done (pos 0, v')
    → va ≤ x
    → x < va + siz
    → vm_translate v' root x ≡ done (va_kernel_begin + pa + (x - va))
vm_translate-mappages v v' root va pa siz flags x vm nz hv hp av ap4 hf free run lo hi =
    let first : page_of va ≡ va = omega arith in
    translate-Mapped v v' root (page_of va) pa flags (pages_in va siz) x
      (vm_mappages-done v v' root va pa siz flags vm nz hv (omega arith) free run) hf ap4
      (omega arith) (omega arith) (omega arith) (omega arith) (omega arith)
    ∙ ap (λ (a : ℕ). done (va_kernel_begin + pa + (x - a))) first
