-- ===== src/Vmem/Copyout.antt =====
-- `vm_memcpyout` ends.
use kalorona_kernel.Common.{
  ℕ, zero, suc, ◌-◌, bit_and, bit_or, ◌==◌, if◌then◌else◌, ◌≡◌, refl, ◌⊎◌, inl, inr, Bool-cases,
  write, done,
}
use kalorona_kernel.Common.Int.{pos, negsuc}
use kalorona_kernel.Common.Word.{add64}
use kalorona_kernel.Common.Page.{page_size, pma_pa2va}
use kalorona_kernel.Vmem.{Vm, pte_pa, vm_walk, vm_translate, vm_memcpyout, top_level}
use kalorona_kernel.Vmem.Tree.{find}
use kalorona_kernel.Vmem.Translate.{walk-find}

translate_total : (v : Vm) (pgtbl a : ℕ) → (p : ℕ) × (vm_translate v pgtbl a ≡ done p)
unfolding vm_translate vm_walk
translate_total v pgtbl a = (
  if find v.words pgtbl a top_level == 0
      then 0
      else pma_pa2va
          (bit_or (pte_pa (v.words (find v.words pgtbl a top_level))) (bit_and a (page_size - 1))),
  rw (walk-find 2 v pgtbl a) refl,
)

-- `vm_memcpyout` never panics, and returns 0 or -1.
pub vm_memcpyout_total :
    (n : ℕ) (v : Vm) (pgtbl vdst src : ℕ)
    → (v' : Vm) × ((vm_memcpyout v pgtbl vdst src n ≡ done (pos 0, v'))
        ⊎ (vm_memcpyout v pgtbl vdst src n ≡ done (negsuc 0, v')))
unfolding vm_memcpyout
vm_memcpyout_total zero v pgtbl vdst src = (v, inl refl)
vm_memcpyout_total (suc n) v pgtbl vdst src =
    let (p, run) = translate_total v pgtbl vdst in
    elim (Bool-cases (p == 0)) [
      | inl t ↦ (v, inr (rw (run, t) refl))
      | inr f ↦
          let (v', end) =
            vm_memcpyout_total n (record v { bytes = write v.bytes p (v.bytes src) }) pgtbl
              (add64 vdst 1) (add64 src 1) in
          (v', elim end [ inl e ↦ inl (rw (run, f) e) | inr e ↦ inr (rw (run, f) e) ])
    ]
