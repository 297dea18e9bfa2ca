-- ===== src/Vmem/Walk.antt =====
-- `vm_walk` with the tables that it makes on the way.
use kalorona_kernel.Common.{
  ℕ, zero, suc, ◌+◌, ◌*◌, ◌^◌, ◌<◌, ◌≡◌, ◌≢◌, refl, ◌∙◌, ap, sym, Bool, true, false, arith, ◌==◌,
  Bool-cases, ◌⊎◌, inl, inr, Outcome, done,
}
use kalorona_kernel.Buddy.{Kmem, kmem_alloc_pages}
use kalorona_kernel.Buddy.Blocks.{page_at}
use kalorona_kernel.Buddy.Give.{IsKmem, NoBlock, kmem_alloc_pages_lem}
use kalorona_kernel.Vmem.{Vm, entry_at, is_valid, table_of, install, walk, va_get_pn}
use kalorona_kernel.Vmem.Pte.{table_of_lem, table-valid, va_get_pn-lt}
use kalorona_kernel.Vmem.Tree.{find, IsTree, child_of, entry-ne_zero}
use kalorona_kernel.Vmem.Extend.{
  Extends-trans, Extends, Extends-refl, page, installed, installed-Extends, installed-height,
  installed-entry,
}

-- The entry of `va` on the way is kept, once it is valid.
kept_entry :
    {v v' : Vm} {h p h' p' : ℕ → ℕ} (t lv va : ℕ)
    → Extends v h p v' h' p'
    → h t ≢ 0
    → is_valid (v.words (entry_at t lv va)) ≡ true
    → v'.words (entry_at t lv va) ≡ v.words (entry_at t lv va)
unfolding entry_at
kept_entry t lv va x n y = x.kept_word t (va_get_pn lv va) n (va_get_pn-lt lv va) y

-- What `vm_walk` returns: NULL with no free block left, or the entry.
abbrev pub Reached : Vm → ℕ → ℕ → ℕ → ℕ → Type 0
Reached v t va lv r =
    ((r ≡ 0) × NoBlock v.kmem 0) ⊎ ((find v.words t va lv ≢ 0) × (r ≡ find v.words t va lv))

abbrev pub Walked : Vm → (ℕ → ℕ) → (ℕ → ℕ) → ℕ → ℕ → ℕ → Outcome (ℕ × Vm) → Type 0
Walked v h p t va lv o =
    (r : ℕ) × (v' : Vm) × (h' : (ℕ → ℕ)) × (p' : (ℕ → ℕ)) × (o ≡ done (r, v'))
    × Extends v h p v' h' p'
    × Reached v' t va lv r

-- One level down, where the entry leads to `c` in the second state.
step_down :
    {v v₁ v₂ : Vm} {h p h₁ p₁ h₂ p₂ : ℕ → ℕ} (t lv va c r : ℕ)
    → Extends v h p v₁ h₁ p₁
    → Extends v₁ h₁ p₁ v₂ h₂ p₂
    → h t ≢ 0
    → is_valid (v₁.words (entry_at t (suc lv) va)) ≡ true
    → table_of (v₁.words (entry_at t (suc lv) va)) ≡ c
    → Reached v₂ c va lv r
    → Reached v₂ t va (suc lv) r
step_down t lv va c r x y n ok to (inl z) = inl z
step_down {v} {v₁} {v₂} t lv va c r x y n ok to (inr (nz, e)) =
    let same = kept_entry t (suc lv) va y (λ z. n (sym (x.kept t n).0 ∙ z)) ok in
    let ok₂ : is_valid (v₂.words (entry_at t (suc lv) va)) ≡ true = ap is_valid same ∙ ok in
    let way : find v₂.words t va (suc lv) ≡ find v₂.words c va lv =
      unfold find in rw (ok₂, same, to) refl in
    inr ((λ z. nz (sym way ∙ z)), e ∙ sym way)

null_run :
    (v : Vm) {k : Kmem} (t lv va : ℕ)
    → is_valid (v.words (entry_at t (suc lv) va)) ≡ false
    → kmem_alloc_pages v.kmem 0 ≡ done (0, k)
    → walk v t va true (suc lv) ≡ done (0, record v { kmem = k })
unfolding walk
null_run v t lv va gap run = rw (gap, run) refl

grow_run :
    (v : Vm) {k : Kmem} (t lv va page : ℕ) {o : Outcome (ℕ × Vm)}
    → is_valid (v.words (entry_at t (suc lv) va)) ≡ false
    → kmem_alloc_pages v.kmem 0 ≡ done (page, k)
    → page ≢ 0
    → walk (install (record v { kmem = k }) (entry_at t (suc lv) va) page) page va true lv ≡ o
    → walk v t va true (suc lv) ≡ o
unfolding walk
grow_run v t lv va page gap run ne rest =
    let z : (page == 0) ≡ false = ground arith in rw (gap, run, z) rest

pub found_run :
    (v : Vm) (t lv va : ℕ) (alloc : Bool)
    → is_valid (v.words (entry_at t (suc lv) va)) ≡ true
    → walk v t va alloc (suc lv) ≡ walk v (table_of (v.words (entry_at t (suc lv) va))) va alloc lv
unfolding walk
found_run v t lv va alloc ok = rw ok refl

walk_leaf :
    (v : Vm) {h p : ℕ → ℕ} (t va : ℕ)
    → IsTree v.kmem v.words h p
    → IsKmem v.kmem
    → h t ≡ 1
    → Walked v h p t va 0 (walk v t va true 0)
unfolding walk find
walk_leaf v {h} {p} t va tree valid ht = (
  entry_at t 0 va,
  v,
  h,
  p,
  refl,
  Extends-refl v h p tree valid,
  inr (entry-ne_zero tree t 0 va (λ z. omega arith), refl),
)

pub walk_lem :
    (lv : ℕ) (v : Vm) {h p : ℕ → ℕ} (t va : ℕ)
    → IsTree v.kmem v.words h p
    → IsKmem v.kmem
    → h t ≡ suc lv
    → Walked v h p t va lv (walk v t va true lv)
walk_lem zero v t va tree valid ht = walk_leaf v t va tree valid ht
walk_lem (suc lv) v {h} {p} t va tree valid ht =
    elim (Bool-cases (is_valid (v.words (entry_at t (suc lv) va)))) [
      | inl ok ↦
          let (c, pc) = child_of tree t lv va ht ok in
          let (r, v', h', p', run, x, reached) =
            walk_lem lv v (table_of (v.words (entry_at t (suc lv) va))) va tree valid c in
          (
            r,
            v',
            h',
            p',
            found_run v t lv va true ok ∙ run,
            x,
            step_down t lv va (table_of (v.words (entry_at t (suc lv) va))) r
                (Extends-refl v h p tree valid) x (λ z. omega arith) ok refl reached,
          )
      | inr gap ↦ elim (kmem_alloc_pages_lem v.kmem 0 valid (omega arith)) [
        | inl (run, empty) ↦ (
          0,
          v,
          h,
          p,
          null_run v t lv va gap run,
          Extends-refl v h p tree valid,
          inl (refl, empty),
        )
        | inr (b, k', run, given) ↦
            let at : page_at v.kmem.begin_ppn (b * 2 ^ 0) ≡ page_at v.kmem.begin_ppn b =
              omega arith in
            let fits : v.kmem.begin_ppn + b < 2 ^ 26 =
              omega (arith, given.inside, valid.1.holds.placed.fits) in
            let x = installed-Extends v tree t lv va ht gap k' b given fits in
            let (r, v', h', p', run', y, reached) =
              walk_lem lv (installed v tree t lv va ht gap k' b given fits)
                (page_at v.kmem.begin_ppn b) va x.tree x.valid
                (installed-height v tree t lv va ht gap k' b given fits) in
            let new = installed-entry v tree t lv va ht gap k' b given fits in
            (
              r,
              v',
              h',
              p',
              grow_run v t lv va (page_at v.kmem.begin_ppn b) gap
                  (run ∙ ap (λ (a : ℕ). done (a, k')) at) (λ z. omega arith) run',
              Extends-trans x y,
              step_down t lv va (page_at v.kmem.begin_ppn b) r x y (λ z. omega arith)
                  (ap is_valid new ∙ table-valid _ b fits) (ap table_of new ∙ table_of_lem _ b fits)
                  reached,
            )
      ]
    ]
