-- ===== src/Vmem/Map.antt =====
-- The loop of `vm_mappages`, page by page.
use kalorona_kernel.Common.{
  ℕ, zero, suc, ◌+◌, ◌-◌, ◌*◌, ◌/◌, ◌%◌, ◌^◌, ◌≤◌, ◌<◌, ◌≡◌, ◌≢◌, refl, ◌∙◌, ap, sym, subst, true,
  false, arith, if◌then◌else◌, ◌==◌, ◌&&◌, leb, ltb, write, ◌⊎◌, inl, inr, ℕ_discrete, dec_le,
  Outcome, done,
}
use kalorona_kernel.Common.Int.{ℤ, pos, negsuc}
use kalorona_kernel.Common.Word.{add64}
use kalorona_kernel.Common.Page.{page_size}
use kalorona_kernel.Buddy.Give.{IsKmem, NoBlock, SameNode}
use kalorona_kernel.Vmem.{Vm, is_valid, vm_walk, top_level, map_from}
use kalorona_kernel.Vmem.Tree.{find, look, IsTree, look-find, same_from}
use kalorona_kernel.Vmem.Leaf.{leaf_write-IsTree, look-leaf_write}
use kalorona_kernel.Vmem.Walk.{walk_lem}
use kalorona_kernel.Vmem.Extend.{Extends, Extends-refl, SameNode-trans}
use kalorona_kernel.Vmem.Space.{IsVm, entry_of, leaf, same_from_lem, Mapped}

-- The addresses of one page.
in_page :
    (first x pa flags old old' : ℕ)
    → first % 4096 ≡ 0
    → first < 2 ^ 39
    → x < 2 ^ 39
    → old ≡ old'
    → (if same_from top_level first x then leaf pa flags else old) ≡ (
        if leb first x && ltb x (first + 1 * 4096)
        then leaf (pa + (x - first) / 4096 * 4096) flags
        else old')
in_page first x pa flags old old' al hf hx e = elim (ℕ_discrete (first / 4096) (x / 4096)) [
  | yes s ↦
      let t : same_from top_level first x ≡ true = same_from_lem first x hf hx ∙ ground arith in
      let u : leb first x && ltb x (first + 1 * 4096) ≡ true = ground arith in
      let p : pa + (x - first) / 4096 * 4096 ≡ pa = omega arith in rw (t, u, p) refl
  | no n ↦
      let t : same_from top_level first x ≡ false = same_from_lem first x hf hx ∙ ground arith in
      let u : leb first x && ltb x (first + 1 * 4096) ≡ false = ground arith in rw (t, u) e
]

module _ (root flags : ℕ) where
  -- The entry is written.
  Mapped-one :
      (v v₁ : Vm) (height path : ℕ → ℕ) (first pa r : ℕ)
      → IsTree v₁.kmem v₁.words height path
      → IsKmem v₁.kmem
      → height root ≡ 3
      → SameNode v.kmem v₁.kmem
      → v₁.bytes ≡ v.bytes
      → ((va : ℕ) → entry_of v₁ root va ≡ entry_of v root va)
      → find v₁.words root first top_level ≢ 0
      → r ≡ find v₁.words root first top_level
      → first % 4096 ≡ 0
      → first < 2 ^ 39
      → Mapped v root first pa flags 1 (record v₁ { words = write v₁.words r (leaf pa flags) })
  Mapped-one v v₁ height path first pa r tree valid at node bytes same nz e al small = record {
    is_vm = record {
      height = height;
      path = path;
      tree =
          subst (λ (a : ℕ). IsTree v₁.kmem (write v₁.words a (leaf pa flags)) height path) (sym e)
            (leaf_write-IsTree tree top_level root first (leaf pa flags) at nz);
      at_root = at;
      valid = valid;
    };
    same_node = node;
    same_bytes = bytes;
    entries = λ x hx.
        ap (λ (a : ℕ). look (write v₁.words a (leaf pa flags)) root x top_level) e
        ∙ look-leaf_write tree top_level root first (leaf pa flags) at nz x
        ∙ in_page first x pa flags _ _ al small hx (same x);
  }

  -- One page, and those behind it.
  Mapped-more :
      (v v₁ v₂ : Vm) (first pa m : ℕ)
      → first % 4096 ≡ 0
      → Mapped v root first pa flags 1 v₁
      → Mapped v₁ root (first + 4096) (pa + 4096) flags m v₂
      → Mapped v root first pa flags (suc m) v₂
  Mapped-more v v₁ v₂ first pa m al a b = record {
    is_vm = b.is_vm;
    same_node = SameNode-trans a.same_node b.same_node;
    same_bytes = b.same_bytes ∙ a.same_bytes;
    entries = λ x hx. b.entries x hx ∙ join x (a.entries x hx);
  }
    where
      join :
          (x : ℕ)
          → entry_of v₁ root x ≡ (
              if leb first x && ltb x (first + 1 * 4096)
              then leaf (pa + (x - first) / 4096 * 4096) flags
              else entry_of v root x)
          → (if leb (first + 4096) x && ltb x (first + 4096 + m * 4096)
              then leaf (pa + 4096 + (x - (first + 4096)) / 4096 * 4096) flags
              else entry_of v₁ root x)
            ≡ (if leb first x && ltb x (first + suc m * 4096)
                then leaf (pa + (x - first) / 4096 * 4096) flags
                else entry_of v root x)
      join x e = elim (dec_le (first + 4096) x) [
        | yes h ↦
            let p : pa + 4096 + (x - (first + 4096)) / 4096 * 4096
                ≡ pa + (x - first) / 4096 * 4096 =
              omega arith in
            rw p (ground (arith, e))
        | no h ↦ ground (arith, e)
      ]

  -- What `map_from` returns: 0 with all pages mapped, or -1 with fewer and no free block left.
  abbrev pub MapResult : Vm → ℕ → ℕ → ℕ → Outcome (ℤ × Vm) → Type 0
  MapResult v first pa n o =
      (m : ℕ) × (code : ℤ) × (v' : Vm) × (o ≡ done (code, v'))
      × Mapped v root first pa flags m v'
      × (((code ≡ pos 0) × (m ≡ n)) ⊎ ((code ≡ negsuc 0) × (m < n) × NoBlock v'.kmem 0))

  map_null :
      (v v₁ : Vm) (first pa n : ℕ)
      → vm_walk v root first true ≡ done (0, v₁)
      → map_from v root first pa flags (suc n) ≡ done (negsuc 0, v₁)
  unfolding map_from
  map_null v v₁ first pa n run = rw run refl

  map_step :
      (v v₁ : Vm) (first pa n r : ℕ)
      → first + 4096 < 2 ^ 64
      → pa + 4096 < 2 ^ 64
      → vm_walk v root first true ≡ done (r, v₁)
      → r ≢ 0
      → is_valid (v₁.words r) ≡ false
      → map_from v root first pa flags (suc n)
        ≡ map_from
            (record v₁ { words = write v₁.words r (leaf pa flags) })
            root
            (first + 4096)
            (pa + 4096)
            flags
            n
  unfolding map_from
  map_step v v₁ first pa n r hf hp run nz free =
      let z : (r == 0) ≡ false = ground arith in
      let e : add64 first page_size ≡ first + 4096 = omega arith in
      let f : add64 pa page_size ≡ pa + 4096 = omega arith in rw (run, z, free, e, f) refl

  -- Nothing is mapped.
  Mapped-none :
      (v v₁ : Vm) (h p h₁ p₁ : ℕ → ℕ) (first pa : ℕ)
      → Extends v h p v₁ h₁ p₁
      → h root ≡ 3
      → Mapped v root first pa flags 0 v₁
  Mapped-none v v₁ h p h₁ p₁ first pa x at = record {
    is_vm = record {
      height = h₁;
      path = p₁;
      tree = x.tree;
      at_root = (x.kept root (λ z. omega arith)).0 ∙ at;
      valid = x.valid;
    };
    same_node = x.same_node;
    same_bytes = x.same_bytes;
    entries = λ y hy. x.same_look 2 root y at ∙ ground arith;
  }

  pub map_from_lem :
      (n : ℕ) (v : Vm) (first pa : ℕ)
      → IsVm v root
      → first % 4096 ≡ 0
      → first + n * 4096 ≤ 2 ^ 39
      → pa + n * 4096 ≤ 2 ^ 56
      → ((x : ℕ) → first ≤ x → x < first + n * 4096 → is_valid (entry_of v root x) ≡ false)
      → MapResult v first pa n (map_from v root first pa flags n)
  unfolding map_from vm_walk
  map_from_lem zero v first pa vm al hf hp free = (
    0,
    pos 0,
    v,
    refl,
    Mapped-none v v vm.height vm.path vm.height vm.path first pa
        (Extends-refl v vm.height vm.path vm.tree vm.valid) vm.at_root,
    inl (refl, refl),
  )
  map_from_lem (suc n) v first pa vm al hf hp free =
      let (r, v₁, h₁, p₁, run, x, reached) = walk_lem 2 v root first vm.tree vm.valid vm.at_root in
      let at : h₁ root ≡ 3 = (x.kept root (λ z. omega (arith, vm.at_root))).0 ∙ vm.at_root in
      elim reached [
        | inl (z, out) ↦ (
          0,
          negsuc 0,
          v₁,
          map_null v v₁ first pa n (run ∙ ap (λ (a : ℕ). done (a, v₁)) z),
          Mapped-none v v₁ vm.height vm.path h₁ p₁ first pa x vm.at_root,
          inr (refl, omega arith, out),
        )
        | inr (nz, e) ↦
            let same : (y : ℕ) → entry_of v₁ root y ≡ entry_of v root y =
              λ y. x.same_look 2 root y vm.at_root in
            let word : v₁.words r ≡ entry_of v root first =
              ap v₁.words e
              ∙ sym (look-find x.tree 2 root first at ∙ ground (arith, nz))
              ∙ same first in
            let one =
              Mapped-one v v₁ h₁ p₁ first pa r x.tree x.valid at x.same_node x.same_bytes same nz e
                al (omega arith) in
            let (m, code, v₂, run₂, more, end) =
              map_from_lem n (record v₁ { words = write v₁.words r (leaf pa flags) }) (first + 4096)
                (pa + 4096) one.is_vm (omega arith) (omega arith) (omega arith)
                (λ y lo hi. ap is_valid (one.entries y (omega arith)) ∙ ground (arith, free y)) in
            (
              suc m,
              code,
              v₂,
              map_step v v₁ first pa n r (omega arith) (omega arith) run (λ z. nz (sym e ∙ z))
                    (ap is_valid word ∙ free first (omega arith) (omega arith))
                  ∙ run₂,
              Mapped-more v _ v₂ first pa m al one more,
              elim end [
                | inl (c, d) ↦ inl (c, omega arith)
                | inr (c, d, out) ↦ inr (c, omega arith, out)
              ],
            )
      ]
