-- ===== src/Vmem/Extend.antt =====
-- Page tables that grow, by one table at a time.
use kalorona_kernel.Common.{
  ℕ, suc, ◌+◌, ◌*◌, ◌^◌, ◌<◌, ◌≡◌, ◌≢◌, refl, ◌∙◌, ap, sym, true, false, arith, write_ne,
  write_self, bit_or, ℕ_discrete,
}
use kalorona_kernel.Common.Page.{pma_va2pa}
use kalorona_kernel.Bitmap.{test_bit}
use kalorona_kernel.Buddy.{Kmem}
use kalorona_kernel.Buddy.Blocks.{page_at}
use kalorona_kernel.Buddy.Give.{IsKmem, SameNode, Given}
use kalorona_kernel.Vmem.{Vm, entry_at, is_valid, install, pa_pte, pte_flag_v, va_get_pn}
use kalorona_kernel.Vmem.Pte.{table_of_lem, table-valid}
use kalorona_kernel.Vmem.Tree.{look, IsTree}
use kalorona_kernel.Vmem.Grow
use kalorona_kernel.Vmem.Grow.{
  OneMore, grown, new_height, new_path, ne_new, new_word, grown-IsTree, look-grown,
}

-- The second state has the tables of the first, and more at most; what they lead to is the same.
pub record Extends (v : Vm) (height path : ℕ → ℕ) (v' : Vm) (height' path' : ℕ → ℕ) : Type 0 where
  pub tree : IsTree v'.kmem v'.words height' path'
  pub valid : IsKmem v'.kmem
  pub same_node : SameNode v.kmem v'.kmem
  pub same_bytes : v'.bytes ≡ v.bytes
  pub kept : (s : ℕ) → height s ≢ 0 → (height' s ≡ height s) × (path' s ≡ path s)
  pub kept_word :
      (s i : ℕ)
      → height s ≢ 0
      → i < 512
      → is_valid (v.words (s + i * 8)) ≡ true
      → v'.words (s + i * 8) ≡ v.words (s + i * 8)
  pub same_look : (l s va : ℕ) → height s ≡ suc l → look v'.words s va l ≡ look v.words s va l
  pub kept_bits : (pn : ℕ) → test_bit v.kmem.mem_map pn ≡ 1 → test_bit v'.kmem.mem_map pn ≡ 1

pub SameNode-trans : {a b c : Kmem} → SameNode a b → SameNode b c → SameNode a c
SameNode-trans r s = record {
  same_begin = s.same_begin ∙ r.same_begin;
  same_num = s.same_num ∙ r.same_num;
  same_head = s.same_head ∙ r.same_head;
}

pub Extends-refl :
    (v : Vm) (h p : ℕ → ℕ) → IsTree v.kmem v.words h p → IsKmem v.kmem → Extends v h p v h p
Extends-refl v h p tree valid = record {
  tree = tree;
  valid = valid;
  same_node = record { same_begin = refl; same_num = refl; same_head = refl };
  same_bytes = refl;
  kept = λ s n. (refl, refl);
  kept_word = λ s i n hi y. refl;
  same_look = λ l s va e. refl;
  kept_bits = λ pn b. b;
}

pub Extends-trans :
    {v v₁ v₂ : Vm} {h p h₁ p₁ h₂ p₂ : ℕ → ℕ}
    → Extends v h p v₁ h₁ p₁
    → Extends v₁ h₁ p₁ v₂ h₂ p₂
    → Extends v h p v₂ h₂ p₂
Extends-trans a b = record {
  tree = b.tree;
  valid = b.valid;
  same_node = SameNode-trans a.same_node b.same_node;
  same_bytes = b.same_bytes ∙ a.same_bytes;
  kept = λ s n.
      let (e, e') = a.kept s n in let (f, f') = b.kept s (λ z. n (sym e ∙ z)) in (f ∙ e, f' ∙ e');
  kept_word = λ s i n hi y.
      let e = a.kept_word s i n hi y in
      b.kept_word s i (λ z. n (sym (a.kept s n).0 ∙ z)) hi (ap is_valid e ∙ y) ∙ e;
  same_look =
      λ l s va e. b.same_look l s va ((a.kept s (λ z. omega arith)).0 ∙ e) ∙ a.same_look l s va e;
  kept_bits = λ pn y. b.kept_bits pn (a.kept_bits pn y);
}

-- What the page allocator gives for order 0.
pub one_more : {k k' : Kmem} {b : ℕ} → Given k 0 b k' → OneMore k k' b
one_more {k} {k'} {b} given = record {
  inside = omega (arith, given.inside);
  was_free = given.was_free b (ground arith);
  now = given.marked b ∙ ground arith;
  others = λ pn ne. given.marked pn ∙ ground arith;
  same_begin = given.same_node.same_begin;
  same_num = given.same_node.same_num;
}

-- One page more, as the table that an entry lacks.
module _ (v : Vm) {h p : ℕ → ℕ} (tree : IsTree v.kmem v.words h p) (t lv va : ℕ)
    (ht : h t ≡ suc (suc lv)) (gap : is_valid (v.words (entry_at t (suc lv) va)) ≡ false)
    (k' : Kmem) (b : ℕ) (given : Given v.kmem 0 b k') (fits : v.kmem.begin_ppn + b < 2 ^ 26) where
  abbrev pub page : ℕ
  page = page_at v.kmem.begin_ppn b

  abbrev pub pte : ℕ
  pte = bit_or (pa_pte (pma_va2pa (page_at v.kmem.begin_ppn b))) pte_flag_v

  abbrev pub installed : Vm
  installed = install (record v { kmem = k' }) (entry_at t (suc lv) va) (page_at v.kmem.begin_ppn b)

  abbrev pub height' : ℕ → ℕ
  height' =
      new_height tree k' b (one_more given) t lv va pte ht gap (table-valid _ b fits)
        (table_of_lem _ b fits)

  abbrev pub path' : ℕ → ℕ
  path' =
      new_path tree k' b (one_more given) t lv va pte ht gap (table-valid _ b fits)
        (table_of_lem _ b fits)

  pub installed-Extends : Extends v h p installed height' path'
  unfolding install
  installed-Extends =
      let more = one_more given in
      record {
        tree =
            grown-IsTree tree k' b (one_more given) t lv va pte ht gap (table-valid _ b fits)
              (table_of_lem _ b fits);
        valid = given.valid;
        same_node = given.same_node;
        same_bytes = refl;
        kept = λ s n.
            let ne =
              ne_new tree k' b (one_more given) t lv va pte ht gap (table-valid _ b fits)
                (table_of_lem _ b fits) s n in
            (
              write_ne h page s (suc lv) ne,
              write_ne p page s (p t * 512 + va_get_pn (suc lv) va) ne,
            );
        kept_word = λ s i n hi y.
            Grow.kept_word tree k' b (one_more given) t lv va pte ht gap (table-valid _ b fits)
              (table_of_lem _ b fits) s i n hi
              (λ e. absurd (ground (arith, ap (λ (a : ℕ). is_valid (v.words a)) e)));
        same_look = λ l s va' e.
            look-grown tree k' b (one_more given) t lv va pte ht gap (table-valid _ b fits)
              (table_of_lem _ b fits) l s va' e;
        kept_bits = λ pn y. elim (ℕ_discrete pn b) [
          | yes e ↦ ap (test_bit k'.mem_map) e ∙ more.now
          | no ne ↦ more.others pn ne ∙ y
        ];
      }

  -- The new table is in the tree, below the entry.
  pub installed-height : height' page ≡ suc lv
  installed-height = write_self h page (suc lv)

  pub installed-entry : installed.words (entry_at t (suc lv) va) ≡ pte
  unfolding install
  installed-entry =
      new_word tree k' b (one_more given) t lv va pte ht gap (table-valid _ b fits)
        (table_of_lem _ b fits)
