-- ===== src/Vmem/Leaf.antt =====
-- What a write to an entry of level 0 changes: the page that the entry is for.
use kalorona_kernel.Common.{
  ℕ, suc, ◌+◌, ◌*◌, ◌<◌, ◌≡◌, ◌≢◌, ◌∙◌, ap, sym, subst, arith, if◌then◌else◌, write, write_ne,
  write_self, Bool-cases, inl, inr,
}
use kalorona_kernel.Buddy.{Kmem}
use kalorona_kernel.Vmem.{va_get_pn, entry_at, is_valid}
use kalorona_kernel.Vmem.Pte.{va_get_pn-lt}
use kalorona_kernel.Vmem.Tree.{
  find, look, IsTree, same_entry, find_leaf, find-write, find-inj, find-same, look-find, same_from,
}

module _ {k : Kmem} {words height path : ℕ → ℕ} (tree : IsTree k words height path) where
  IsTree-write :
      (u i x : ℕ) → height u ≡ 1 → i < 512 → IsTree k (write words (u + i * 8) x) height path
  IsTree-write u i x hu hi = record {
    in_use = tree.in_use;
    child = λ t lv j ht hj ok.
        let other : t + j * 8 ≢ u + i * 8 = λ e. absurd (
          omega (
            arith,
            ap height
                (same_entry k t u j i (tree.in_use t (λ z. omega arith))
                  (tree.in_use u (λ z. omega arith)) hj hi e).0,
          )) in
        let same = write_ne words (u + i * 8) (t + j * 8) x other in
        rw same (tree.child t lv j ht hj (ap is_valid (sym same) ∙ ok));
  }

  module _ (lv t va x : ℕ) (ht : height t ≡ suc lv) (found : find words t va lv ≢ 0) where
    pub leaf_write-IsTree : IsTree k (write words (find words t va lv) x) height path
    unfolding entry_at
    leaf_write-IsTree =
        let (u, hu, eu, pu) = find_leaf tree lv t va ht found in
        subst (λ (e : ℕ). IsTree k (write words e x) height path) (sym eu)
          (IsTree-write u (va_get_pn 0 va) x hu (va_get_pn-lt 0 va))

    pub find-leaf_write :
        (s lv' va' : ℕ)
        → height s ≡ suc lv'
        → find (write words (find words t va lv) x) s va' lv' ≡ find words s va' lv'
    unfolding entry_at
    find-leaf_write s lv' va' hs =
        let (u, hu, eu, pu) = find_leaf tree lv t va ht found in
        subst (λ (e : ℕ). find (write words e x) s va' lv' ≡ find words s va' lv') (sym eu)
          (find-write tree lv' s va' u (va_get_pn 0 va) x hs hu (va_get_pn-lt 0 va))

    -- The entry that `look` gives is the new one for the same way, and as before for any other.
    pub look-leaf_write :
        (va' : ℕ)
        → look (write words (find words t va lv) x) t va' lv
          ≡ (if same_from lv va va' then x else look words t va' lv)
    look-leaf_write va' =
        let e = find words t va lv in
        let new = look-find leaf_write-IsTree lv t va' ht in
        let same = find-leaf_write t lv va' ht in
        let old = look-find tree lv t va' ht in
        elim (Bool-cases (same_from lv va va')) [
          | inl s ↦
              let way : find words t va' lv ≡ e = sym (find-same tree lv t va va' s) in
              new ∙ rw (same, way, write_self words e x, s) (ground (arith, found))
          | inr n ↦
              let other : find words t va' lv ≢ e =
                λ w. absurd (ground (arith, find-inj tree lv t va va' ht found (sym w))) in
              new ∙ rw (same, write_ne words e (find words t va' lv) x other, n) (sym old)
        ]
