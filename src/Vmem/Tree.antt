-- ===== src/Vmem/Tree.antt =====
-- A page table as a tree: each of its tables has a height, 3 for the root, and a path, the entries
-- that lead to it from there. So no table is reached in two ways.
use kalorona_kernel.Common.{
  ℕ, zero, suc, ◌+◌, ◌*◌, ◌/◌, ◌<◌, ◌≡◌, ◌≢◌, refl, ◌∙◌, ap, sym, Bool, true, false, arith,
  if◌then◌else◌, ◌==◌, ◌&&◌, write, write_ne, Bool-cases, inl, inr,
}
use kalorona_kernel.Bitmap.{test_bit}
use kalorona_kernel.Buddy.{Kmem}
use kalorona_kernel.Buddy.Blocks.{page_at}
use kalorona_kernel.Vmem.{va_get_pn, entry_at, is_valid, table_of}
use kalorona_kernel.Vmem.Pte.{va_get_pn-lt}

-- The address of the entry of level 0 for `va`, below a table of level `lv`; 0 if a table is missing.
unfoldable pub find : (ℕ → ℕ) → ℕ → ℕ → ℕ → ℕ
find words t va zero = entry_at t 0 va
find words t va (suc lv) =
    let pte = words (entry_at t (suc lv) va) in
    let below = find words (table_of pte) va lv in if is_valid pte then below else 0

-- The entry itself; 0 if a table is missing.
unfoldable pub look : (ℕ → ℕ) → ℕ → ℕ → ℕ → ℕ
look words t va zero = words (entry_at t 0 va)
look words t va (suc lv) =
    let pte = words (entry_at t (suc lv) va) in
    let below = look words (table_of pte) va lv in if is_valid pte then below else 0

-- `t` is an allocated page.
abbrev pub InUse : Kmem → ℕ → Type 0
InUse k t = (pn : ℕ) × (pn < k.num_ppn) × (t ≡ page_at k.begin_ppn pn) × (test_bit k.mem_map pn ≡ 1)

pub record IsTree (k : Kmem) (words height path : ℕ → ℕ) : Type 0 where
  pub in_use : (t : ℕ) → height t ≢ 0 → InUse k t
  pub child :
      (t lv i : ℕ)
      → height t ≡ suc (suc lv)
      → i < 512
      → is_valid (words (t + i * 8)) ≡ true
      → (height (table_of (words (t + i * 8))) ≡ suc lv)
        × (path (table_of (words (t + i * 8))) ≡ path t * 512 + i)

-- Two entries at one address are one entry of one table.
pub same_entry :
    (k : Kmem) (t u i j : ℕ)
    → InUse k t
    → InUse k u
    → i < 512
    → j < 512
    → t + i * 8 ≡ u + j * 8
    → (t ≡ u) × (i ≡ j)
same_entry k t u i j a b hi hj e = (omega (arith, a.2, b.2), omega (arith, a.2, b.2))

-- The path of the table `lv` levels up.
abbrev pub up : ℕ → ℕ → ℕ
up zero p = p
up (suc lv) p = up lv p / 512

-- Two addresses take the same entries from level `lv` down.
abbrev pub same_from : ℕ → ℕ → ℕ → Bool
same_from zero va va' = va_get_pn 0 va == va_get_pn 0 va'
same_from (suc lv) va va' = (va_get_pn (suc lv) va == va_get_pn (suc lv) va') && same_from lv va va'

same_offset : (t va va' : ℕ) → entry_at t 0 va ≡ entry_at t 0 va' → va_get_pn 0 va ≡ va_get_pn 0 va'
unfolding entry_at
same_offset t va va' e = omega arith

entry-same :
    (t lv va va' : ℕ) → va_get_pn lv va ≡ va_get_pn lv va' → entry_at t lv va ≡ entry_at t lv va'
unfolding entry_at
entry-same t lv va va' e = ap (λ (i : ℕ). t + i * 8) e

module _ {k : Kmem} {words height path : ℕ → ℕ} (tree : IsTree k words height path) where
  -- The table below an entry of level `lv + 1` on the way to `va`.
  pub child_of :
      (t lv va : ℕ)
      → height t ≡ suc (suc lv)
      → is_valid (words (entry_at t (suc lv) va)) ≡ true
      → (height (table_of (words (entry_at t (suc lv) va))) ≡ suc lv)
        × (path (table_of (words (entry_at t (suc lv) va))) ≡ path t * 512 + va_get_pn (suc lv) va)
  unfolding entry_at
  child_of t lv va e ok = tree.child t lv (va_get_pn (suc lv) va) e (va_get_pn-lt (suc lv) va) ok

  -- An entry on the way is at the address of another only if both are in one table.
  pub entry-eq :
      (t lv va u i : ℕ)
      → height t ≢ 0
      → height u ≢ 0
      → i < 512
      → entry_at t lv va ≡ u + i * 8
      → (t ≡ u) × (va_get_pn lv va ≡ i)
  unfolding entry_at
  entry-eq t lv va u i ht hu hi e =
      same_entry k t u (va_get_pn lv va) i (tree.in_use t ht) (tree.in_use u hu)
        (va_get_pn-lt lv va) hi e

  leaf-eq :
      (t u va va' : ℕ) → height t ≡ 1 → height u ≡ 1 → entry_at t 0 va ≡ entry_at u 0 va' → t ≡ u
  unfolding entry_at
  leaf-eq t u va va' ht hu e =
      (entry-eq t 0 va u (va_get_pn 0 va') (λ z. omega arith) (λ z. omega arith)
        (va_get_pn-lt 0 va') e).0

  -- The entry of level 0 that `find` gives is in a table below `t`.
  pub find_leaf :
      (lv t va : ℕ)
      → height t ≡ suc lv
      → find words t va lv ≢ 0
      → (u : ℕ) × (height u ≡ 1)
        × (find words t va lv ≡ entry_at u 0 va)
        × (up lv (path u) ≡ path t)
  unfolding find
  find_leaf zero t va e nz = (t, e, refl, refl)
  find_leaf (suc lv) t va e nz = elim (Bool-cases (is_valid (words (entry_at t (suc lv) va)))) [
    | inr n ↦ absurd (ground arith)
    | inl ok ↦
        let (c, pc) = child_of t lv va e ok in
        let (u, hu, eu, pu) =
          find_leaf lv (table_of (words (entry_at t (suc lv) va))) va c (λ z. nz (rw ok z)) in
        (u, hu, rw ok eu, omega (arith, pu, pc, va_get_pn-lt (suc lv) va))
  ]

  -- Writing an entry of level 0 leads no way elsewhere.
  pub find-write :
      (lv t va u i x : ℕ)
      → height t ≡ suc lv
      → height u ≡ 1
      → i < 512
      → find (write words (u + i * 8) x) t va lv ≡ find words t va lv
  unfolding find
  find-write zero t va u i x ht hu hi = refl
  find-write (suc lv) t va u i x ht hu hi =
      let other : entry_at t (suc lv) va ≢ u + i * 8 = λ e. absurd (
        omega (
          arith,
          ap height (entry-eq t (suc lv) va u i (λ z. omega arith) (λ z. omega arith) hi e).0,
        )) in
      rw (write_ne words (u + i * 8) (entry_at t (suc lv) va) x other)
        (elim (Bool-cases (is_valid (words (entry_at t (suc lv) va)))) [
          | inr n ↦ rw n refl
          | inl ok ↦ rw ok (
              find-write lv (table_of (words (entry_at t (suc lv) va))) va u i x
                (child_of t lv va ht ok).0 hu hi)
        ])

  pub entry-ne_zero : (t lv va : ℕ) → height t ≢ 0 → entry_at t lv va ≢ 0
  unfolding entry_at
  entry-ne_zero t lv va h e = omega (arith, (tree.in_use t h).2)

  -- `look` reads the entry that `find` gives.
  pub look-find :
      (lv t va : ℕ)
      → height t ≡ suc lv
      → look words t va lv ≡ (if find words t va lv == 0 then 0 else words (find words t va lv))
  unfolding look find
  look-find zero t va h =
      let nz : (entry_at t 0 va == 0) ≡ false =
        ground (arith, entry-ne_zero t 0 va (λ z. omega arith)) in
      rw nz refl
  look-find (suc lv) t va h = elim (Bool-cases (is_valid (words (entry_at t (suc lv) va)))) [
    | inr n ↦ rw n refl
    | inl ok ↦
        rw ok
          (look-find lv (table_of (words (entry_at t (suc lv) va))) va (child_of t lv va h ok).0)
  ]

  -- Two addresses with one entry take the same way.
  pub find-inj :
      (lv t va va' : ℕ)
      → height t ≡ suc lv
      → find words t va lv ≢ 0
      → find words t va lv ≡ find words t va' lv
      → same_from lv va va' ≡ true
  unfolding find
  find-inj zero t va va' ht nz e = ground (arith, apart)
    where
      apart : va_get_pn 0 va ≡ va_get_pn 0 va'
      apart = same_offset t va va' e
  find-inj (suc lv) t va va' ht nz e =
      let w = words (entry_at t (suc lv) va) in
      let w' = words (entry_at t (suc lv) va') in
      elim (Bool-cases (is_valid w)) [
        | inr n ↦ absurd (ground arith)
        | inl ok ↦ elim (Bool-cases (is_valid w')) [
          | inr n ↦ absurd (ground arith)
          | inl ok' ↦
              let fe : find words (table_of w) va lv ≡ find words (table_of w') va' lv =
                ground arith in
              let (c, pc) = child_of t lv va ht ok in
              let (c', pc') = child_of t lv va' ht ok' in
              let nz₁ : find words (table_of w) va lv ≢ 0 = λ z. nz (rw ok z) in
              let (u, hu, eu, pu) = find_leaf lv (table_of w) va c nz₁ in
              let (u', hu', eu', pu') = find_leaf lv (table_of w') va' c' (λ z. nz₁ (fe ∙ z)) in
              let same : u ≡ u' = (leaf-eq u u' va va' hu hu' (sym eu ∙ fe ∙ eu')) in
              let pn : va_get_pn (suc lv) va ≡ va_get_pn (suc lv) va' =
                omega (arith, pu, pu', pc, pc', ap (λ q. up lv (path q)) same) in
              let way : entry_at t (suc lv) va ≡ entry_at t (suc lv) va' =
                entry-same t (suc lv) va va' pn in
              ground (
                arith,
                find-inj lv (table_of w) va va' c nz₁
                    (fe ∙ ap (λ a. find words (table_of (words a)) va' lv) (sym way)),
              )
        ]
      ]

  -- And the other way round.
  pub find-same :
      (lv t va va' : ℕ) → same_from lv va va' ≡ true → find words t va lv ≡ find words t va' lv
  unfolding find
  find-same zero t va va' e = entry-same t 0 va va' (ground arith)
  find-same (suc lv) t va va' e =
      let way = entry-same t (suc lv) va va' (ground arith) in
      rw way
        (rw (find-same lv (table_of (words (entry_at t (suc lv) va'))) va va' (ground arith)) refl)
