-- ===== src/Vmem/Grow.antt =====
-- A new table, all zeros, at an entry that led nowhere: no entry of level 0 changes.
use kalorona_kernel.Common.{
  ℕ, zero, suc, ◌+◌, ◌*◌, ◌<◌, ◌≡◌, ◌≢◌, refl, ◌∙◌, ap, sym, true, false, arith, write, write_ne,
  write_self, Bool-cases, inl, inr, ℕ_discrete,
}
use kalorona_kernel.Bitmap.{test_bit}
use kalorona_kernel.Buddy.{Kmem}
use kalorona_kernel.Buddy.Blocks.{page_at}
use kalorona_kernel.Vmem.{va_get_pn, entry_at, is_valid, table_of, clear_page}
use kalorona_kernel.Vmem.Pte.{va_get_pn-lt, is_valid_lem}
use kalorona_kernel.Vmem.Tree.{look, IsTree, entry-eq}

-- `k'` is `k` with page `b` allocated.
pub record OneMore (k k' : Kmem) (b : ℕ) : Type 0 where
  pub inside : b < k.num_ppn
  pub was_free : test_bit k.mem_map b ≡ 0
  pub now : test_bit k'.mem_map b ≡ 1
  pub others : (pn : ℕ) → pn ≢ b → test_bit k'.mem_map pn ≡ test_bit k.mem_map pn
  pub same_begin : k'.begin_ppn ≡ k.begin_ppn
  pub same_num : k'.num_ppn ≡ k.num_ppn

module _ {k : Kmem} {words height path : ℕ → ℕ} (tree : IsTree k words height path) (k' : Kmem)
    (b : ℕ) (more : OneMore k k' b) (t lv va pte : ℕ) (ht : height t ≡ suc (suc lv))
    (gap : is_valid (words (entry_at t (suc lv) va)) ≡ false) (ok : is_valid pte ≡ true)
    (leads : table_of pte ≡ page_at k.begin_ppn b) where
  abbrev page : ℕ
  page = page_at k.begin_ppn b

  abbrev entry : ℕ
  entry = entry_at t (suc lv) va

  abbrev pub grown : ℕ → ℕ
  grown = write (clear_page words page) entry pte

  abbrev pub new_height : ℕ → ℕ
  new_height = write height page (suc lv)

  abbrev pub new_path : ℕ → ℕ
  new_path = write path page (path t * 512 + va_get_pn (suc lv) va)

  pub ne_new : (s : ℕ) → height s ≢ 0 → s ≢ page
  ne_new s h e =
      let (pn, lt, at, bit) = tree.in_use s h in
      let same : pn ≡ b = omega arith in ground (arith, more.was_free, ap (test_bit k.mem_map) same)

  pub kept_word :
      (s i : ℕ) → height s ≢ 0 → i < 512 → s + i * 8 ≢ entry → grown (s + i * 8) ≡ words (s + i * 8)
  unfolding clear_page
  kept_word s i h hi ne =
      let (pn, lt, at, bit) = tree.in_use s h in
      write_ne (clear_page words page) entry (s + i * 8) pte ne ∙ ground (arith, ne_new s h)

  blank_word : (i : ℕ) → i < 512 → grown (page + i * 8) ≡ 0
  unfolding entry_at clear_page
  blank_word i hi =
      let (pn, lt, at, bit) = tree.in_use t (λ z. omega arith) in
      let ne : page + i * 8 ≢ entry = λ e. absurd (
        omega (
          arith,
          va_get_pn-lt (suc lv) va,
          ne_new t (λ z. omega arith) (omega (arith, va_get_pn-lt (suc lv) va)),
        )) in
      write_ne (clear_page words page) entry (page + i * 8) pte ne ∙ ground arith

  pub new_word : grown entry ≡ pte
  new_word = write_self (clear_page words page) entry pte

  blank_look : (l va' : ℕ) → look grown page va' l ≡ 0
  unfolding look entry_at
  blank_look zero va' = blank_word (va_get_pn 0 va') (va_get_pn-lt 0 va')
  blank_look (suc l) va' =
      let z : is_valid (grown (page + va_get_pn (suc l) va' * 8)) ≡ false =
        is_valid_lem _
        ∙ ground (arith, blank_word (va_get_pn (suc l) va') (va_get_pn-lt (suc l) va')) in
      rw z refl

  pub grown-IsTree : IsTree k' grown new_height new_path
  unfolding entry_at
  grown-IsTree = record {
    in_use = λ s h. elim (ℕ_discrete s page) [
      | yes e ↦ (
        b,
        omega (arith, more.inside, more.same_num),
        e ∙ ap (λ g. page_at g b) (sym more.same_begin),
        more.now,
      )
      | no ne ↦
          let (pn, lt, at, bit) = tree.in_use s (λ z. h (write_ne height page s (suc lv) ne ∙ z)) in
          let pn_ne : pn ≢ b = λ e. ne (at ∙ ap (page_at k.begin_ppn) e) in
          (
            pn,
            omega (arith, more.same_num),
            at ∙ ap (λ g. page_at g pn) (sym more.same_begin),
            more.others pn pn_ne ∙ bit,
          )
    ];
    child = λ s l i hs hi valid. elim (ℕ_discrete s page) [
      | yes e ↦ absurd (
          ground (
            arith,
            is_valid_lem (grown (s + i * 8)),
            ap (λ (a : ℕ). grown (a + i * 8)) e,
            blank_word i hi,
          ))
      | no ne ↦
          let h : height s ≡ suc (suc l) = sym (write_ne height page s (suc lv) ne) ∙ hs in
          elim (ℕ_discrete (s + i * 8) entry) [
            | yes e ↦ at_entry s l i h hi e ne
            | no other ↦
                let same = kept_word s i (λ z. omega arith) hi other in
                let (c, pc) = tree.child s l i h hi (ap is_valid (sym same) ∙ valid) in
                let cn = ne_new (table_of (words (s + i * 8))) (λ z. omega arith) in
                (
                  ap (λ w. new_height (table_of w)) same ∙ write_ne height page _ (suc lv) cn ∙ c,
                  ap (λ w. new_path (table_of w)) same
                      ∙ write_ne path page _ (path t * 512 + va_get_pn (suc lv) va) cn
                      ∙ pc
                      ∙ ap (λ (p : ℕ). p * 512 + i)
                          (sym (write_ne path page s (path t * 512 + va_get_pn (suc lv) va) ne)),
                )
          ]
    ];
  }
    where
      at_entry :
          (s l i : ℕ)
          → height s ≡ suc (suc l)
          → i < 512
          → s + i * 8 ≡ entry
          → s ≢ page
          → (new_height (table_of (grown (s + i * 8))) ≡ suc l)
            × (new_path (table_of (grown (s + i * 8))) ≡ new_path s * 512 + i)
      at_entry s l i h hi e ne =
          let (st, ip) =
            entry-eq tree t (suc lv) va s i (λ z. omega arith) (λ z. omega arith) hi (sym e) in
          let to : table_of (grown (s + i * 8)) ≡ page =
            ap (λ (a : ℕ). table_of (grown a)) e ∙ ap table_of new_word ∙ leads in
          (
            ap new_height to ∙ write_self height page (suc lv) ∙ omega (arith, ap height st),
            ap new_path to
                ∙ write_self path page (path t * 512 + va_get_pn (suc lv) va)
                ∙ omega (
                  arith,
                  ap path st,
                  write_ne path page s (path t * 512 + va_get_pn (suc lv) va) ne,
                ),
          )

  -- What a walk finds is as before.
  pub look-grown : (l s va' : ℕ) → height s ≡ suc l → look grown s va' l ≡ look words s va' l
  unfolding look entry_at
  look-grown zero s va' hs =
      kept_word s (va_get_pn 0 va') (λ z. omega arith) (va_get_pn-lt 0 va')
        (λ e. absurd (
          omega (
            arith,
            ap height
                (entry-eq tree t (suc lv) va s (va_get_pn 0 va') (λ z. omega arith)
                  (λ z. omega arith) (va_get_pn-lt 0 va') (sym e)).0,
          )))
  look-grown (suc l) s va' hs =
      let i = va_get_pn (suc l) va' in
      elim (ℕ_discrete (s + i * 8) entry) [
        | yes e ↦
            let same : grown (s + i * 8) ≡ pte = ap grown e ∙ new_word in
            let gone : is_valid (words (s + i * 8)) ≡ false =
              ap (λ (a : ℕ). is_valid (words a)) e ∙ gap in
            rw (same, ok, leads, blank_look l va', gone) refl
        | no other ↦
            let same = kept_word s i (λ z. omega arith) (va_get_pn-lt (suc l) va') other in
            rw same (elim (Bool-cases (is_valid (words (s + i * 8)))) [
              | inr n ↦ rw n refl
              | inl y ↦ rw y (
                  look-grown l (table_of (words (s + i * 8))) va'
                    (tree.child s l i hs (va_get_pn-lt (suc l) va') y).0)
            ])
      ]
