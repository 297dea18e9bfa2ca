-- ===== src/Object/Free.antt =====
-- `kmem_object_free` on all blocks of a manager.
use kalorona_kernel.Common.{
  ℕ, ◌+◌, ◌%◌, ◌<◌, ◌≡◌, ◌≢◌, refl, ◌∙◌, ap, sym, subst, true, false, not, ◌==◌, ◌&&◌, Option, some,
  List, [], ◌∷◌, ◌++◌, arith, inl, inr, Bool-cases, ℕ_discrete, Outcome, done,
}
use kalorona_kernel.Common.Word.{add64}
use kalorona_kernel.LinkedList.Chain.{has, ◌∈◌, Distinct, Distinct-append_cons, has-append}
use kalorona_kernel.Buddy.Blocks.{has-split}
use kalorona_kernel.Buddy.Give.{IsKmem}
use kalorona_kernel.Object.{
  Objects, Manager, header_size, free_slots, allocated_slots, kmem_object_alloc, kmem_object_free,
}
use kalorona_kernel.Object.Slots.{
  IsBlock, count_of, count_of-cons, count_of-middle, SameElsewhere, kmem_object_free_lem,
}
use kalorona_kernel.Object.Managed.{BlockView, blocks_of, Linked, IsPlacedIn-frame}
use kalorona_kernel.Object.Alloc.{
  in_use, in_use-append, with_lists, Linked-at, Linked-change, IsPlacedIn-moved, IsFrame-elsewhere,
}
use kalorona_kernel.Object.Disjoint.{in_use-own}
use kalorona_kernel.Object.Manage.{IsManaged, IsObtained, unit_of, kmem_object_alloc_lem}

-- The block that has a header in use.
in_use-split :
    (vs : List BlockView) (a : ℕ)
    → in_use vs a ≡ true
    → (us : List BlockView) × (v : BlockView) × (ws : List BlockView) × (vs ≡ us ++ v ∷ ws)
      × (a ∈ v.allocated)
in_use-split [] a i = absurd (ground arith)
in_use-split (v ∷ vs) a i = elim (Bool-cases (has a v.allocated)) [
  | inl k ↦ ([], v, vs, refl, k)
  | inr n ↦
      let (us, w, ws, split, here) = in_use-split vs a (ground arith) in
      (v ∷ us, w, ws, ap {B = List BlockView} (λ (xs : List BlockView). v ∷ xs) split, here)
]

-- What is in use once the header `node` is not.
in_use-without :
    (us : List BlockView) (v : BlockView) (ws : List BlockView) (node : ℕ) (free allocated : List ℕ)
    → in_use (us ++ with_lists v free allocated ∷ ws) node ≡ false
    → ((a : ℕ) → has a allocated ≡ (has a v.allocated && not (a == node)))
    → (a : ℕ)
    → in_use (us ++ with_lists v free allocated ∷ ws) a
      ≡ (in_use (us ++ v ∷ ws) a && not (a == node))
in_use-without us v ws node free allocated gone shorter a = elim (ℕ_discrete a node) [
  | yes e ↦ ap (in_use (us ++ with_lists v free allocated ∷ ws)) e ∙ gone ∙ ground arith
  | no ne ↦ ground (
    arith,
    ne,
    shorter a,
    in_use-append us (v ∷ ws) a,
    in_use-append us (with_lists v free allocated ∷ ws) a,
  )
]

-- `kmem_object_free` of an object in use returns normally. The header is not in use any more, the others stay so, and
-- the manager is valid again.
pub kmem_object_free_managed_lem :
    (s : Objects) (mgr node : ℕ) (vs : List BlockView)
    → IsManaged s mgr vs
    → in_use vs node ≡ true
    → (s' : Objects) × (vs' : List BlockView) × (kmem_object_free s (add64 node header_size)
        ≡ done s')
      × IsManaged s' mgr vs'
      × ((a : ℕ) → in_use vs' a ≡ (in_use vs a && not (a == node)))
kmem_object_free_managed_lem s mgr node vs now used =
    let unit = unit_of s mgr in
    let at = (s.manager mgr).blocks in
    let (us, v, ws, split, here) = in_use-split vs node used in
    let linked = subst (Linked s unit at) split now.linked in
    let (ok, p) = Linked-at s unit at us v ws linked in
    let (xs, ys, e) = has-split node v.allocated here in
    let counts = ap count_of e in
    let middle = count_of-middle xs node ys in
    let one = count_of-cons node v.free in
    let in_span = p.inside node (ground arith) in
    let (s', run, ok', same) =
      kmem_object_free_lem s v.blk node v.free xs ys (subst (IsBlock s v.blk v.free) e ok)
        (omega (arith, p.word)) (omega (arith, p.few)) in
    let frame = IsFrame-elsewhere s s' unit v p (
      subst
        (λ (zs : List ℕ).
          SameElsewhere v.blk (free_slots v.blk ∷ (v.free ++ allocated_slots v.blk ∷ zs)) s s')
        (sym e) same) in
    let distinct =
      Distinct-append_cons xs ys node (subst Distinct e (ok.allocated_chain.distinct.1)) in
    let shorter : (a : ℕ) → has a (xs ++ ys) ≡ (has a v.allocated && not (a == node)) = λ a.
      elim (ℕ_discrete a node) [
        | yes f ↦ ap (λ (c : ℕ). has c (xs ++ ys)) f ∙ distinct.1 ∙ ground arith
        | no ne ↦ ground (arith, ne, ap (has a) e, has-append a xs (node ∷ ys), has-append a xs ys)
      ] in
    let p' =
      IsPlacedIn-moved v (node ∷ v.free) (xs ++ ys) (IsPlacedIn-frame frame p)
        (λ a. ground (arith, ap (has a) e, has-append a xs (node ∷ ys), has-append a xs ys))
        (omega arith) in
    let linked' =
      Linked-change at us v ws (node ∷ v.free) (xs ++ ys) linked
        (omega (arith, p.some_page, p.blk_is, p.end_is)) frame same.next_same ok' p' in
    let gone =
      in_use-own s' unit at us (with_lists v (node ∷ v.free) (xs ++ ys)) ws node (omega arith)
        linked' (ground arith)
      ∙ distinct.1 in
    let managers = same.managers_same in
    let size : (s'.manager mgr).object_size ≡ (s.manager mgr).object_size =
      ap (λ (f : ℕ → Manager). (f mgr).object_size) managers in
    (
      s',
      us ++ with_lists v (node ∷ v.free) (xs ++ ys) ∷ ws,
      run,
      record {
        pages = subst IsKmem (sym same.pages_same) now.pages;
        aligned = ap (λ (n : ℕ). n % 8) size ∙ now.aligned;
        small = omega (arith, size, now.small);
        linked =
            subst
              (λ (f : ℕ → Manager).
                Linked s' ((f mgr).object_size + header_size) (f mgr).blocks
                  (us ++ with_lists v (node ∷ v.free) (xs ++ ys) ∷ ws))
              (sym managers) linked';
      },
      λ a.
          in_use-without us v ws node (node ∷ v.free) (xs ++ ys) gone shorter a
          ∙ ap (λ (zs : List BlockView). in_use zs a && not (a == node)) (sym split),
    )

free_obtained :
    (s s' : Objects) (mgr node : ℕ) (vs vs' : List BlockView)
    → IsObtained s mgr vs node s' vs'
    → (s'' : Objects) × (vs'' : List BlockView) × (kmem_object_free s' (add64 node header_size)
        ≡ done s'')
      × IsManaged s'' mgr vs''
      × ((a : ℕ) → in_use vs'' a ≡ in_use vs a)
free_obtained s s' mgr node vs vs' got =
    let (s'', vs'', run, managed, left) =
      kmem_object_free_managed_lem s' mgr node vs' got.managed
        (ground (arith, got.now_used node)) in
    (
      s'',
      vs'',
      run,
      managed,
      λ a. left a ∙ elim (ℕ_discrete a node) [
        | yes e ↦
            ap (λ (c : ℕ). in_use vs' c && not (c == node)) e
            ∙ ground (arith, got.was_unused)
            ∙ ap (in_use vs) (sym e)
        | no ne ↦ ground (arith, ne, got.now_used a)
      ],
    )

value_of : ℕ × Objects → Option (Outcome (ℕ × Objects)) → ℕ × Objects
value_of d (some (done r)) = r
value_of d _ = d

-- An object that `kmem_object_alloc` has just returned can be given to `kmem_object_free`, which returns normally. Then
-- the same objects are in use as before both, and the manager is valid.
pub object_free-object_alloc :
    (fuel : ℕ) (s s' : Objects) (mgr addr : ℕ) (vs : List BlockView)
    → IsManaged s mgr vs
    → blocks_of vs < fuel
    → kmem_object_alloc fuel s mgr ≡ some (done (addr, s'))
    → addr ≢ 0
    → (s'' : Objects) × (vs'' : List BlockView) × (kmem_object_free s' addr ≡ done s'')
      × IsManaged s'' mgr vs''
      × ((a : ℕ) → in_use vs'' a ≡ in_use vs a)
unfolding value_of
object_free-object_alloc fuel s s' mgr addr vs now h run nz =
    elim (kmem_object_alloc_lem fuel s mgr vs now h) [
      | inl (failed, full) ↦ absurd (nz (ap (λ o. (value_of (addr, s') o).0) (sym run ∙ failed)))
      | inr (node, t, vs', made, obtained) ↦
          let same = ap (value_of (addr, s')) (sym made ∙ run) in
          let (s'', vs'', freed, managed, left) = free_obtained s t mgr node vs vs' obtained in
          (
            s'',
            vs'',
            ap (λ (r : ℕ × Objects). kmem_object_free r.1 r.0) (sym same) ∙ freed,
            managed,
            left,
          )
    ]
