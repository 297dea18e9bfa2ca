-- ===== src/Object/Manage.antt =====
-- `kmem_object_alloc` as a whole, on all blocks of a manager.
use kalorona_kernel.Common.{
  ℕ, zero, suc, ◌+◌, ◌-◌, ◌*◌, ◌%◌, ◌^◌, ◌≤◌, ◌<◌, ◌≡◌, ◌≢◌, refl, ◌∙◌, ap, sym, subst, true, false,
  ◌==◌, ◌||◌, ltb, leb, if◌then◌else◌, some, List, [], ◌∷◌, ◌++◌, arith, ◌⊎◌, inl, inr, Bool-cases,
  write_self, done,
}
use kalorona_kernel.Common.Word.{add64}
use kalorona_kernel.LinkedList.Chain.{has}
use kalorona_kernel.Buddy.{max_mem_order}
use kalorona_kernel.Buddy.Give.{IsKmem}
use kalorona_kernel.Object.{
  Objects, Manager, header_size, block_size, find_block, next_order, room, set_block, set_manager,
  alloc_in_new_block, kmem_object_alloc_from_block, kmem_object_alloc,
}
use kalorona_kernel.Object.Managed.{BlockView, Linked, blocks_of, all_full, own}
use kalorona_kernel.Object.Search.{find_block_lem}
use kalorona_kernel.Object.Alloc.{in_use, in_use-append, with_lists, Linked-at, alloc_in_old}
use kalorona_kernel.Object.Grow.{
  create_from_lem, new_view, connected, connected-Linked, new_view-first,
}
use kalorona_kernel.Object.Disjoint.{separate, in_use-separate, in_use-own}

-- What an object takes, with its header.
abbrev pub unit_of : Objects → ℕ → ℕ
unit_of s mgr = (s.manager mgr).object_size + header_size

-- A manager between operations: valid pages, and its blocks in order.
pub record IsManaged (s : Objects) (mgr : ℕ) (vs : List BlockView) : Type 0 where
  pub pages : IsKmem s.pages
  pub aligned : (s.manager mgr).object_size % 8 ≡ 0
  pub small : (s.manager mgr).object_size < 2 ^ 32
  pub linked : Linked s (unit_of s mgr) (s.manager mgr).blocks vs

-- The object at the header `node` is in use, and it was not before; it shares no memory with the others.
pub record IsObtained (s : Objects) (mgr : ℕ) (vs : List BlockView) (node : ℕ) (s' : Objects)
    (vs' : List BlockView) : Type 0 where
  pub managed : IsManaged s' mgr vs'
  pub same_size : (s'.manager mgr).object_size ≡ (s.manager mgr).object_size
  pub was_unused : in_use vs node ≡ false
  pub now_used : (a : ℕ) → in_use vs' a ≡ (in_use vs a || (a == node))
  pub disjoint : (a : ℕ) → in_use vs a ≡ true → separate (unit_of s mgr) a node ≡ true

-- A slot of a block goes to the allocated ones.
obtain :
    (s t s' : Objects) (mgr at node : ℕ) (vs us : List BlockView) (v : BlockView)
    (ws : List BlockView) (rest : List ℕ)
    → IsManaged s mgr vs
    → IsKmem s'.pages
    → (s'.manager mgr).object_size ≡ (s.manager mgr).object_size
    → (s'.manager mgr).blocks ≡ at
    → v.free ≡ node ∷ rest
    → ((a : ℕ) → in_use (us ++ v ∷ ws) a ≡ in_use vs a)
    → Linked t (unit_of s mgr) at (us ++ v ∷ ws)
    → has node v.allocated ≡ false
    → Linked s' (unit_of s mgr) at (us ++ with_lists v rest (node ∷ v.allocated) ∷ ws)
    → IsObtained s mgr vs node s' (us ++ with_lists v rest (node ∷ v.allocated) ∷ ws)
obtain s t s' mgr at node vs us v ws rest before pages size blocks e same linked unused linked' =
    let vs' = us ++ with_lists v rest (node ∷ v.allocated) ∷ ws in
    let own_node : own v node ≡ true = ground (arith, ap (has node) e) in
    let was_unused : in_use vs node ≡ false =
      sym (same node)
      ∙ in_use-own t (unit_of s mgr) at us v ws node (omega arith) linked own_node
      ∙ unused in
    let now : (a : ℕ) → in_use vs' a ≡ (in_use vs a || (a == node)) = λ a. ground (
      arith,
      same a,
      in_use-append us (v ∷ ws) a,
      in_use-append us (with_lists v rest (node ∷ v.allocated) ∷ ws) a,
    ) in
    record {
      managed = record {
        pages = pages;
        aligned = ap (λ (n : ℕ). n % 8) size ∙ before.aligned;
        small = omega (arith, size, before.small);
        linked =
            subst (λ (n : ℕ). Linked s' (n + header_size) (s'.manager mgr).blocks vs') (sym size)
              (subst (λ (a : ℕ). Linked s' (unit_of s mgr) a vs') (sym blocks) linked');
      };
      same_size = size;
      was_unused = was_unused;
      now_used = now;
      disjoint = λ a i.
          in_use-separate s' (unit_of s mgr) at vs' a node linked' (ground (arith, now a))
            (ground (arith, now node)) (λ f. ground (arith, was_unused, ap (in_use vs) f));
    }

next_order-le : (sum left ord : ℕ) → next_order sum left ord ≤ ord + left
unfolding next_order
next_order-le sum zero ord = omega arith
next_order-le sum (suc left) ord = elim (Bool-cases (leb (room ord) sum)) [
  | inl t ↦ rw (next_order, t) (omega (arith, next_order-le sum left (ord + 1)))
  | inr f ↦ rw (next_order, f) (omega arith)
]

-- Where all blocks are full.
alloc_in_new_block_lem :
    (s : Objects) (mgr sum : ℕ) (vs : List BlockView)
    → IsManaged s mgr vs
    → (alloc_in_new_block s mgr sum ≡ done (0, s))
      ⊎ ((node : ℕ) × (s' : Objects) × (vs' : List BlockView) × (alloc_in_new_block s mgr sum
            ≡ done (add64 node header_size, s'))
          × IsObtained s mgr vs node s' vs')
unfolding alloc_in_new_block set_manager set_block
alloc_in_new_block_lem s mgr sum vs now =
    let ord = next_order sum (max_mem_order - 1) 0 in
    elim (create_from_lem ord s mgr now.pages
      (omega (arith, next_order-le sum (max_mem_order - 1) 0)) now.small) [
        | inl run ↦ inl (rw (alloc_in_new_block, run) refl)
        | inr (r, run, nz, made) ↦
            let size = (s.manager mgr).object_size in
            let view = new_view s mgr size r now.pages made now.aligned in
            let t = connected s mgr size r now.pages made now.aligned in
            let linked = connected-Linked s mgr size r now.pages made now.aligned vs now.linked in
            let (rest, e) = new_view-first s mgr size r now.pages made now.aligned in
            let node = r.0 + block_size in
            let (s', taken, linked', pages, managers) =
              alloc_in_old t (unit_of s mgr) r.0 [] view vs node rest linked e in
            let m = (r.1).manager mgr in
            let here = write_self (r.1).manager mgr (record m { blocks = r.0 }) in
            let there : s'.manager mgr ≡ record m { blocks = r.0 } =
              ap (λ (f : ℕ → Manager). f mgr) managers ∙ here in
            let not_null : (r.0 == 0) ≡ false = ground arith in
            inr (
              node,
              s',
              with_lists view rest (node ∷ []) ∷ vs,
              rw (alloc_in_new_block, run, not_null) taken,
              obtain s t s' mgr r.0 node vs [] view vs rest now
                  (subst IsKmem (sym pages) made.given.valid)
                  (ap (λ (n : Manager). n.object_size) there
                    ∙ ap (λ (f : ℕ → Manager). (f mgr).object_size) made.created.managers_kept)
                  (ap (λ (n : Manager). n.blocks) there) e (λ a. refl) linked refl linked',
            )
      ]

run_old :
    (fuel : ℕ) (s : Objects) (mgr blk sum : ℕ)
    → find_block fuel s (add64 (s.manager mgr).object_size header_size) (s.manager mgr).blocks 0
      ≡ some (blk, sum)
    → blk ≢ 0
    → kmem_object_alloc fuel s mgr ≡ some (kmem_object_alloc_from_block s blk)
unfolding kmem_object_alloc
run_old fuel s mgr blk sum found nz =
    let t : (blk == 0) ≡ false = ground arith in rw (kmem_object_alloc, found, t) refl

run_new :
    (fuel : ℕ) (s : Objects) (mgr sum : ℕ)
    → find_block fuel s (add64 (s.manager mgr).object_size header_size) (s.manager mgr).blocks 0
      ≡ some (0, sum)
    → (sum' : ℕ) × (kmem_object_alloc fuel s mgr ≡ some (alloc_in_new_block s mgr sum'))
unfolding kmem_object_alloc
run_new fuel s mgr sum found =
    let least = add64 (s.manager mgr).object_size header_size * 4 % 2 ^ 64 in
    (if ltb sum least then least else sum, rw (kmem_object_alloc, found) refl)

-- `kmem_object_alloc`, with fuel for the blocks of its manager, always returns. Either it returns NULL, all blocks are
-- full, and nothing has changed; or it returns the address behind a header that was not in use and is now. The
-- object shares no memory with those in use, which stay so, and the manager is valid again.
pub kmem_object_alloc_lem :
    (fuel : ℕ) (s : Objects) (mgr : ℕ) (vs : List BlockView)
    → IsManaged s mgr vs
    → blocks_of vs < fuel
    → ((kmem_object_alloc fuel s mgr ≡ some (done (0, s))) × (all_full vs ≡ true))
      ⊎ ((node : ℕ) × (s' : Objects) × (vs' : List BlockView) × (kmem_object_alloc fuel s mgr
            ≡ some (done (add64 node header_size, s')))
          × IsObtained s mgr vs node s' vs')
kmem_object_alloc_lem fuel s mgr vs now h =
    let m = s.manager mgr in
    let whole : add64 m.object_size header_size ≡ unit_of s mgr = omega (arith, now.small) in
    let unit = ap (λ (u : ℕ). find_block fuel s u m.blocks 0) whole in
    elim (find_block_lem fuel s (unit_of s mgr) m.blocks 0 vs now.linked h) [
      | inl (sum, found, full) ↦
          let (sum', run) = run_new fuel s mgr sum (unit ∙ found) in
          elim (alloc_in_new_block_lem s mgr sum' vs now) [
            | inl failed ↦ inl (run ∙ ap some failed, full)
            | inr (node, s', vs', made, obtained) ↦
                inr (node, s', vs', run ∙ ap some made, obtained)
          ]
      | inr (us, v, ws, node, rest, sum, split, e, found) ↦
          let linked = subst (Linked s (unit_of s mgr) m.blocks) split now.linked in
          let (ok, p) = Linked-at s (unit_of s mgr) m.blocks us v ws linked in
          let (s', taken, linked', pages, managers) =
            alloc_in_old s (unit_of s mgr) m.blocks us v ws node rest linked e in
          let run = run_old fuel s mgr v.blk sum (unit ∙ found) ok.free_chain.head_ne_null in
          let unused : has node v.allocated ≡ false =
            ground (arith, ok.apart node, ap (has node) e) in
          inr (
            node,
            s',
            us ++ with_lists v rest (node ∷ v.allocated) ∷ ws,
            run ∙ ap some taken,
            obtain s s s' mgr m.blocks node vs us v ws rest now (subst IsKmem (sym pages) now.pages)
                (ap (λ (f : ℕ → Manager). (f mgr).object_size) managers)
                (ap (λ (f : ℕ → Manager). (f mgr).blocks) managers) e
                (λ a. ap (λ (xs : List BlockView). in_use xs a) (sym split)) linked unused linked',
          )
    ]
