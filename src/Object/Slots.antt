-- ===== src/Object/Slots.antt =====
-- What a block's two lists stand for, and how slots go from one to the other and back.
use kalorona_kernel.Common.{
  ℕ, ◌+◌, ◌^◌, ◌<◌, ◌≡◌, ◌≢◌, refl, ◌∙◌, ap, true, false, ◌==◌, ◌||◌, List, [], ◌∷◌, ◌++◌, arith,
  write_self, write_ne, Bool-cases, inl, inr, ℕ_discrete, done,
}
use kalorona_kernel.Common.Word.{add64, sub64}
use kalorona_kernel.LinkedList.{Links, list_insert, list_detach}
use kalorona_kernel.LinkedList.Chain.{
  has, ◌∈◌, ◌∉◌, IsChain, IsChain-frame, SameOutside, has-append, Distinct-append_cons, ne_of_mem,
  null-not-mem,
}
use kalorona_kernel.LinkedList.Insert.{list_insert_lem}
use kalorona_kernel.LinkedList.Detach.{list_detach_lem}
use kalorona_kernel.Object.{
  Objects, Block, header_size, free_slots, allocated_slots, set_block, kmem_object_alloc_from_block,
  kmem_object_free,
}
use kalorona_kernel.Object.Headers.{header_detach-list_detach, header_insert-list_insert}

pub count_of : List ℕ → ℕ
count_of [] = 0
count_of (x ∷ xs) = count_of xs + 1

pub count_of-none : 0 ≡ count_of []
unfolding count_of
count_of-none = refl

pub count_of-one : (x : ℕ) → 1 ≡ count_of (x ∷ [])
unfolding count_of
count_of-one x = refl

pub count_of-cons : (x : ℕ) (xs : List ℕ) → count_of (x ∷ xs) ≡ count_of xs + 1
unfolding count_of
count_of-cons x xs = refl

pub count_of-middle :
    (xs : List ℕ) (n : ℕ) (ys : List ℕ) → count_of (xs ++ n ∷ ys) ≡ count_of (xs ++ ys) + 1
unfolding count_of
count_of-middle [] n ys = refl
count_of-middle (x ∷ xs) n ys = ap (λ (k : ℕ). k + 1) (count_of-middle xs n ys)

-- The headers in the two lists of a block, in order.
pub record IsBlock (s : Objects) (blk : ℕ) (free allocated : List ℕ) : Type 0 where
  pub free_chain : IsChain s.headers (free_slots blk) free
  pub allocated_chain : IsChain s.headers (allocated_slots blk) allocated
  pub apart : (a : ℕ) → a ∈ free_slots blk ∷ free → a ∉ allocated_slots blk ∷ allocated
  pub used_count : (s.block blk).used ≡ count_of allocated
  pub parent : (a : ℕ) → (has a free || has a allocated) ≡ true → s.parent_block a ≡ blk

-- All but one block and its lists is as before.
pub record SameElsewhere (blk : ℕ) (touched : List ℕ) (s s' : Objects) : Type 0 where
  pub pages_same : s'.pages ≡ s.pages
  pub parents_same : s'.parent_block ≡ s.parent_block
  pub managers_same : s'.manager ≡ s.manager
  pub blocks_same : (b : ℕ) → b ≢ blk → s'.block b ≡ s.block b
  pub next_same : (s'.block blk).block_nxt ≡ (s.block blk).block_nxt
  pub headers_same : SameOutside touched s.headers s'.headers

-- One node goes from a list to the front of another.
pub move_node :
    (l : Links) (p q node : ℕ) (xs ys zs : List ℕ)
    → IsChain l p (xs ++ node ∷ ys)
    → IsChain l q zs
    → ((a : ℕ) → a ∈ p ∷ (xs ++ node ∷ ys) → a ∉ q ∷ zs)
    → (m : Links) × (g : Links) × (list_detach l node ≡ done m)
      × (list_insert m q node ≡ done g)
      × IsChain g p (xs ++ ys)
      × IsChain g q (node ∷ zs)
      × ((a : ℕ) → a ∈ p ∷ (xs ++ ys) → a ∉ q ∷ node ∷ zs)
      × ((a : ℕ)
          → a ∉ p ∷ (xs ++ node ∷ ys)
          → a ∉ q ∷ zs
          → (g.nxt a ≡ l.nxt a) × (g.prv a ≡ l.prv a))
move_node l p q node xs ys zs from to apart =
    let (m, detached, shorter, cleared, same_m) = list_detach_lem xs node ys from in
    let node_in : node ∈ p ∷ (xs ++ node ∷ ys) = ground (arith, middle node) in
    let node_out = apart node node_in in
    let not_null = null-not-mem l p (xs ++ node ∷ ys) from.head_ne_null from.joined in
    let node_nz = ne_of_mem node 0 (p ∷ (xs ++ node ∷ ys)) node_in not_null in
    let other = IsChain-frame m to (λ a i. same_m a (apart_sym a i)) in
    let (g, inserted, longer, same_g) = list_insert_lem zs node other node_nz node_out in
    (
      m,
      g,
      detached,
      inserted,
      IsChain-frame g shorter (λ a i. same_g a (still_apart a i)),
      longer,
      still_apart,
      λ a out_p out_q.
          let u = same_g a (ground (arith, middle a)) in
          let v = same_m a out_p in (u.0 ∙ v.0, u.1 ∙ v.1),
    )
  where
    middle : (a : ℕ) → has a (xs ++ node ∷ ys) ≡ (has a (xs ++ ys) || (a == node))
    middle a = ground (arith, has-append a xs (node ∷ ys), has-append a xs ys)

    apart_sym : (a : ℕ) → a ∈ q ∷ zs → a ∉ p ∷ (xs ++ node ∷ ys)
    apart_sym a i = elim (Bool-cases (has a (p ∷ (xs ++ node ∷ ys)))) [
      | inl k ↦ absurd (ground (arith, apart a k))
      | inr k ↦ k
    ]

    still_apart : (a : ℕ) → a ∈ p ∷ (xs ++ ys) → a ∉ q ∷ node ∷ zs
    still_apart a i =
        let d = Distinct-append_cons (p ∷ xs) ys node from.distinct in
        let ne = ne_of_mem a node (p ∷ (xs ++ ys)) i d.1 in ground (arith, middle a, apart a, ne)

-- `kmem_object_alloc_from_block` of a block with a free slot returns normally, with the address behind the header of the
-- first one. That slot goes to the front of the allocated ones, and nothing outside the block and its slots has changed.
pub alloc_from_block_lem :
    (s : Objects) (blk node : ℕ) (free allocated : List ℕ)
    → IsBlock s blk (node ∷ free) allocated
    → count_of allocated + 1 < 2 ^ 64
    → (s' : Objects) × (kmem_object_alloc_from_block s blk ≡ done (add64 node header_size, s'))
      × IsBlock s' blk free (node ∷ allocated)
      × SameElsewhere blk (free_slots blk ∷ (node ∷ free ++ allocated_slots blk ∷ allocated)) s s'
unfolding kmem_object_alloc_from_block set_block count_of
alloc_from_block_lem s blk node free allocated ok few =
    let (m, g, detached, inserted, free_chain, allocated_chain, apart, same) =
      move_node s.headers (free_slots blk) (allocated_slots blk) node [] free allocated
        ok.free_chain ok.allocated_chain ok.apart in
    let first = ok.free_chain.joined.0 in
    let nz = ok.free_chain.joined.2 in
    let not_null : (node == 0) ≡ false = ground arith in
    let b = s.block blk in
    let s' = set_block (record s { headers = g }) blk (record b { used = add64 b.used 1 }) in
    let at = write_self s.block blk (record b { used = add64 b.used 1 }) in
    (
      s',
      rw
          (
            kmem_object_alloc_from_block,
            first,
            not_null,
            header_detach-list_detach s.headers node ∙ detached,
            header_insert-list_insert m (allocated_slots blk) node ∙ inserted,
          )
          refl,
      record {
        free_chain = free_chain;
        allocated_chain = allocated_chain;
        apart = apart;
        used_count = ap (λ (r : Block). r.used) at ∙ omega (arith, ok.used_count);
        parent = λ a i. ok.parent a (ground arith);
      },
      record {
        pages_same = refl;
        parents_same = refl;
        managers_same = refl;
        blocks_same = λ c h. write_ne s.block blk c (record b { used = add64 b.used 1 }) h;
        next_same = ap (λ (r : Block). r.block_nxt) at;
        headers_same = λ a h.
            same a (ground (arith, has-append a (node ∷ free) (allocated_slots blk ∷ allocated)))
              (ground (arith, has-append a (node ∷ free) (allocated_slots blk ∷ allocated)));
      },
    )

-- `kmem_object_free` of the object of an allocated slot returns normally. The slot comes first among the free ones of its
-- block, the other slots stay what they were, and nothing outside the block and its slots has changed.
pub kmem_object_free_lem :
    (s : Objects) (blk node : ℕ) (free xs ys : List ℕ)
    → IsBlock s blk free (xs ++ node ∷ ys)
    → node < 2 ^ 64
    → count_of (xs ++ node ∷ ys) < 2 ^ 64
    → (s' : Objects) × (kmem_object_free s (add64 node header_size) ≡ done s')
      × IsBlock s' blk (node ∷ free) (xs ++ ys)
      × SameElsewhere blk (free_slots blk ∷ (free ++ allocated_slots blk ∷ (xs ++ node ∷ ys))) s s'
unfolding kmem_object_free set_block
kmem_object_free_lem s blk node free xs ys ok word few =
    let (m, g, detached, inserted, allocated_chain, free_chain, apart, same) =
      move_node s.headers (allocated_slots blk) (free_slots blk) node xs ys free ok.allocated_chain
        ok.free_chain (λ a i. apart_sym a i) in
    let header : sub64 (add64 node header_size) header_size ≡ node = omega arith in
    let b = s.block blk in
    let s' = set_block (record s { headers = g }) blk (record b { used = sub64 b.used 1 }) in
    let at = write_self s.block blk (record b { used = sub64 b.used 1 }) in
    let parent : s.parent_block node ≡ blk =
      ok.parent node (ground (arith, has-append node xs (node ∷ ys))) in
    (
      s',
      rw
          (
            kmem_object_free,
            header,
            header_detach-list_detach s.headers node ∙ detached,
            parent,
            header_insert-list_insert m (free_slots blk) node ∙ inserted,
          )
          refl,
      record {
        free_chain = free_chain;
        allocated_chain = allocated_chain;
        apart = λ a i. elim (Bool-cases (has a (allocated_slots blk ∷ (xs ++ ys)))) [
          | inl k ↦ absurd (ground (arith, apart a k))
          | inr k ↦ k
        ];
        used_count =
            ap (λ (r : Block). r.used) at
            ∙ omega (arith, ok.used_count, count_of-middle xs node ys);
        parent = λ a i. ok.parent a (elim (ℕ_discrete a node) [
          | yes e ↦ ground (arith, e, has-append a xs (node ∷ ys))
          | no ne ↦ ground (arith, ne, has-append a xs (node ∷ ys), has-append a xs ys)
        ]);
      },
      record {
        pages_same = refl;
        parents_same = refl;
        managers_same = refl;
        blocks_same = λ c h. write_ne s.block blk c (record b { used = sub64 b.used 1 }) h;
        next_same = ap (λ (r : Block). r.block_nxt) at;
        headers_same = λ a h.
            same a (ground (arith, has-append a free (allocated_slots blk ∷ (xs ++ node ∷ ys))))
              (ground (arith, has-append a free (allocated_slots blk ∷ (xs ++ node ∷ ys))));
      },
    )
  where
    apart_sym : (a : ℕ) → a ∈ allocated_slots blk ∷ (xs ++ node ∷ ys) → a ∉ free_slots blk ∷ free
    apart_sym a i = elim (Bool-cases (has a (free_slots blk ∷ free))) [
      | inl k ↦ absurd (ground (arith, ok.apart a k))
      | inr k ↦ k
    ]
