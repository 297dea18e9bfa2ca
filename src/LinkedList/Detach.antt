-- ===== src/LinkedList/Detach.antt =====
-- kernel/utilities/algorithm/list.c: `list_detach` takes a node out of the chain that it stands in.
use kalorona_kernel.Common.{
  ℕ, ◌≡◌, ◌≢◌, false, ◌&&◌, not, List, [], ◌∷◌, ◌++◌, arith, ◌==◌, sym, subst, ◌∙◌, done,
  if◌then◌else◌, Bool-cases,
}
use kalorona_kernel.LinkedList.{Links, unlink, list_detach}
use kalorona_kernel.LinkedList.Chain.{
  has, ◌∉◌, Distinct, last_of, Joined, IsChain, Joined-frame, last_of-mem, ne_of_mem, SameOutside,
  has-append, last_of-append, Distinct-append_cons, Joined-append, Distinct_apart,
  last_of-append_ne, append-Joined, null-not-mem, Distinct-front, Distinct-back,
}

module _ (l : Links) (node : ℕ) (pn : l.prv node ≢ 0) (p≢ : l.prv node ≢ node)
    (n≢ : l.nxt node ≢ node) where
  unlink-nxt :
      (a : ℕ)
      → (unlink l node).nxt a
        ≡ (if a == node then 0 else if a == l.prv node then l.nxt node else l.nxt a)
  unfolding unlink
  unlink-nxt a = ground arith

  unlink-prv :
      (a : ℕ)
      → (unlink l node).prv a ≡ (
          if a == node
          then 0
          else if (a == l.nxt node) && not (a == 0)
          then l.prv node
          else l.prv a)
  unfolding unlink
  unlink-prv a = ground arith

-- What the chain says of a node in the middle of it.
record Middle (l : Links) (head : ℕ) (xs : List ℕ) (node : ℕ) (ys : List ℕ) : Type 0 where
  before : Joined l head xs
  prv_eq : l.prv node ≡ last_of head xs
  nxt_eq : l.nxt (last_of head xs) ≡ node
  node_ne : node ≢ 0
  behind : Joined l node ys
  ends : l.nxt (last_of node ys) ≡ 0
  out : node ∉ head ∷ (xs ++ ys)
  rest : Distinct (head ∷ (xs ++ ys))

Middle-of_chain :
    {l : Links} {head : ℕ} (xs : List ℕ) (node : ℕ) (ys : List ℕ)
    → IsChain l head (xs ++ node ∷ ys)
    → Middle l head xs node ys
Middle-of_chain {l} {head} xs node ys c =
    let j = Joined-append l head xs (node ∷ ys) c.joined in
    let d = Distinct-append_cons (head ∷ xs) ys node c.distinct in
    record {
      before = j.0;
      prv_eq = j.1.1;
      nxt_eq = j.1.0;
      node_ne = j.1.2;
      behind = j.1.3;
      ends = rw (← last_of-append head node xs ys) c.ends;
      out = d.1;
      rest = d.0;
    }

next_out :
    {l : Links} {head : ℕ} (xs : List ℕ) (node : ℕ) (ys : List ℕ)
    → head ≢ 0
    → Middle l head xs node ys
    → (l.nxt node ∉ head ∷ xs) × (l.nxt node ≢ node)
next_out {l} {head} xs node [] hz m = (
  subst (λ a. has a (head ∷ xs) ≡ false) (sym m.ends) (null-not-mem l head xs hz m.before),
  ground (arith, m.ends, m.node_ne),
)
next_out {l} {head} xs node (y ∷ ys) hz m = (
  ground (
    arith,
    m.behind.0,
    m.rest.0,
    has-append head xs (y ∷ ys),
    Distinct_apart y xs (y ∷ ys) m.rest.1,
    Bool-cases (has y xs),
  ),
  ground (arith, m.behind.0, m.out, has-append node xs (y ∷ ys)),
)

-- The node is outside both halves, and so is the last one before it outside the second.
module _ {l : Links} {head : ℕ} (xs : List ℕ) (node : ℕ) (ys : List ℕ) (hz : head ≢ 0)
    (m : Middle l head xs node ys) where
  node_out : (node ≢ head) × (node ∉ xs) × (node ∉ ys)
  node_out = ground (arith, m.out, has-append node xs ys)

  last_ne : last_of head xs ≢ node
  last_ne =
      ne_of_mem (last_of head xs) node (head ∷ xs) (last_of-mem head xs) (ground (arith, node_out))

  last_out : last_of head xs ∉ ys
  last_out = Distinct_apart (last_of head xs) (head ∷ xs) ys m.rest (last_of-mem head xs)

  last_ne_null : last_of head xs ≢ 0
  last_ne_null =
      ne_of_mem (last_of head xs) 0 (head ∷ xs) (last_of-mem head xs)
        (null-not-mem l head xs hz m.before)

  new_nxt :
      (a : ℕ)
      → (unlink l node).nxt a
        ≡ (if a == node then 0 else if a == last_of head xs then l.nxt node else l.nxt a)
  new_nxt a = rw (← m.prv_eq) (
      unlink-nxt l node (rw m.prv_eq last_ne_null) (rw m.prv_eq last_ne)
        (next_out xs node ys hz m).1 a)

  new_prv :
      (a : ℕ)
      → (unlink l node).prv a ≡ (
          if a == node
          then 0
          else if (a == l.nxt node) && not (a == 0)
          then last_of head xs
          else l.prv a)
  new_prv a = rw (← m.prv_eq) (
      unlink-prv l node (rw m.prv_eq last_ne_null) (rw m.prv_eq last_ne)
        (next_out xs node ys hz m).1 a)

  front : Joined (unlink l node) head xs
  front =
      Joined-frame l (unlink l node) head xs front_distinct
        (λ a i n. new_nxt a ∙ ground (arith, node_out, ne_of_mem a node (head ∷ xs) i))
        (λ a i.
          new_prv a
          ∙ ground (
            arith,
            node_out,
            ne_of_mem a node xs i,
            (next_out xs node ys hz m).0,
            ne_of_mem a (l.nxt node) xs i,
          ))
        m.before
    where
      front_distinct : Distinct (head ∷ xs)
      front_distinct = Distinct-front (head ∷ xs) ys m.rest

behind_lem :
    {l : Links} {head : ℕ} (xs : List ℕ) (node : ℕ) (ys : List ℕ)
    → head ≢ 0
    → Middle l head xs node ys
    → Joined (unlink l node) (last_of head xs) ys
      × ((unlink l node).nxt (last_of (last_of head xs) ys) ≡ 0)
behind_lem {l} {head} xs node [] hz m = (
  tt,
  new_nxt xs node [] hz m (last_of head xs) ∙ ground (arith, last_ne xs node [] hz m, m.ends),
)
behind_lem {l} {head} xs node (y ∷ ys) hz m =
    let apart = node_out xs node (y ∷ ys) hz m in
    let p_out = last_out xs node (y ∷ ys) hz m in
    let d = Distinct-back (head ∷ xs) (y ∷ ys) m.rest in
    (
      (
        new_nxt xs node (y ∷ ys) hz m (last_of head xs)
            ∙ ground (arith, last_ne xs node (y ∷ ys) hz m, m.behind.0),
        new_prv xs node (y ∷ ys) hz m y ∙ ground (arith, apart, m.behind.0, m.behind.2),
        m.behind.2,
        Joined-frame l (unlink l node) y ys d
            (λ a i _.
              new_nxt xs node (y ∷ ys) hz m a
              ∙ ground (
                arith,
                ne_of_mem a node (y ∷ ys) i apart.2,
                ne_of_mem a (last_of head xs) (y ∷ ys) i p_out,
              ))
            (λ a i.
              new_prv xs node (y ∷ ys) hz m a
              ∙ ground (arith, ne_of_mem a node ys i, apart.2, ne_of_mem a y ys i d.0, m.behind.0))
            m.behind.3,
      ),
      new_nxt xs node (y ∷ ys) hz m (last_of y ys)
          ∙ ground (
            arith,
            ne_of_mem (last_of y ys) node (y ∷ ys) (last_of-mem y ys) apart.2,
            ne_of_mem (last_of y ys) (last_of head xs) (y ∷ ys) (last_of-mem y ys) p_out,
            m.ends,
          ),
    )

-- `list_detach` of a node in the chain returns normally. Then the chain is without it, the node's
-- own links are NULL, and no link outside the chain is written.
pub list_detach_lem :
    {l : Links} {head : ℕ} (xs : List ℕ) (node : ℕ) (ys : List ℕ)
    → IsChain l head (xs ++ node ∷ ys)
    → (g : Links) × (list_detach l node ≡ done g)
      × IsChain g head (xs ++ ys)
      × ((g.nxt node ≡ 0) × (g.prv node ≡ 0))
      × SameOutside (head ∷ (xs ++ node ∷ ys)) l g
unfolding list_detach
list_detach_lem {l} {head} xs node ys c =
    let m = Middle-of_chain xs node ys c in
    let hz = c.head_ne_null in
    let b = behind_lem xs node ys hz m in
    (
      unlink l node,
      ground (arith, m.node_ne),
      record {
        head_ne_null = hz;
        joined = append-Joined (unlink l node) head xs ys (front xs node ys hz m) b.0;
        ends = rw (last_of-append_ne head xs ys) b.1;
        distinct = m.rest;
      },
      (new_nxt xs node ys hz m node ∙ ground arith, new_prv xs node ys hz m node ∙ ground arith),
      λ a o. (
        new_nxt xs node ys hz m a
            ∙ ground (
              arith,
              has-append a xs (node ∷ ys),
              ne_of_mem (last_of head xs) a (head ∷ xs) (last_of-mem head xs),
            ),
        new_prv xs node ys hz m a ∙ ground (arith, has-append a xs (node ∷ ys), next_mem ys m a),
      ),
    )
  where
    next_mem : (zs : List ℕ) → Middle l head xs node zs → (a : ℕ) → a ∉ zs → a ≢ 0 → a ≢ l.nxt node
    next_mem [] m a o nz = ground (arith, m.ends)
    next_mem (z ∷ zs) m a o nz = ground (arith, m.behind.0)
