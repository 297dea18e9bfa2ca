-- ===== src/LinkedList/Insert.antt =====
-- kernel/utilities/algorithm/list.c: `list_insert` puts a node directly behind the head.
use kalorona_kernel.Common.{
  ℕ, ◌≡◌, ◌≢◌, List, [], ◌∷◌, arith, ◌==◌, ◌&&◌, not, ◌∙◌, done, panicked, if◌then◌else◌, ◌↔◌, ◌⊎◌,
}
use kalorona_kernel.LinkedList.{Links, link_after, list_insert}
use kalorona_kernel.LinkedList.Chain.{
  ◌∉◌, last_of, IsChain, Joined-frame, last_of-mem, ne_of_mem, SameOutside,
}

module _ (l : Links) (head node : ℕ) (ne : node ≢ head) where
  link_after-nxt :
      (a : ℕ)
      → (link_after l head node).nxt a
        ≡ (if a == head then node else if a == node then l.nxt head else l.nxt a)
  unfolding link_after
  link_after-nxt a = ground arith

  link_after-prv :
      (a : ℕ)
      → l.nxt head ≢ node
      → (link_after l head node).prv a
        ≡ (if a == node then head else if (a == l.nxt head) && not (a == 0) then node else l.prv a)
  unfolding link_after
  link_after-prv a h = ground arith

link_after-IsChain :
    {l : Links} {head : ℕ} (xs : List ℕ) (node : ℕ)
    → IsChain l head xs
    → node ≢ 0
    → node ∉ head ∷ xs
    → IsChain (link_after l head node) head (node ∷ xs)
link_after-IsChain {l} {head} [] node c nz out =
    let ne : node ≢ head = ground arith in
    let other : l.nxt head ≢ node = ground (arith, c.ends) in
    record {
      head_ne_null = c.head_ne_null;
      joined = (
        ground (arith, link_after-nxt l head node ne head),
        ground (arith, link_after-prv l head node ne node other),
        nz,
        tt,
      );
      ends = ground (arith, link_after-nxt l head node ne node, c.ends);
      distinct = ground arith;
    }
link_after-IsChain {l} {head} (x ∷ xs) node c nz out =
    let ne : node ≢ head = ground arith in
    let other : l.nxt head ≢ node = ground (arith, c.joined.0) in
    record {
      head_ne_null = c.head_ne_null;
      joined = (
        ground (arith, link_after-nxt l head node ne head),
        ground (arith, link_after-prv l head node ne node other),
        nz,
        (
          ground (arith, link_after-nxt l head node ne node, c.joined.0),
          ground (arith, link_after-prv l head node ne x other, c.joined.0, c.joined.2),
          c.joined.2,
          Joined-frame l (link_after l head node) x xs c.distinct.1
              (λ a i _. ground (arith, link_after-nxt l head node ne a, c.distinct.0))
              (λ a i.
                ground (arith, link_after-prv l head node ne a other, c.joined.0, c.distinct.1.0))
              c.joined.3,
        ),
      );
      ends =
          link_after-nxt l head node ne (last_of x xs)
          ∙ ground (
            arith,
            c.ends,
            ne_of_mem (last_of x xs) node (x ∷ xs) (last_of-mem x xs),
            ne_of_mem (last_of x xs) head (x ∷ xs) (last_of-mem x xs) c.distinct.0,
          );
      distinct = ground (arith, c.distinct);
    }

link_after-same :
    {l : Links} {head : ℕ} (xs : List ℕ) (node : ℕ)
    → IsChain l head xs
    → node ≢ 0
    → node ∉ head ∷ xs
    → SameOutside (head ∷ node ∷ xs) l (link_after l head node)
link_after-same {l} {head} [] node c nz out a o =
    let ne : node ≢ head = ground arith in
    let other : l.nxt head ≢ node = ground (arith, c.ends) in
    (
      ground (arith, link_after-nxt l head node ne a),
      ground (arith, link_after-prv l head node ne a other, c.ends),
    )
link_after-same {l} {head} (x ∷ xs) node c nz out a o =
    let ne : node ≢ head = ground arith in
    let other : l.nxt head ≢ node = ground (arith, c.joined.0) in
    (
      ground (arith, link_after-nxt l head node ne a),
      ground (arith, link_after-prv l head node ne a other, c.joined.0),
    )

-- `list_insert` of a new node returns normally. Then the node comes first in the chain, and no link
-- outside the chain is written.
pub list_insert_lem :
    {l : Links} {head : ℕ} (xs : List ℕ) (node : ℕ)
    → IsChain l head xs
    → node ≢ 0
    → node ∉ head ∷ xs
    → (g : Links) × (list_insert l head node ≡ done g)
      × IsChain g head (node ∷ xs)
      × SameOutside (head ∷ node ∷ xs) l g
unfolding list_insert
list_insert_lem {l} {head} xs node c nz out = (
  link_after l head node,
  ground (arith, c.head_ne_null),
  link_after-IsChain xs node c nz out,
  link_after-same xs node c nz out,
)

-- `list_insert` panics exactly at a NULL argument.
pub list_insert-panics :
    (l : Links) (head node : ℕ) → (list_insert l head node ≡ panicked) ↔ ((head ≡ 0) ⊎ (node ≡ 0))
unfolding list_insert
list_insert-panics l head node = ground arith
