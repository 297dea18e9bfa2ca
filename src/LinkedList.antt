-- ===== src/LinkedList.antt =====
-- kernel/utilities/algorithm/list.c: the doubly linked list whose nodes lie in the objects that they
-- link. The memory is two functions of the node's address; `val` is never touched. NULL is 0.
pub mod Chain
pub mod Insert
pub mod Detach
mod Tests
use kalorona_kernel.Common.{ℕ, ◌==◌, ◌||◌, if◌then◌else◌, write, Outcome, done, panicked}

-- The fields `prv` and `nxt` of every `struct list_node`.
pub record Links : Type 0 where
  pub prv : ℕ → ℕ
  pub nxt : ℕ → ℕ

-- `a->prv = v` and `a->nxt = v`
abbrev pub set_prv : Links → ℕ → ℕ → Links
set_prv l a v = record l { prv = write l.prv a v }

abbrev pub set_nxt : Links → ℕ → ℕ → Links
set_nxt l a v = record l { nxt = write l.nxt a v }

unfoldable pub link_after : Links → ℕ → ℕ → Links
unfolding write
link_after l head node =
    let l₁ = set_prv l node head in
    let l₂ = set_nxt l₁ node (l₁.nxt head) in
    let l₃ = if l₂.nxt node == 0 then l₂ else set_prv l₂ (l₂.nxt node) node in set_nxt l₃ head node

unfoldable pub list_insert : Links → ℕ → ℕ → Outcome Links
unfolding link_after
list_insert l head node = if head == 0 || node == 0 then panicked else done (link_after l head node)

unfoldable pub unlink : Links → ℕ → Links
unfolding write
unlink l node =
    let l₁ = if l.prv node == 0 then l else set_nxt l (l.prv node) (l.nxt node) in
    let l₂ = if l₁.nxt node == 0 then l₁ else set_prv l₁ (l₁.nxt node) (l₁.prv node) in
    set_prv (set_nxt l₂ node 0) node 0

unfoldable pub list_detach : Links → ℕ → Outcome Links
unfolding unlink
list_detach l node = if node == 0 then panicked else done (unlink l node)
