-- ===== src/Object/Headers.antt =====
-- The lists of headers are lists like those of LinkedList.
use kalorona_kernel.Common.{ℕ, ◌≡◌, refl, Bool, true, false, not, ◌==◌, if◌then◌else◌}
use kalorona_kernel.LinkedList.{
  Links, set_prv, set_nxt, list_insert, list_detach, link_after, unlink,
}
use kalorona_kernel.Object.{kmem_object_header_detach, kmem_object_header_insert}

if-not {ℓ} : {A : Type ℓ} (c : Bool) (x y : A) → (if not c then x else y) ≡ (if c then y else x)
if-not true x y = refl
if-not false x y = refl

if-apply {ℓ κ} :
    {A : Type ℓ} {B : Type κ} (f : A → B) (c : Bool) (x y : A)
    → (if c then f x else f y) ≡ f (if c then x else y)
if-apply f true x y = refl
if-apply f false x y = refl

pub header_detach-list_detach :
    (l : Links) (node : ℕ) → kmem_object_header_detach l node ≡ list_detach l node
unfolding kmem_object_header_detach list_detach unlink
header_detach-list_detach l node =
    let l₁ = if l.prv node == 0 then l else set_nxt l (l.prv node) (l.nxt node) in
    rw
      (
        if-not (l.prv node == 0) (set_nxt l (l.prv node) (l.nxt node)) l,
        if-not (l₁.nxt node == 0) (set_prv l₁ (l₁.nxt node) (l₁.prv node)) l₁,
      )
      refl

pub header_insert-list_insert :
    (l : Links) (head node : ℕ) → kmem_object_header_insert l head node ≡ list_insert l head node
unfolding kmem_object_header_insert list_insert link_after
header_insert-list_insert l head node =
    let l₁ = set_prv l node head in
    let l₂ = set_nxt l₁ node (l₁.nxt head) in
    rw (if-not (l₂.nxt node == 0) (set_prv l₂ (l₂.nxt node) node) l₂) refl
