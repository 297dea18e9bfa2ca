-- ===== src/Object/Universal.antt =====
-- kernel/memory/kmem.c: `kmem_alloc` and `kmem_free` over the universal managers, and how `kmem_init` makes these.
mod Tests
use kalorona_kernel.Common.{
  ℕ, zero, suc, ◌==◌, leb, if◌then◌else◌, Option, none, some, List, [], ◌∷◌, write, Outcome, done,
  panicked, panic_if, ◌>>=◌, ◌>>◌,
}
use kalorona_kernel.LinkedList.{list_insert}
use kalorona_kernel.Object.{
  Objects, kmem_object_alloc, kmem_object_free, kmem_object_create_manager, kmem_object_init,
}

-- The loop over the managers, with fuel for it and for each one's blocks.
pub alloc_by_size : ℕ → ℕ → Objects → (size node : ℕ) → Option (Outcome (ℕ × Objects))
alloc_by_size zero blocks s size node = none
alloc_by_size (suc fuel) blocks s size node =
    let mgr = s.val node in
    let skipped = alloc_by_size fuel blocks s size (s.nodes.nxt node) in
    let tried : Option (Outcome (ℕ × Objects)) = elim (kmem_object_alloc blocks s mgr) [
      | none ↦ none
      | some panicked ↦ some panicked
      | some (done r) ↦
          let rest = alloc_by_size fuel blocks r.1 size (s.nodes.nxt node) in
          if r.0 == 0 then rest else some (done r)
    ] in
    if node == 0
    then some (done (0, s))
    else if leb size (s.manager mgr).object_size
    then tried
    else skipped

-- `uni_managers` is the address of the head.
pub kmem_alloc : ℕ → ℕ → Objects → (uni_managers size : ℕ) → Option (Outcome (ℕ × Objects))
kmem_alloc fuel blocks s uni_managers size =
    alloc_by_size fuel blocks s size (s.nodes.nxt uni_managers)

pub kmem_free : Objects → ℕ → Outcome Objects
kmem_free s vaddr = kmem_object_free s vaddr

-- `sizeof(struct list_node)`
abbrev pub list_node_size : ℕ
list_node_size = 24

-- `uni_manager_sizes` up to its end
abbrev pub uni_manager_sizes : List ℕ
uni_manager_sizes =
    131072 ∷ 65536 ∷ 32768 ∷ 16384 ∷ 8192 ∷ 4096 ∷ 2048 ∷ 1024 ∷ 512 ∷ 256 ∷ 128 ∷ 64 ∷ 32 ∷ []

-- One round of the loop of `kmem_init`: a list node, a manager, and the node comes first.
pub add_manager : ℕ → Objects → (root node_manager uni_managers size : ℕ) → Option (Outcome Objects)
add_manager fuel s root node_manager uni_managers size =
    elim (kmem_object_alloc fuel s node_manager) [
      | none ↦ none
      | some panicked ↦ some panicked
      | some (done r) ↦ elim (kmem_object_create_manager fuel r.1 root size) [
        | none ↦ none
        | some run ↦ some (
            run >>= λ q.
            panic_if (r.0 == 0)
            >> (list_insert q.1.nodes uni_managers r.0 >>= λ l.
                done (record q.1 { nodes = l; val = write q.1.val r.0 q.0 })))
      ]
    ]

pub add_managers :
    ℕ → Objects → (root node_manager uni_managers : ℕ) → List ℕ → Option (Outcome Objects)
add_managers fuel s root node_manager uni_managers [] = some (done s)
add_managers fuel s root node_manager uni_managers (size ∷ sizes) =
    elim (add_manager fuel s root node_manager uni_managers size) [
      | none ↦ none
      | some panicked ↦ some panicked
      | some (done s₁) ↦ add_managers fuel s₁ root node_manager uni_managers sizes
    ]

-- `kmem_init` behind `kmem_page_manager_init`
pub kmem_init : ℕ → Objects → (root uni_managers : ℕ) → Option (Outcome Objects)
kmem_init fuel s root uni_managers =
    elim (kmem_object_create_manager fuel (kmem_object_init s root) root list_node_size) [
      | none ↦ none
      | some panicked ↦ some panicked
      | some (done r) ↦ add_managers fuel r.1 root r.0 uni_managers uni_manager_sizes
    ]
