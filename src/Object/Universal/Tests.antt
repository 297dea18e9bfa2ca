-- ===== src/Object/Universal/Tests.antt =====
-- `kmem_init` on a node of four free pages, and what it makes.
use kalorona_kernel.Common.{
  ℕ, zero, suc, ◌≡◌, refl, ◌==◌, if◌then◌else◌, none, some, List, [], ◌∷◌, done, panicked, write,
}
use kalorona_kernel.Common.Page.{pma_va2pa}
use kalorona_kernel.Bitmap.{test_and_set_bit}
use kalorona_kernel.LinkedList.{list_insert, list_detach, link_after}
use kalorona_kernel.Buddy.{kmem_alloc_pages}
use kalorona_kernel.Buddy.Samples.{all_free}
use kalorona_kernel.Object.{
  Objects, kmem_object_create_block, kmem_object_alloc, find_block, alloc_in_new_block, next_order,
  room, create_from, make_slots, init_block, binary_round_up, binary_round_down, set_block,
  set_manager, kmem_object_header_detach, kmem_object_header_insert, kmem_object_alloc_from_block,
  kmem_object_init, kmem_object_create_manager,
}
use kalorona_kernel.Object.Universal.{kmem_init, add_managers, add_manager}

abbrev start : Objects
start = record {
  pages = all_free;
  headers = record { prv = λ _. 0; nxt = λ _. 0 };
  parent_block = λ _. 0;
  block = λ _. record {
    block_nxt = 0;
    used = 0;
    total = 0;
    slot_size = 0;
    page_count = 0;
    parent_manager = 0;
  };
  manager = λ _. record { object_size = 0; blocks = 0; manager_nxt = 0 };
  nodes = record { prv = λ _. 0; nxt = λ _. 0 };
  val = λ _. 0;
}

-- The sizes of the managers along the list.
abbrev sizes_from : ℕ → Objects → ℕ → List ℕ
sizes_from zero s node = []
sizes_from (suc fuel) s node =
    let rest = sizes_from fuel s (s.nodes.nxt node) in
    if node == 0 then [] else (s.manager (s.val node)).object_size ∷ rest

abbrev sizes_after : List ℕ
sizes_after = elim (kmem_init 2 start 8 16) [
  | some (done s) ↦ sizes_from 20 s (s.nodes.nxt 16)
  | some panicked ↦ []
  | none ↦ []
]

sizes_after-found :
    sizes_after
    ≡ 32 ∷ 64 ∷ 128 ∷ 256 ∷ 512 ∷ 1024 ∷ 2048 ∷ 4096 ∷ 8192 ∷ 16384 ∷ 32768 ∷ 65536 ∷ 131072 ∷ []
unfolding kmem_init add_managers add_manager kmem_object_init kmem_object_create_manager
    kmem_object_alloc find_block alloc_in_new_block next_order room create_from
    kmem_object_create_block make_slots init_block binary_round_up binary_round_down set_block
    set_manager kmem_object_alloc_from_block kmem_object_header_detach kmem_object_header_insert
    kmem_alloc_pages write list_detach list_insert link_after pma_va2pa test_and_set_bit
sizes_after-found = refl
