-- ===== src/LinkedList/Tests.antt =====
-- The list routines on a list of two nodes.
use kalorona_kernel.Common.{ℕ, ◌≡◌, refl, arith, write, [], ◌∷◌, done, panicked, ◌↔◌, ◌⊎◌}
use kalorona_kernel.LinkedList.{Links, list_insert, list_detach}
use kalorona_kernel.LinkedList.Chain.{IsChain, SameOutside}
use kalorona_kernel.LinkedList.Insert.{list_insert_lem, list_insert-panics}
use kalorona_kernel.LinkedList.Detach.{list_detach_lem}

-- The head is at 10, and behind it stand 20 and 30.
abbrev two_nodes : Links
unfolding write
two_nodes = record {
  prv = write (write (λ _. 0) 20 10) 30 20;
  nxt = write (write (λ _. 0) 10 20) 20 30;
}

two_nodes-IsChain : IsChain two_nodes 10 (20 ∷ 30 ∷ [])
unfolding write
two_nodes-IsChain = record {
  head_ne_null = omega arith;
  joined = (refl, refl, omega arith, (refl, refl, omega arith, tt));
  ends = refl;
  distinct = (refl, (refl, (refl, tt)));
}

list_insert_lem_example :
    (g : Links) × (list_insert two_nodes 10 40 ≡ done g)
    × IsChain g 10 (40 ∷ 20 ∷ 30 ∷ [])
    × SameOutside (10 ∷ 40 ∷ 20 ∷ 30 ∷ []) two_nodes g
list_insert_lem_example = list_insert_lem (20 ∷ 30 ∷ []) 40 two_nodes-IsChain (omega arith) refl

list_insert-panics_example :
    (list_insert two_nodes 10 0 ≡ panicked) ↔ (◌≡◌ {A = ℕ} 10 0 ⊎ ◌≡◌ {A = ℕ} 0 0)
list_insert-panics_example = list_insert-panics two_nodes 10 0

list_detach_lem_example :
    (g : Links) × (list_detach two_nodes 20 ≡ done g)
    × IsChain g 10 (30 ∷ [])
    × ((g.nxt 20 ≡ 0) × (g.prv 20 ≡ 0))
    × SameOutside (10 ∷ 20 ∷ 30 ∷ []) two_nodes g
list_detach_lem_example = list_detach_lem [] 20 (30 ∷ []) two_nodes-IsChain
