-- ===== src/Object/Tests.antt =====
-- A block with two slots, and blocks of fresh pages.
use kalorona_kernel.Common.{
  ℕ, ◌+◌, ◌*◌, ◌^◌, ◌≡◌, refl, true, arith, ◌⊎◌, some, none, List, [], ◌∷◌, ◌++◌, done, panicked,
  write,
}
use kalorona_kernel.Common.Word.{add64}
use kalorona_kernel.Common.Page.{pma_va2pa}
use kalorona_kernel.Bitmap.{test_and_set_bit}
use kalorona_kernel.LinkedList.{Links, list_detach}
use kalorona_kernel.Buddy.{kmem_alloc_pages}
use kalorona_kernel.Buddy.Blocks.{page_at}
use kalorona_kernel.Buddy.Give.{NoBlock, Given}
use kalorona_kernel.Buddy.Samples.{all_free, all_free-IsKmem}
use kalorona_kernel.Object.{
  Objects, Block, header_size, free_slots, allocated_slots, kmem_object_alloc_from_block,
  kmem_object_free, kmem_object_create_block, kmem_object_alloc, find_block, alloc_in_new_block,
  next_order, room, create_from, make_slots, init_block, binary_round_up, binary_round_down,
  set_block, set_manager, kmem_object_header_detach, kmem_object_header_insert,
}
use kalorona_kernel.Object.Slots.{
  count_of-one, count_of-none, IsBlock, SameElsewhere, kmem_object_free_lem,
}
use kalorona_kernel.Object.Managed.{BlockView, all_full}
use kalorona_kernel.Object.Manage.{IsManaged, IsObtained, kmem_object_alloc_lem}
use kalorona_kernel.Object.Alloc.{in_use}
use kalorona_kernel.Object.Free.{object_free-object_alloc}
use kalorona_kernel.Object.Create.{IsCreated, kmem_object_create_block_lem}

abbrev empty_block : Block
empty_block = record {
  block_nxt = 0;
  used = 0;
  total = 2;
  slot_size = 32;
  page_count = 1;
  parent_manager = 8;
}

abbrev state : Links → Block → Objects
state l b = record {
  pages = all_free;
  headers = l;
  parent_block = λ _. 0x1000;
  block = λ _. b;
  manager = λ _. record { object_size = 3000; blocks = 0; manager_nxt = 0 };
  nodes = record { prv = λ _. 0; nxt = λ _. 0 };
  val = λ _. 0;
}

-- The slots 0x1060 and 0x1098 of the block 0x1000 are free.
abbrev both_free : Objects
unfolding write
both_free =
    state
      (record {
        prv = write (write (λ _. 0) 0x1060 0x1000) 0x1098 0x1060;
        nxt = write (write (λ _. 0) 0x1000 0x1060) 0x1060 0x1098;
      })
      empty_block

both_free-IsBlock : IsBlock both_free 0x1000 (0x1060 ∷ 0x1098 ∷ []) []
unfolding write
both_free-IsBlock = record {
  free_chain = record {
    head_ne_null = omega arith;
    joined = (refl, refl, omega arith, (refl, refl, omega arith, tt));
    ends = refl;
    distinct = (refl, (refl, (refl, tt)));
  };
  allocated_chain = record {
    head_ne_null = omega arith;
    joined = tt;
    ends = refl;
    distinct = (refl, tt);
  };
  apart = λ a i. ground arith;
  used_count = count_of-none;
  parent = λ a i. refl;
}

-- The first slot is allocated.
abbrev one_used : Objects
unfolding write
one_used =
    state
      (record {
        prv = write (write (λ _. 0) 0x1060 0x1018) 0x1098 0x1000;
        nxt = write (write (λ _. 0) 0x1000 0x1098) 0x1018 0x1060;
      })
      (record empty_block { used = 1 })

one_used-IsBlock : IsBlock one_used 0x1000 (0x1098 ∷ []) (0x1060 ∷ [])
unfolding write
one_used-IsBlock = record {
  free_chain = record {
    head_ne_null = omega arith;
    joined = (refl, refl, omega arith, tt);
    ends = refl;
    distinct = (refl, (refl, tt));
  };
  allocated_chain = record {
    head_ne_null = omega arith;
    joined = (refl, refl, omega arith, tt);
    ends = refl;
    distinct = (refl, (refl, tt));
  };
  apart = λ a i. ground arith;
  used_count = count_of-one 0x1060;
  parent = λ a i. refl;
}

kmem_object_free_lem_example :
    (s' : Objects) × (kmem_object_free one_used (add64 0x1060 header_size) ≡ done s')
    × IsBlock s' 0x1000 (0x1060 ∷ 0x1098 ∷ []) []
    × SameElsewhere 0x1000
        (free_slots 0x1000 ∷ (0x1098 ∷ [] ++ allocated_slots 0x1000 ∷ (0x1060 ∷ [])))
        one_used
        s'
kmem_object_free_lem_example =
    kmem_object_free_lem one_used 0x1000 0x1060 (0x1098 ∷ []) [] [] one_used-IsBlock (omega arith)
      (omega (arith, count_of-one 0x1060))

-- Two pages of the four free ones, for objects of 100 bytes.
kmem_object_create_block_lem_example :
    ((kmem_object_create_block both_free 8 1 100 ≡ done (0, both_free)) × NoBlock all_free 1)
    ⊎ ((b : ℕ) × (s' : Objects) × (kmem_object_create_block both_free 8 1 100
          ≡ done (page_at 3 (b * 2 ^ 1), s'))
        × Given all_free 1 b s'.pages
        × IsCreated both_free 8 1 100 (page_at 3 (b * 2 ^ 1)) s')
unfolding both_free
kmem_object_create_block_lem_example =
    kmem_object_create_block_lem both_free 8 1 100 all_free-IsKmem (omega arith) (omega arith)

-- A manager for objects of 3000 bytes, without blocks, and pages that are all free.
no_blocks-IsManaged : IsManaged both_free 8 []
unfolding both_free
no_blocks-IsManaged = record {
  pages = all_free-IsKmem;
  aligned = refl;
  small = omega arith;
  linked = refl;
}

kmem_object_alloc_lem_example :
    ((kmem_object_alloc 1 both_free 8 ≡ some (done (0, both_free))) × (all_full [] ≡ true))
    ⊎ ((node : ℕ) × (s' : Objects) × (vs' : List BlockView) × (kmem_object_alloc 1 both_free 8
          ≡ some (done (add64 node header_size, s')))
        × IsObtained both_free 8 [] node s' vs')
kmem_object_alloc_lem_example =
    kmem_object_alloc_lem 1 both_free 8 [] no_blocks-IsManaged (omega arith)

abbrev obtained : ℕ × Objects
obtained = elim (kmem_object_alloc 1 both_free 8) [
  | some (done r) ↦ r
  | some panicked ↦ (0, both_free)
  | none ↦ (0, both_free)
]

-- The first slot of page 0 of the node.
obtained-found : kmem_object_alloc 1 both_free 8 ≡ some (done (page_at 3 0 + 120, obtained.1))
unfolding kmem_object_alloc find_block alloc_in_new_block next_order room create_from
    kmem_object_create_block make_slots init_block binary_round_up binary_round_down set_block
    set_manager kmem_object_alloc_from_block kmem_object_header_detach kmem_object_header_insert
    kmem_alloc_pages write both_free list_detach pma_va2pa test_and_set_bit
obtained-found = refl

object_free-object_alloc_example :
    (s'' : Objects) × (vs'' : List BlockView) × (kmem_object_free obtained.1 (page_at 3 0 + 120)
      ≡ done s'')
    × IsManaged s'' 8 vs''
    × ((a : ℕ) → in_use vs'' a ≡ in_use [] a)
object_free-object_alloc_example =
    object_free-object_alloc 1 both_free obtained.1 8 (page_at 3 0 + 120) [] no_blocks-IsManaged
      (omega arith) obtained-found (omega arith)
