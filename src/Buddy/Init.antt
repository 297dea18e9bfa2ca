-- ===== src/Buddy/Init.antt =====
-- `kmem_page_manager_init`, from where the maps of the orders are blank: its loop sets up the lists.
use kalorona_kernel.Common.{
  ℕ, zero, suc, ◌+◌, ◌-◌, ◌/◌, ◌^◌, ◌<◌, ◌≡◌, ◌≢◌, refl, ◌∙◌, ap, ◌==◌, ltb, if◌then◌else◌, arith,
  done, List, [], ℕ_discrete,
}
use kalorona_kernel.Common.Word.{add64}
use kalorona_kernel.Bitmap.{BitMap, IsBytes, test_bit, test_and_clear_bit, test_and_set_bit}
use kalorona_kernel.Bitmap.Laws.{
  test_bit-lt, test_and_clear_bit-old, test_bit-clear, IsBytes-clear, test_bit-set, IsBytes-set,
}
use kalorona_kernel.Buddy.{Kmem, max_mem_order, page_vaddr, kmem_free_page, free_unreserved}
use kalorona_kernel.Buddy.Blocks.{page_at, cover}
use kalorona_kernel.Buddy.Lists.{IsPlaced}
use kalorona_kernel.Buddy.Moves.{Holds-extra}
use kalorona_kernel.Buddy.Split.{Buddies, page_number_lem, page_vaddr_lem}
use kalorona_kernel.Buddy.Give.{IsKmem, SameNode}
use kalorona_kernel.Buddy.Free.{in_hand}
use kalorona_kernel.Buddy.Coalesce.{coalesce_lem}
use kalorona_kernel.Buddy.Release.{aligned, free_run}

-- The pages that the loop has yet to free, `m` being the map at its start.
abbrev pending : BitMap → ℕ → ℕ → ℕ
pending m pn p = if ltb p pn then 0 else 1 - test_bit m p

abbrev SameBits : BitMap → BitMap → Type 0
SameBits m m' = (j : ℕ) → test_bit m' j ≡ test_bit m j

module _ (m : BitMap) {k : Kmem} {free : ℕ → List ℕ} (pn : ℕ) (h : Buddies (pending m pn) k free)
    (same : SameBits m k.mem_map) (lp : pn < k.num_ppn) where
  -- The page is marked and freed at once: its bit is as it was.
  free_one :
      test_bit m pn ≡ 0
      → (k' : Kmem) × (kmem_free_page
            (record k { mem_map = (test_and_set_bit k.mem_map pn).1 })
            (page_at k.begin_ppn pn)
          ≡ done k')
        × (free' : (ℕ → List ℕ)) × Buddies (pending m (pn + 1)) k' free'
        × SameBits m k'.mem_map
        × SameNode k k'
  free_one z =
      let m₁ = (test_and_set_bit k.mem_map pn).1 in
      let m₂ = (test_and_clear_bit m₁ pn).1 in
      let bytes₁ = IsBytes-set k.mem_map pn h.holds.bytes in
      let set = test_bit-set k.mem_map pn h.holds.bytes in
      let cleared = test_bit-clear m₁ pn bytes₁ in
      let same₂ : SameBits m m₂ =
        λ j. ground (arith, cleared j, set j, same j, ap (test_bit m) {x = j} {y = pn}) in
      let held : Buddies (in_hand (pending m (pn + 1)) 0 (pn / 2 ^ 0)) (record k { mem_map = m₂ })
          free =
        record {
          holds = record {
            placed = h.holds.placed;
            chained = h.holds.chained;
            inside = h.holds.inside;
            once = λ p lq.
                ground
                  (arith, h.holds.once p lq, same p, same₂ p, ap (test_bit m) {x = p} {y = pn});
            bytes = IsBytes-clear m₁ pn bytes₁;
          };
          paired = h.paired;
        } in
      let (g, ar, run, free', h') =
        coalesce_lem (pending m (pn + 1)) pn max_mem_order 0 held refl (omega arith) (omega arith)
          lp in
      (
        record k { mem_map = m₂; links = g; area_map = ar },
        free_run (record k { mem_map = m₁ }) (page_at k.begin_ppn pn) pn (aligned k.begin_ppn pn)
            (page_number_lem (record k { mem_map = m₁ }) pn (omega (arith, h.holds.placed.fits)))
            (test_and_clear_bit-old m₁ pn bytes₁ ∙ ground (arith, set pn)) run,
        free',
        h',
        same₂,
        record { same_begin = refl; same_num = refl; same_head = refl },
      )

  -- A page that the boot has reserved.
  skip_one : test_bit m pn ≢ 0 → Buddies (pending m (pn + 1)) k free
  skip_one nz = record {
    holds =
        Holds-extra k.begin_ppn k.num_ppn k.list_head h.holds (pending m (pn + 1))
          (λ p lq. ground (arith, test_bit-lt m pn, ap (test_bit m) {x = p} {y = pn}));
    paired = h.paired;
  }

-- What the loop leaves.
pub record Started (k k' : Kmem) : Type 0 where
  pub same_bits : SameBits k.mem_map k'.mem_map
  pub same_node : SameNode k k'
  pub valid : IsKmem k'

-- Before the loop: the lists are empty, and the maps of the orders are blank.
pub record IsBlank (k : Kmem) : Type 0 where
  pub placed : IsPlaced k.begin_ppn k.num_ppn k.list_head
  pub no_blocks : (o : ℕ) → o < 11 → (k.list_head o ≢ 0) × (k.links.nxt (k.list_head o) ≡ 0)
  pub area_bytes : (o : ℕ) → IsBytes (k.area_map o)
  pub no_pairs : (o i : ℕ) → test_bit (k.area_map o) i ≡ 0
  pub bytes : IsBytes k.mem_map

unreserved_run :
    (k : Kmem) (pn rounds : ℕ) {k' : Kmem}
    → add64 pn 1 ≡ pn + 1
    → (if test_bit k.mem_map pn == 0
        then kmem_free_page
            (record k { mem_map = (test_and_set_bit k.mem_map pn).1 })
            (page_vaddr k pn)
        else done k)
      ≡ done k'
    → free_unreserved k pn (suc rounds) ≡ free_unreserved k' (pn + 1) rounds
unfolding free_unreserved page_vaddr
unreserved_run k pn rounds next one = rw (one, next) refl

free_unreserved_from :
    (m : BitMap) (rounds pn : ℕ) {k : Kmem} {free : ℕ → List ℕ}
    → Buddies (pending m pn) k free
    → SameBits m k.mem_map
    → pn + rounds ≡ k.num_ppn
    → (k' : Kmem) × (free_unreserved k pn rounds ≡ done k')
      × SameBits m k'.mem_map
      × SameNode k k'
      × IsKmem k'
unfolding free_unreserved
free_unreserved_from m zero pn {k} {free} h same e = (
  k,
  refl,
  same,
  record { same_begin = refl; same_num = refl; same_head = refl },
  (
    free,
    record {
      holds = Holds-extra k.begin_ppn k.num_ppn k.list_head h.holds (λ _. 0) (λ p lp. ground arith);
      paired = h.paired;
    },
  ),
)
free_unreserved_from m (suc rounds) pn {k} {free} h same e =
    let lp : pn < k.num_ppn = omega arith in
    let small : k.begin_ppn + pn < 2 ^ 25 = omega (arith, h.holds.placed.fits) in
    let next : add64 pn 1 ≡ pn + 1 = omega (arith, small) in
    elim (ℕ_discrete (test_bit m pn) 0) [
      | yes z ↦
          let (k₁, run, free₁, h₁, same₁, node) = free_one m pn h same lp z in
          let (k₂, rest, same₂, node₂, valid) =
            free_unreserved_from m rounds (pn + 1) h₁ same₁ (omega (arith, node.same_num)) in
          (
            k₂,
            unreserved_run k pn rounds next
                  (rw (page_vaddr_lem k pn (omega (arith, small))) (ground (arith, same pn, run)))
                ∙ rest,
            same₂,
            record {
              same_begin = node₂.same_begin ∙ node.same_begin;
              same_num = node₂.same_num ∙ node.same_num;
              same_head = node₂.same_head ∙ node.same_head;
            },
            valid,
          )
      | no nz ↦
          let (k₂, rest, same₂, node₂, valid) =
            free_unreserved_from m rounds (pn + 1) (skip_one m pn h same lp nz) same
              (omega arith) in
          (
            k₂,
            unreserved_run k pn rounds next (ground (arith, same pn)) ∙ rest,
            same₂,
            node₂,
            valid,
          )
    ]

-- From empty lists and blank maps, the loop of `kmem_page_manager_init` over all pages of the node
-- never panics and leaves a valid state: each page that is not marked is in a free block. The page
-- map is as the boot left it, bit for bit.
pub free_unreserved_lem :
    (k : Kmem) → IsBlank k → (k' : Kmem) × (free_unreserved k 0 k.num_ppn ≡ done k') × Started k k'
free_unreserved_lem k b =
    let start : Buddies (pending k.mem_map 0) k (λ _. []) = record {
      holds = record {
        placed = b.placed;
        chained = λ o lo. record {
          head_ne_null = (b.no_blocks o lo).0;
          joined = tt;
          ends = (b.no_blocks o lo).1;
          distinct = (refl, tt);
        };
        inside = λ o c lo i. cc;
        once = λ p lp. ground (arith, test_bit-lt k.mem_map p, nothing p);
        bytes = b.bytes;
      };
      paired = record { area_bytes = b.area_bytes; pairs = λ o i. b.no_pairs o i };
    } in
    let (k', run, same, node, valid) =
      free_unreserved_from k.mem_map k.num_ppn 0 start (λ j. refl) (omega arith) in
    (k', run, record { same_bits = same; same_node = node; valid = valid })
  where
    nothing : (p : ℕ) → cover (λ _. []) 11 p ≡ 0
    nothing p = refl
