-- ===== src/Buddy/Alloc.antt =====
-- `kmem_alloc_pages`: the search for a block, its splits, and the marks of its pages.
use kalorona_kernel.Common.{
  ℕ, zero, suc, ◌+◌, ◌*◌, ◌/◌, ◌^◌, ◌≤◌, ◌<◌, ◌≡◌, ◌≢◌, refl, ◌∙◌, ap, subst, Bool, true, ◌==◌,
  if◌then◌else◌, List, ◌∷◌, [], arith, write, ℕ_discrete, dec_le, dec_lt, done, ◌⊎◌, inl, inr, some,
  none,
}
use kalorona_kernel.Common.Word.{add64, sub64}
use kalorona_kernel.Bitmap.{BitMap, test_bit, toggle_bit}
use kalorona_kernel.Bootmem.{set_bits}
use kalorona_kernel.Bootmem.Bits.{set_bits-done, in_run, AllAre}
use kalorona_kernel.LinkedList.{Links, list_detach}
use kalorona_kernel.LinkedList.Chain.{has, ◌∈◌, IsChain}
use kalorona_kernel.Buddy.{
  Kmem, page_number, detach_node, toggle_area, find_order, split_block, register_block,
}
use kalorona_kernel.Buddy.Blocks.{page_at, nodes, cover-one, pow-pos}
use kalorona_kernel.Buddy.Split.{
  Buddies, take_block, split_once_lem, page_number_lem, pair_of, twice,
}
use native.Mathlib.Nat.{div-eq_of_lt-le, div-add-mod', mod-lt}

-- The pages of block `b`.
abbrev pub in_block : ℕ → ℕ → ℕ → Bool
in_block o b pn = pn / 2 ^ o == b

pub in_block-run : (o b pn : ℕ) → in_block o b pn ≡ in_run (b * 2 ^ o) (b * 2 ^ o + 2 ^ o) pn
in_block-run o b pn = elim (ℕ_discrete (pn / 2 ^ o) b) [
  | yes e ↦
      ground (arith, div-add-mod' pn (2 ^ o), mod-lt pn (pow-pos o), ap (λ (t : ℕ). t * 2 ^ o) e)
  | no ne ↦ elim (dec_le (b * 2 ^ o) pn) [
    | no lo ↦ ground arith
    | yes lo ↦ elim (dec_lt pn (b * 2 ^ o + 2 ^ o)) [
      | no hi ↦ ground arith
      | yes hi ↦ absurd (ne (div-eq_of_lt-le {k = b} (2 ^ o) {m = pn} lo (omega arith)))
    ]
  ]
]

pub find_order_lem :
    (k : Kmem) (left current : ℕ)
    → ((find_order k left current ≡ none)
        × ((q : ℕ) → current ≤ q → q < current + left → k.links.nxt (k.list_head q) ≡ 0))
      ⊎ ((c : ℕ) × (find_order k left current ≡ some c)
          × (current ≤ c)
          × (c < current + left)
          × (k.links.nxt (k.list_head c) ≢ 0))
unfolding find_order
find_order_lem k zero current = inl (refl, λ q lo hi. absurd (omega arith))
find_order_lem k (suc left) current = elim (ℕ_discrete (k.links.nxt (k.list_head current)) 0) [
  | no ne ↦ inr (current, ground arith, omega arith, omega arith, ne)
  | yes e ↦ elim (find_order_lem k left (current + 1)) [
    | inl (r, all) ↦ inl (
      ground arith,
      λ q lo hi. elim (ℕ_discrete q current) [
        | yes s ↦ ap (λ (q : ℕ). k.links.nxt (k.list_head q)) s ∙ e
        | no d ↦ all q (omega arith) (omega arith)
      ],
    )
    | inr (c, r, lo, hi, ne) ↦ inr (c, ground arith, omega arith, omega arith, ne)
  ]
]

-- The first node of a list that is not empty.
pub first_block :
    (l : Links) (head begin_ppn o : ℕ) (bs : List ℕ)
    → IsChain l head (nodes begin_ppn o bs)
    → l.nxt head ≢ 0
    → (b : ℕ) × (b ∈ bs) × (l.nxt head ≡ page_at begin_ppn (b * 2 ^ o))
first_block l head begin_ppn o [] c ne = absurd (ne c.ends)
first_block l head begin_ppn o (b ∷ bs) c ne = (b, ground arith, c.joined.0)

pub split_block_lem :
    (order rounds b : ℕ) {extra : ℕ → ℕ} {k : Kmem} {free : ℕ → List ℕ} (h : Buddies extra k free)
    → order + rounds < 11
    → b ∈ free (order + rounds)
    → (g : Links) × (ar : (ℕ → BitMap)) × (split_block k
          (page_at k.begin_ppn (b * 2 ^ (order + rounds)))
          order
          rounds
        ≡ done (record k { links = g; area_map = ar }))
      × (free' : (ℕ → List ℕ)) × Buddies extra (record k { links = g; area_map = ar }) free'
      × (c : ℕ) × (c ∈ free' order)
      × (b * 2 ^ (order + rounds) ≡ c * 2 ^ order)
unfolding split_block
split_block_lem order zero b {extra} {k} {free} h lo i =
    let e : order + 0 ≡ order = omega arith in
    (
      k.links,
      k.area_map,
      refl,
      free,
      h,
      b,
      subst (λ (o : ℕ). b ∈ free o) e i,
      ap (λ (o : ℕ). b * 2 ^ o) e,
    )
split_block_lem order (suc rounds) b {extra} {k} {free} h lo i =
    let e : order + suc rounds ≡ suc (order + rounds) = omega arith in
    let (g, ar, run, free₁, h₁, m) =
      split_once_lem h (order + rounds) b (omega arith) (subst (λ (o : ℕ). b ∈ free o) e i) in
    let (g', ar', run', free₂, h₂, c, ci, same) =
      split_block_lem order rounds (2 * b) h₁ (omega arith) m in
    (
      g',
      ar',
      rw (e, run, twice (order + rounds) b) run',
      free₂,
      h₂,
      c,
      ci,
      ap (λ (o : ℕ). b * 2 ^ o) e ∙ twice (order + rounds) b ∙ same,
    )

-- The bits after a block's pages are marked.
abbrev pub Marked : ℕ → ℕ → ℕ → BitMap → BitMap → Type 0
Marked v o b m m' = (pn : ℕ) → test_bit m' pn ≡ (if in_block o b pn then v else test_bit m pn)

register_run :
    (k : Kmem) (o b page : ℕ) {g : Links} {m : BitMap}
    → page_number k page ≡ b * 2 ^ o
    → sub64 (add64 (b * 2 ^ o) (2 ^ o)) (b * 2 ^ o) ≡ 2 ^ o
    → list_detach k.links page ≡ done g
    → set_bits (2 ^ o) (b * 2 ^ o) k.mem_map ≡ done m
    → register_block k page o
      ≡ done (record k {
        mem_map = m;
        links = g;
        area_map = write k.area_map o (toggle_bit (k.area_map o) (b / 2)).1;
      })
unfolding register_block detach_node toggle_area
register_run k o b page pn size detached marked = rw (detached, pn, size, pair_of o b, marked) refl

pub register_block_lem :
    (o b : ℕ) {k : Kmem} {free : ℕ → List ℕ}
    → Buddies (λ _. 0) k free
    → o < 11
    → b ∈ free o
    → (m : BitMap) × (g : Links) × (ar : (ℕ → BitMap)) × (register_block k
          (page_at k.begin_ppn (b * 2 ^ o))
          o
        ≡ done (record k { mem_map = m; links = g; area_map = ar }))
      × ((pn : ℕ) → in_block o b pn ≡ true → test_bit k.mem_map pn ≡ 0)
      × Marked 1 o b k.mem_map m
      × (free' : (ℕ → List ℕ)) × Buddies
          (λ _. 0)
          (record k { mem_map = m; links = g; area_map = ar })
          free'
register_block_lem o b {k} {free} h lo i =
    let ins = h.holds.inside o b lo i in
    let t = take_block h o b lo i in
    let (m, run, bytes, filled) =
      set_bits-done (2 ^ o) (b * 2 ^ o) k.mem_map h.holds.bytes
        (omega (arith, ins, h.holds.placed.fits)) (clear ins) in
    let marked : Marked 1 o b k.mem_map m = λ pn. filled pn ∙ ground (arith, in_block-run o b pn) in
    (
      m,
      t.links,
      write k.area_map o (toggle_bit (k.area_map o) (b / 2)).1,
      register_run k o b (page_at k.begin_ppn (b * 2 ^ o))
          (page_number_lem k (b * 2 ^ o) (omega (arith, ins, h.holds.placed.fits)))
          (omega (arith, ins, h.holds.placed.fits)) t.detached run,
      λ pn here.
          clear ins pn (ground (arith, in_block-run o b pn)) (ground (arith, in_block-run o b pn)),
      marked,
      write free o t.blocks,
      record {
        holds = record {
          placed = h.holds.placed;
          chained = t.taken.holds.chained;
          inside = t.taken.holds.inside;
          once = λ pn lp. ground (arith, t.taken.holds.once pn lp, marked pn);
          bytes = bytes;
        };
        paired = t.taken.paired;
      },
    )
  where
    clear : b * 2 ^ o + 2 ^ o ≤ k.num_ppn → AllAre 0 (b * 2 ^ o) (2 ^ o) k.mem_map
    clear ins pn p q = ground (
      arith,
      h.holds.once pn (omega arith),
      cover-one free 11 o pn lo,
      div-eq_of_lt-le {k = b} (2 ^ o) {m = pn} p (omega arith),
      ap (λ c. has c (free o)) {x = pn / 2 ^ o} {y = b},
      i,
    )
