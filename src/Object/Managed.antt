-- ===== src/Object/Managed.antt =====
-- The blocks of a manager, in the order of its list, and what a change inside one of them leaves as it was.
use kalorona_kernel.Common.{
  ℕ, ◌+◌, ◌*◌, ◌^◌, ◌≤◌, ◌<◌, ◌≡◌, ◌≢◌, ◌∙◌, ap, sym, subst, Bool, true, false, ◌||◌, ◌&&◌, ltb,
  leb, List, [], ◌∷◌, arith,
}
use kalorona_kernel.Bitmap.{test_bit}
use kalorona_kernel.LinkedList.Chain.{has, IsChain-frame}
use kalorona_kernel.Buddy.{Kmem}
use kalorona_kernel.Buddy.Blocks.{page_at}
use kalorona_kernel.Object.{Objects, Block, block_size, free_slots, allocated_slots}
use kalorona_kernel.Object.Slots.{count_of, IsBlock}

-- A block at `blk`, whose memory ends at `page_end`, with its two lists.
pub record BlockView : Type 0 where
  pub blk : ℕ
  pub page_end : ℕ
  pub free : List ℕ
  pub allocated : List ℕ

abbrev pub own : BlockView → ℕ → Bool
own v a = has a (free_slots v.blk ∷ v.free) || has a (allocated_slots v.blk ∷ v.allocated)

-- The block and its slots lie in whole pages of the node that are in use. The slots, of `unit` bytes each, stand one
-- after the other behind the struct of the block.
pub record IsPlacedIn (k : Kmem) (unit : ℕ) (v : BlockView) : Type 0 where
  pub first_page : ℕ
  pub page_count : ℕ
  pub some_page : 1 ≤ page_count
  pub blk_is : v.blk ≡ page_at k.begin_ppn first_page
  pub end_is : v.page_end ≡ page_at k.begin_ppn (first_page + page_count)
  pub marked : (pn : ℕ) → first_page ≤ pn → pn < first_page + page_count → test_bit k.mem_map pn ≡ 1
  pub inside : (a : ℕ) → own v a ≡ true → (v.blk ≤ a) × (a < v.page_end)
  pub spaced :
      (a : ℕ)
      → (has a v.free || has a v.allocated) ≡ true
      → (j : ℕ) × (a ≡ v.blk + block_size + j * unit) × (a + unit ≤ v.page_end)
  pub word : v.page_end < 2 ^ 64
  pub few : count_of v.free + count_of v.allocated < 2 ^ 64

-- No block of the list shares memory with that from `lo` to `hi`.
abbrev pub apart_from : ℕ → ℕ → List BlockView → Bool
apart_from lo hi [] = true
apart_from lo hi (v ∷ vs) = (leb v.page_end lo || leb hi v.blk) && apart_from lo hi vs

abbrev pub blocks_of : List BlockView → ℕ
blocks_of [] = 0
blocks_of (v ∷ vs) = blocks_of vs + 1

abbrev pub is_nil : List ℕ → Bool
is_nil [] = true
is_nil (x ∷ xs) = false

-- No block of the list has a free slot.
abbrev pub all_full : List BlockView → Bool
all_full [] = true
all_full (v ∷ vs) = is_nil v.free && all_full vs

-- The blocks from the address `at` on, along `nxt`.
abbrev pub Linked : Objects → ℕ → ℕ → List BlockView → Type 0
Linked s unit at [] = at ≡ 0
Linked s unit at (v ∷ vs) =
    (at ≡ v.blk)
    × IsBlock s v.blk v.free v.allocated
    × IsPlacedIn s.pages unit v
    × (apart_from v.blk v.page_end vs ≡ true)
    × Linked s unit (s.block v.blk).block_nxt vs

-- A change that spares what is outside the memory from `lo` to `hi`. Pages in use stay so.
pub record IsFrame (lo hi : ℕ) (s s' : Objects) : Type 0 where
  pub headers_kept :
      (a : ℕ)
      → (ltb a lo || leb hi a) ≡ true
      → (s'.headers.nxt a ≡ s.headers.nxt a)
        × (s'.headers.prv a ≡ s.headers.prv a)
        × (s'.parent_block a ≡ s.parent_block a)
  pub blocks_kept : (b : ℕ) → b ≢ lo → s'.block b ≡ s.block b
  pub same_begin : s'.pages.begin_ppn ≡ s.pages.begin_ppn
  pub still_marked : (pn : ℕ) → test_bit s.pages.mem_map pn ≡ 1 → test_bit s'.pages.mem_map pn ≡ 1

pub IsPlacedIn-frame :
    {lo hi : ℕ} {s s' : Objects} {unit : ℕ} {v : BlockView}
    → IsFrame lo hi s s'
    → IsPlacedIn s.pages unit v
    → IsPlacedIn s'.pages unit v
IsPlacedIn-frame {v} frame p = record {
  first_page = p.first_page;
  page_count = p.page_count;
  some_page = p.some_page;
  blk_is = p.blk_is ∙ ap (λ (n : ℕ). page_at n p.first_page) (sym frame.same_begin);
  end_is =
      p.end_is ∙ ap (λ (n : ℕ). page_at n (p.first_page + p.page_count)) (sym frame.same_begin);
  marked = λ pn h l. frame.still_marked pn (p.marked pn h l);
  inside = p.inside;
  spaced = p.spaced;
  word = p.word;
  few = p.few;
}

module _ {lo hi : ℕ} {s s' : Objects} (frame : IsFrame lo hi s s') (span : lo < hi) where
  pub IsBlock-frame :
      {unit : ℕ} (v : BlockView)
      → IsBlock s v.blk v.free v.allocated
      → IsPlacedIn s.pages unit v
      → (leb v.page_end lo || leb hi v.blk) ≡ true
      → IsBlock s' v.blk v.free v.allocated
  IsBlock-frame v ok p far =
      let spared : (a : ℕ) → own v a ≡ true → (ltb a lo || leb hi a) ≡ true =
        λ a i. ground (arith, p.inside a i) in
      let own_blk : own v v.blk ≡ true = ground arith in
      record {
        free_chain =
            IsChain-frame s'.headers ok.free_chain
              (λ a i. let u = frame.headers_kept a (spared a (ground arith)) in (u.0, u.1));
        allocated_chain =
            IsChain-frame s'.headers ok.allocated_chain
              (λ a i. let u = frame.headers_kept a (spared a (ground arith)) in (u.0, u.1));
        apart = ok.apart;
        used_count =
            ap (λ (b : Block). b.used)
              (frame.blocks_kept v.blk (λ e. ground (arith, p.inside v.blk own_blk)))
            ∙ ok.used_count;
        parent = λ a i. (frame.headers_kept a (spared a (ground arith))).2 ∙ ok.parent a i;
      }

  pub Linked-frame :
      (unit at : ℕ) (vs : List BlockView)
      → apart_from lo hi vs ≡ true
      → Linked s unit at vs
      → Linked s' unit at vs
  Linked-frame unit at [] far l = l
  Linked-frame unit at (v ∷ vs) far (at_is, ok, p, apart, rest) =
      let own_blk : own v v.blk ≡ true = ground arith in
      let next : s'.block v.blk ≡ s.block v.blk =
        frame.blocks_kept v.blk (λ e. ground (arith, p.inside v.blk own_blk)) in
      (
        at_is,
        IsBlock-frame v ok p (ground arith),
        IsPlacedIn-frame frame p,
        apart,
        subst (λ (b : Block). Linked s' unit b.block_nxt vs) (sym next)
            (Linked-frame unit (s.block v.blk).block_nxt vs (ground arith) rest),
      )
