-- ===== src/Buddy/Split.antt =====
-- The allocator's whole state, and `kmem_alloc_pages`'s loop that splits a block.
use kalorona_kernel.Common.{
  ℕ, suc, ◌+◌, ◌-◌, ◌*◌, ◌/◌, ◌^◌, ◌≤◌, ◌<◌, ◌≡◌, refl, ◌∙◌, ap, sym, subst, ◌==◌, ◌&&◌, not, List,
  ◌∷◌, arith, write, write_self, write-write, done,
}
use kalorona_kernel.Common.Bits.{pow-add}
use kalorona_kernel.Common.Word.{add64, shl64, shr}
use kalorona_kernel.Common.Page.{page_size, page_shift, pma_va2pa_lem, pma_pa2va_lem}
use kalorona_kernel.Bitmap.{BitMap, toggle_bit}
use kalorona_kernel.LinkedList.{Links, list_detach, list_insert}
use kalorona_kernel.LinkedList.Chain.{has, ◌∈◌, ◌∉◌}
use kalorona_kernel.Buddy.{
  Kmem, page_number, page_vaddr, insert_node, detach_node, toggle_area, split_once,
}
use kalorona_kernel.Buddy.Blocks.{page_at, count, pow-pos}
use kalorona_kernel.Buddy.Lists.{Holds}
use kalorona_kernel.Buddy.Moves.{detach_block, insert_block, block_free}
use kalorona_kernel.Buddy.Parity.{IsPaired, IsPaired-toggle, IsPaired-both}
use native.Mathlib.Nat.{mul-div_left, mul-div-mul_right, div-div-eq-div-mul, pow-suc}

pub record Buddies (extra : ℕ → ℕ) (k : Kmem) (free : ℕ → List ℕ) : Type 0 where
  pub holds : Holds k.begin_ppn k.num_ppn k.list_head extra k.mem_map k.links free
  pub paired : IsPaired k.area_map free

-- Two blocks of an order make one of the next.
pub half : (d pn : ℕ) → pn / 2 ^ suc d ≡ pn / 2 ^ d / 2
half d pn = ap (λ (t : ℕ). pn / t) (pow-suc 2 d) ∙ sym (div-div-eq-div-mul pn (2 ^ d) 2)

pub twice : (d b : ℕ) → b * 2 ^ suc d ≡ 2 * b * 2 ^ d
twice d b = omega (arith, ap (λ (t : ℕ). b * t) (pow-suc 2 d))

pub pair_of : (o b : ℕ) → shr (b * 2 ^ o) (o + 1) ≡ b / 2
pair_of o b =
    ap (λ (t : ℕ). b * 2 ^ o / t) {y = 2 * 2 ^ o} (omega (arith, pow-add o 1))
    ∙ mul-div-mul_right b 2 (pow-pos o)

module _ (k : Kmem) (pn : ℕ) (fits : k.begin_ppn + pn < 2 ^ 26) where
  pub page_number_lem : page_number k (page_at k.begin_ppn pn) ≡ pn
  unfolding page_number
  page_number_lem = omega (arith, pma_va2pa_lem (page_at k.begin_ppn pn))

  pub page_vaddr_lem : page_vaddr k pn ≡ page_at k.begin_ppn pn
  unfolding page_vaddr
  page_vaddr_lem =
      let e : shl64 (add64 pn k.begin_ppn) page_shift ≡ (k.begin_ppn + pn) * page_size =
        omega arith in
      rw e (omega (arith, pma_pa2va_lem ((k.begin_ppn + pn) * page_size)))

-- A round, from what its calls return.
split_once_run :
    (k : Kmem) (d b page : ℕ) {right : ℕ} {g₁ g₂ g₃ : Links}
    → page_number k page ≡ b * 2 ^ suc d
    → add64 page (shl64 (2 ^ d) page_shift) ≡ right
    → list_detach k.links page ≡ done g₁
    → list_insert g₁ (k.list_head d) page ≡ done g₂
    → list_insert g₂ (k.list_head d) right ≡ done g₃
    → split_once k page (suc d)
      ≡ done (record k {
        links = g₃;
        area_map = write k.area_map (suc d) (toggle_bit (k.area_map (suc d)) (b / 2)).1;
      })
unfolding split_once detach_node insert_node toggle_area
split_once_run k d b page pn right detached left_in right_in =
    let below : suc d - 1 ≡ d = omega arith in
    rw (detached, pn, pair_of (suc d) b, below, left_in, right, right_in) refl

-- Take a block off its list, with the toggle of its pair's bit.
pub record Taken (extra : ℕ → ℕ) (k : Kmem) (free : ℕ → List ℕ) (o b : ℕ) : Type 0 where
  pub links : Links
  pub blocks : List ℕ
  pub detached : list_detach k.links (page_at k.begin_ppn (b * 2 ^ o)) ≡ done links
  pub without : (x : ℕ) → has x blocks ≡ (has x (free o) && not (x == b))
  pub taken :
      Buddies
        (λ pn. extra pn + count (pn / 2 ^ o == b))
        (record k {
          links = links;
          area_map = write k.area_map o (toggle_bit (k.area_map o) (b / 2)).1;
        })
        (write free o blocks)

module _ {extra : ℕ → ℕ} {k : Kmem} {free : ℕ → List ℕ} (h : Buddies extra k free) where
  pub block_fits : (o b : ℕ) → o < 11 → b ∈ free o → b * 2 ^ o < k.num_ppn
  block_fits o b lo i = omega (arith, h.holds.inside o b lo i, pow-pos o)

  pub take_block : (o b : ℕ) → o < 11 → b ∈ free o → Taken extra k free o b
  take_block o b lo i =
      let (g, run, bs, without, holds) =
        detach_block k.begin_ppn k.num_ppn k.list_head h.holds o b lo i in
      record {
        links = g;
        blocks = bs;
        detached = run;
        without = without;
        taken = record {
          holds = holds;
          paired =
              IsPaired-toggle h.paired o b bs
                (λ x. ground (arith, without x, ap (λ c. has c (free o)) {x = x} {y = b}, i));
        };
      }

  module _ (d b : ℕ) (ld : suc d < 11) (i : b ∈ free (suc d)) where
    bound : b * 2 ^ suc d + 2 ^ suc d ≤ k.num_ppn
    bound = h.holds.inside (suc d) b ld i

    fits : k.begin_ppn + b * 2 ^ suc d + 2 ^ suc d ≤ 2 ^ 25
    fits = omega (arith, bound, h.holds.placed.fits)

    right_page :
        add64 (page_at k.begin_ppn (b * 2 ^ suc d)) (shl64 (2 ^ d) page_shift)
        ≡ page_at k.begin_ppn ((2 * b + 1) * 2 ^ d)
    right_page = omega (arith, fits, twice d b, pow-suc 2 d)

    -- A half of the block that was taken is not on the list of order `d`.
    absent :
        (t : Taken extra k free (suc d) b) (c : ℕ)
        → c / 2 ≡ b
        → c * 2 ^ d < k.num_ppn
        → c ∉ write free (suc d) t.blocks d
    absent t c e lp =
        block_free k.begin_ppn k.num_ppn k.list_head t.taken.holds d c (omega arith) lp
          (ground (arith, half d (c * 2 ^ d), mul-div_left c (pow-pos d)))

    -- One round on a free block of order `d + 1`: its halves are on the list of order `d`, and the
    -- page map is as it was.
    pub split_once_lem :
        (g : Links) × (ar : (ℕ → BitMap)) × (split_once k
            (page_at k.begin_ppn (b * 2 ^ suc d))
            (suc d)
          ≡ done (record k { links = g; area_map = ar }))
        × (free' : (ℕ → List ℕ)) × Buddies extra (record k { links = g; area_map = ar }) free'
        × (2 * b ∈ free' d)
    split_once_lem =
        let t = take_block (suc d) b ld i in
        let free₁ = write free (suc d) t.blocks in
        let free₂ = write free₁ d (2 * b ∷ free₁ d) in
        let (g₂, run₂, h₂) =
          insert_block k.begin_ppn k.num_ppn k.list_head t.taken.holds
            (λ pn. extra pn + count (pn / 2 ^ d == 2 * b + 1)) d (2 * b) (omega arith)
            (omega (arith, bound, twice d b, pow-suc 2 d)) (λ pn lp. ground (arith, half d pn)) in
        let (g₃, run₃, h₃) =
          insert_block k.begin_ppn k.num_ppn k.list_head h₂ extra d (2 * b + 1) (omega arith)
            (omega (arith, bound, twice d b, pow-suc 2 d)) (λ pn lp. refl) in
        let one_write : write free₂ d ((2 * b + 1) ∷ free₂ d)
            ≡ write free₁ d ((2 * b + 1) ∷ 2 * b ∷ free₁ d) =
          ap (λ c. write free₂ d ((2 * b + 1) ∷ c)) (write_self free₁ d (2 * b ∷ free₁ d))
          ∙ write-write free₁ d (2 * b ∷ free₁ d) ((2 * b + 1) ∷ 2 * b ∷ free₁ d) in
        (
          g₃,
          write k.area_map (suc d) (toggle_bit (k.area_map (suc d)) (b / 2)).1,
          split_once_run k d b (page_at k.begin_ppn (b * 2 ^ suc d))
              (page_number_lem k (b * 2 ^ suc d) (omega (arith, fits))) right_page t.detached
              (ap (λ (p : ℕ). list_insert t.links (k.list_head d) (page_at k.begin_ppn p))
                  (twice d b)
                ∙ run₂)
              run₃,
          write free₁ d ((2 * b + 1) ∷ 2 * b ∷ free₁ d),
          record {
            holds = subst (Holds k.begin_ppn k.num_ppn k.list_head extra k.mem_map g₃) one_write h₃;
            paired =
                IsPaired-both t.taken.paired d b
                  (absent t (2 * b) (omega arith)
                    (omega (arith, bound, twice d b, pow-pos d, pow-suc 2 d)))
                  (absent t (2 * b + 1) (omega arith)
                    (omega (arith, bound, twice d b, pow-pos d, pow-suc 2 d)));
          },
          rw (write_self free₁ d ((2 * b + 1) ∷ 2 * b ∷ free₁ d)) (ground arith),
        )
