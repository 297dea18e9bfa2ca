-- ===== src/Buddy/Free.antt =====
-- `kmem_free_page`: one round of the loop that joins a page that is freed with its free buddies.
use kalorona_kernel.Common.{
  ℕ, suc, ◌+◌, ◌-◌, ◌*◌, ◌/◌, ◌^◌, ◌≤◌, ◌<◌, ◌≡◌, ◌≢◌, refl, ◌∙◌, ap, true, false, ◌==◌, ◌&&◌, not,
  List, arith, write, Outcome, done, bit_and,
}
use kalorona_kernel.Common.Bits.{bit_and_high_mask, other_of, bit_xor_buddy}
use kalorona_kernel.Common.Word.{sub64, not64}
use kalorona_kernel.Bitmap.{toggle_bit}
use kalorona_kernel.Bitmap.Laws.{toggle_bit-new}
use kalorona_kernel.LinkedList.{Links, list_detach, list_insert}
use kalorona_kernel.LinkedList.Chain.{has, ◌∉◌}
use kalorona_kernel.Buddy.{Kmem, page_vaddr, detach_node, insert_node, toggle_area, coalesce}
use kalorona_kernel.Buddy.Blocks.{count, pow-pos}
use kalorona_kernel.Buddy.Moves.{block_free}
use kalorona_kernel.Buddy.Split.{Buddies, pair_of}
use native.Mathlib.Nat.{mul-div_left, pow-le-pow_right}

-- What a round of the loop computes from the page number.
module _ (pn dep : ℕ) (small : pn < 2 ^ 25) (ld : dep < 11) where
  pub rounded : bit_and pn (not64 (sub64 (2 ^ dep) 1)) ≡ pn / 2 ^ dep * 2 ^ dep
  rounded =
      let e : 64 - dep + dep ≡ 64 = omega arith in
      let pow : 2 ^ (64 - dep + dep) ≡ 2 ^ 64 = ap (λ (n : ℕ). 2 ^ n) e in
      let fits : 2 ^ dep ≤ 1024 =
        pow-le-pow_right {n = 2} (omega arith) {i = dep} {j = 10} (omega arith) in
      let mask : not64 (sub64 (2 ^ dep) 1) ≡ 2 ^ (64 - dep + dep) - 2 ^ dep =
        omega (arith, pow, pow-pos dep) in
      ap (bit_and pn) mask ∙ bit_and_high_mask (64 - dep) dep pn (omega (arith, pow))

-- What the lists look like when a block of order `dep` is in hand.
abbrev pub in_hand : (ℕ → ℕ) → ℕ → ℕ → ℕ → ℕ
in_hand base dep c pn = base pn + count (pn / 2 ^ dep == c)

module _ (base : ℕ → ℕ) {k : Kmem} {free : ℕ → List ℕ} (dep c : ℕ)
    (h : Buddies (in_hand base dep c) k free) (ld : dep < 11)
    (ins : c * 2 ^ dep + 2 ^ dep ≤ k.num_ppn) where
  pub off_list : c ∉ free dep
  off_list =
      block_free k.begin_ppn k.num_ppn k.list_head h.holds dep c ld (omega (arith, pow-pos dep))
        (ground (arith, mul-div_left c (pow-pos dep)))

  -- The toggle returns 0 exactly if the buddy is on the list.
  pub toggled : (toggle_bit (k.area_map dep) (c / 2)).0 ≡ count (not (has (other_of c) (free dep)))
  toggled = ground (
    arith,
    toggle_bit-new (k.area_map dep) (c / 2) (h.paired.area_bytes dep),
    h.paired.pairs dep (c / 2),
    off_list,
    ap (λ x. has x (free dep)) {x = c} {y = 2 * (c / 2)},
    ap (λ x. has x (free dep)) {x = c} {y = 2 * (c / 2) + 1},
    ap (λ x. has x (free dep)) {x = other_of c} {y = 2 * (c / 2)},
    ap (λ x. has x (free dep)) {x = other_of c} {y = 2 * (c / 2) + 1},
  )

-- A round that finds the buddy on the list, and one that does not.
module _ (k : Kmem) (pn rounds dep c : ℕ)
    (current : bit_and pn (not64 (sub64 (2 ^ dep) 1)) ≡ c * 2 ^ dep) where
  pub merge_run :
      {g : Links} {o : Outcome Kmem} (buddy : ℕ)
      → (toggle_bit (k.area_map dep) (c / 2)).0 ≡ 0
      → dep ≢ 10
      → page_vaddr k (other_of c * 2 ^ dep) ≡ buddy
      → list_detach k.links buddy ≡ done g
      → coalesce
          (record k {
            links = g;
            area_map = write k.area_map dep (toggle_bit (k.area_map dep) (c / 2)).1;
          })
          pn
          rounds
          (dep + 1)
        ≡ o
      → coalesce k pn (suc rounds) dep ≡ o
  unfolding coalesce detach_node toggle_area page_vaddr
  merge_run buddy bit more addr detached rest =
      let flag : ((toggle_bit (k.area_map dep) (c / 2)).0 == 0) && not (dep == 10) ≡ true =
        ground arith in
      rw (current, pair_of dep c, bit_xor_buddy dep c, flag, addr, detached, rest) refl

  pub stop_run :
      {g : Links} (node : ℕ)
      → ((toggle_bit (k.area_map dep) (c / 2)).0 == 0) && not (dep == 10) ≡ false
      → page_vaddr k (c * 2 ^ dep) ≡ node
      → list_insert k.links (k.list_head dep) node ≡ done g
      → coalesce k pn (suc rounds) dep
        ≡ done (record k {
          links = g;
          area_map = write k.area_map dep (toggle_bit (k.area_map dep) (c / 2)).1;
        })
  unfolding coalesce insert_node toggle_area page_vaddr
  stop_run node flag addr inserted = rw (current, pair_of dep c, flag, addr, inserted) refl
