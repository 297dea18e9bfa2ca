-- ===== src/Buddy/Coalesce.antt =====
-- `kmem_free_page`: the loop that joins a page that is freed with its free buddies, as far as it goes.
use kalorona_kernel.Common.{
  ℕ, zero, suc, ◌+◌, ◌*◌, ◌/◌, ◌%◌, ◌^◌, ◌≤◌, ◌<◌, ◌≡◌, ◌∙◌, ap, sym, subst, false, ◌==◌, ◌&&◌, not,
  List, ◌∷◌, arith, write, ℕ_discrete, Outcome, done, inl, inr, bit_and, Bool-cases,
}
use kalorona_kernel.Common.Bits.{other_of}
use kalorona_kernel.Common.Word.{sub64, not64}
use kalorona_kernel.Bitmap.{BitMap, toggle_bit}
use kalorona_kernel.LinkedList.{Links, list_detach, list_insert}
use kalorona_kernel.LinkedList.Chain.{has, ◌∈◌}
use kalorona_kernel.Buddy.{Kmem, coalesce}
use kalorona_kernel.Buddy.Blocks.{page_at}
use kalorona_kernel.Buddy.Moves.{Holds-extra, insert_block}
use kalorona_kernel.Buddy.Parity.{IsPaired, IsPaired-toggle}
use kalorona_kernel.Buddy.Split.{Buddies, take_block, page_vaddr_lem, half, twice}
use native.Mathlib.Nat.{pow-suc}
use kalorona_kernel.Buddy.Free.{rounded, merge_run, stop_run, in_hand, off_list, toggled}

-- The two ways on from a block in hand.
module _ (base : ℕ → ℕ) {k : Kmem} {free : ℕ → List ℕ} (dep c : ℕ)
    (h : Buddies (in_hand base dep c) k free) (ld : dep < 11)
    (ins : c * 2 ^ dep + 2 ^ dep ≤ k.num_ppn) where
  put_back :
      (g : Links) × (list_insert k.links (k.list_head dep) (page_at k.begin_ppn (c * 2 ^ dep))
        ≡ done g)
      × Buddies base
          (record k {
            links = g;
            area_map = write k.area_map dep (toggle_bit (k.area_map dep) (c / 2)).1;
          })
          (write free dep (c ∷ free dep))
  put_back =
      let (g, run, holds) =
        insert_block k.begin_ppn k.num_ppn k.list_head h.holds base dep c ld ins
          (λ p lp. omega arith) in
      (
        g,
        run,
        record {
          holds = holds;
          paired = IsPaired-toggle h.paired dep c (c ∷ free dep) (λ x.
              ground
                (arith, ap (λ x. has x (free dep)) {x = x} {y = c}, off_list base dep c h ld ins));
        },
      )

  join :
      other_of c ∈ free dep
      → (g : Links) × (bs : List ℕ) × (list_detach k.links
            (page_at k.begin_ppn (other_of c * 2 ^ dep))
          ≡ done g)
        × Buddies
            (in_hand base (dep + 1) (c / 2))
            (record k {
              links = g;
              area_map = write k.area_map dep (toggle_bit (k.area_map dep) (c / 2)).1;
            })
            (write free dep bs)
        × (c / 2 * 2 ^ (dep + 1) + 2 ^ (dep + 1) ≤ k.num_ppn)
  join i =
      let t = take_block h dep (other_of c) ld i in
      let e : other_of c / 2 ≡ c / 2 = omega arith in
      let up : dep + 1 ≡ suc dep = omega arith in
      (
        t.links,
        t.blocks,
        t.detached,
        record {
          holds =
              Holds-extra k.begin_ppn k.num_ppn k.list_head t.taken.holds
                (in_hand base (dep + 1) (c / 2)) (λ p lp. rw up (ground (arith, half dep p)));
          paired =
              subst
                (λ (j : ℕ).
                  IsPaired (write k.area_map dep (toggle_bit (k.area_map dep) j).1)
                    (write free dep t.blocks))
                e t.taken.paired;
        },
        rw up (inside_pair (h.holds.inside dep (other_of c) ld i)),
      )
    where
      inside_pair :
          other_of c * 2 ^ dep + 2 ^ dep ≤ k.num_ppn → c / 2 * 2 ^ suc dep + 2 ^ suc dep ≤ k.num_ppn
      inside_pair other = elim (ℕ_discrete (c % 2) 0) [
        | yes e ↦
            let o : other_of c ≡ 2 * (c / 2) + 1 = omega arith in
            omega (arith, twice dep (c / 2), pow-suc 2 dep, ap (λ (t : ℕ). t * 2 ^ dep) o)
        | no ne ↦
            let o : c ≡ 2 * (c / 2) + 1 = omega arith in
            omega (arith, twice dep (c / 2), pow-suc 2 dep, ap (λ (t : ℕ). t * 2 ^ dep) o)
      ]

next : (pn dep : ℕ) → pn / 2 ^ dep / 2 ≡ pn / 2 ^ (dep + 1)
next pn dep = sym (half dep pn) ∙ ap (λ (n : ℕ). pn / 2 ^ n) (omega arith)

-- The loop ends, with every block on a list.
abbrev pub Settled : (ℕ → ℕ) → Kmem → Outcome Kmem → Type 0
Settled base k o =
    (g : Links) × (ar : (ℕ → BitMap)) × (o ≡ done (record k { links = g; area_map = ar }))
    × (free' : (ℕ → List ℕ)) × Buddies base (record k { links = g; area_map = ar }) free'

stop_lem :
    (base : ℕ → ℕ) {k : Kmem} {free : ℕ → List ℕ} (dep c : ℕ)
    → Buddies (in_hand base dep c) k free
    → dep < 11
    → c * 2 ^ dep + 2 ^ dep ≤ k.num_ppn
    → (pn rounds : ℕ) → bit_and pn (not64 (sub64 (2 ^ dep) 1)) ≡ c * 2 ^ dep
    → ((toggle_bit (k.area_map dep) (c / 2)).0 == 0) && not (dep == 10) ≡ false
    → Settled base k (coalesce k pn (suc rounds) dep)
stop_lem base {k} {free} dep c h ld ins pn rounds cur flag =
    let (g, run, h') = put_back base dep c h ld ins in
    (
      g,
      write k.area_map dep (toggle_bit (k.area_map dep) (c / 2)).1,
      stop_run k pn rounds dep c cur (page_at k.begin_ppn (c * 2 ^ dep)) flag
          (page_vaddr_lem k (c * 2 ^ dep) (omega (arith, ins, h.holds.placed.fits))) run,
      write free dep (c ∷ free dep),
      h',
    )

pub coalesce_lem :
    (base : ℕ → ℕ) (pn rounds dep : ℕ) {k : Kmem} {free : ℕ → List ℕ}
    → Buddies (in_hand base dep (pn / 2 ^ dep)) k free
    → dep + rounds ≡ 11
    → dep < 11
    → pn / 2 ^ dep * 2 ^ dep + 2 ^ dep ≤ k.num_ppn
    → pn < k.num_ppn
    → Settled base k (coalesce k pn rounds dep)
coalesce_lem base pn zero dep h e ld ins lp = absurd (omega arith)
coalesce_lem base pn (suc rounds) dep {k} {free} h e ld ins lp =
    let c = pn / 2 ^ dep in
    let small : k.begin_ppn + pn < 2 ^ 25 = omega (arith, h.holds.placed.fits) in
    let cur = rounded pn dep (omega (arith, small)) ld in
    let bit = toggled base dep c h ld ins in
    elim (Bool-cases (has (other_of c) (free dep))) [
      | inr n ↦ stop_lem base dep c h ld ins pn rounds cur (ground (arith, bit))
      | inl i ↦ elim (ℕ_discrete dep 10) [
        | yes d ↦ stop_lem base dep c h ld ins pn rounds cur (ground (arith, bit))
        | no d ↦
            let (g, bs, run, h', ins') = join base dep c h ld ins i in
            let up : c / 2 ≡ pn / 2 ^ (dep + 1) = next pn dep in
            let (g', ar, run', free', h'') =
              coalesce_lem base pn rounds (dep + 1) {free = write free dep bs}
                (subst
                  (λ (b : ℕ).
                    Buddies (in_hand base (dep + 1) b)
                      (record k {
                        links = g;
                        area_map = write k.area_map dep (toggle_bit (k.area_map dep) (c / 2)).1;
                      })
                      (write free dep bs))
                  up h')
                (omega arith) (omega arith)
                (subst (λ (b : ℕ). b * 2 ^ (dep + 1) + 2 ^ (dep + 1) ≤ k.num_ppn) up ins') lp in
            (
              g',
              ar,
              merge_run k pn rounds dep c cur (page_at k.begin_ppn (other_of c * 2 ^ dep))
                  (ground (arith, bit)) d
                  (page_vaddr_lem k (other_of c * 2 ^ dep)
                    (omega (arith, h.holds.inside dep (other_of c) ld i, h.holds.placed.fits)))
                  run run',
              free',
              h'',
            )
      ]
    ]
