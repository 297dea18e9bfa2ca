-- ===== src/Buddy/Samples.antt =====
-- Two valid states of a node of four pages: all in use, and all in one free block.
use kalorona_kernel.Common.{
  subst, sym, ℕ, zero, suc, ◌+◌, ◌*◌, ◌^◌, ◌/◌, ◌<◌, ◌≤◌, ◌∙◌, write_ne, ◌≡◌, refl, ap, List, [],
  ◌∷◌, write, arith, ℕ_discrete,
}
use kalorona_kernel.Common.Page.{va_kernel_begin}
use kalorona_kernel.Common.Bits.{bit_and_mask}
use kalorona_kernel.Bitmap.{bit_index, test_bit, toggle_bit}
use kalorona_kernel.Bitmap.Laws.{test_bit-toggle}
use kalorona_kernel.LinkedList.Chain.{IsChain, has, ◌∈◌}
use kalorona_kernel.Buddy.{Kmem}
use kalorona_kernel.Buddy.Blocks.{page_at, nodes, cover}
use kalorona_kernel.Buddy.Lists.{IsPlaced}
use kalorona_kernel.Buddy.Parity.{differ}
use kalorona_kernel.Buddy.Give.{IsKmem}
use kalorona_kernel.Buddy.Init.{IsBlank}

-- Page 3 of the memory is page 0 of the node, and the list heads lie in the page before them.
abbrev pub head : ℕ → ℕ
head ord = va_kernel_begin + 16 * (ord + 1)

abbrev pub page : ℕ → ℕ
page pn = page_at 3 pn

abbrev pub all_used : Kmem
all_used = record {
  begin_ppn = 3;
  num_ppn = 4;
  mem_map = λ _. 255;
  links = record { prv = λ _. 0; nxt = λ _. 0 };
  list_head = head;
  area_map = λ _ _. 0;
}

-- The four pages are the block 0 of order 2.
abbrev pub all_free : Kmem
all_free = record {
  begin_ppn = 3;
  num_ppn = 4;
  mem_map = λ _. 240;
  links = record { prv = write (λ _. 0) (page 0) (head 2); nxt = write (λ _. 0) (head 2) (page 0) };
  list_head = head;
  area_map = write (λ _ _. 0) 2 (write (λ _. 0) 0 1);
}

placed : IsPlaced 3 4 head
placed = record {
  fits = omega arith;
  heads_differ = λ o q lo lq ne e. ne (omega arith);
  heads_apart = λ o pn lo lp e. omega arith;
}

test_bit-blank : (i : ℕ) → test_bit (λ _. 0) i ≡ 0
unfolding test_bit
test_bit-blank i = omega (arith, bit_and_mask 1 (0 / 2 ^ bit_index i))

-- one bit, the lowest, in a blank map
test_bit-lowest : (i : ℕ) → test_bit (write (λ _. 0) 0 1) (suc i) ≡ 0
unfolding write toggle_bit
test_bit-lowest i =
    test_bit-toggle (λ _. 0) 0 (λ _. omega arith) (suc i) ∙ ground (arith, test_bit-blank (suc i))

pub all_used-IsKmem : IsKmem all_used
unfolding test_bit
all_used-IsKmem = (
  λ _. [],
  record {
    holds = record {
      placed = placed;
      chained = λ o lo. record {
        head_ne_null = λ e. omega arith;
        joined = tt;
        ends = refl;
        distinct = (refl, tt);
      };
      inside = λ o b lo i. cc;
      once = once;
      bytes = λ i. omega arith;
    };
    paired = record { area_bytes = λ o i. omega arith; pairs = λ o i. test_bit-blank i };
  },
)
  where
    once : (pn : ℕ) → pn < 4 → test_bit (λ _. 255) pn + cover (λ _. []) 11 pn + 0 ≡ 1
    once zero h = refl
    once (suc zero) h = refl
    once (suc (suc zero)) h = refl
    once (suc (suc (suc zero))) h = refl
    once (suc (suc (suc (suc pn)))) h = absurd (omega arith)

abbrev blocks : ℕ → List ℕ
blocks = write (λ _. []) 2 (0 ∷ [])

pub all_free-IsKmem : IsKmem all_free
unfolding test_bit write
all_free-IsKmem = (
  blocks,
  record {
    holds = record {
      placed = placed;
      chained = chained;
      inside = inside;
      once = once;
      bytes = λ i. omega arith;
    };
    paired = record { area_bytes = λ o i. ground arith; pairs = pairs };
  },
)
  where
    once : (pn : ℕ) → pn < 4 → test_bit (λ _. 240) pn + cover blocks 11 pn + 0 ≡ 1
    once zero h = refl
    once (suc zero) h = refl
    once (suc (suc zero)) h = refl
    once (suc (suc (suc zero))) h = refl
    once (suc (suc (suc (suc pn)))) h = absurd (omega arith)

    chained : (o : ℕ) → o < 11 → IsChain all_free.links (head o) (nodes 3 o (blocks o))
    chained o lo = elim (ℕ_discrete o 2) [
      | yes e ↦
          subst (λ o. IsChain all_free.links (head o) (nodes 3 o (blocks o))) (sym e)
            (record {
              head_ne_null = λ e. omega arith;
              joined = (refl, refl, (λ e. omega arith), tt);
              ends = refl;
              distinct = (refl, (refl, tt));
            })
      | no ne ↦ rw (write_ne {A = List ℕ} (λ _. []) 2 o (0 ∷ []) ne) (record {
        head_ne_null = λ e. omega arith;
        joined = tt;
        ends = write_ne {A = ℕ} (λ _. 0) (head 2) (head o) (page 0) (λ e. ne (omega arith));
        distinct = (refl, tt);
      })
    ]

    inside : (o b : ℕ) → o < 11 → b ∈ blocks o → b * 2 ^ o + 2 ^ o ≤ 4
    inside o b lo = elim (ℕ_discrete o 2) [
      | yes e ↦ subst (λ o. b ∈ blocks o → b * 2 ^ o + 2 ^ o ≤ 4) (sym e) (λ i. ground arith)
      | no ne ↦
          λ i. absurd (ground (arith, ap (has b) (write_ne {A = List ℕ} (λ _. []) 2 o (0 ∷ []) ne)))
    ]

    at_two :
        (i : ℕ)
        → test_bit (write (λ _. 0) 0 1) i ≡ differ (has (2 * i) (0 ∷ [])) (has (2 * i + 1) (0 ∷ []))
    at_two zero = refl
    at_two (suc i) = ground (arith, test_bit-lowest i)

    pairs :
        (o i : ℕ)
        → test_bit (all_free.area_map o) i
          ≡ differ (has (2 * i) (blocks o)) (has (2 * i + 1) (blocks o))
    pairs o i = elim (ℕ_discrete o 2) [
      | yes e ↦
          subst
            (λ o.
              test_bit (all_free.area_map o) i
              ≡ differ (has (2 * i) (blocks o)) (has (2 * i + 1) (blocks o)))
            (sym e) (at_two i)
      | no ne ↦
          rw
            (
              write_ne {A = List ℕ} (λ _. []) 2 o (0 ∷ []) ne,
              write_ne {A = ℕ → ℕ} (λ _ _. 0) 2 o (write (λ _. 0) 0 1) ne,
            )
            (test_bit-blank i)
    ]

-- The four pages are free in the map, and nothing is on a list yet.
abbrev pub after_boot : Kmem
after_boot = record all_used { mem_map = λ _. 240 }

pub after_boot-IsBlank : IsBlank after_boot
after_boot-IsBlank = record {
  placed = placed;
  no_blocks = λ o lo. ((λ e. omega arith), refl);
  area_bytes = λ o i. omega arith;
  no_pairs = λ o i. test_bit-blank i;
  bytes = λ i. omega arith;
}
