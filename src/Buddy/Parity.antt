-- ===== src/Buddy/Parity.antt =====
-- The bits of the pairs of buddies: bit `i` of order `o` says if exactly one of blocks `2 i` and
-- `2 i + 1` is on the list.
use kalorona_kernel.Common.{
  ℕ, ◌+◌, ◌*◌, ◌/◌, ◌≡◌, ap, sym, subst, Bool, true, false, ◌==◌, not, if◌then◌else◌, List, ◌∷◌,
  arith, write, write_self, write_ne, ℕ_discrete,
}
use kalorona_kernel.Bitmap.{BitMap, IsBytes, test_bit, toggle_bit}
use kalorona_kernel.Bitmap.Laws.{test_bit-toggle, IsBytes-toggle}
use kalorona_kernel.LinkedList.Chain.{has, ◌∉◌}
use kalorona_kernel.Buddy.Blocks.{count}

abbrev pub differ : Bool → Bool → ℕ
differ a true = count (not a)
differ a false = count a

pub record IsPaired (area : ℕ → BitMap) (free : ℕ → List ℕ) : Type 0 where
  pub area_bytes : (o : ℕ) → IsBytes (area o)
  pub pairs :
      (o i : ℕ) → test_bit (area o) i ≡ differ (has (2 * i) (free o)) (has (2 * i + 1) (free o))

module _ {area : ℕ → BitMap} {free : ℕ → List ℕ} (p : IsPaired area free) where
  -- A toggle goes with one block of the pair that comes to the list or leaves it.
  pub IsPaired-toggle :
      (o b : ℕ) (bs : List ℕ)
      → ((x : ℕ) → has x bs ≡ (if x == b then not (has x (free o)) else has x (free o)))
      → IsPaired (write area o (toggle_bit (area o) (b / 2)).1) (write free o bs)
  IsPaired-toggle o b bs change = record {
    area_bytes = λ q. elim (ℕ_discrete q o) [
      | yes e ↦
          subst (λ r. IsBytes (write area o (toggle_bit (area o) (b / 2)).1 r)) (sym e)
            (rw (write_self area o (toggle_bit (area o) (b / 2)).1)
              (IsBytes-toggle (area o) (b / 2) (p.area_bytes o)))
      | no ne ↦ rw (write_ne area o q (toggle_bit (area o) (b / 2)).1 ne) (p.area_bytes q)
    ];
    pairs = λ q i. elim (ℕ_discrete q o) [
      | yes e ↦
          subst
            (λ r.
              test_bit (write area o (toggle_bit (area o) (b / 2)).1 r) i
              ≡ differ (has (2 * i) (write free o bs r)) (has (2 * i + 1) (write free o bs r)))
            (sym e)
            (rw (write_self area o (toggle_bit (area o) (b / 2)).1, write_self free o bs)
              (at_order i))
      | no ne ↦
          rw (write_ne area o q (toggle_bit (area o) (b / 2)).1 ne, write_ne free o q bs ne)
            (p.pairs q i)
    ];
  }
    where
      at_order :
          (i : ℕ)
          → test_bit (toggle_bit (area o) (b / 2)).1 i
            ≡ differ (has (2 * i) bs) (has (2 * i + 1) bs)
      at_order i = ground (
        arith,
        test_bit-toggle (area o) (b / 2) (p.area_bytes o) i,
        p.pairs o i,
        ap (test_bit (area o)) {x = i} {y = b / 2},
        change (2 * i),
        change (2 * i + 1),
      )

  -- Both blocks of a pair come to the list.
  pub IsPaired-both :
      (o c : ℕ)
      → 2 * c ∉ free o
      → 2 * c + 1 ∉ free o
      → IsPaired area (write free o ((2 * c + 1) ∷ 2 * c ∷ free o))
  IsPaired-both o c out out' = record {
    area_bytes = p.area_bytes;
    pairs = λ q i. elim (ℕ_discrete q o) [
      | yes e ↦
          subst
            (λ r.
              test_bit (area r) i
              ≡ differ (has (2 * i) (write free o ((2 * c + 1) ∷ 2 * c ∷ free o) r))
                  (has (2 * i + 1) (write free o ((2 * c + 1) ∷ 2 * c ∷ free o) r)))
            (sym e) (rw (write_self free o ((2 * c + 1) ∷ 2 * c ∷ free o)) (at_order i))
      | no ne ↦ rw (write_ne free o q ((2 * c + 1) ∷ 2 * c ∷ free o) ne) (p.pairs q i)
    ];
  }
    where
      at_order :
          (i : ℕ)
          → test_bit (area o) i
            ≡ differ
                (has (2 * i) ((2 * c + 1) ∷ 2 * c ∷ free o))
                (has (2 * i + 1) ((2 * c + 1) ∷ 2 * c ∷ free o))
      at_order i = elim (ℕ_discrete i c) [
        | yes e ↦
            subst
              (λ i.
                test_bit (area o) i
                ≡ differ (has (2 * i) ((2 * c + 1) ∷ 2 * c ∷ free o))
                    (has (2 * i + 1) ((2 * c + 1) ∷ 2 * c ∷ free o)))
              (sym e) (ground (arith, p.pairs o c))
        | no ne ↦ ground (arith, p.pairs o i)
      ]
