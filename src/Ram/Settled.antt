-- ===== src/Ram/Settled.antt =====
-- The loop over the segments: what the list holds once the events up to `cur` are handled.
use kalorona_kernel.Common.{
  ℕ, ◌+◌, ◌≤◌, ◌<◌, ◌≡◌, refl, Bool, true, false, arith, ltb, leb, ◌==◌, ◌&&◌, ◌||◌, if◌then◌else◌,
  List, [], ◌∷◌, ◌++◌, dec_lt,
}
use kalorona_kernel.Bootmem.{Segment}
use kalorona_kernel.Ram.{Sweep, Event}
use kalorona_kernel.Ram.Counts.{up_to, up_to_ge, up_to_le}
use kalorona_kernel.Ram.Events.{IsAt}

-- Some segment of the list holds the address.
pub within : List Segment → ℕ → Bool
within [] y = false
within (s ∷ segs) y = (leb s.pa_begin y && ltb y (s.pa_begin + s.pa_len)) || within segs y

pub within-none : (y : ℕ) → within [] y ≡ false
unfolding within
within-none y = refl

pub within-snoc :
    (segs : List Segment) (s : Segment) (y : ℕ)
    → within (segs ++ (s ∷ [])) y
      ≡ (within segs y || (leb s.pa_begin y && ltb y (s.pa_begin + s.pa_len)))
unfolding within
within-snoc [] s y = ground arith
within-snoc (t ∷ segs) s y = ground (arith, within-snoc segs s y)

module _ (b e : ℕ → ℕ) (n start : ℕ) where
  -- As many begins as ends up to `y`.
  abbrev pub quiet : ℕ → Bool
  quiet y = up_to y b n == up_to y e n

  pub record IsSettled (cur : ℕ) (s : Sweep) : Type 0 where
    pub at : IsAt b e n cur s.bptr s.eptr
    pub depth : s.acc + s.eptr ≡ s.bptr
    pub start_le : start ≤ s.last_ptr
    pub last_le : s.last_ptr ≤ cur
    pub low : (y : ℕ) → y < start → within s.available y ≡ false
    pub high : (y : ℕ) → cur ≤ y → within s.available y ≡ false
    pub mid :
        (y : ℕ)
        → start ≤ y
        → y < cur
        → within s.available y ≡ (quiet y && (ltb s.eptr s.bptr || ltb y s.last_ptr))
    pub idle : (y : ℕ) → s.eptr ≡ s.bptr → s.last_ptr ≤ y → y < cur → quiet y ≡ true

  -- Between events nothing changes.
  quiet-gap :
      (cur pos bptr eptr y : ℕ)
      → IsAt b e n cur bptr eptr
      → ((i : ℕ) → bptr ≤ i → i < n → pos ≤ b i)
      → ((i : ℕ) → eptr ≤ i → i < n → pos ≤ e i)
      → cur ≤ y
      → y < pos
      → quiet y ≡ (bptr == eptr)
  quiet-gap cur pos bptr eptr y at later_b later_e h l =
      let b_ge = up_to_ge y b bptr n at.b_fits (λ i k. omega (arith, at.b_done i k)) in
      let b_le = up_to_le y b bptr n (λ i k r. omega (arith, later_b i k r)) in
      let e_ge = up_to_ge y e eptr n at.e_fits (λ i k. omega (arith, at.e_done i k)) in
      let e_le = up_to_le y e eptr n (λ i k r. omega (arith, later_e i k r)) in
      let f : up_to y b n ≡ bptr = omega arith in
      let g : up_to y e n ≡ eptr = omega arith in rw (f, g) refl

  pub settle :
      (cur : ℕ) (s : Sweep) (v : Event) (new_acc : ℕ)
      → IsSettled cur s
      → cur ≤ v.pos
      → IsAt b e n v.pos (s.bptr + v.begins) (s.eptr + v.ends)
      → ((i : ℕ) → s.bptr ≤ i → i < n → v.pos ≤ b i)
      → ((i : ℕ) → s.eptr ≤ i → i < n → v.pos ≤ e i)
      → new_acc + (s.eptr + v.ends) ≡ s.bptr + v.begins
      → (closes opens : Bool) → closes ≡ ((new_acc == 0) && ltb 0 s.acc)
      → opens ≡ (ltb 0 new_acc && (s.acc == 0) && ltb s.last_ptr v.pos)
      → (out : List Segment)
      → ((y : ℕ)
          → within out y ≡ (within s.available y || (opens && leb s.last_ptr y && ltb y v.pos)))
      → IsSettled v.pos (record {
        bptr = s.bptr + v.begins;
        eptr = s.eptr + v.ends;
        acc = new_acc;
        last_ptr = if closes then v.pos else s.last_ptr;
        available = out;
      })
  settle cur s v new_acc now le at later_b later_e new_depth closes opens f g out outs =
      let depth = now.depth in
      let start_le = now.start_le in
      let last_le = now.last_le in
      let gap = λ (y : ℕ). quiet-gap cur v.pos s.bptr s.eptr y now.at later_b later_e in
      record {
        at = at;
        depth = new_depth;
        start_le = ground arith;
        last_le = ground arith;
        low = λ y h. ground (arith, outs y, now.low y h);
        high = λ y h. ground (arith, outs y, now.high y (omega arith));
        mid = λ y h l. elim (dec_lt y cur) [
          | yes k ↦ ground (arith, outs y, now.mid y h k, now.idle y, now.at.nested)
          | no nk ↦
              ground (arith, outs y, now.high y (omega arith), gap y (omega arith) l, now.at.nested)
        ];
        idle = λ y same h l. elim (dec_lt y cur) [
          | yes k ↦ ground (arith, now.idle y, now.at.nested)
          | no nk ↦ ground (arith, gap y (omega arith) l, now.at.nested)
        ];
      }
