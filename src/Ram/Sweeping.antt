-- ===== src/Ram/Sweeping.antt =====
-- The loop over the segments, round by round.
use kalorona_kernel.Common.{
  ℕ, zero, suc, ◌+◌, ◌-◌, ◌*◌, ◌%◌, ◌^◌, ◌≤◌, ◌<◌, ◌≡◌, refl, ◌∙◌, ap, Bool, true, false, arith,
  ltb, leb, ◌==◌, ◌&&◌, ◌||◌, if◌then◌else◌, some, List, [], ◌∷◌, ◌++◌, dec_lt, Bool-cases, ◌⊎◌,
  inl, inr,
}
use kalorona_kernel.Common.Word.{sub64}
use kalorona_kernel.Bootmem.{Segment}
use kalorona_kernel.Sort.Order.{IsSorted}
use kalorona_kernel.Ram.{Sweep, next_event, is_positive, sweep_one, sweep}
use kalorona_kernel.Ram.Counts.{up_to, up_to_ge}
use kalorona_kernel.Ram.Events.{next_event-Follows}
use kalorona_kernel.Ram.Settled.{within, within-snoc, within-none, quiet, IsSettled, settle}

is_positive_lem : (acc : ℕ) → acc < 2 ^ 31 → is_positive acc ≡ ltb 0 acc
unfolding is_positive
is_positive_lem acc h = ground arith

-- What a round does to the list.
grown :
    (segs : List Segment) (opens : Bool) (last_ptr pos y : ℕ)
    → pos < 2 ^ 64
    → (opens ≡ true → last_ptr < pos)
    → within
        (if opens
          then segs ++ (record { pa_begin = last_ptr; pa_len = sub64 pos last_ptr } ∷ [])
          else segs)
        y
      ≡ (within segs y || (opens && leb last_ptr y && ltb y pos))
grown segs true last_ptr pos y h less =
    let l = less refl in
    within-snoc segs (record { pa_begin = last_ptr; pa_len = sub64 pos last_ptr }) y
    ∙ ap (λ (t : ℕ). within segs y || (leb last_ptr y && ltb y t)) (omega arith)
grown segs false last_ptr pos y h less = ground arith

module _ (b e : ℕ → ℕ) (n start : ℕ) (sorted_b : IsSorted ltb b 0 n) (sorted_e : IsSorted ltb e 0 n)
    (mono : (y : ℕ) → up_to y e n ≤ up_to y b n) (few : n < 2 ^ 31)
    (b_word : (i : ℕ) → i < n → b i < 2 ^ 64) (e_word : (i : ℕ) → i < n → e i < 2 ^ 64) where
  sweep_one-IsSettled :
      (cur : ℕ) (s : Sweep)
      → IsSettled b e n start cur s
      → (s.bptr < n) ⊎ (s.eptr < n)
      → let next = sweep_one b e n s in
        (cur' : ℕ) × IsSettled b e n start cur' next × (s.bptr + s.eptr + 1 ≤ next.bptr + next.eptr)
  unfolding sweep_one
  sweep_one-IsSettled cur s now more =
      let v = next_event b e n s.bptr s.eptr in
      let (le, some_event, at, later_b, later_e) =
        next_event-Follows b e n sorted_b sorted_e mono cur s.bptr s.eptr now.at more in
      let new_acc = (s.acc + v.begins + 2 ^ 32 - v.ends) % 2 ^ 32 in
      let word : v.pos < 2 ^ 64 = elim more [
        | inl l ↦ omega (arith, later_b s.bptr (omega arith) l, b_word s.bptr l)
        | inr l ↦ omega (arith, later_e s.eptr (omega arith) l, e_word s.eptr l)
      ] in
      let depth : new_acc + (s.eptr + v.ends) ≡ s.bptr + v.begins =
        omega (arith, now.depth, at.nested, at.b_fits) in
      let was = is_positive_lem s.acc (omega (arith, now.depth, now.at.b_fits)) in
      let is = is_positive_lem new_acc (omega (arith, depth, at.b_fits)) in
      let opens = is_positive new_acc && (s.acc == 0) && ltb s.last_ptr v.pos in
      (
        v.pos,
        settle b e n start cur s v new_acc now le at later_b later_e depth
            ((new_acc == 0) && is_positive s.acc) opens (ap (λ (t : Bool). (new_acc == 0) && t) was)
            (ap (λ (t : Bool). t && (s.acc == 0) && ltb s.last_ptr v.pos) is)
            (if opens
              then s.available
                ++ (record { pa_begin = s.last_ptr; pa_len = sub64 v.pos s.last_ptr } ∷ [])
              else s.available)
            (λ y. grown s.available opens s.last_ptr v.pos y word (λ t. ground arith)),
        omega arith,
      )

  -- Two rounds for each segment are enough.
  pub sweep-IsSettled :
      (fuel cur : ℕ) (s : Sweep)
      → IsSettled b e n start cur s
      → 2 * n < fuel + (s.bptr + s.eptr)
      → (r : Sweep) × (cur' : ℕ) × (sweep fuel b e n s ≡ some r)
        × IsSettled b e n start cur' r
        × (r.bptr ≡ n)
        × (r.eptr ≡ n)
  unfolding sweep
  sweep-IsSettled zero cur s now h = absurd (omega (arith, now.at.b_fits, now.at.e_fits))
  sweep-IsSettled (suc fuel) cur s now h = elim (Bool-cases (ltb s.bptr n || ltb s.eptr n)) [
    | inl t ↦
        let (cur', next, more) =
          sweep_one-IsSettled cur s now
            (elim (dec_lt s.bptr n) [ yes l ↦ inl l | no nl ↦ inr (ground arith) ]) in
        let (r, last, run, settled, b_all, e_all) =
          sweep-IsSettled fuel cur' (sweep_one b e n s) next (omega arith) in
        (r, last, rw (sweep, t) run, settled, b_all, e_all)
    | inr f ↦ (
      s,
      cur,
      rw (sweep, f) refl,
      now,
      ground (arith, now.at.b_fits),
      ground (arith, now.at.e_fits),
    )
  ]

  -- The list has the quiet addresses up to one that is held by a segment and lies before some end.
  pub sweep-quiet :
      ((i : ℕ) → i < n → start ≤ b i)
      → ((i : ℕ) → i < n → start ≤ e i)
      → (z : ℕ) → start ≤ z
      → quiet b e n start z ≡ false
      → up_to z e n < n
      → (r : Sweep) × (sweep
            (2 * n + 1)
            b
            e
            n
            (record { bptr = 0; eptr = 0; acc = 0; last_ptr = start; available = [] })
          ≡ some r)
        × ((y : ℕ) → y ≤ z → within r.available y ≡ (leb start y && quiet b e n start y))
  sweep-quiet b_from e_from z from held before =
      let (r, cur, run, now, b_all, e_all) =
        sweep-IsSettled (2 * n + 1) start
          (record { bptr = 0; eptr = 0; acc = 0; last_ptr = start; available = [] }) first
          (omega arith) in
      let past : z < cur = elim (dec_lt z cur) [
        | yes l ↦ l
        | no nl ↦ absurd (
            omega (
              arith,
              before,
              up_to_ge z e n n (omega arith) (λ i l. omega (arith, now.at.e_done i (omega arith))),
            ))
      ] in
      let ended : z < r.last_ptr = ground (arith, now.idle z, held) in
      (
        r,
        run,
        λ y l. elim (dec_lt y start) [
          | yes k ↦ ground (arith, now.low y k)
          | no nk ↦ ground (arith, now.mid y (omega arith) (omega arith))
        ],
      )
    where
      first :
          IsSettled b e n start start
            (record { bptr = 0; eptr = 0; acc = 0; last_ptr = start; available = [] })
      first = record {
        at = record {
          b_fits = omega arith;
          e_fits = omega arith;
          b_done = λ i l. absurd (omega arith);
          b_left = λ i h l. b_from i l;
          e_done = λ i l. absurd (omega arith);
          e_left = λ i h l. e_from i l;
          nested = omega arith;
        };
        depth = refl;
        start_le = omega arith;
        last_le = omega arith;
        low = λ y h. within-none y;
        high = λ y h. within-none y;
        mid = λ y h l. absurd (omega arith);
        idle = λ y same h l. absurd (omega arith);
      }
