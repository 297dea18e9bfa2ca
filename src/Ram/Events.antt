-- ===== src/Ram/Events.antt =====
-- The next begins and ends of segments, on sorted arrays.
use kalorona_kernel.Common.{
  ℕ, zero, suc, ◌+◌, ◌-◌, ◌≤◌, ◌<◌, ◌≡◌, ◌≢◌, refl, ◌∙◌, ap, sym, true, false, arith, ltb, ◌==◌,
  inl, inr, ℕ_discrete, dec_lt, ◌⊎◌,
}
use kalorona_kernel.Sort.Order.{IsSorted}
use kalorona_kernel.Ram.{run_length, next_event, Event}
use kalorona_kernel.Ram.Counts.{up_to, up_to_ge, up_to_le, IsSorted-le}

-- The elements of a run, and the one behind it.
pub record IsRun (arr : ℕ → ℕ) (x ptr left r : ℕ) : Type 0 where
  pub fits : r ≤ left
  pub same : (i : ℕ) → ptr ≤ i → i < ptr + r → arr i ≡ x
  pub behind : r < left → arr (ptr + r) ≢ x

pub run_length-IsRun :
    (arr : ℕ → ℕ) (x ptr left : ℕ) → IsRun arr x ptr left (run_length arr x ptr left)
unfolding run_length
run_length-IsRun arr x ptr zero = record {
  fits = omega arith;
  same = λ i lo hi. absurd (omega arith);
  behind = λ h. absurd (omega arith);
}
run_length-IsRun arr x ptr (suc left) =
    let rest = run_length-IsRun arr x (ptr + 1) left in
    let r = run_length arr x (ptr + 1) left in
    elim (ℕ_discrete (arr ptr) x) [
      | yes e ↦
          let t : (arr ptr == x) ≡ true = ground arith in
          rw (run_length, t)
            (record {
              fits = ground (arith, rest.fits);
              same = λ i lo hi. elim (ℕ_discrete i ptr) [
                | yes f ↦ ap arr f ∙ e
                | no nf ↦ rest.same i (omega arith) (omega arith)
              ];
              behind = λ h q. rest.behind (omega arith) (ap arr (omega arith) ∙ q);
            })
      | no ne ↦
          let t : (arr ptr == x) ≡ false = ground arith in
          rw (run_length, t)
            (record {
              fits = omega arith;
              same = λ i lo hi. absurd (omega arith);
              behind = λ h q. ne (ap arr (omega arith) ∙ q);
            })
    ]

module _ (b e : ℕ → ℕ) (n : ℕ) where
  -- What is handled lies up to `cur`, what is left from there on.
  pub record IsAt (cur bptr eptr : ℕ) : Type 0 where
    pub b_fits : bptr ≤ n
    pub e_fits : eptr ≤ n
    pub b_done : (i : ℕ) → i < bptr → b i ≤ cur
    pub b_left : (i : ℕ) → bptr ≤ i → i < n → cur ≤ b i
    pub e_done : (i : ℕ) → i < eptr → e i ≤ cur
    pub e_left : (i : ℕ) → eptr ≤ i → i < n → cur ≤ e i
    pub nested : eptr ≤ bptr

  module _ (sorted_b : IsSorted ltb b 0 n) (sorted_e : IsSorted ltb e 0 n)
      (mono : (y : ℕ) → up_to y e n ≤ up_to y b n) where
    -- The next event, as the loop goes on with it.
    abbrev pub Follows : ℕ → ℕ → ℕ → Event → Type 0
    Follows cur bptr eptr v =
        (cur ≤ v.pos)
        × (1 ≤ v.begins + v.ends)
        × IsAt v.pos (bptr + v.begins) (eptr + v.ends)
        × ((i : ℕ) → bptr ≤ i → i < n → v.pos ≤ b i)
        × ((i : ℕ) → eptr ≤ i → i < n → v.pos ≤ e i)

    only_begin :
        (cur bptr eptr : ℕ)
        → IsAt cur bptr eptr
        → bptr < n
        → ((eptr < n) → b bptr < e eptr)
        → Follows cur bptr eptr (record { pos = b bptr; begins = 1; ends = 0 })
    only_begin cur bptr eptr at l less = (
      at.b_left bptr (omega arith) l,
      omega arith,
      record {
        b_fits = omega arith;
        e_fits = omega (arith, at.e_fits);
        b_done = λ i h. IsSorted-le b n i bptr sorted_b (omega arith) l;
        b_left = λ i h r. later i (omega arith) r;
        e_done = λ i h. omega (arith, at.e_done i (omega arith), at.b_left bptr (omega arith) l);
        e_left = λ i h r. later_e i (omega arith) r;
        nested = omega (arith, at.nested);
      },
      later,
      later_e,
    )
      where
        later : (i : ℕ) → bptr ≤ i → i < n → b bptr ≤ b i
        later i h r = IsSorted-le b n bptr i sorted_b h r

        later_e : (i : ℕ) → eptr ≤ i → i < n → b bptr ≤ e i
        later_e i h r = omega (arith, less (omega arith), IsSorted-le e n eptr i sorted_e h r)

    only_end :
        (cur bptr eptr : ℕ)
        → IsAt cur bptr eptr
        → eptr < n
        → ((bptr < n) → e eptr < b bptr)
        → Follows cur bptr eptr (record { pos = e eptr; begins = 0; ends = 1 })
    only_end cur bptr eptr at l less = (
      at.e_left eptr (omega arith) l,
      omega arith,
      record {
        b_fits = omega (arith, at.b_fits);
        e_fits = omega arith;
        b_done = λ i h. omega (arith, at.b_done i (omega arith), at.e_left eptr (omega arith) l);
        b_left = λ i h r. later_b i (omega arith) r;
        e_done = before;
        e_left = λ i h r. later i (omega arith) r;
        nested = omega (
          arith,
          mono (e eptr),
          up_to_ge (e eptr) e (eptr + 1) n (omega arith) before,
          up_to_le (e eptr) b bptr n
              (λ i h r. omega (arith, less (omega arith), IsSorted-le b n bptr i sorted_b h r)),
        );
      },
      later_b,
      later,
    )
      where
        before : (i : ℕ) → i < eptr + 1 → e i ≤ e eptr
        before i h = IsSorted-le e n i eptr sorted_e (omega arith) l

        later : (i : ℕ) → eptr ≤ i → i < n → e eptr ≤ e i
        later i h r = IsSorted-le e n eptr i sorted_e h r

        later_b : (i : ℕ) → bptr ≤ i → i < n → e eptr ≤ b i
        later_b i h r = omega (arith, less (omega arith), IsSorted-le b n bptr i sorted_b h r)

    run_behind :
        (arr : ℕ → ℕ) (x ptr : ℕ)
        → IsSorted ltb arr 0 n
        → ptr < n
        → arr ptr ≡ x
        → let r = run_length arr x ptr (n - ptr) in
          (1 ≤ r)
          × (ptr + r ≤ n)
          × ((i : ℕ) → i < ptr + r → arr i ≤ x)
          × ((i : ℕ) → ptr + r ≤ i → i < n → x < arr i)
    run_behind arr x ptr sorted l h =
        let run = run_length-IsRun arr x ptr (n - ptr) in
        let r = run_length arr x ptr (n - ptr) in
        let some_run : 1 ≤ r = elim (dec_lt 0 r) [
          | yes p ↦ p
          | no np ↦ absurd (run.behind (omega arith) (ap arr (omega arith) ∙ h))
        ] in
        let fits : ptr + r ≤ n = omega (arith, run.fits) in
        (
          some_run,
          fits,
          (λ i k. omega (
            arith,
            IsSorted-le arr n i (ptr + r - 1) sorted (omega arith) (omega arith),
            run.same (ptr + r - 1) (omega arith) (omega arith),
          )),
          (λ i k q. omega (
            arith,
            IsSorted-le arr n (ptr + r) i sorted k q,
            IsSorted-le arr n ptr (ptr + r) sorted (omega arith) (omega arith),
            run.behind (omega arith),
          )),
        )

    both :
        (cur bptr eptr : ℕ)
        → IsAt cur bptr eptr
        → bptr < n
        → eptr < n
        → b bptr ≡ e eptr
        → Follows cur bptr eptr (record {
          pos = b bptr;
          begins = run_length b (b bptr) bptr (n - bptr);
          ends = run_length e (b bptr) eptr (n - eptr);
        })
    both cur bptr eptr at l m same =
        let x = b bptr in
        let (begun, b_fits, b_done, b_left) = run_behind b x bptr sorted_b l refl in
        let (ended, e_fits, e_done, e_left) = run_behind e x eptr sorted_e m (sym same) in
        (
          at.b_left bptr (omega arith) l,
          omega arith,
          record {
            b_fits = b_fits;
            e_fits = e_fits;
            b_done = b_done;
            b_left = λ i h r. omega (arith, b_left i h r);
            e_done = e_done;
            e_left = λ i h r. omega (arith, e_left i h r);
            nested = omega (
              arith,
              mono x,
              up_to_ge x e (eptr + run_length e x eptr (n - eptr)) n e_fits e_done,
              up_to_le x b (bptr + run_length b x bptr (n - bptr)) n b_left,
            );
          },
          (λ i h r. IsSorted-le b n bptr i sorted_b h r),
          λ i h r. omega (arith, IsSorted-le e n eptr i sorted_e h r),
        )

    pub next_event-Follows :
        (cur bptr eptr : ℕ)
        → IsAt cur bptr eptr
        → (bptr < n) ⊎ (eptr < n)
        → Follows cur bptr eptr (next_event b e n bptr eptr)
    unfolding next_event
    next_event-Follows cur bptr eptr at more = elim (ℕ_discrete bptr n) [
      | yes f ↦
          let t : (bptr == n) ≡ true = ground arith in
          let m : eptr < n = elim more [ inl p ↦ absurd (omega arith) | inr p ↦ p ] in
          rw (next_event, t) (only_end cur bptr eptr at m (λ p. absurd (omega arith)))
      | no nf ↦
          let t : (bptr == n) ≡ false = ground arith in
          let l : bptr < n = omega (arith, at.b_fits) in
          elim (ℕ_discrete eptr n) [
            | yes g ↦
                let u : (eptr == n) ≡ true = ground arith in
                rw (next_event, t, u) (only_begin cur bptr eptr at l (λ p. absurd (omega arith)))
            | no ng ↦
                let u : (eptr == n) ≡ false = ground arith in
                let m : eptr < n = omega (arith, at.e_fits) in
                elim (ℕ_discrete (b bptr) (e eptr)) [
                  | yes same ↦
                      let v : (b bptr == e eptr) ≡ true = ground arith in
                      rw (next_event, t, u, v) (both cur bptr eptr at l m same)
                  | no differ ↦
                      let v : (b bptr == e eptr) ≡ false = ground arith in
                      elim (dec_lt (b bptr) (e eptr)) [
                        | yes less ↦
                            let w : ltb (b bptr) (e eptr) ≡ true = ground arith in
                            rw (next_event, t, u, v, w) (only_begin cur bptr eptr at l (λ p. less))
                        | no more ↦
                            let w : ltb (b bptr) (e eptr) ≡ false = ground arith in
                            rw (next_event, t, u, v, w)
                              (only_end cur bptr eptr at m (λ p. omega arith))
                      ]
                ]
          ]
    ]
