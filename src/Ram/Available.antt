-- ===== src/Ram/Available.antt =====
-- `device_calc_available_ram` as a whole: preparing, sorting and the loop.
use kalorona_kernel.Common.{
  ℕ, ◌+◌, ◌-◌, ◌*◌, ◌%◌, ◌^◌, ◌≤◌, ◌<◌, ◌≡◌, ◌↔◌, refl, ap, sym, Bool, true, false, not, arith, ltb,
  leb, ◌&&◌, ◌||◌, some, List, [], write, dec_lt, ℕ_discrete, subst,
}
use kalorona_kernel.Common.Word.{add64}
use kalorona_kernel.Common.Page.{
  page_size, page_round_down, page_round_up, page_round_down_lem, page_round_up_lem,
}
use kalorona_kernel.Bootmem.{Segment}
use kalorona_kernel.Sort.Shuffle.{count}
use kalorona_kernel.Sort.Order.{IsSorted, qsort_lem}
use kalorona_kernel.Ram.{Segments, add_segment, Sweep, sweep, prepare, device_calc_available_ram}
use kalorona_kernel.Ram.Counts.{
  up_to, up_to_le, up_to_mono, kept-none, covered, covered-cong, covered-none, none-covered,
  covered-next, covered-up_to, ltb-IsOrder,
}
use kalorona_kernel.Ram.Settled.{within, quiet}
use kalorona_kernel.Ram.Sweeping.{sweep-quiet}

-- What the device tree says makes sense: no range wraps or starts below the RAM, which starts at a page, and neither
-- do the pages of a range wrap.
pub record IsLaidOut (kernel_img_pa_end : ℕ) (ram : Segment) (s : Segments) : Type 0 where
  pub fits : s.seg_num + 2 ≤ 1024
  pub page : ram.pa_begin % page_size ≡ 0
  pub ram_end : ram.pa_begin + ram.pa_len < 2 ^ 64
  pub image : ram.pa_begin ≤ kernel_img_pa_end
  pub image_end : kernel_img_pa_end + page_size ≤ 2 ^ 64
  pub from : (i : ℕ) → i < s.seg_num → ram.pa_begin ≤ s.seg_begin i
  pub order : (i : ℕ) → i < s.seg_num → s.seg_begin i ≤ s.seg_end i
  pub to : (i : ℕ) → i < s.seg_num → s.seg_end i + page_size ≤ 2 ^ 64

module _ (kernel_img_pa_end : ℕ) (ram : Segment) (s : Segments)
    (laid : IsLaidOut kernel_img_pa_end ram s) where
  abbrev num : ℕ
  num = s.seg_num + 1 + 1

  abbrev t : Segments
  t = prepare kernel_img_pa_end ram s

  abbrev down : ℕ → ℕ
  down i = page_round_down (s.seg_begin i)

  abbrev up : ℕ → ℕ
  up i = page_round_up (s.seg_end i)

  prepare-reserved : (i : ℕ) → i < s.seg_num → (t.seg_begin i ≡ down i) × (t.seg_end i ≡ up i)
  unfolding prepare add_segment write
  prepare-reserved i l = (ground (arith), ground arith)

  prepare-image :
      (t.seg_begin s.seg_num ≡ page_round_down ram.pa_begin)
      × (t.seg_end s.seg_num ≡ page_round_up kernel_img_pa_end)
  unfolding prepare add_segment write
  prepare-image = (ground arith, ground arith)

  prepare-boundary :
      (t.seg_begin (s.seg_num + 1) ≡ page_round_down (add64 ram.pa_begin ram.pa_len))
      × (t.seg_end (s.seg_num + 1) ≡ 2 ^ 64 - 1)
  unfolding prepare add_segment write
  prepare-boundary = (ground arith, ground arith)

  -- Every prepared segment.
  module _ (p : ℕ → ℕ → Type 0) (each : (i : ℕ) → i < s.seg_num → p (down i) (up i))
      (image : p (page_round_down ram.pa_begin) (page_round_up kernel_img_pa_end))
      (boundary : p (page_round_down (add64 ram.pa_begin ram.pa_len)) (2 ^ 64 - 1)) where
    prepared : (i : ℕ) → i < num → p (t.seg_begin i) (t.seg_end i)
    prepared i l = elim (dec_lt i s.seg_num) [
      | yes k ↦
          let (f, g) = prepare-reserved i k in
          subst (p (t.seg_begin i)) (sym g) (subst (λ x. p x (up i)) (sym f) (each i k))
      | no nk ↦ elim (ℕ_discrete i s.seg_num) [
        | yes e ↦
            let (f, g) = prepare-image in
            let r : p (t.seg_begin s.seg_num) (t.seg_end s.seg_num) = rw (f, g) image in
            subst (λ (j : ℕ). p (t.seg_begin j) (t.seg_end j)) (sym e) r
        | no ne ↦
            let (f, g) = prepare-boundary in
            let r : p (t.seg_begin (s.seg_num + 1)) (t.seg_end (s.seg_num + 1)) =
              rw (f, g) boundary in
            let last : s.seg_num + 1 ≡ i = omega arith in
            subst (λ (j : ℕ). p (t.seg_begin j) (t.seg_end j)) last r
      ]
    ]

  -- The addresses of a prepared segment.
  prepared-word :
      (i : ℕ)
      → i < num
      → (ram.pa_begin ≤ t.seg_begin i) × (t.seg_begin i ≤ t.seg_end i) × (t.seg_end i < 2 ^ 64)
  prepared-word =
      prepared (λ x z. (ram.pa_begin ≤ x) × (x ≤ z) × (z < 2 ^ 64))
        (λ i l.
          let f =
            page_round_down_lem (s.seg_begin i) (omega (arith, laid.order i l, laid.to i l)) in
          let g = page_round_up_lem (s.seg_end i) (omega (arith, laid.to i l)) in
          (
            omega (arith, f, laid.from i l, laid.page),
            omega (arith, f, g, laid.order i l),
            omega (arith, g, laid.to i l),
          ))
        (let f = page_round_down_lem ram.pa_begin (omega (arith, laid.ram_end)) in
          let g = page_round_up_lem kernel_img_pa_end (omega (arith, laid.image_end)) in
          (
            omega (arith, f, laid.page),
            omega (arith, f, g, laid.image),
            omega (arith, g, laid.image_end),
          ))
        (let f =
            page_round_down_lem (add64 ram.pa_begin ram.pa_len) (omega (arith, laid.ram_end)) in
          (omega (arith, f, laid.page, laid.ram_end), omega (arith, f, laid.ram_end), omega arith))

  prepared-covered :
      (y : ℕ)
      → covered t.seg_begin t.seg_end y num ≡ (
          (leb (page_round_down (add64 ram.pa_begin ram.pa_len)) y && ltb y (2 ^ 64 - 1))
          || ((leb (page_round_down ram.pa_begin) y && ltb y (page_round_up kernel_img_pa_end))
              || covered down up y s.seg_num))
  prepared-covered y =
      let (f, g) = prepare-boundary in
      let (k, l) = prepare-image in
      let rest =
        covered-cong t.seg_begin t.seg_end down up y s.seg_num (λ i h. (prepare-reserved i h).0)
          (λ i h. (prepare-reserved i h).1) in
      rw
        (
          covered-next t.seg_begin t.seg_end y (s.seg_num + 1),
          covered-next t.seg_begin t.seg_end y s.seg_num,
          f,
          g,
          k,
          l,
          rest,
        )
        refl

  -- The two sorted arrays.
  record IsReady (b e : ℕ → ℕ) : Type 0 where
    sorted_b : IsSorted ltb b 0 num
    sorted_e : IsSorted ltb e 0 num
    counts_b : (p : ℕ → Bool) → count p b num ≡ count p t.seg_begin num
    counts_e : (p : ℕ → Bool) → count p e num ≡ count p t.seg_end num

  module _ (b e : ℕ → ℕ) (ready : IsReady b e) where
    ready_mono : (y : ℕ) → up_to y e num ≤ up_to y b num
    ready_mono y = omega (
      arith,
      ready.counts_b (λ v. leb v y),
      ready.counts_e (λ v. leb v y),
      up_to_mono t.seg_begin t.seg_end y num (λ i l. (prepared-word i l).1),
    )

    ready-quiet : (y : ℕ) → quiet b e num ram.pa_begin y ≡ not (covered t.seg_begin t.seg_end y num)
    ready-quiet y = ground (
      arith,
      ready.counts_b (λ v. leb v y),
      ready.counts_e (λ v. leb v y),
      covered-up_to t.seg_begin t.seg_end y num (λ i l. (prepared-word i l).1),
    )

    ready-word :
        (i : ℕ)
        → i < num
        → (ram.pa_begin ≤ b i) × (b i < 2 ^ 64) × (ram.pa_begin ≤ e i) × (e i < 2 ^ 64)
    ready-word i l = (
      ground (arith, none_b (λ v. ltb v ram.pa_begin) (λ k h. ground (arith, prepared-word k h))),
      ground (arith, none_b (λ v. leb (2 ^ 64) v) (λ k h. ground (arith, prepared-word k h))),
      ground (arith, none_e (λ v. ltb v ram.pa_begin) (λ k h. ground (arith, prepared-word k h))),
      ground (arith, none_e (λ v. leb (2 ^ 64) v) (λ k h. ground (arith, prepared-word k h))),
    )
      where
        none_b : (p : ℕ → Bool) → ((k : ℕ) → k < num → p (t.seg_begin k) ≡ false) → p (b i) ≡ false
        none_b p h = kept-none p t.seg_begin b num (ready.counts_b p) h i l

        none_e : (p : ℕ → Bool) → ((k : ℕ) → k < num → p (t.seg_end k) ≡ false) → p (e i) ≡ false
        none_e p h = kept-none p t.seg_end e num (ready.counts_e p) h i l

    -- The last segment ends behind all addresses.
    ready-before : up_to (2 ^ 64 - 2) e num < num
    ready-before =
        let (f, g) = prepare-boundary in
        ground (
          arith,
          g,
          up_to_le (2 ^ 64 - 2) t.seg_end (s.seg_num + 1) num (λ i h l.
              let last : i ≡ s.seg_num + 1 = omega arith in ground (arith, g, ap t.seg_end last)),
          ready.counts_e (λ v. leb v (2 ^ 64 - 2)),
        )

    ready-sweep :
        (r : Sweep) × (sweep
            (2 * num + 1)
            b
            e
            num
            (record { bptr = 0; eptr = 0; acc = 0; last_ptr = ram.pa_begin; available = [] })
          ≡ some r)
        × ((y : ℕ)
            → y < 2 ^ 64 - 1
            → within r.available y ≡ (
                leb ram.pa_begin y
                && leb (page_round_up kernel_img_pa_end) y
                && ltb y (page_round_down (add64 ram.pa_begin ram.pa_len))
                && not (covered down up y s.seg_num)))
    ready-sweep =
        let aligned : page_round_down ram.pa_begin ≡ ram.pa_begin =
          omega
            (arith, page_round_down_lem ram.pa_begin (omega (arith, laid.ram_end)), laid.page) in
        let ends = page_round_down_lem (add64 ram.pa_begin ram.pa_len) (omega arith) in
        let held : quiet b e num ram.pa_begin (2 ^ 64 - 2) ≡ false =
          ground (arith, ready-quiet (2 ^ 64 - 2), prepared-covered (2 ^ 64 - 2), ends) in
        let (r, run, all) =
          sweep-quiet b e num ram.pa_begin ready.sorted_b ready.sorted_e ready_mono
            (omega (arith, laid.fits)) (λ i l. (ready-word i l).1) (λ i l. (ready-word i l).3)
            (λ i l. (ready-word i l).0) (λ i l. (ready-word i l).2) (2 ^ 64 - 2)
            (omega (arith, laid.ram_end)) held ready-before in
        (
          r,
          run,
          λ y l. ground (arith, aligned, all y (omega arith), ready-quiet y, prepared-covered y),
        )

-- On a layout that makes sense, `device_calc_available_ram` ends, and an address below the largest is in one of its
-- segments exactly if it is in the RAM, behind the kernel image, and in no reserved range, each of these in whole pages.
pub device_calc_available_ram_lem :
    (kernel_img_pa_end : ℕ) (ram : Segment) (s : Segments)
    → IsLaidOut kernel_img_pa_end ram s
    → (segs : List Segment) × (device_calc_available_ram kernel_img_pa_end ram s ≡ some segs)
      × ((y : ℕ)
          → y < 2 ^ 64 - 1
          → (within segs y ≡ true) ↔ (
              (ram.pa_begin ≤ y)
              × (page_round_up kernel_img_pa_end ≤ y)
              × (y < page_round_down (add64 ram.pa_begin ram.pa_len))
              × ((i : ℕ)
                  → i < s.seg_num
                  → page_round_down (s.seg_begin i) ≤ y
                  → page_round_up (s.seg_end i) ≤ y)))
unfolding device_calc_available_ram prepare add_segment
device_calc_available_ram_lem kernel_img_pa_end ram s laid =
    let num = s.seg_num + 1 + 1 in
    let t = prepare kernel_img_pa_end ram s in
    let (b, run_b, sorted_b, same_b, counts_b) = qsort_lem ltb ltb-IsOrder t.seg_begin num in
    let (e, run_e, sorted_e, same_e, counts_e) = qsort_lem ltb ltb-IsOrder t.seg_end num in
    let (r, run, all) = ready-sweep kernel_img_pa_end ram s laid b e (record {
      sorted_b = sorted_b;
      sorted_e = sorted_e;
      counts_b = counts_b;
      counts_e = counts_e;
    }) in
    (
      r.available,
      rw (device_calc_available_ram, run_b, run_e, run) refl,
      λ y l.
          let f = all y l in
          let down = λ (i : ℕ). page_round_down (s.seg_begin i) in
          let up = λ (i : ℕ). page_round_up (s.seg_end i) in
          (
            (λ h.
                let none_of = covered-none down up y s.seg_num (ground arith) in
                (ground arith, ground arith, ground arith, λ i k m. ground (arith, none_of i k))),
            (λ (from, image, to, reserved).
                let free =
                  none-covered down up y s.seg_num (λ i k m. ground (arith, reserved i k)) in
                ground (arith, f, free)),
          ),
    )
