-- ===== src/Bytes/Flip.antt =====
-- What the reversal of bytes does to each byte.
use kalorona_kernel.Common.{
  ℕ, zero, suc, ◌+◌, ◌-◌, ◌*◌, ◌≤◌, ◌<◌, ◌≡◌, refl, ◌∙◌, ap, sym, arith, true, false, ltb, leb,
  ◌&&◌, if◌then◌else◌, write, write_self, write_ne, ℕ_discrete, dec_lt,
}
use kalorona_kernel.Memory.{Memory}
use kalorona_kernel.Bytes.{flip_from, flip_bytes_inplace}

-- The bytes from `lft` to `rig` in the other order.
abbrev reversed : Memory → ℕ → ℕ → ℕ → ℕ
reversed m lft rig i = if leb lft i && leb i rig then m (lft + rig - i) else m i

-- One exchange, and the reversal of what lies between.
exchanged :
    (m : Memory) (lft rig i : ℕ)
    → lft < rig
    → reversed (write (write m lft (m rig)) rig (m lft)) (lft + 1) (rig - 1) i
      ≡ reversed m lft rig i
exchanged m lft rig i h = elim (ℕ_discrete i lft) [
  | yes e ↦
      let t : (leb (lft + 1) i && leb i (rig - 1)) ≡ false = ground arith in
      let u : (leb lft i && leb i rig) ≡ true = ground arith in
      let d : rig ≡ lft + rig - i = omega arith in
      rw (t, u)
        (ap (write (write m lft (m rig)) rig (m lft)) e
          ∙ write_ne (write m lft (m rig)) rig lft (m lft) (λ f. omega arith)
          ∙ write_self m lft (m rig)
          ∙ ap m d)
  | no nl ↦ elim (ℕ_discrete i rig) [
    | yes e ↦
        let t : (leb (lft + 1) i && leb i (rig - 1)) ≡ false = ground arith in
        let u : (leb lft i && leb i rig) ≡ true = ground arith in
        let d : lft ≡ lft + rig - i = omega arith in
        rw (t, u)
          (ap (write (write m lft (m rig)) rig (m lft)) e
            ∙ write_self (write m lft (m rig)) rig (m lft)
            ∙ ap m d)
    | no nr ↦ elim (dec_lt i lft) [
      | yes out ↦
          let t : (leb (lft + 1) i && leb i (rig - 1)) ≡ false = ground arith in
          let u : (leb lft i && leb i rig) ≡ false = ground arith in
          rw (t, u) (write_ne (write m lft (m rig)) rig i (m lft) nr ∙ write_ne m lft i (m rig) nl)
      | no n ↦ elim (dec_lt rig i) [
        | yes out ↦
            let t : (leb (lft + 1) i && leb i (rig - 1)) ≡ false = ground arith in
            let u : (leb lft i && leb i rig) ≡ false = ground arith in
            rw (t, u)
              (write_ne (write m lft (m rig)) rig i (m lft) nr ∙ write_ne m lft i (m rig) nl)
        | no k ↦
            let t : (leb (lft + 1) i && leb i (rig - 1)) ≡ true = ground arith in
            let u : (leb lft i && leb i rig) ≡ true = ground arith in
            let d : lft + 1 + (rig - 1) - i ≡ lft + rig - i = omega arith in
            rw (t, u, d)
              (write_ne (write m lft (m rig)) rig (lft + rig - i) (m lft) (λ f. omega arith)
                ∙ write_ne m lft (lft + rig - i) (m rig) (λ f. omega arith))
      ]
    ]
  ]
]

-- The ends have met.
met : (m : Memory) (lft rig i : ℕ) → rig ≤ lft → m i ≡ reversed m lft rig i
met m lft rig i h = elim (ℕ_discrete lft rig) [
  | yes e ↦ elim (ℕ_discrete i lft) [
    | yes f ↦
        let u : (leb lft i && leb i rig) ≡ true = ground arith in
        let d : i ≡ lft + rig - i = omega arith in rw u (ap m d)
    | no nf ↦ let u : (leb lft i && leb i rig) ≡ false = ground arith in rw u refl
  ]
  | no ne ↦ let u : (leb lft i && leb i rig) ≡ false = ground arith in rw u refl
]

flip_from_lem :
    (left : ℕ) (m : Memory) (lft rig i : ℕ)
    → rig < lft + 2 * left + 1
    → flip_from left m lft rig i ≡ reversed m lft rig i
unfolding flip_from
flip_from_lem zero m lft rig i h = met m lft rig i (omega arith)
flip_from_lem (suc left) m lft rig i h = elim (dec_lt lft rig) [
  | yes l ↦
      let t : ltb lft rig ≡ true = ground arith in
      rw t (
        flip_from_lem left (write (write m lft (m rig)) rig (m lft)) (lft + 1) (rig - 1) i
          (omega arith)
        ∙ exchanged m lft rig i l)
  | no n ↦ let t : ltb lft rig ≡ false = ground arith in rw t (met m lft rig i (omega arith))
]

-- `flip_bytes_inplace` reverses the order of its bytes and changes no other byte.
pub flip_bytes_inplace_lem :
    (m : Memory) (x num_of_bytes i : ℕ)
    → flip_bytes_inplace m x num_of_bytes i
      ≡ (if leb x i && ltb i (x + num_of_bytes) then m (x + (x + num_of_bytes - 1) - i) else m i)
unfolding flip_bytes_inplace
flip_bytes_inplace_lem m x num_of_bytes i = elim (ℕ_discrete num_of_bytes 0) [
  | yes e ↦
      let u : (leb x i && ltb i (x + num_of_bytes)) ≡ false = ground arith in
      rw u (
        flip_from_lem num_of_bytes m x (x + (num_of_bytes - 1)) i (omega arith)
        ∙ sym (met m x (x + (num_of_bytes - 1)) i (omega arith)))
  | no ne ↦
      let u : (leb x i && leb i (x + (num_of_bytes - 1))) ≡ (leb x i && ltb i (x + num_of_bytes)) =
        ground arith in
      let d : x + (x + (num_of_bytes - 1)) - i ≡ x + (x + num_of_bytes - 1) - i = omega arith in
      flip_from_lem num_of_bytes m x (x + (num_of_bytes - 1)) i (omega arith) ∙ rw (u, d) refl
]
