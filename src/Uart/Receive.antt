-- ===== src/Uart/Receive.antt =====
-- The receive buffer as a queue, along `readc` and the loop of the interrupt handler.
use kalorona_kernel.Common.{
  ℕ, zero, suc, ◌+◌, ◌%◌, ◌^◌, ◌≤◌, ◌<◌, ◌≡◌, ◌≢◌, refl, ◌∙◌, ap, sym, subst, arith, true, false,
  ◌==◌, bit_and, ◌⊎◌, inl, inr, Option, none, some, List, [], ◌∷◌, ◌++◌, write,
}
use mathlib.Core.List.{append_assoc, append-nil}
use kalorona_kernel.Common.Word.{add64}
use kalorona_kernel.Uart.{
  Uart, Port, ns16550a_driver_getc, ns16550a_driver_readc, receive, receive_all, uart_lsr_rx_ready,
}
use kalorona_kernel.Uart.Ring.{queue, queue-write}

pub record IsRx (u : Uart) (n : ℕ) : Type 0 where
  pub waiting : u.rx_buffer_tail ≡ u.rx_buffer_head + n
  pub fits : n ≤ 256
  pub no_wrap : u.rx_buffer_tail + 256 < 2 ^ 64

abbrev pub rx_queue : Uart → ℕ → List ℕ
rx_queue u n = queue u.rx_buffer u.rx_buffer_head n

-- `readc` waits exactly when nothing is there, and otherwise takes the first character off the queue.
pub readc_lem :
    (u : Uart) (n : ℕ)
    → IsRx u n
    → ((n ≡ 0) × (ns16550a_driver_readc u ≡ none))
      ⊎ ((c : ℕ) × (u' : Uart) × (rest : ℕ) × (ns16550a_driver_readc u ≡ some (c, u'))
          × IsRx u' rest
          × (rx_queue u n ≡ c ∷ rx_queue u' rest))
unfolding ns16550a_driver_readc
readc_lem u zero rx =
    let z : (u.rx_buffer_head == u.rx_buffer_tail) ≡ true = ground (arith, rx.waiting) in
    inl (refl, rw z refl)
readc_lem u (suc n) rx =
    let z : (u.rx_buffer_head == u.rx_buffer_tail) ≡ false = ground (arith, rx.waiting) in
    let e : add64 u.rx_buffer_head 1 ≡ u.rx_buffer_head + 1 =
      omega (arith, rx.waiting, rx.no_wrap) in
    inr (
      u.rx_buffer (u.rx_buffer_head % 256),
      record u { rx_buffer_head = add64 u.rx_buffer_head 1 },
      n,
      rw z refl,
      record {
        waiting = omega (arith, e, rx.waiting);
        fits = omega (arith, rx.fits);
        no_wrap = rx.no_wrap;
      },
      ap (λ (a : ℕ). u.rx_buffer (u.rx_buffer_head % 256) ∷ queue u.rx_buffer a n) (sym e),
    )

-- The next `k` characters that the device gives.
abbrev pub offered : Port → ℕ → ℕ → List ℕ
offered p at zero = []
offered p at (suc k) = (p.rhr at % 256) ∷ offered p (at + 1) k

-- The line status announces `k` characters, and then none.
pub record Offers (p : Port) (k : ℕ) : Type 0 where
  pub ready : (i : ℕ) → i < k → bit_and (p.lsr (p.lsr_reads + i) % 256) uart_lsr_rx_ready ≢ 0
  pub idle : bit_and (p.lsr (p.lsr_reads + k) % 256) uart_lsr_rx_ready ≡ 0

receive-IsRx :
    (u : Uart) (c n : ℕ)
    → IsRx u n
    → n < 256
    → u.rx_buffer_tail + 257 < 2 ^ 64
    → IsRx (receive u c) (suc n) × (rx_queue (receive u c) (suc n) ≡ rx_queue u n ++ (c ∷ []))
unfolding receive
receive-IsRx u c n rx h room = (
  record { waiting = omega (arith, rx.waiting); fits = omega arith; no_wrap = omega arith },
  ap (λ (t : ℕ). queue (write u.rx_buffer (t % 256) c) u.rx_buffer_head (suc n)) rx.waiting
      ∙ queue-write n u.rx_buffer u.rx_buffer_head c h,
)

getc-none :
    (p : Port)
    → Offers p 0
    → ns16550a_driver_getc p ≡ (none, record p { lsr_reads = p.lsr_reads + 1 })
unfolding ns16550a_driver_getc
getc-none p o =
    let at : p.lsr_reads + 0 ≡ p.lsr_reads = omega arith in
    let z : (bit_and (p.lsr p.lsr_reads % 256) 1 == 0) ≡ true =
      ground (arith, ap (λ (a : ℕ). bit_and (p.lsr a % 256) 1) at, o.idle) in
    rw z refl

abbrev taken : Port → Port
taken p = record p { lsr_reads = p.lsr_reads + 1; rhr_reads = p.rhr_reads + 1 }

getc-some :
    (p : Port) (k : ℕ)
    → Offers p (suc k)
    → (ns16550a_driver_getc p ≡ (some (p.rhr p.rhr_reads % 256), taken p)) × Offers (taken p) k
unfolding ns16550a_driver_getc
getc-some p k o =
    let at : p.lsr_reads + 0 ≡ p.lsr_reads = omega arith in
    let z : (bit_and (p.lsr p.lsr_reads % 256) 1 == 0) ≡ false =
      ground (arith, ap (λ (a : ℕ). bit_and (p.lsr a % 256) 1) at, o.ready 0 (omega arith)) in
    let next : (i : ℕ) → p.lsr_reads + 1 + i ≡ p.lsr_reads + suc i = λ i. omega arith in
    (
      rw z refl,
      record {
        ready = λ i h e.
            o.ready (suc i) (omega arith)
              (ap (λ (a : ℕ). bit_and (p.lsr a % 256) 1) (sym (next i)) ∙ e);
        idle = ap (λ (a : ℕ). bit_and (p.lsr a % 256) 1) (next k) ∙ o.idle;
      },
    )

received :
    (fuel : ℕ) (u : Uart) (p : Port) (c : ℕ)
    → ns16550a_driver_getc p ≡ (some c, taken p)
    → receive_all (suc fuel) u p ≡ receive_all fuel (receive u c) (taken p)
unfolding receive_all
received fuel u p c run = rw (receive_all, run) (ap (λ r. receive_all fuel (receive u c) r.1) run)

ended :
    (fuel : ℕ) (u : Uart) (p : Port)
    → Offers p 0
    → receive_all (suc fuel) u p ≡ some (u, record p { lsr_reads = p.lsr_reads + 1 })
unfolding receive_all
ended fuel u p o =
    rw (receive_all, getc-none p o)
      (ap {B = Option (Uart × Port)} (λ r. some (u, r.1)) (getc-none p o))

room_left :
    (u : Uart) (c k : ℕ)
    → u.rx_buffer_tail + suc k + 256 < 2 ^ 64
    → (receive u c).rx_buffer_tail + k + 256 < 2 ^ 64
unfolding receive
room_left u c k h = omega arith

-- When the device has `k` characters and the buffer has room for them, the handler's loop ends and puts them at the end of the
-- queue, in order, and nothing is lost.
pub receive_all_lem :
    (k fuel : ℕ) (u : Uart) (p : Port) (n : ℕ)
    → IsRx u n
    → Offers p k
    → n + k ≤ 256
    → u.rx_buffer_tail + k + 256 < 2 ^ 64
    → k < fuel
    → (u' : Uart) × (p' : Port) × (receive_all fuel u p ≡ some (u', p'))
      × IsRx u' (n + k)
      × (rx_queue u' (n + k) ≡ rx_queue u n ++ offered p p.rhr_reads k)
receive_all_lem k zero u p n rx o room big h = absurd (omega arith)
receive_all_lem zero (suc fuel) u p n rx o room big h =
    let e : n ≡ n + 0 = omega arith in
    (
      u,
      record p { lsr_reads = p.lsr_reads + 1 },
      ended fuel u p o,
      subst (IsRx u) e rx,
      ap (λ (i : ℕ). rx_queue u i) (sym e) ∙ sym (append-nil (rx_queue u n)),
    )
receive_all_lem (suc k) (suc fuel) u p n rx o room big h =
    let c = p.rhr p.rhr_reads % 256 in
    let (run, o') = getc-some p k o in
    let (rx', q) = receive-IsRx u c n rx (omega arith) (omega arith) in
    let (u', p', run', rx'', q') =
      receive_all_lem k fuel (receive u c) (taken p) (suc n) rx' o' (omega arith)
        (room_left u c k big) (omega arith) in
    let e : suc n + k ≡ n + suc k = omega arith in
    (
      u',
      p',
      received fuel u p c run ∙ run',
      subst (IsRx u') e rx'',
      ap (λ (i : ℕ). rx_queue u' i) (sym e)
          ∙ q'
          ∙ ap (λ (cs : List ℕ). cs ++ offered p (p.rhr_reads + 1) k) q
          ∙ append_assoc (rx_queue u n) (c ∷ []) (offered p (p.rhr_reads + 1) k),
    )
