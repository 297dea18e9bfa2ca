-- ===== src/Uart/Transmit.antt =====
-- The transmit buffer as a queue, along `flush` and `putc_async`.
use kalorona_kernel.Common.{
  ℕ, zero, suc, ◌+◌, ◌-◌, ◌%◌, ◌^◌, ◌≤◌, ◌<◌, ◌≡◌, refl, ◌∙◌, ap, sym, arith, true, false, ◌==◌,
  bit_and, Bool-cases, ◌⊎◌, inl, inr, none, some, List, [], ◌∷◌, ◌++◌, write, ℕ_discrete,
}
use mathlib.Core.List.{append_assoc}
use kalorona_kernel.Common.Word.{add64, sub64}
use kalorona_kernel.Uart.{
  Uart, Port, read_lsr, write_thr, send, flush_from, ns16550a_driver_flush,
  ns16550a_driver_putc_async, uart_lsr_tx_idle,
}
use kalorona_kernel.Uart.Ring.{queue, queue-write}

-- At most 256 characters wait; the counts have not come near their wrap-around.
pub record IsTx (u : Uart) (n : ℕ) : Type 0 where
  pub waiting : u.tx_buffer_tail ≡ u.tx_buffer_head + n
  pub fits : n ≤ 256
  pub no_wrap : u.tx_buffer_tail + 256 < 2 ^ 64

-- The characters that wait for the device.
abbrev pub tx_queue : Uart → ℕ → List ℕ
tx_queue u n = queue u.tx_buffer u.tx_buffer_head n

-- Of `n` characters some went out, in order, and `left` wait; either none is left, or the last read of the line status said that
-- the device was busy. The receive buffer is as before.
pub record Flushed (u : Uart) (p : Port) (n : ℕ) (u' : Uart) (p' : Port) : Type 0 where
  pub left : ℕ
  pub left_le : left ≤ n
  pub head : u'.tx_buffer_head + left ≡ u.tx_buffer_head + n
  pub tail : u'.tx_buffer_tail ≡ u.tx_buffer_tail
  pub order : p'.thr ++ tx_queue u' left ≡ p.thr ++ tx_queue u n
  pub stopped : (left ≡ 0) ⊎ (bit_and (p.lsr (p'.lsr_reads - 1) % 256) uart_lsr_tx_idle ≡ 0)
  pub same_rx :
      (u'.rx_buffer ≡ u.rx_buffer)
      × (u'.rx_buffer_head ≡ u.rx_buffer_head)
      × (u'.rx_buffer_tail ≡ u.rx_buffer_tail)

sent_one :
    (u : Uart) (p : Port) (n : ℕ)
    → u.tx_buffer_head + suc n < 2 ^ 64
    → ((send u p).1.thr ++ tx_queue (send u p).0 n ≡ p.thr ++ tx_queue u (suc n))
      × ((send u p).0.tx_buffer_head ≡ u.tx_buffer_head + 1)
unfolding send write_thr
sent_one u p n h =
    let e : add64 u.tx_buffer_head 1 ≡ u.tx_buffer_head + 1 = omega arith in
    (
      append_assoc p.thr (u.tx_buffer (u.tx_buffer_head % 256) ∷ [])
            (queue u.tx_buffer (add64 u.tx_buffer_head 1) n)
          ∙ ap (λ (a : ℕ). p.thr ++ (u.tx_buffer (u.tx_buffer_head % 256) ∷ queue u.tx_buffer a n))
              e,
      e,
    )

send_head :
    (u : Uart) (p : Port)
    → u.tx_buffer_head + 1 < 2 ^ 64
    → (send u p).0.tx_buffer_head ≡ u.tx_buffer_head + 1
unfolding send
send_head u p h = omega arith

-- One character, and those behind it.
sent_more :
    (n : ℕ) (u : Uart) (p : Port)
    → u.tx_buffer_head + suc n < 2 ^ 64
    → {u' : Uart} {p' : Port} → Flushed (send u (read_lsr p).1).0 (send u (read_lsr p).1).1 n u' p'
    → Flushed u p (suc n) u' p'
unfolding read_lsr send write_thr
sent_more n u p h f =
    let one = sent_one u (read_lsr p).1 n h in
    record {
      left = f.left;
      left_le = omega (arith, f.left_le);
      head = f.head ∙ omega (arith, one.1);
      tail = f.tail;
      order = f.order ∙ one.0;
      stopped = f.stopped;
      same_rx = f.same_rx;
    }

flush_from_lem :
    (n : ℕ) (u : Uart) (p : Port)
    → u.tx_buffer_head + n < 2 ^ 64
    → Flushed u p n (flush_from n u p).0 (flush_from n u p).1
unfolding flush_from read_lsr
flush_from_lem zero u p h = record {
  left = 0;
  left_le = omega arith;
  head = refl;
  tail = refl;
  order = refl;
  stopped = inl refl;
  same_rx = (refl, refl, refl);
}
flush_from_lem (suc n) u p h = elim (Bool-cases (bit_and (p.lsr p.lsr_reads % 256) 32 == 0)) [
  | inl y ↦
      let before : p.lsr_reads + 1 - 1 ≡ p.lsr_reads = omega arith in
      rw y (record {
        left = suc n;
        left_le = omega arith;
        head = refl;
        tail = refl;
        order = refl;
        stopped = inr (ap (λ (k : ℕ). bit_and (p.lsr k % 256) 32) before ∙ ground arith);
        same_rx = (refl, refl, refl);
      })
  | inr idle ↦
      let at = send_head u (read_lsr p).1 (omega arith) in
      rw idle (
        sent_more n u p h (
          flush_from_lem n (send u (read_lsr p).1).0 (send u (read_lsr p).1).1 (omega (arith, at))))
]

-- `flush` of `n` waiting characters.
pub flush_lem :
    (u : Uart) (p : Port) (n : ℕ)
    → IsTx u n
    → Flushed u p n (ns16550a_driver_flush u p).0 (ns16550a_driver_flush u p).1
unfolding ns16550a_driver_flush
flush_lem u p n tx =
    let rounds : sub64 u.tx_buffer_tail u.tx_buffer_head ≡ n =
      omega (arith, tx.waiting, tx.no_wrap, tx.fits) in
    rw rounds (flush_from_lem n u p (omega (arith, tx.waiting, tx.no_wrap)))

-- The buffer with one character more.
abbrev put : Uart → ℕ → Uart
put u c = record u {
  tx_buffer = write u.tx_buffer (u.tx_buffer_tail % 256) c;
  tx_buffer_tail = add64 u.tx_buffer_tail 1;
}

put-IsTx :
    (u : Uart) (c n : ℕ)
    → IsTx u n
    → n < 256
    → u.tx_buffer_tail + 257 < 2 ^ 64
    → IsTx (put u c) (suc n) × (tx_queue (put u c) (suc n) ≡ tx_queue u n ++ (c ∷ []))
put-IsTx u c n tx h room = (
  record { waiting = omega (arith, tx.waiting); fits = omega arith; no_wrap = omega arith },
  ap (λ (t : ℕ). queue (write u.tx_buffer (t % 256) c) u.tx_buffer_head (suc n)) tx.waiting
      ∙ queue-write n u.tx_buffer u.tx_buffer_head c h,
)

-- The transmit buffer is a queue in front of the device. `putc_async` waits exactly when 256 characters
-- wait already. Otherwise it puts its character behind all others; what went out and what still waits
-- are together the characters of before and the new one, in order; and either all went out or the device was busy.
pub putc_async_lem :
    (u : Uart) (p : Port) (c n : ℕ)
    → IsTx u n
    → u.tx_buffer_tail + 257 < 2 ^ 64
    → ((n ≡ 256) × (ns16550a_driver_putc_async u p c ≡ none))
      ⊎ ((n < 256)
          × (u' : Uart) × (p' : Port) × (left : ℕ) × (ns16550a_driver_putc_async u p c
              ≡ some (u', p'))
          × IsTx u' left
          × (p'.thr ++ tx_queue u' left ≡ p.thr ++ (tx_queue u n ++ (c ∷ [])))
          × ((left ≡ 0) ⊎ (bit_and (p.lsr (p'.lsr_reads - 1) % 256) uart_lsr_tx_idle ≡ 0)))
unfolding ns16550a_driver_putc_async
putc_async_lem u p c n tx room = elim (ℕ_discrete n 256) [
  | yes e ↦
      let z : (add64 u.tx_buffer_head 256 == u.tx_buffer_tail) ≡ true =
        ground (arith, tx.waiting, tx.no_wrap) in
      inl (e, rw z refl)
  | no ne ↦
      let z : (add64 u.tx_buffer_head 256 == u.tx_buffer_tail) ≡ false =
        ground (arith, tx.waiting, tx.no_wrap, tx.fits) in
      let (tx', q) = put-IsTx u c n tx (omega (arith, tx.fits)) room in
      let f = flush_lem (put u c) p (suc n) tx' in
      inr (
        omega (arith, tx.fits),
        (ns16550a_driver_flush (put u c) p).0,
        (ns16550a_driver_flush (put u c) p).1,
        f.left,
        rw z refl,
        record {
          waiting = f.tail ∙ tx'.waiting ∙ sym f.head;
          fits = omega (arith, f.left_le, tx'.fits);
          no_wrap = omega (arith, f.tail, tx'.no_wrap);
        },
        f.order ∙ ap (λ (cs : List ℕ). p.thr ++ cs) q,
        f.stopped,
      )
]
