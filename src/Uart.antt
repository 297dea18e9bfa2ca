-- ===== src/Uart.antt =====
-- kernel/device/drivers/ns16550a/ns16550a.c: the two ring buffers of the serial port. The device answers reads
-- of its registers in any way: `lsr n` is what read number `n` of the line status gives. A call that would
-- sleep is `none`: it changes nothing, and tests again when it wakes up. A lock's holder takes one step.
pub mod Ring
pub mod Transmit
pub mod Receive
mod Tests
use kalorona_kernel.Common.{
  ℕ, zero, suc, ◌+◌, ◌-◌, ◌%◌, ◌^◌, Bool, true, false, ◌==◌, ◌&&◌, not, if◌then◌else◌, bit_and,
  Option, none, some, List, [], ◌∷◌, ◌++◌, write,
}
use kalorona_kernel.Common.Word.{add64, sub64}

abbrev pub uart_lsr_rx_ready : ℕ
uart_lsr_rx_ready = 1

abbrev pub uart_lsr_tx_idle : ℕ
uart_lsr_tx_idle = 32

abbrev pub tx_buffer_size : ℕ
tx_buffer_size = 256

abbrev pub rx_buffer_size : ℕ
rx_buffer_size = 256

-- The wake-ups count the calls of `proc_wakeup` for each channel.
pub record Uart : Type 0 where
  pub tx_buffer : ℕ → ℕ
  pub rx_buffer : ℕ → ℕ
  pub tx_buffer_head : ℕ
  pub tx_buffer_tail : ℕ
  pub rx_buffer_head : ℕ
  pub rx_buffer_tail : ℕ
  pub tx_wakeups : ℕ
  pub rx_wakeups : ℕ

-- The registers: what reads give, how many there were, and what was written to THR.
pub record Port : Type 0 where
  pub lsr : ℕ → ℕ
  pub lsr_reads : ℕ
  pub rhr : ℕ → ℕ
  pub rhr_reads : ℕ
  pub thr : List ℕ

pub read_lsr : Port → ℕ × Port
read_lsr p = (p.lsr p.lsr_reads % 256, record p { lsr_reads = p.lsr_reads + 1 })

pub write_thr : Port → ℕ → Port
write_thr p c = record p { thr = p.thr ++ (c ∷ []) }

-- One round of the loop of `flush`.
pub send : Uart → Port → Uart × Port
unfolding write_thr
send u p = (
  record u { tx_buffer_head = add64 u.tx_buffer_head 1; tx_wakeups = u.tx_wakeups + 1 },
  write_thr p (u.tx_buffer (u.tx_buffer_head % tx_buffer_size)),
)

-- The loop, with the characters in the buffer left.
pub flush_from : ℕ → Uart → Port → Uart × Port
unfolding read_lsr send
flush_from zero u p = (u, p)
flush_from (suc left) u p =
    let r = read_lsr p in
    let s = send u r.1 in
    let next = flush_from left s.0 s.1 in
    if not (bit_and r.0 uart_lsr_tx_idle == 0) then next else (u, r.1)

pub ns16550a_driver_flush : Uart → Port → Uart × Port
unfolding flush_from
ns16550a_driver_flush u p = flush_from (sub64 u.tx_buffer_tail u.tx_buffer_head) u p

pub ns16550a_driver_putc_async : Uart → Port → ℕ → Option (Uart × Port)
unfolding ns16550a_driver_flush
ns16550a_driver_putc_async u p c =
    let u₁ = record u {
      tx_buffer = write u.tx_buffer (u.tx_buffer_tail % tx_buffer_size) c;
      tx_buffer_tail = add64 u.tx_buffer_tail 1;
    } in
    if add64 u.tx_buffer_head tx_buffer_size == u.tx_buffer_tail
    then none
    else some (ns16550a_driver_flush u₁ p)

-- The loop that waits for the transmitter is bounded by fuel.
pub ns16550a_driver_putc_sync : ℕ → Port → ℕ → Option Port
unfolding read_lsr write_thr
ns16550a_driver_putc_sync zero p c = none
ns16550a_driver_putc_sync (suc fuel) p c =
    let r = read_lsr p in
    let next = ns16550a_driver_putc_sync fuel r.1 c in
    if bit_and r.0 uart_lsr_tx_idle == 0 then next else some (write_thr r.1 c)

-- `none` is the -1 of the source.
pub ns16550a_driver_getc : Port → Option ℕ × Port
unfolding read_lsr
ns16550a_driver_getc p =
    let r = read_lsr p in
    let q = r.1 in
    if not (bit_and r.0 uart_lsr_rx_ready == 0)
    then (some (q.rhr q.rhr_reads % 256), record q { rhr_reads = q.rhr_reads + 1 })
    else (none, q)

pub ns16550a_driver_readc : Uart → Option (ℕ × Uart)
ns16550a_driver_readc u =
    if u.rx_buffer_head == u.rx_buffer_tail
    then none
    else some (
      u.rx_buffer (u.rx_buffer_head % rx_buffer_size),
      record u { rx_buffer_head = add64 u.rx_buffer_head 1 },
    )

-- One round of the handler's loop.
pub receive : Uart → ℕ → Uart
receive u c = record u {
  rx_buffer = write u.rx_buffer (u.rx_buffer_tail % rx_buffer_size) c;
  rx_buffer_tail = add64 u.rx_buffer_tail 1;
  rx_wakeups = u.rx_wakeups + 1;
}

-- The loop, as long as the device has characters.
pub receive_all : ℕ → Uart → Port → Option (Uart × Port)
unfolding ns16550a_driver_getc receive
receive_all zero u p = none
receive_all (suc fuel) u p =
    let r = ns16550a_driver_getc p in
    elim r.0 [ none ↦ some (u, r.1) | some c ↦ receive_all fuel (receive u c) r.1 ]

pub ns16550a_driver_interrupt_handler : ℕ → Uart → Port → Option (Uart × Port)
unfolding receive_all ns16550a_driver_flush
ns16550a_driver_interrupt_handler fuel u p = elim (receive_all fuel u p) [
  | none ↦ none
  | some r ↦ some (ns16550a_driver_flush r.0 r.1)
]
