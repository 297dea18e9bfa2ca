-- ===== src/Uart/Tests.antt =====
-- Runs of the serial port's driver.
use kalorona_kernel.Common.{
  ℕ, ◌-◌, ◌%◌, ◌<◌, ◌≡◌, refl, arith, write, bit_and, Option, none, some, List, [], ◌∷◌, ◌++◌, ◌⊎◌,
  ltb, if◌then◌else◌,
}
use kalorona_kernel.Uart.{
  Uart, Port, uart_lsr_tx_idle, ns16550a_driver_putc_async, ns16550a_driver_interrupt_handler,
  receive_all,
}
use kalorona_kernel.Uart.Transmit.{IsTx, tx_queue, putc_async_lem}
use kalorona_kernel.Uart.Receive.{IsRx, Offers, rx_queue, offered, receive_all_lem}

-- Two characters wait for the device, one for the reader.
abbrev waiting : Uart
waiting = record {
  tx_buffer = write (write (λ _. 0) 255 65) 0 66;
  rx_buffer = write (λ _. 0) 3 67;
  tx_buffer_head = 255;
  tx_buffer_tail = 257;
  rx_buffer_head = 3;
  rx_buffer_tail = 4;
  tx_wakeups = 0;
  rx_wakeups = 0;
}

-- The device can send one character, and announces one.
abbrev port : Port
port = record {
  lsr = λ i. if ltb i 1 then 33 else 0;
  lsr_reads = 0;
  rhr = λ _. 68;
  rhr_reads = 0;
  thr = [];
}

sent : Option (Uart × Port) → List ℕ
sent none = []
sent (some r) = r.1.thr

sends_first : sent (ns16550a_driver_putc_async waiting port 70) ≡ 65 ∷ []
unfolding ns16550a_driver_putc_async sent write
sends_first = refl

handles : Option (Uart × Port) → List ℕ
handles none = []
handles (some r) = rx_queue r.0 2

takes_in : handles (ns16550a_driver_interrupt_handler 5 waiting port) ≡ 67 ∷ 68 ∷ []
unfolding ns16550a_driver_interrupt_handler handles write
takes_in = refl

tx : IsTx waiting 2
tx = record { waiting = refl; fits = omega arith; no_wrap = omega arith }

abbrev two : ℕ
two = 2

putc_async_lem_example :
    ((two ≡ 256) × (ns16550a_driver_putc_async waiting port 70 ≡ none))
    ⊎ ((two < 256)
        × (u' : Uart) × (p' : Port) × (left : ℕ) × (ns16550a_driver_putc_async waiting port 70
            ≡ some (u', p'))
        × IsTx u' left
        × (p'.thr ++ tx_queue u' left ≡ port.thr ++ (tx_queue waiting two ++ (70 ∷ [])))
        × ((left ≡ 0) ⊎ (bit_and (port.lsr (p'.lsr_reads - 1) % 256) uart_lsr_tx_idle ≡ 0)))
putc_async_lem_example = putc_async_lem waiting port 70 two tx (omega arith)

rx : IsRx waiting 1
rx = record { waiting = refl; fits = omega arith; no_wrap = omega arith }

offers : Offers port 1
offers = record { ready = λ i h e. ground arith; idle = refl }

receive_all_lem_example :
    (u' : Uart) × (p' : Port) × (receive_all 5 waiting port ≡ some (u', p'))
    × IsRx u' 2
    × (rx_queue u' 2 ≡ rx_queue waiting 1 ++ offered port 0 1)
receive_all_lem_example =
    receive_all_lem 1 5 waiting port 1 rx offers (omega arith) (omega arith) (omega arith)
