-- ===== src/Hal.antt =====
-- kernel/device/hal/trap.c, kernel/device/hal/uart_io.c and kernel/device/drivers/drivers.c: the registries that drivers
-- enter and the dispatch through them. A list is in the order of its chain, the newest entry first; a
-- device or driver is known by its address, and NULL is 0. Calls through function pointers are events.
pub mod Dispatch
mod Tests
use kalorona_kernel.Common.{
  ℕ, zero, suc, ◌+◌, ◌-◌, ◌%◌, ◌^◌, Bool, true, false, ◌==◌, ◌||◌, ◌&&◌, not, ltb, leb,
  if◌then◌else◌, Option, none, some, List, [], ◌∷◌, ◌++◌,
}
use kalorona_kernel.Common.Int.{ℤ, pos, negsuc}

-- `interrupt_src_id` is an `int`; the handler is the address of the function.
pub record Irq : Type 0 where
  pub dev : ℕ
  pub handler : ℕ
  pub interrupt_src_id : ℤ

-- The device and which of its functions are there.
pub record Interruptor : Type 0 where
  pub dev : ℕ
  pub claim : ℕ
  pub complete : ℕ

pub record TrapManager : Type 0 where
  pub interruptor : Option Interruptor
  pub irqs : List Irq

pub data Event : Type 0 where
  claimed : ℕ → Event
  handled : ℕ → ℕ → Event
  completed : ℕ → ℕ → Event

pub hal_trap_register_interruptor : TrapManager → Option Interruptor → ℤ × TrapManager
hal_trap_register_interruptor m none = (negsuc 0, m)
hal_trap_register_interruptor m (some dev) =
    if (dev.claim == 0) || (dev.complete == 0)
    then (negsuc 0, m)
    else (pos 0, record m { interruptor = some dev })

-- An id from 1 to 1023.
pub valid_src_id : ℤ → Bool
valid_src_id (pos n) = not (n == 0) && leb n 1023
valid_src_id (negsuc n) = false

pub hal_trap_register_irq : TrapManager → Option Irq → ℤ × TrapManager
unfolding valid_src_id
hal_trap_register_irq m none = (negsuc 0, m)
hal_trap_register_irq m (some irq) =
    if (irq.handler == 0) || not (valid_src_id irq.interrupt_src_id)
    then (negsuc 0, m)
    else (pos 0, record m { irqs = irq ∷ m.irqs })

-- The `int` of the source, made a `uint64`, against the claimed one
pub is_src : ℤ → ℕ → Bool
is_src (pos n) irq = n == irq
is_src (negsuc n) irq = 2 ^ 64 - (n + 1) == irq

-- The loop over the registered interrupts, which stops at the first that fits.
pub run_handler : List Irq → ℕ → List Event
unfolding is_src
run_handler [] irq = []
run_handler (i ∷ is) irq =
    let rest = run_handler is irq in
    if is_src i.interrupt_src_id irq then handled i.handler i.dev ∷ [] else rest

-- `claim_result` is what the interruptor's `claim` returns; `complete` takes its low 32 bits.
pub hal_trap_handler : TrapManager → ℕ → List Event
unfolding run_handler
hal_trap_handler m claim_result = elim m.interruptor [
  | none ↦ []
  | some t ↦
      claimed t.dev
      ∷ (if claim_result == 0
          then []
          else run_handler m.irqs claim_result ++ (completed t.dev (claim_result % 2 ^ 32) ∷ []))
]

-- `hal_uart_register_device` and its kin, over the entries of `hal_uart_manager`.
pub record UartEntry : Type 0 where
  pub dev : ℕ
  pub write : ℕ
  pub read : ℕ

pub hal_uart_register_device : List UartEntry → Option UartEntry → ℤ × List UartEntry
hal_uart_register_device devs none = (negsuc 0, devs)
hal_uart_register_device devs (some dev) = (pos 0, dev ∷ devs)

pub hal_uart_find_device : List UartEntry → ℕ → Option UartEntry
hal_uart_find_device [] dev = none
hal_uart_find_device (u ∷ us) dev =
    let rest = hal_uart_find_device us dev in if u.dev == dev then some u else rest

-- The function to call with the device and the character, if any; `hal_uart_read` returns -1 without one.
pub hal_uart_write : List UartEntry → ℕ → Option ℕ
unfolding hal_uart_find_device
hal_uart_write devs dev = elim (hal_uart_find_device devs dev) [
  | none ↦ none
  | some u ↦ some u.write
]

pub hal_uart_read : List UartEntry → ℕ → Option ℕ
unfolding hal_uart_find_device
hal_uart_read devs dev = elim (hal_uart_find_device devs dev) [ none ↦ none | some u ↦ some u.read ]

pub device_drivers_append : List ℕ → ℕ → List ℕ
device_drivers_append drivers drv = if drv == 0 then drivers else drv ∷ drivers

pub device_drivers_load : List ℕ → ℕ → ℕ → ℕ → List ℕ
unfolding device_drivers_append
device_drivers_load drivers plic_driver ns16550a_driver virtio_driver =
    device_drivers_append
      (device_drivers_append (device_drivers_append drivers plic_driver) ns16550a_driver)
      virtio_driver
