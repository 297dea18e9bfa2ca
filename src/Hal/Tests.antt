-- ===== src/Hal/Tests.antt =====
-- Registrations and interrupts.
use kalorona_kernel.Common.{ℕ, ◌≡◌, ◌≢◌, refl, arith, some, [], ◌∷◌}
use kalorona_kernel.Common.Int.{pos, negsuc}
use kalorona_kernel.Hal.{
  Interruptor, TrapManager, claimed, handled, completed, hal_trap_register_irq, hal_trap_handler,
  device_drivers_load,
}
use kalorona_kernel.Hal.Dispatch.{handler-register}

abbrev plic : Interruptor
plic = record { dev = 500; claim = 1; complete = 2 }

abbrev manager : TrapManager
manager = record {
  interruptor = some plic;
  irqs = record { dev = 600; handler = 7; interrupt_src_id = pos 10 } ∷ [];
}

dispatches : hal_trap_handler manager 10 ≡ claimed 500 ∷ handled 7 600 ∷ completed 500 10 ∷ []
unfolding hal_trap_handler
dispatches = refl

ignores_none : hal_trap_handler manager 0 ≡ claimed 500 ∷ []
unfolding hal_trap_handler
ignores_none = refl

completes_unknown : hal_trap_handler manager 11 ≡ claimed 500 ∷ completed 500 11 ∷ []
unfolding hal_trap_handler
completes_unknown = refl

refuses :
    hal_trap_register_irq manager
      (some (record { dev = 601; handler = 8; interrupt_src_id = pos 1024 }))
    ≡ (negsuc 0, manager)
unfolding hal_trap_register_irq
refuses = refl

loads_last_first : device_drivers_load [] 1 2 3 ≡ 3 ∷ 2 ∷ 1 ∷ []
unfolding device_drivers_load
loads_last_first = refl

handler-register_example :
    (m' : TrapManager) × (hal_trap_register_irq manager
        (some (record { dev = 601; handler = 8; interrupt_src_id = pos 11 }))
      ≡ (pos 0, m'))
    × (hal_trap_handler m' 11 ≡ claimed 500 ∷ handled 8 601 ∷ completed 500 11 ∷ [])
    × ((other : ℕ) → other ≢ 11 → hal_trap_handler m' other ≡ hal_trap_handler manager other)
handler-register_example =
    handler-register manager plic 601 8 11 refl (λ e. omega arith) (λ e. omega arith) (omega arith)
