-- ===== src/Hal/Dispatch.antt =====
-- Interrupts after registrations.
use kalorona_kernel.Common.{
  ℕ, ◌≡◌, ◌≢◌, refl, ◌∙◌, ap, arith, true, false, ◌==◌, ◌||◌, ◌&&◌, not, leb, if◌then◌else◌, some,
  List, [], ◌∷◌, ◌++◌, ◌<◌, ◌%◌, ◌^◌,
}
use kalorona_kernel.Common.Int.{ℤ, pos}
use kalorona_kernel.Hal.{
  Irq, Interruptor, TrapManager, Event, claimed, handled, completed, hal_trap_register_irq,
  hal_trap_handler, run_handler, is_src, valid_src_id,
}

first :
    (i : Irq) (is : List Irq) (src : ℕ)
    → i.interrupt_src_id ≡ pos src
    → run_handler (i ∷ is) src ≡ handled i.handler i.dev ∷ []
unfolding run_handler is_src
first i is src e =
    let t : is_src i.interrupt_src_id src ≡ true = ap (λ (z : ℤ). is_src z src) e ∙ ground arith in
    rw t refl

next :
    (i : Irq) (is : List Irq) (other src : ℕ)
    → other ≢ src
    → i.interrupt_src_id ≡ pos src
    → run_handler (i ∷ is) other ≡ run_handler is other
unfolding run_handler is_src
next i is other src ne e =
    let t : is_src i.interrupt_src_id other ≡ false =
      ap (λ (z : ℤ). is_src z other) e ∙ ground arith in
    rw t refl

-- After `hal_trap_register_irq` of an interrupt with a handler and an id from 1 to 1023, an interrupt from its source
-- is claimed, goes to its handler alone and is completed; from another source, what it did before is done.
pub handler-register :
    (m : TrapManager) (t : Interruptor) (dev handler src : ℕ)
    → m.interruptor ≡ some t
    → handler ≢ 0
    → src ≢ 0
    → src < 1024
    → (m' : TrapManager) × (hal_trap_register_irq m
          (some (record { dev = dev; handler = handler; interrupt_src_id = pos src }))
        ≡ (pos 0, m'))
      × (hal_trap_handler m' src ≡ claimed t.dev ∷ handled handler dev ∷ completed t.dev src ∷ [])
      × ((other : ℕ) → other ≢ src → hal_trap_handler m' other ≡ hal_trap_handler m other)
unfolding hal_trap_register_irq hal_trap_handler valid_src_id
handler-register m t dev handler src there nh ns hs =
    let irq : Irq = record { dev = dev; handler = handler; interrupt_src_id = pos src } in
    let ok : ((handler == 0) || not (not (src == 0) && leb src 1023)) ≡ false = ground arith in
    let z : (src == 0) ≡ false = ground arith in
    let low : src % 2 ^ 32 ≡ src = omega arith in
    (
      record m { irqs = irq ∷ m.irqs },
      rw ok refl,
      rw (there, z, low)
          (ap (λ (es : List Event). claimed t.dev ∷ (es ++ (completed t.dev src ∷ [])))
            (first irq m.irqs src refl)),
      λ other ne. rw there (
          ap
            (λ (es : List Event).
              claimed t.dev
              ∷ (if other == 0 then [] else es ++ (completed t.dev (other % 2 ^ 32) ∷ [])))
            (next irq m.irqs other src ne refl)),
    )
