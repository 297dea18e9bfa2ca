-- ===== src/Hart/Tests.antt =====
-- Two pairs, one in the other, on a hart with interrupts on.
use kalorona_kernel.Common.{◌≡◌, refl, arith, true, false, inl, done, panicked, ◌>>=◌}
use kalorona_kernel.Hart.{Hart, int_less_one, pushoff_hart, popoff_hart}
use kalorona_kernel.Hart.Nesting.{Block, nothing, nest, depth, run, Restored, run-Restored}

abbrev outside : Hart
outside = record { interrupt = true; trap_enabled = false; trap_pushoff_dep = 0 }

abbrev two_pairs : Block
two_pairs = nest (nest nothing nothing) nothing

-- The inner pair leaves interrupts off.
stays_off :
    (popoff_hart (pushoff_hart (pushoff_hart outside)) >>= λ h. done h.interrupt) ≡ done false
unfolding pushoff_hart popoff_hart int_less_one
stays_off = refl

unmatched : popoff_hart (record outside { interrupt = false }) ≡ panicked
unfolding popoff_hart int_less_one
unmatched = refl

run-Restored_example : (h' : Hart) × (run two_pairs outside ≡ done h') × Restored outside h'
run-Restored_example = run-Restored two_pairs outside (inl refl) (unfold depth in omega arith)
