-- ===== src/Hart/Nesting.antt =====
-- Pairs of `pushoff_hart` and `popoff_hart` nest.
use kalorona_kernel.Common.{
  ℕ, suc, ◌+◌, ◌-◌, ◌%◌, ◌^◌, ◌<◌, ◌||◌, leb, ◌≡◌, refl, ◌∙◌, ◌⊎◌, true, false, arith, Outcome,
  done, ◌>>=◌, ltb, ◌==◌, ◌&&◌, if◌then◌else◌, ℕ_discrete, inl, inr, sym,
}
use kalorona_kernel.Hart.{Hart, int_less_one, pushoff_hart, popoff_hart}

-- Outside every pair nothing is off by it; inside, interrupts are off.
abbrev pub IsNested : Hart → Type 0
IsNested h = (h.trap_pushoff_dep ≡ 0) ⊎ (h.interrupt ≡ false)

-- What a hart does between two moments: any number of pairs, one after the other and in each other.
pub data Block : Type 0 where
  nothing : Block
  nest : Block → Block → Block

-- How deep the pairs of a block are nested.
unfoldable pub depth : Block → ℕ
depth nothing = 0
depth (nest inner next) =
    let d = suc (depth inner) in let e = depth next in if ltb d e then e else d

pub run : Block → Hart → Outcome Hart
unfolding pushoff_hart popoff_hart
run nothing h = done h
run (nest inner next) h = run inner (pushoff_hart h) >>= λ h₁. popoff_hart h₁ >>= λ h₂. run next h₂

-- The interrupt flag and the depth are as before, and inside a pair what the outermost one found too.
pub record Restored (h h' : Hart) : Type 0 where
  pub same_interrupt : h'.interrupt ≡ h.interrupt
  pub same_dep : h'.trap_pushoff_dep ≡ h.trap_pushoff_dep
  pub same_found : (h.trap_pushoff_dep ≡ 0) ⊎ (h'.trap_enabled ≡ h.trap_enabled)

Restored-trans : {f g h : Hart} → Restored f g → Restored g h → Restored f h
Restored-trans {f} {g} {h} r s = record {
  same_interrupt = s.same_interrupt ∙ r.same_interrupt;
  same_dep = s.same_dep ∙ r.same_dep;
  same_found = elim (ℕ_discrete f.trap_pushoff_dep 0) [
    | yes z ↦ inl z
    | no nz ↦ elim r.same_found [
      | inl z ↦ inl z
      | inr e ↦ elim s.same_found [ inl z ↦ inl (sym r.same_dep ∙ z) | inr e' ↦ inr (e' ∙ e) ]
    ]
  ];
}

-- `popoff_hart` after a block that ran inside the pair.
popoff-pushoff :
    (h h₁ : Hart)
    → IsNested h
    → h.trap_pushoff_dep + 1 < 2 ^ 31
    → Restored (pushoff_hart h) h₁
    → (h₂ : Hart) × (popoff_hart h₁ ≡ done h₂) × Restored h h₂
unfolding pushoff_hart popoff_hart int_less_one
popoff-pushoff h h₁ n small r =
    let off : h₁.interrupt ≡ false = r.same_interrupt in
    let dep : h₁.trap_pushoff_dep ≡ h.trap_pushoff_dep + 1 = omega (arith, r.same_dep) in
    let deep : (ltb h₁.trap_pushoff_dep 1 || leb (2 ^ 31) h₁.trap_pushoff_dep) ≡ false =
      ground arith in
    let back : (h₁.trap_pushoff_dep + (2 ^ 32 - 1)) % 2 ^ 32 ≡ h.trap_pushoff_dep = omega arith in
    let found : h₁.trap_enabled
        ≡ (if h.trap_pushoff_dep == 0 then h.interrupt else h.trap_enabled) =
      elim r.same_found [ inl z ↦ absurd (omega arith) | inr e ↦ e ] in
    (
      record h₁ {
        interrupt = if (h.trap_pushoff_dep == 0) && h₁.trap_enabled then true else h₁.interrupt;
        trap_pushoff_dep = h.trap_pushoff_dep;
      },
      rw (off, deep, back) refl,
      record {
        same_interrupt = ground arith;
        same_dep = refl;
        same_found = elim (ℕ_discrete h.trap_pushoff_dep 0) [
          | yes z ↦ inl z
          | no nz ↦ inr (ground arith)
        ];
      },
    )

-- Any nesting of `pushoff_hart` and `popoff_hart`, begun outside every pair or with interrupts off, whose depth with
-- that of the hart before it is below 2^31, never panics, and leaves the interrupt flag and the depth as they were.
pub run-Restored :
    (b : Block) (h : Hart)
    → IsNested h
    → h.trap_pushoff_dep + depth b < 2 ^ 31
    → (h' : Hart) × (run b h ≡ done h') × Restored h h'
unfolding run depth
run-Restored nothing h n small =
    (h, refl, record { same_interrupt = refl; same_dep = refl; same_found = inr refl })
run-Restored (nest inner next) h n small =
    let fits : h.trap_pushoff_dep + suc (depth inner) < 2 ^ 31 = ground arith in
    let after : h.trap_pushoff_dep + depth next < 2 ^ 31 = ground arith in
    let dep : (pushoff_hart h).trap_pushoff_dep ≡ h.trap_pushoff_dep + 1 =
      unfold pushoff_hart in omega arith in
    let (h₁, run₁, r₁) =
      run-Restored inner (pushoff_hart h) (inr (unfold pushoff_hart in refl)) (omega arith) in
    let (h₂, run₂, r₂) = popoff-pushoff h h₁ n (omega arith) r₁ in
    let (h₃, run₃, r₃) =
      run-Restored next h₂ (ground (arith, n, r₂.same_interrupt, r₂.same_dep))
        (omega (arith, r₂.same_dep)) in
    (h₃, rw (run₁, run₂) run₃, Restored-trans r₂ r₃)
