-- ===== src/Vmem/Setup/Giga.antt =====
-- The entries of the page table of the boot.
use kalorona_kernel.Common.{
  ℕ, zero, suc, ◌+◌, ◌-◌, ◌*◌, ◌^◌, ◌≤◌, ◌<◌, ◌≡◌, refl, ◌∙◌, ap, sym, arith, true, false, ltb, leb,
  ◌==◌, ◌&&◌, if◌then◌else◌, write, write_self, write_ne, ℕ_discrete, dec_lt, bit_or,
}
use kalorona_kernel.Common.Bits.{bit_or_split}
use kalorona_kernel.Common.Word.{add64, shl64}
use kalorona_kernel.Vmem.{va_get_pn}
use kalorona_kernel.Vmem.Setup.{
  flags_rw, flags_rwx, giga_pte, map_identity, map_pma, map_image, setup_mmu,
}

map_identity_lem :
    (left : ℕ) (table : ℕ → ℕ) (phy_pn i : ℕ)
    → map_identity table phy_pn left i
      ≡ (if leb phy_pn i && ltb i (phy_pn + left) then giga_pte flags_rwx (shl64 i 30) else table i)
unfolding map_identity
map_identity_lem zero table phy_pn i =
    let t : (leb phy_pn i && ltb i (phy_pn + 0)) ≡ false = ground arith in rw t refl
map_identity_lem (suc left) table phy_pn i = elim (ℕ_discrete i phy_pn) [
  | yes e ↦
      let t : (leb (phy_pn + 1) i && ltb i (phy_pn + 1 + left)) ≡ false = ground arith in
      let u : (leb phy_pn i && ltb i (phy_pn + suc left)) ≡ true = ground arith in
      let v = giga_pte flags_rwx (shl64 phy_pn 30) in
      map_identity_lem left (write table phy_pn v) (phy_pn + 1) i
      ∙ rw (t, u)
          (ap (write table phy_pn v) e
            ∙ write_self table phy_pn v
            ∙ ap (λ (k : ℕ). giga_pte flags_rwx (shl64 k 30)) (sym e))
  | no ne ↦
      let t : (leb (phy_pn + 1) i && ltb i (phy_pn + 1 + left))
          ≡ (leb phy_pn i && ltb i (phy_pn + suc left)) =
        ground arith in
      let v = giga_pte flags_rwx (shl64 phy_pn 30) in
      map_identity_lem left (write table phy_pn v) (phy_pn + 1) i
      ∙ rw (t, write_ne table phy_pn i v ne) refl
]

map_pma_lem :
    (left : ℕ) (table : ℕ → ℕ) (phy_pn i : ℕ)
    → phy_pn + left ≤ 128
    → map_pma table phy_pn left i ≡ (
        if leb (256 + phy_pn) i && ltb i (256 + (phy_pn + left))
        then giga_pte flags_rw (shl64 (i - 256) 30)
        else table i)
unfolding map_pma
map_pma_lem zero table phy_pn i h =
    let t : (leb (256 + phy_pn) i && ltb i (256 + (phy_pn + 0))) ≡ false = ground arith in rw t refl
map_pma_lem (suc left) table phy_pn i h =
    let at : bit_or phy_pn 256 ≡ 256 + phy_pn =
      omega (arith, bit_or_split 8 1 phy_pn (omega arith)) in
    let v = giga_pte flags_rw (shl64 phy_pn 30) in
    let rest = map_pma_lem left (write table (256 + phy_pn) v) (phy_pn + 1) i (omega arith) in
    elim (ℕ_discrete i (256 + phy_pn)) [
      | yes e ↦
          let t : (leb (256 + (phy_pn + 1)) i && ltb i (256 + (phy_pn + 1 + left))) ≡ false =
            ground arith in
          let u : (leb (256 + phy_pn) i && ltb i (256 + (phy_pn + suc left))) ≡ true =
            ground arith in
          let d : phy_pn ≡ i - 256 = omega arith in
          rw at (
            rest
            ∙ rw (t, u)
                (ap (write table (256 + phy_pn) v) e
                  ∙ write_self table (256 + phy_pn) v
                  ∙ ap (λ (k : ℕ). giga_pte flags_rw (shl64 k 30)) d))
      | no ne ↦
          let t : (leb (256 + (phy_pn + 1)) i && ltb i (256 + (phy_pn + 1 + left)))
              ≡ (leb (256 + phy_pn) i && ltb i (256 + (phy_pn + suc left))) =
            ground arith in
          rw at (rest ∙ rw (t, write_ne table (256 + phy_pn) i v ne) refl)
    ]

map_image_lem :
    (left : ℕ) (table : ℕ → ℕ) (kimage_pa kimage_va kimage_va_end : ℕ)
    → kimage_va < kimage_va_end
    → kimage_va_end ≤ kimage_va + 2 ^ 30
    → kimage_va + 2 ^ 30 < 2 ^ 64
    → map_image (suc (suc left)) table kimage_pa kimage_va kimage_va_end
      ≡ write table (va_get_pn 2 kimage_va) (giga_pte flags_rwx kimage_pa)
unfolding map_image
map_image_lem left table kimage_pa kimage_va kimage_va_end lo hi small =
    let t : ltb kimage_va kimage_va_end ≡ true = ground arith in
    let e : add64 kimage_va (2 ^ 30) ≡ kimage_va + 2 ^ 30 = omega arith in
    let u : ltb (kimage_va + 2 ^ 30) kimage_va_end ≡ false = ground arith in rw (t, e, u) refl

setup_run :
    (table : ℕ → ℕ) (kimage_pa kimage_va kimage_va_end : ℕ)
    → setup_mmu table kimage_pa kimage_va kimage_va_end
      ≡ map_image
          (suc (suc 510))
          (map_pma (map_identity table 0 256) 0 128)
          kimage_pa
          kimage_va
          kimage_va_end
unfolding setup_mmu
setup_run table kimage_pa kimage_va kimage_va_end = refl

entries :
    (table f g : ℕ → ℕ) (pn v i : ℕ)
    → f i ≡ (if leb 0 i && ltb i (0 + 256) then giga_pte flags_rwx (shl64 i 30) else table i)
    → g i ≡ (
        if leb (256 + 0) i && ltb i (256 + (0 + 128))
        then giga_pte flags_rw (shl64 (i - 256) 30)
        else f i)
    → write g pn v i ≡ (
        if i == pn
        then v
        else if ltb i 256
        then giga_pte flags_rwx (i * 2 ^ 30)
        else if ltb i 384
        then giga_pte flags_rw ((i - 256) * 2 ^ 30)
        else table i)
entries table f g pn v i ef eg = elim (ℕ_discrete i pn) [
  | yes e ↦
      let t : (i == pn) ≡ true = ground arith in rw t (ap (write g pn v) e ∙ write_self g pn v)
  | no ne ↦
      let t : (i == pn) ≡ false = ground arith in
      rw t (
        write_ne g pn i v ne ∙ elim (dec_lt i 256) [
          | yes l ↦
              let u : ltb i 256 ≡ true = ground arith in
              let e : shl64 i 30 ≡ i * 2 ^ 30 = omega arith in
              ground (arith, eg, ef, ap (giga_pte flags_rwx) e)
          | no nl ↦ elim (dec_lt i 384) [
            | yes l ↦
                let e : shl64 (i - 256) 30 ≡ (i - 256) * 2 ^ 30 = omega arith in
                ground (arith, eg, ap (giga_pte flags_rw) e)
            | no nh ↦ ground (arith, eg, ef)
          ]
        ])
]

-- With a kernel image of a gigabyte at most, the page table of the boot maps the first 256 gigabytes of
-- addresses to themselves, the next 128 to the first 128 of physical memory without PTE_FLAG_X, and the
-- gigabyte of the image to the image, which counts where these meet; no other entry is written.
pub setup_mmu_lem :
    (table : ℕ → ℕ) (kimage_pa kimage_va kimage_va_end i : ℕ)
    → kimage_va < kimage_va_end
    → kimage_va_end ≤ kimage_va + 2 ^ 30
    → kimage_va + 2 ^ 30 < 2 ^ 64
    → setup_mmu table kimage_pa kimage_va kimage_va_end i ≡ (
        if i == va_get_pn 2 kimage_va
        then giga_pte flags_rwx kimage_pa
        else if ltb i 256
        then giga_pte flags_rwx (i * 2 ^ 30)
        else if ltb i 384
        then giga_pte flags_rw ((i - 256) * 2 ^ 30)
        else table i)
setup_mmu_lem table kimage_pa kimage_va kimage_va_end i lo hi small =
    ap (λ (f : ℕ → ℕ). f i)
      (setup_run table kimage_pa kimage_va kimage_va_end
        ∙ map_image_lem 510 (map_pma (map_identity table 0 256) 0 128) kimage_pa kimage_va
            kimage_va_end lo hi small)
    ∙ entries table (map_identity table 0 256) (map_pma (map_identity table 0 256) 0 128)
        (va_get_pn 2 kimage_va) (giga_pte flags_rwx kimage_pa) i (map_identity_lem 256 table 0 i)
        (map_pma_lem 128 (map_identity table 0 256) 0 i (omega arith))
