-- ===== src/Vmem/Setup.antt =====
-- kernel/boot/setup_mmu.c in Sv39 mode: the page table of the boot, one table of 512 entries for gigabytes.
pub mod Giga
use kalorona_kernel.Common.{
  ℕ, zero, suc, ◌+◌, ◌-◌, ◌*◌, ◌/◌, ◌%◌, ◌^◌, ◌≤◌, ◌<◌, ◌≡◌, ◌≢◌, refl, ◌∙◌, ap, sym, arith, Bool,
  true, false, ltb, leb, ◌==◌, if◌then◌else◌, bit_or, write, write_self, write_ne, ℕ_discrete,
  dec_lt,
}
use kalorona_kernel.Common.Word.{add64, shl64}
use kalorona_kernel.Vmem.{pa_pte, va_get_pn}

-- PTE_FLAG_V | PTE_FLAG_R | PTE_FLAG_W, and with PTE_FLAG_X
abbrev pub flags_rw : ℕ
flags_rw = 7

abbrev pub flags_rwx : ℕ
flags_rwx = 15

pub giga_pte : ℕ → ℕ → ℕ
unfolding pa_pte
giga_pte flags p_addr = bit_or flags (pa_pte p_addr)

-- The loop that keeps the physical memory at user addresses, with the entries left.
pub map_identity : (ℕ → ℕ) → ℕ → ℕ → ℕ → ℕ
unfolding giga_pte
map_identity table phy_pn zero = table
map_identity table phy_pn (suc left) =
    map_identity (write table phy_pn (giga_pte flags_rwx (shl64 phy_pn 30))) (phy_pn + 1) left

-- The loop that sets up the physical memory access.
pub map_pma : (ℕ → ℕ) → ℕ → ℕ → ℕ → ℕ
unfolding giga_pte
map_pma table phy_pn zero = table
map_pma table phy_pn (suc left) =
    map_pma (write table (bit_or phy_pn 256) (giga_pte flags_rw (shl64 phy_pn 30))) (phy_pn + 1)
      left

-- The loop that maps the kernel image, a gigabyte a round; the fuel counts the rounds.
pub map_image : ℕ → (ℕ → ℕ) → ℕ → ℕ → ℕ → ℕ → ℕ
unfolding giga_pte va_get_pn
map_image zero table kimage_pa kimage_va kimage_va_end = table
map_image (suc left) table kimage_pa kimage_va kimage_va_end =
    let next =
      map_image left (write table (va_get_pn 2 kimage_va) (giga_pte flags_rwx kimage_pa))
        (add64 kimage_pa (2 ^ 30)) (add64 kimage_va (2 ^ 30)) kimage_va_end in
    if ltb kimage_va kimage_va_end then next else table

-- VA_N_VPN - 3 is 0: one table, and the loop that connects tables has no round.
pub setup_mmu : (ℕ → ℕ) → ℕ → ℕ → ℕ → ℕ → ℕ
unfolding map_identity map_pma map_image
setup_mmu table kimage_pa kimage_va kimage_va_end =
    map_image 512 (map_pma (map_identity table 0 256) 0 128) kimage_pa kimage_va kimage_va_end
