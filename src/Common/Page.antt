-- ===== src/Common/Page.antt =====
-- The page and address arithmetic of kernel/include/kmem.h and kernel/include/vmem.h, in the Sv39
-- mode that the build takes by default, and what it means on addresses in range.
use Prim.Native.Nat.{ℕ, ◌+◌, ◌-◌, ◌*◌, ◌/◌, ◌%◌, ◌^◌, ◌<◌, bit_and, bit_or}
use mathlib.Core.Path.{◌≡◌, ◌∙◌, ap}
use native.Mathlib.Omega.{arith}
use kalorona_kernel.Common.Bits.{bit_and_mask, bit_and_high_mask, bit_or_split}
use kalorona_kernel.Common.Word.{add64, sub64, not64}

abbrev pub page_size : ℕ
page_size = 0x1000

abbrev pub page_shift : ℕ
page_shift = 12

-- PAGE_ROUND_DOWN
unfoldable pub page_round_down : ℕ → ℕ
page_round_down x = bit_and x (not64 (page_size - 1))

-- PAGE_ROUND_UP
unfoldable pub page_round_up : ℕ → ℕ
page_round_up x = bit_and (sub64 (add64 x page_size) 1) (not64 (page_size - 1))

abbrev pub va_kernel_begin : ℕ
va_kernel_begin = 0xFFFFFFC000000000

-- PMA_VA2PA
unfoldable pub pma_va2pa : ℕ → ℕ
pma_va2pa va = bit_and va (not64 va_kernel_begin)

-- PMA_PA2VA
unfoldable pub pma_pa2va : ℕ → ℕ
pma_pa2va pa = bit_or pa va_kernel_begin

pub page_round_down_lem : (x : ℕ) → x < 2 ^ 64 → page_round_down x ≡ x / page_size * page_size
unfolding page_round_down
page_round_down_lem x h = bit_and_high_mask 52 12 x h

pub page_round_up_lem :
    (x : ℕ) → x + 4095 < 2 ^ 64 → page_round_up x ≡ (x + 4095) / page_size * page_size
unfolding page_round_up
page_round_up_lem x h =
    ap (λ (t : ℕ). bit_and t (not64 4095)) (omega arith) ∙ bit_and_high_mask 52 12 (x + 4095) h

pub pma_pa2va_lem : (pa : ℕ) → pa < 2 ^ 38 → pma_pa2va pa ≡ pa + va_kernel_begin
unfolding pma_pa2va
pma_pa2va_lem pa h = bit_or_split 38 (2 ^ 26 - 1) pa h

pub pma_va2pa_lem : (va : ℕ) → pma_va2pa va ≡ va % 2 ^ 38
unfolding pma_va2pa
pma_va2pa_lem va = bit_and_mask 38 va

-- The two translations are inverse on the physical addresses that the kernel maps.
pub va2pa-pa2va : (pa : ℕ) → pa < 2 ^ 38 → pma_va2pa (pma_pa2va pa) ≡ pa
va2pa-pa2va pa h = omega (arith, pma_va2pa_lem (pma_pa2va pa), pma_pa2va_lem pa h)
