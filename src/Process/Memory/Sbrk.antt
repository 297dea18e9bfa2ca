-- ===== src/Process/Memory/Sbrk.antt =====
-- `syscall_sbrk` of more than the largest block.
use kalorona_kernel.Common.{
  ℕ, zero, suc, ◌+◌, ◌*◌, ◌^◌, ◌≤◌, ◌<◌, ◌≡◌, refl, ap, true, false, not, ◌&&◌, ltb, leb, some,
  arith, panicked, inl, inr, Bool-cases, dec_lt, ℕ_discrete,
}
use kalorona_kernel.Common.Word.{add64, sub64, shl64}
use kalorona_kernel.Common.Page.{page_size}
use kalorona_kernel.Buddy.{Kmem, max_mem_order, kmem_alloc_pages}
use kalorona_kernel.Vmem.{Vm}
use kalorona_kernel.Process.Memory.{Image, va_user_begin, expand_order, expand, syscall_sbrk}
use native.Mathlib.Nat.{pow-le-pow_right}

page_lem : (ord : ℕ) → ord < 52 → shl64 page_size ord ≡ page_size * 2 ^ ord
page_lem ord h =
    let bound = pow-le-pow_right {n = 2} (omega arith) {i = ord} {j = 51} (omega arith) in
    omega arith

-- The loop ends with an order whose block is large enough.
expand_order_lem :
    (fuel target heap_vaddr ord : ℕ)
    → ord < 52
    → 52 ≤ fuel + ord
    → heap_vaddr < 2 ^ 62
    → target < 2 ^ 63
    → (found : ℕ) × (expand_order fuel target heap_vaddr ord ≡ some found)
      × (target ≤ heap_vaddr + page_size * 2 ^ found)
unfolding expand_order
expand_order_lem zero target heap_vaddr ord lo h low small = absurd (omega arith)
expand_order_lem (suc fuel) target heap_vaddr ord lo h low small =
    let size = page_lem ord lo in
    let bound = pow-le-pow_right {n = 2} (omega arith) {i = ord} {j = 51} (omega arith) in
    let whole : add64 heap_vaddr (shl64 page_size ord) ≡ heap_vaddr + page_size * 2 ^ ord =
      omega arith in
    elim (Bool-cases (ltb (add64 heap_vaddr (shl64 page_size ord)) target)) [
      | inr f ↦ (ord, rw (expand_order, f) refl, ground (arith, whole))
      | inl t ↦ elim (ℕ_discrete ord 51) [
        | yes e ↦
            let pow : 2 ^ ord ≡ 2 ^ 51 = ap (λ (n : ℕ). 2 ^ n) e in
            absurd (ground (arith, whole, pow))
        | no ne ↦
            let (found, run, enough) =
              expand_order_lem fuel target heap_vaddr (ord + 1) (omega arith) (omega arith) low
                small in
            (found, rw (expand_order, t) run, enough)
      ]
    ]

no_block : (k : Kmem) (ord : ℕ) → 11 ≤ ord → kmem_alloc_pages k ord ≡ panicked
unfolding kmem_alloc_pages
no_block k ord h =
    let t : leb max_mem_order ord ≡ true = ground arith in rw (kmem_alloc_pages, t) refl

expand_panics : (v : Vm) (im : Image) (delta ord : ℕ) → 11 ≤ ord → expand v im delta ord ≡ panicked
unfolding expand
expand_panics v im delta ord large = rw (expand, no_block v.kmem ord large) refl

-- `syscall_sbrk` of more than four megabytes beyond the heap panics: it asks the page allocator for a block of an order
-- that there is not.
pub syscall_sbrk-panicked :
    (v : Vm) (im : Image) (delta : ℕ)
    → im.heap_vaddr < 2 ^ 62
    → im.program_break + delta < 2 ^ 63
    → im.heap_vaddr + 2 ^ 22 < im.program_break + delta
    → syscall_sbrk v im delta ≡ some panicked
unfolding syscall_sbrk
syscall_sbrk-panicked v im delta low small far =
    let target = add64 im.program_break delta in
    let whole : target ≡ im.program_break + delta = omega arith in
    let (ord, run, enough) =
      expand_order_lem 53 target im.heap_vaddr 0 (omega arith) (omega arith) low (omega arith) in
    let large : 11 ≤ ord = elim (dec_lt ord 11) [
      | yes l ↦
          let bound = pow-le-pow_right {n = 2} (omega arith) {i = ord} {j = 10} (omega arith) in
          absurd (omega arith)
      | no nl ↦ omega arith
    ] in
    let up : (not (ltb delta (2 ^ 63)) && ltb (sub64 im.heap_vaddr va_user_begin) (sub64 0 delta))
        ≡ false =
      ground arith in
    let more : ltb im.heap_vaddr target ≡ true = ground (arith, whole) in
    rw (syscall_sbrk, up, more, run) (ap some (expand_panics v im delta ord large))
