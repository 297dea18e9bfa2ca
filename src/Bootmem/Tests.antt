-- ===== src/Bootmem/Tests.antt =====
-- A node of 16 pages from page 0x80000 on, the first four in use, at concrete calls.
use kalorona_kernel.Common.{ℕ, ◌^◌, ◌≡◌, refl, arith, write, done, panicked, ◌>>=◌, inr, subst, sym}
use kalorona_kernel.Bitmap.{BitMap, IsBytes, test_bit}
use kalorona_kernel.Bootmem.{Bootmem, bootmem_reserve, bootmem_free, bootmem_alloc}
use kalorona_kernel.Bootmem.Bits.{AllAre, Filled}
use kalorona_kernel.Bootmem.Reserve.{
  IsValid, Inside, bootmem_reserve-done, bootmem_free-done, bootmem_reserve-panicked, free-reserve,
}
use kalorona_kernel.Bootmem.Alloc.{Allocated, bootmem_alloc-Allocated}

abbrev low_four : BitMap
unfolding write
low_four = write (λ _. 0) 0 0x0f

-- 100 bytes of page 3 are taken
abbrev node : Bootmem
node = record {
  begin_ppn = 0x80000;
  num_ppn = 16;
  mem_map_addr = 0xFFFFFFC080000000;
  mem_map = low_four;
  mem_map_size = 2;
  last_page = 3;
  last_page_offset = 100;
}

node-IsValid : IsValid node
unfolding write test_bit
node-IsValid = record {
  bytes = λ i. ground arith;
  small = omega arith;
  last_marked = λ _. (omega arith, refl);
  last_offset = omega arith;
}

-- page 5 of the node, and page 2
page_five : Inside node 0x80005000 10
page_five = record { no_wrap = omega arith; above = omega arith; below = omega arith }

five_free : AllAre 0 5 1 low_four
unfolding test_bit write
five_free j lo hi = let e : j ≡ 5 = omega arith in subst (λ k. test_bit low_four k ≡ 0) (sym e) refl

page_two : Inside node 0x80002000 10
page_two = record { no_wrap = omega arith; above = omega arith; below = omega arith }

two_marked : AllAre 1 2 1 low_four
unfolding test_bit write
two_marked j lo hi =
    let e : j ≡ 2 = omega arith in subst (λ k. test_bit low_four k ≡ 1) (sym e) refl

bootmem_reserve-done_example :
    (g : BitMap) × (bootmem_reserve node 0x80005000 10 ≡ done (record node { mem_map = g }))
    × IsBytes g
    × Filled 1 5 1 low_four g
bootmem_reserve-done_example = bootmem_reserve-done 0x80005000 10 node-IsValid page_five five_free

bootmem_free-done_example :
    (g : BitMap) × (bootmem_free node 0x80002000 10 ≡ done (record node { mem_map = g }))
    × IsBytes g
    × Filled 0 2 1 low_four g
bootmem_free-done_example = bootmem_free-done 0x80002000 10 node-IsValid page_two two_marked

-- page 3 is marked
bootmem_reserve-panicked_example : bootmem_reserve node 0x80003000 0x2000 ≡ panicked
unfolding test_bit write
bootmem_reserve-panicked_example =
    bootmem_reserve-panicked 0x80003000 0x2000 node-IsValid 0x80003 (omega arith) (omega arith)
      (omega arith) (inr (inr refl))

free-reserve_example :
    (g : BitMap) × ((bootmem_reserve node 0x80005000 10 >>= λ v. bootmem_free v 0x80005000 10)
      ≡ done (record node { mem_map = g }))
    × ((j : ℕ) → test_bit g j ≡ test_bit low_four j)
free-reserve_example = free-reserve 0x80005000 10 node-IsValid page_five five_free

-- 5000 bytes at an alignment of 8: they start at byte 104 of page 3.
bootmem_alloc-Allocated_example :
    Allocated node (λ _. 1) 5000 3 (bootmem_alloc node (λ _. 1) 5000 (2 ^ 3) 0)
bootmem_alloc-Allocated_example =
    bootmem_alloc-Allocated (λ _. 1) 5000 3 0 node-IsValid (omega arith) (omega arith) (omega arith)
