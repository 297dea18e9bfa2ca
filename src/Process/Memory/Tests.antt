-- ===== src/Process/Memory/Tests.antt =====
-- `syscall_sbrk` of a process with one page of heap.
use kalorona_kernel.Common.{◌≡◌, refl, some, arith, done, panicked}
use kalorona_kernel.Vmem.Samples.{blank}
use kalorona_kernel.Process.Memory.{Image, syscall_sbrk}
use kalorona_kernel.Process.Memory.Sbrk.{syscall_sbrk-panicked}

abbrev one_page : Image
one_page = record {
  kstack_vaddr = 0;
  stack_vaddr = 0x3FFFFF0000;
  heap_vaddr = 0x201000;
  program_break = 0x200100;
  pgtbl = 0;
}

-- 16 bytes more, for which the page has room
stays : syscall_sbrk blank one_page 16 ≡ some (done (0x200100, blank, one_page))
unfolding syscall_sbrk
stays = refl

-- eight megabytes
syscall_sbrk-panicked_example : syscall_sbrk blank one_page 0x800000 ≡ some panicked
syscall_sbrk-panicked_example =
    syscall_sbrk-panicked blank one_page 0x800000 (omega arith) (omega arith) (omega arith)
