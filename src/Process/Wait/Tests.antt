-- ===== src/Process/Wait/Tests.antt =====
-- A parent that waits for its child, which has ended: without an address for the exit state, and with one that its
-- page table does not map.
use kalorona_kernel.Common.{◌≡◌, refl, false, ◌⊎◌, some, [], ◌∷◌}
use kalorona_kernel.Common.Int.{pos}
use kalorona_kernel.Vmem.Samples.{blank}
use kalorona_kernel.Object.{Objects}
use kalorona_kernel.Process.{Proc, zombie, running, find_address}
use kalorona_kernel.Process.Wait.{Kernel, wait_round}
use kalorona_kernel.Process.Wait.Round.{Refused, Collected, Waiting, wait_round_lem}

abbrev parent : Proc
parent = record {
  address = 4096;
  pid = 1;
  state = running;
  killed = false;
  exit_state = pos 0;
  sleeping_chan = 0;
  parent = 0;
}

abbrev dead : Proc
dead = record parent { address = 8192; pid = 2; state = zombie; parent = 4096 }

abbrev no_objects : Objects
no_objects = record {
  pages = blank.kmem;
  headers = record { nxt = λ _. 0; prv = λ _. 0 };
  parent_block = λ _. 0;
  block = λ _. record {
    block_nxt = 0;
    used = 0;
    total = 0;
    slot_size = 0;
    page_count = 0;
    parent_manager = 0;
  };
  manager = λ _. record { object_size = 0; blocks = 0; manager_nxt = 0 };
  nodes = record { nxt = λ _. 0; prv = λ _. 0 };
  val = λ _. 0;
}

abbrev kernel : Kernel
kernel = record {
  procs = record { pid_counter = 2; proc_list = dead ∷ parent ∷ []; root_proc = 0 };
  vm = blank;
  objects = no_objects;
  image = λ _. record {
    kstack_vaddr = 0;
    stack_vaddr = 0x3FFFFF0000;
    heap_vaddr = 0x200000;
    program_break = 0x200000;
    pgtbl = 0;
  };
}

found : find_address kernel.procs.proc_list 4096 ≡ some parent
unfolding find_address
found = refl

wait_round_lem_example :
    let o = wait_round 280 24 kernel 4096 0x201000 in
    Refused 280 24 kernel 4096 0x201000 o
    ⊎ (Collected 280 24 kernel 4096 0x201000 o ⊎ Waiting 280 24 kernel 4096 parent o)
wait_round_lem_example = wait_round_lem 280 24 kernel 4096 0x201000 parent found
