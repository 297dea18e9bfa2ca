-- ===== src/Vmem/Unmap.antt =====
-- `vm_unmappages` of pages that stay allocated.
use kalorona_kernel.Common.{
  ℕ, zero, suc, ◌+◌, ◌-◌, ◌*◌, ◌%◌, ◌^◌, ◌≤◌, ◌<◌, ◌≡◌, ◌≢◌, refl, ◌∙◌, sym, subst, Bool, true,
  false, arith, if◌then◌else◌, ◌==◌, ◌&&◌, ◌||◌, not, leb, ltb, write, bit_and, done,
}
use kalorona_kernel.Common.Bits.{bit_and_mask}
use kalorona_kernel.Common.Word.{add64, shr}
use kalorona_kernel.Common.Page.{page_size, page_shift}
use kalorona_kernel.Vmem.{Vm, is_valid, vm_walk, unmap_from, vm_unmappages, top_level}
use kalorona_kernel.Vmem.Pte.{is_valid_lem}
use kalorona_kernel.Vmem.Tree.{find, same_from}
use kalorona_kernel.Vmem.Leaf.{leaf_write-IsTree, look-leaf_write}
use kalorona_kernel.Vmem.Space.{IsVm, entry_of, same_from_lem}
use kalorona_kernel.Vmem.Translate.{walk-find, find-ne_zero}

-- A mapped page: a valid entry with more flags than the valid bit.
abbrev pub IsLeaf : ℕ → Type 0
IsLeaf pte = (is_valid pte ≡ true) × (pte % 1024 ≢ 1)

-- The pages from `first` on are not mapped any more; no other page has changed, and the page allocator
-- and all bytes are as before.
pub record Unmapped (v : Vm) (root first n : ℕ) (v' : Vm) : Type 0 where
  pub is_vm : IsVm v' root
  pub same_kmem : v'.kmem ≡ v.kmem
  pub same_bytes : v'.bytes ≡ v.bytes
  pub entries :
      (x : ℕ)
      → x < 2 ^ 39
      → entry_of v' root x
        ≡ (if leb first x && ltb x (first + n * 4096) then 0 else entry_of v root x)

broken : ℕ → ℕ → Bool
broken r pte = r == 0 || not (is_valid pte) || (bit_and pte 1023 == 1)

unmap_step :
    (v : Vm) (root first n : ℕ)
    → first + 4096 < 2 ^ 64
    → find v.words root first top_level ≢ 0
    → IsLeaf (v.words (find v.words root first top_level))
    → unmap_from v root first false (suc n)
      ≡ unmap_from
          (record v { words = write v.words (find v.words root first top_level) 0 })
          root
          (first + 4096)
          false
          n
unfolding unmap_from vm_walk
unmap_step v root first n hf nz (ok, more) =
    let e : add64 first page_size ≡ first + 4096 = omega arith in
    let z : (find v.words root first 2 == 0) ≡ false = ground arith in
    let f : (bit_and (v.words (find v.words root first 2)) 1023 == 1) ≡ false =
      ground (arith, bit_and_mask 10 (v.words (find v.words root first 2))) in
    rw (walk-find 2 v root first, z, ok, f, e) refl

-- One page.
Unmapped-one :
    (v : Vm) (root first : ℕ) (vm : IsVm v root)
    → find v.words root first top_level ≢ 0
    → first % 4096 ≡ 0
    → first < 2 ^ 39
    → Unmapped v root first 1
        (record v { words = write v.words (find v.words root first top_level) 0 })
Unmapped-one v root first vm nz al small = record {
  is_vm = record {
    height = vm.height;
    path = vm.path;
    tree = leaf_write-IsTree vm.tree 2 root first 0 vm.at_root nz;
    at_root = vm.at_root;
    valid = vm.valid;
  };
  same_kmem = refl;
  same_bytes = refl;
  entries = λ x hx.
      look-leaf_write vm.tree 2 root first 0 vm.at_root nz x
      ∙ in_page first x (entry_of v root x) al small hx;
}
  where
    in_page :
        (first x old : ℕ)
        → first % 4096 ≡ 0
        → first < 2 ^ 39
        → x < 2 ^ 39
        → (if same_from top_level first x then 0 else old)
          ≡ (if leb first x && ltb x (first + 1 * 4096) then 0 else old)
    in_page first x old al hf hx = let s = same_from_lem first x hf hx in rw s (ground arith)

unmap_from_lem :
    (n : ℕ) (v : Vm) (root first : ℕ)
    → IsVm v root
    → first % 4096 ≡ 0
    → first + n * 4096 ≤ 2 ^ 39
    → ((x : ℕ) → first ≤ x → x < first + n * 4096 → IsLeaf (entry_of v root x))
    → (v' : Vm) × (unmap_from v root first false n ≡ done v') × Unmapped v root first n v'
unfolding unmap_from
unmap_from_lem zero v root first vm al hf all = (
  v,
  refl,
  record { is_vm = vm; same_kmem = refl; same_bytes = refl; entries = λ x hx. ground arith },
)
unmap_from_lem (suc n) v root first vm al hf all =
    let (ok, more) = all first (omega arith) (omega arith) in
    let (nz, e) =
      find-ne_zero first vm (λ z. absurd (ground (arith, is_valid_lem (entry_of v root first)))) in
    let one = Unmapped-one v root first vm nz al (omega arith) in
    let (v', run, rest) =
      unmap_from_lem n (record v { words = write v.words (find v.words root first 2) 0 }) root
        (first + 4096) one.is_vm (omega arith) (omega arith)
        (λ x lo hi.
          subst IsLeaf (sym (one.entries x (omega arith) ∙ ground arith))
            (all x (omega arith) (omega arith))) in
    (
      v',
      unmap_step v root first n (omega arith) nz (subst IsLeaf (sym e) (ok, more)) ∙ run,
      record {
        is_vm = rest.is_vm;
        same_kmem = rest.same_kmem;
        same_bytes = rest.same_bytes;
        entries = λ x hx. rest.entries x hx ∙ ground (arith, one.entries x hx);
      },
    )

-- `vm_unmappages` without freeing, from a multiple of the page size on, of user pages that are all
-- mapped, never panics: the pages are not mapped any more, and nothing else has changed.
pub vm_unmappages_lem :
    (v : Vm) (root va page_count : ℕ)
    → IsVm v root
    → va % 4096 ≡ 0
    → va + page_count * 4096 ≤ 2 ^ 39
    → ((x : ℕ) → va ≤ x → x < va + page_count * 4096 → IsLeaf (entry_of v root x))
    → (v' : Vm) × (vm_unmappages v root va page_count false ≡ done v')
      × Unmapped v root va page_count v'
unfolding vm_unmappages
vm_unmappages_lem v root va page_count vm al hv all =
    let (v', run, un) = unmap_from_lem page_count v root va vm al hv all in
    let bound : add64 va ((page_size * page_count) % 2 ^ 64) ≡ va + page_count * 4096 =
      omega arith in
    let rounds : (if ltb va (va + page_count * 4096)
          then shr (va + page_count * 4096 - va) page_shift
          else 0)
        ≡ page_count =
      ground arith in
    let aligned : (bit_and va 511 == 0) ≡ true = ground (arith, bit_and_mask 9 va) in
    (v', rw (aligned, bound, rounds) run, un)
