-- ===== src/Vmem/Space.antt =====
-- An address space: a page table with its root and the page allocator behind it, and the entries
-- that it has for addresses.
use kalorona_kernel.Common.{
  ℕ, ◌+◌, ◌-◌, ◌*◌, ◌/◌, ◌^◌, ◌<◌, ◌≡◌, arith, if◌then◌else◌, ◌==◌, ◌&&◌, leb, ltb, bit_or,
}
use kalorona_kernel.Buddy.Give.{IsKmem, SameNode}
use kalorona_kernel.Vmem.{Vm, top_level, pa_pte, pte_flag_v}
use kalorona_kernel.Vmem.Pte.{va_get_pn_lem}
use kalorona_kernel.Vmem.Tree.{look, IsTree, same_from}

-- A page table with its root, and the page allocator that its tables come from.
pub record IsVm (v : Vm) (root : ℕ) : Type 0 where
  pub height : ℕ → ℕ
  pub path : ℕ → ℕ
  pub tree : IsTree v.kmem v.words height path
  pub at_root : height root ≡ 3
  pub valid : IsKmem v.kmem

-- The entry of level 0 for an address; 0 if a table is missing.
abbrev pub entry_of : Vm → ℕ → ℕ → ℕ
entry_of v root va = look v.words root va top_level

abbrev pub leaf : ℕ → ℕ → ℕ
leaf pa flags = bit_or (bit_or (pa_pte pa) pte_flag_v) flags

-- Below 2 ^ 39 an address takes the way of its page.
pub same_from_lem :
    (va va' : ℕ)
    → va < 2 ^ 39
    → va' < 2 ^ 39
    → same_from top_level va va' ≡ (va / 4096 == va' / 4096)
same_from_lem va va' h h' = ground (
  arith,
  va_get_pn_lem 0 va,
  va_get_pn_lem 1 va,
  va_get_pn_lem 2 va,
  va_get_pn_lem 0 va',
  va_get_pn_lem 1 va',
  va_get_pn_lem 2 va',
)

-- Of the pages from `first` on, `m` are mapped to those from `pa` on; no other page has changed.
pub record Mapped (v : Vm) (root first pa flags m : ℕ) (v' : Vm) : Type 0 where
  pub is_vm : IsVm v' root
  pub same_node : SameNode v.kmem v'.kmem
  pub same_bytes : v'.bytes ≡ v.bytes
  pub entries :
      (x : ℕ)
      → x < 2 ^ 39
      → entry_of v' root x ≡ (
          if leb first x && ltb x (first + m * 4096)
          then leaf (pa + (x - first) / 4096 * 4096) flags
          else entry_of v root x)
