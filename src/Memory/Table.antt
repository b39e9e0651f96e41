-- ===== src/Memory/Table.antt =====
-- kernel/src/memory/page_table.rs: `PageTable`. The pages of the table stand in a memory, which
-- gives the bits of each entry by the page's address and the index; `Frame::new` takes the first of
-- the free frames. A reference to an entry is the page's address and the index.
pub mod Tree
pub mod Walk
pub mod Grow
pub mod Extend
pub mod Create
pub mod Unmap
pub mod Fresh
pub mod Spec
pub mod Tests
use maturin.Prelude.{
  ℕ, ◌+◌, Bool, not, ◌==◌, ◌&&◌, if◌then◌else◌, Option, none, some, List, [], ◌∷◌, ◌++◌, leb, ltb,
}
use Prim.Native.Nat.{bit_or}
use maturin.Memory.Error.{
  Done, ok, err, page_table_frame_alloc_failed, page_table_page_already_mapped,
  page_table_page_not_mapped, page_table_virt_not_found,
}
use maturin.Memory.Addr.{pte_idx_of_virt_addr}
use maturin.Memory.Entry.{addr, is_valid, set_all, set_flags, valid_flag, mapped_flags}

abbrev pub Pages : Type 0
Pages = ℕ → ℕ → ℕ

pub record PageTable : Type 0 where
  pub root_paddr : ℕ
  pub frames : List ℕ
  pub memory : Pages
  pub free : List ℕ

unfoldable pub write_entry : Pages → ℕ → ℕ → ℕ → Pages
write_entry memory paddr idx bits p i = if p == paddr && i == idx then bits else memory p i

unfoldable pub zero : Pages → ℕ → Pages
zero memory paddr p i = if p == paddr then 0 else memory p i

unfoldable pub new : Pages → List ℕ → Option PageTable
new memory [] = none
new memory (frame ∷ rest) =
    some
      (record { root_paddr = frame; frames = frame ∷ []; memory = zero memory frame; free = rest })

-- `get_addr_create` on the entry at `paddr` and `idx`, with `alloc_and_set`.
unfoldable pub get_addr_create : PageTable → ℕ → ℕ → Option (ℕ × PageTable)
get_addr_create self paddr idx =
    if is_valid (self.memory paddr idx)
    then some (addr (self.memory paddr idx), self)
    else elim self.free [
      | [] ↦ none
      | frame ∷ rest ↦
          let bits = set_all frame valid_flag in
          some (
            addr bits,
            record self {
              frames = self.frames ++ frame ∷ [];
              memory = write_entry (zero self.memory frame) paddr idx bits;
              free = rest;
            },
          )
    ]

-- The entry, and the table with the pages that were added on the way to it.
unfoldable pub find_pte_create : PageTable → ℕ → Option (ℕ × ℕ) × PageTable
find_pte_create self vaddr =
    let (line0, line1, line2) = pte_idx_of_virt_addr vaddr in
    elim (get_addr_create self self.root_paddr line0) [
      | none ↦ (none, self)
      | some (p1, self1) ↦ elim (get_addr_create self1 p1 line1) [
        | none ↦ (none, self1)
        | some (p2, self2) ↦ (some (p2, line2), self2)
      ]
    ]

unfoldable pub find_pte : PageTable → ℕ → Option (ℕ × ℕ)
find_pte self vaddr =
    let (line0, line1, line2) = pte_idx_of_virt_addr vaddr in
    let e0 = self.memory self.root_paddr line0 in
    let e1 = self.memory (addr e0) line1 in
    if not (is_valid e0) then none else if not (is_valid e1) then none else some (addr e1, line2)

-- What `map` does with the entry that it found. Empty flags only make the pages on the way to it.
unfoldable pub map_entry : ℕ → ℕ → Option (ℕ × ℕ) × PageTable → Done × PageTable
map_entry paddr flags (none, self) = (err page_table_frame_alloc_failed, self)
map_entry paddr flags (some (p, i), self) =
    if is_valid (self.memory p i)
    then (err page_table_page_already_mapped, self)
    else if flags == 0
    then (ok tt, self)
    else (
      ok tt,
      record self {
        memory = write_entry self.memory p i (set_all paddr (bit_or flags mapped_flags));
      },
    )

unfoldable pub map : PageTable → ℕ → ℕ → ℕ → Done × PageTable
map self vaddr paddr flags = map_entry paddr flags (find_pte_create self vaddr)

unfoldable pub set_flags_entry : ℕ → Option (ℕ × ℕ) × PageTable → Done × PageTable
set_flags_entry flags (none, self) = (err page_table_frame_alloc_failed, self)
set_flags_entry flags (some (p, i), self) =
    if is_valid (self.memory p i)
    then (
      ok tt,
      record self {
        memory =
            write_entry self.memory p i (set_flags (self.memory p i) (bit_or flags mapped_flags));
      },
    )
    else (err page_table_page_not_mapped, self)

unfoldable pub set_entry_flags : PageTable → ℕ → ℕ → Done × PageTable
set_entry_flags self vaddr flags = set_flags_entry flags (find_pte_create self vaddr)

unfoldable pub unmap : PageTable → ℕ → Done × PageTable
unmap self vaddr = elim (find_pte self vaddr) [
  | none ↦ (err page_table_virt_not_found, self)
  | some (p, i) ↦
      if not (is_valid (self.memory p i))
      then (err page_table_page_not_mapped, self)
      else (ok tt, record self { memory = write_entry self.memory p i 0 })
]

unfoldable pub query : PageTable → ℕ → Option ℕ
query self vaddr = elim (find_pte self vaddr) [
  | none ↦ none
  | some (p, i) ↦ some (addr (self.memory p i))
]

-- The lines 510 and 511 of the root, which map the kernel.
unfoldable pub map_kernel_regions : PageTable → PageTable → PageTable
map_kernel_regions self kernel_pt = record self {
  memory =
      write_entry
        (write_entry self.memory self.root_paddr 510 (kernel_pt.memory kernel_pt.root_paddr 510))
        self.root_paddr 511 (kernel_pt.memory kernel_pt.root_paddr 511);
}
