-- ===== src/Memory/Addr.antt =====
-- kernel/src/memory/addr.rs: addresses, pages, and the three indices of the page table (Sv39).
use maturin.Prelude.{ℕ, ◌+◌, ◌-◌, ◌*◌, ◌/◌, ◌%◌, ◌^◌, ◌≤◌, ◌<◌, ◌≡◌, Bool, leb, usize_mod, arith}
use Prim.Native.Nat.{bit_xor}
use maturin.File.VirtFile.{page_size, page_offset}

abbrev pub phys_virt_offset : ℕ
phys_virt_offset = 0xffff_ffff_0000_0000

unfoldable pub phys_to_virt : ℕ → ℕ
phys_to_virt paddr = (paddr + phys_virt_offset) % usize_mod

unfoldable pub virt_to_phys : ℕ → ℕ
virt_to_phys vaddr = (usize_mod + vaddr - phys_virt_offset) % usize_mod

-- `addr & !(PAGE_SIZE - 1)`
unfoldable pub align_down : ℕ → ℕ
align_down addr = addr / page_size * page_size

unfoldable pub align_up : ℕ → ℕ
align_up addr = (addr + page_size - 1) % usize_mod / page_size * page_size

-- Whether a value of `size` bytes lies in two pages.
unfoldable pub cross_page : ℕ → ℕ → Bool
cross_page size addr = leb page_size (bit_xor addr ((addr + size) % usize_mod))

unfoldable pub page_count : ℕ → ℕ
page_count size = align_up size / page_size

unfoldable pub page_id_to_addr : ℕ → ℕ
page_id_to_addr page_id = page_id * page_size % usize_mod

-- `(vaddr >> 30) & 0x1ff` and so on.
unfoldable pub pte_idx_of_virt_addr : ℕ → ℕ × ℕ × ℕ
pte_idx_of_virt_addr vaddr =
    (vaddr / 2 ^ 30 % 0x200, vaddr / 2 ^ 21 % 0x200, vaddr / 2 ^ 12 % 0x200)

-- An address of 39 bits is made of its three indices and its offset in the page.
pub pte_idx_of_virt_addr_lem :
    (vaddr : ℕ)
    → vaddr < 2 ^ 39
    → ((pte_idx_of_virt_addr vaddr).0 * 2 ^ 30
          + (pte_idx_of_virt_addr vaddr).1 * 2 ^ 21
          + (pte_idx_of_virt_addr vaddr).2 * 2 ^ 12
          + page_offset vaddr
        ≡ vaddr)
unfolding pte_idx_of_virt_addr page_offset
pte_idx_of_virt_addr_lem vaddr h = omega arith

pub phys_to_virt-virt_to_phys :
    (addr : ℕ) → addr < usize_mod → phys_to_virt (virt_to_phys addr) ≡ addr
unfolding phys_to_virt virt_to_phys
phys_to_virt-virt_to_phys addr h = omega arith

-- `align_down` and `align_up` give the pages' bounds around an address.
pub align_lem :
    (addr : ℕ)
    → addr + page_size ≤ usize_mod
    → (align_down addr ≤ addr)
      × (addr < align_down addr + page_size)
      × (addr ≤ align_up addr)
      × (align_up addr < addr + page_size)
      × (align_down addr % page_size ≡ 0)
      × (align_up addr % page_size ≡ 0)
unfolding align_down align_up
align_lem addr h = (omega arith, omega arith, omega arith, omega arith, omega arith, omega arith)
