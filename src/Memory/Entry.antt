-- ===== src/Memory/Entry.antt =====
-- kernel/src/memory/page_table.rs: `PageTableEntry`, as its bits. The flags are the low eight, so
-- `from_bits` on them never fails.
use maturin.Prelude.{ℕ, ◌+◌, ◌*◌, ◌/◌, ◌%◌, ◌^◌, ◌<◌, ◌≡◌, Bool, ◌==◌, usize_mod, ap, ◌∙◌, arith}
use Prim.Native.Nat.{bit_or}
use maturin.Prelude.Bits.{bit, bit_or_disjoint}
use maturin.File.VirtFile.{page_size}

abbrev pub valid_flag : ℕ
valid_flag = 1

-- VALID, ACCESS and DIRTY.
abbrev pub mapped_flags : ℕ
mapped_flags = 0xc1

unfoldable pub addr : ℕ → ℕ
addr bits = bits / 2 ^ 10 % 2 ^ 44 * 2 ^ 12

unfoldable pub flags : ℕ → ℕ
flags bits = bits % 2 ^ 8

unfoldable pub is_empty : ℕ → Bool
is_empty bits = flags bits == 0

unfoldable pub is_valid : ℕ → Bool
is_valid bits = bit (flags bits) 0

unfoldable pub readable : ℕ → Bool
readable bits = bit (flags bits) 1

unfoldable pub writable : ℕ → Bool
writable bits = bit (flags bits) 2

unfoldable pub executable : ℕ → Bool
executable bits = bit (flags bits) 3

unfoldable pub set_addr : ℕ → ℕ → ℕ
set_addr bits paddr = bit_or (paddr / 2 ^ 12 % 2 ^ 44 * 2 ^ 10) (bits % 2 ^ 8)

unfoldable pub set_flags : ℕ → ℕ → ℕ
set_flags bits new_flags = bit_or (bits / 2 ^ 8 * 2 ^ 8) new_flags

unfoldable pub set_all : ℕ → ℕ → ℕ
set_all paddr new_flags = bit_or (paddr / 2 ^ 12 * 2 ^ 10 % usize_mod) new_flags

-- The address of a page, below 2 ^ 56, and flags: `set_all` stores both; `set_flags` then changes
-- the flags alone, and `set_addr` the address alone.
pub set_all_lem :
    (paddr other new_flags more : ℕ)
    → paddr % page_size ≡ 0
    → paddr < 2 ^ 56
    → other % page_size ≡ 0
    → other < 2 ^ 56
    → new_flags < 2 ^ 8
    → more < 2 ^ 8
    → (addr (set_all paddr new_flags) ≡ paddr)
      × (flags (set_all paddr new_flags) ≡ new_flags)
      × (addr (set_flags (set_all paddr new_flags) more) ≡ paddr)
      × (flags (set_flags (set_all paddr new_flags) more) ≡ more)
      × (addr (set_addr (set_all paddr new_flags) other) ≡ other)
      × (flags (set_addr (set_all paddr new_flags) other) ≡ new_flags)
unfolding addr flags set_all set_flags set_addr
set_all_lem paddr other new_flags more p ps o os f m =
    let all : bit_or (paddr / 2 ^ 12 * 2 ^ 10 % usize_mod) new_flags
        ≡ paddr / 2 ^ 12 * 2 ^ 10 + new_flags =
      let fits : paddr / 2 ^ 12 * 2 ^ 10 % usize_mod ≡ paddr / 2 ^ 12 * 2 ^ 10 = omega arith in
      ap (λ v. bit_or v new_flags) fits
      ∙ bit_or_disjoint 10 (paddr / 2 ^ 12) new_flags (omega arith) in
    let bits = set_all paddr new_flags in
    let kept : bit_or (bits / 2 ^ 8 * 2 ^ 8) more ≡ bits / 2 ^ 8 * 2 ^ 8 + more =
      bit_or_disjoint 8 (bits / 2 ^ 8) more m in
    let moved : bit_or (other / 2 ^ 12 % 2 ^ 44 * 2 ^ 10) (bits % 2 ^ 8)
        ≡ other / 2 ^ 12 % 2 ^ 44 * 2 ^ 10 + bits % 2 ^ 8 =
      bit_or_disjoint 10 (other / 2 ^ 12 % 2 ^ 44) (bits % 2 ^ 8) (omega arith) in
    (
      omega (arith, all),
      omega (arith, all),
      omega (arith, all, kept),
      omega (arith, all, kept),
      omega (arith, all, moved),
      omega (arith, all, moved),
    )
