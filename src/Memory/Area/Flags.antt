-- ===== src/Memory/Area/Flags.antt =====
-- The entries that areas write: a frame and its flags, and new flags.
use maturin.Prelude.{
  ℕ, zero, suc, ◌+◌, ◌*◌, ◌/◌, ◌%◌, ◌^◌, ◌<◌, ◌≡◌, true, Bool, not, ◌||◌, ◌==◌, if◌then◌else◌,
  usize_mod, inl, inr, some, refl, sym, ap, ◌∙◌, arith,
}
use Prim.Native.Nat.{bit_or}
use native.Mathlib.Nat.{pow-suc}
use maturin.Prelude.Bits.{bit, bit_or_halves, bit_or_disjoint, bit-bit_or}
use maturin.Memory.Addr.{pte_idx_of_virt_addr}
use maturin.Memory.Entry.{addr, is_valid, flags, set_all, set_flags, mapped_flags}
use maturin.Memory.Error.{ok}
use maturin.Memory.Table.{
  PageTable, get_addr_create, find_pte_create, set_flags_entry, set_entry_flags,
}
use maturin.Memory.Table.Tree.{Use, IsTree}
use maturin.Memory.Table.Walk.{entry, same_page, line0, line1, line2, Reaches, entry-Reaches}
use maturin.Memory.Table.Grow.{zero_invalid}
use maturin.Memory.Table.Spec.{written, written-IsTree, entry-written}
use maturin.Memory.Table.Unmap.{walk_cases}
use maturin.Memory.Area.Synced.{page_of}

bit_or_small : (k a b : ℕ) → a < 2 ^ k → b < 2 ^ k → bit_or a b < 2 ^ k
bit_or_small zero zero zero h l = h
bit_or_small zero zero (suc b) h l = absurd (omega arith)
bit_or_small zero (suc a) b h l = absurd (omega arith)
bit_or_small (suc k) a b h l = omega (
  arith,
  bit_or_halves a b,
  pow-suc 2 k,
  bit_or_small k (a / 2) (b / 2) (omega (arith, pow-suc 2 k)) (omega (arith, pow-suc 2 k)),
)

-- The entry that is written for a frame.
pub filled_entry :
    (paddr new_flags : ℕ)
    → new_flags < 2 ^ 8
    → (is_valid (set_all paddr (bit_or new_flags mapped_flags)) ≡ true)
      × (addr (set_all paddr (bit_or new_flags mapped_flags)) ≡ page_of paddr)
unfolding is_valid addr flags set_all
filled_entry paddr new_flags h =
    let low = bit_or new_flags mapped_flags in
    let high = paddr / 2 ^ 12 % 2 ^ 54 in
    let small : low < 2 ^ 10 =
      omega (arith, bit_or_small 8 new_flags mapped_flags h (omega arith)) in
    let fits : paddr / 2 ^ 12 * 2 ^ 10 % usize_mod ≡ high * 2 ^ 10 = omega arith in
    let all : bit_or (paddr / 2 ^ 12 * 2 ^ 10 % usize_mod) low ≡ high * 2 ^ 10 + low =
      ap (λ v. bit_or v low) fits ∙ bit_or_disjoint 10 high low small in
    let on : bit low 0 ≡ true = bit-bit_or 0 new_flags mapped_flags ∙ ground arith in
    (ground (arith, all, on), omega (arith, all, small))

-- New flags leave the address of an entry; it is valid, and has them.
pub reflagged :
    (bits new_flags : ℕ)
    → new_flags < 2 ^ 8
    → (is_valid (set_flags bits (bit_or new_flags mapped_flags)) ≡ true)
      × (addr (set_flags bits (bit_or new_flags mapped_flags)) ≡ addr bits)
      × (flags (set_flags bits (bit_or new_flags mapped_flags)) ≡ bit_or new_flags mapped_flags)
unfolding is_valid addr flags set_flags
reflagged bits new_flags h =
    let low = bit_or new_flags mapped_flags in
    let small : low < 2 ^ 8 = bit_or_small 8 new_flags mapped_flags h (omega arith) in
    let all : bit_or (bits / 2 ^ 8 * 2 ^ 8) low ≡ bits / 2 ^ 8 * 2 ^ 8 + low =
      bit_or_disjoint 8 (bits / 2 ^ 8) low small in
    let on : bit low 0 ≡ true = bit-bit_or 0 new_flags mapped_flags ∙ ground arith in
    (ground (arith, all, on, small), omega (arith, all, small), omega (arith, all, small))

-- That an entry is not valid, or has the flags of an area as its flags.
abbrev pub carries : ℕ → ℕ → Bool
carries area_flags bits = not (is_valid bits) || (flags bits == bit_or area_flags mapped_flags)

-- Where the pages on the way are there, `find_pte_create` adds none.
find_pte_create-Reaches :
    (pt : PageTable) (v p : ℕ)
    → Reaches pt (line0 v) (line1 v) p
    → find_pte_create pt v ≡ (some (p, line2 v), pt)
unfolding find_pte_create get_addr_create pte_idx_of_virt_addr
find_pte_create-Reaches pt v p way =
    let first : get_addr_create pt pt.root_paddr (line0 v)
        ≡ some (addr (pt.memory pt.root_paddr (line0 v)), pt) =
      rw (way.first, get_addr_create) refl in
    let second : get_addr_create pt (addr (pt.memory pt.root_paddr (line0 v))) (line1 v)
        ≡ some (p, pt) =
      rw (way.second, way.there, get_addr_create) refl in
    rw (first, second, find_pte_create) refl

-- `set_flags` of a mapped address.
pub set_entry_flags-mapped :
    (owner : ℕ → Use) (pt : PageTable) (v new_flags : ℕ)
    → IsTree owner pt
    → is_valid (entry pt v) ≡ true
    → (pt' : PageTable) × (set_entry_flags pt v new_flags ≡ (ok tt, pt'))
      × IsTree owner pt'
      × ((w : ℕ)
          → entry pt' w ≡ (
              if same_page v w
              then set_flags (entry pt v) (bit_or new_flags mapped_flags)
              else entry pt w))
unfolding set_entry_flags set_flags_entry
set_entry_flags-mapped owner pt v new_flags tree on = elim (walk_cases owner pt v tree) [
  | inl (stop, nothing) ↦ absurd (ground (arith, on, ap is_valid nothing, zero_invalid))
  | inr (p, o, way) ↦
      let here : pt.memory p (line2 v) ≡ entry pt v = sym (entry-Reaches pt v p way) in
      let bits = set_flags (entry pt v) (bit_or new_flags mapped_flags) in
      (
        written pt p (line2 v) bits,
        rw (find_pte_create-Reaches pt v p way, here, on, set_entry_flags) refl,
        written-IsTree owner pt (line0 v) (line1 v) p (line2 v) bits tree o,
        λ w. entry-written owner pt v p bits w tree o way,
      )
]
