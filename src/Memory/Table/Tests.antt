-- ===== src/Memory/Table/Tests.antt =====
-- Page tables on concrete values.
use maturin.Prelude.{
  ℕ, ◌<◌, ◌≡◌, ◌⊎◌, true, not, ◌==◌, ◌&&◌, if◌then◌else◌, List, [], ◌∷◌, refl, arith,
}
use Prim.Native.Nat.{bit_or}
use maturin.Memory.Error.{
  Done, ok, err, page_table_frame_alloc_failed, page_table_page_already_mapped,
}
use maturin.Memory.Entry.{addr, flags, is_valid, set_all, mapped_flags}
use maturin.Memory.Table.{PageTable, Pages, new, map, set_entry_flags, unmap, query}
use maturin.Memory.Table.Tree.{Use, no_page, root, mid, leaf, IsTree, Unused}
use maturin.Memory.Table.Walk.{entry, same_page}
use maturin.Memory.Table.Grow.{assign, Leads-zero, with_page, with_page-IsTree}
use maturin.Memory.Table.Fresh.{no_pages}
use maturin.Memory.Table.Spec.{written, written-IsTree, entry-map}
use maturin.Memory.Table.Unmap.{is_ok, entry-unmap}

abbrev any_bytes : Pages
any_bytes p i = 7

abbrev frames : List ℕ
frames = 0x1000 ∷ 0x2000 ∷ 0x3000 ∷ 0x4000 ∷ []

frames-Unused : Unused no_pages frames
frames-Unused = (refl, refl, omega arith, refl, (refl, refl, omega arith, refl, others))
  where
    others : Unused no_pages (0x3000 ∷ 0x4000 ∷ [])
    others = (refl, refl, omega arith, refl, (refl, refl, omega arith, refl, tt))

-- A table of the one page 0x1000.
abbrev empty_table : PageTable
empty_table = record {
  root_paddr = 0x1000;
  frames = 0x1000 ∷ [];
  memory = λ p i. 0;
  free = 0x2000 ∷ 0x3000 ∷ 0x4000 ∷ [];
}

abbrev only_root : ℕ → Use
only_root p = if p == 0x1000 then root else no_page

empty_table-IsTree : IsTree only_root empty_table
empty_table-IsTree = record {
  top = refl;
  leads = λ p i. Leads-zero only_root (only_root p) i;
  unused = (
    refl,
    refl,
    omega arith,
    refl,
    (refl, refl, omega arith, refl, (refl, refl, omega arith, refl, tt)),
  );
}

-- The same with the two pages on the way to the address 0x5000.
abbrev grown_table : PageTable
grown_table =
    with_page (with_page empty_table 0x1000 0 0x2000 (0x3000 ∷ 0x4000 ∷ [])) 0x2000 0 0x3000
      (0x4000 ∷ [])

abbrev pub grown_use : ℕ → Use
grown_use = assign (assign only_root 0x2000 (mid 0)) 0x3000 (leaf 0 0)

grown_table-IsTree : IsTree grown_use grown_table
grown_table-IsTree =
    with_page-IsTree (assign only_root 0x2000 (mid 0))
      (with_page empty_table 0x1000 0 0x2000 (0x3000 ∷ 0x4000 ∷ [])) 0x2000 0 0x3000 (0x4000 ∷ [])
      (with_page-IsTree only_root empty_table 0x1000 0 0x2000 (0x3000 ∷ 0x4000 ∷ [])
        empty_table-IsTree refl refl)
      refl refl

-- The same with the address 0x5000 mapped to 0x9000.
abbrev pub mapped_table : PageTable
mapped_table = written grown_table 0x3000 5 (set_all 0x9000 0xc7)

pub mapped_table-IsTree : IsTree grown_use mapped_table
mapped_table-IsTree =
    written-IsTree grown_use grown_table 0 0 0x3000 5 (set_all 0x9000 0xc7) grown_table-IsTree refl

mapped : is_valid (entry mapped_table 0x5000) ≡ true
unfolding is_valid flags addr set_all maturin.Memory.Table.write_entry maturin.Memory.Table.zero
    maturin.Memory.Addr.pte_idx_of_virt_addr
mapped = refl

entry-map_example :
    (pt' : PageTable) × (owner' : ℕ → Use) × IsTree owner' pt'
    × (((map mapped_table 0x6000 0xa000 6 ≡ (err page_table_frame_alloc_failed, pt'))
          × (1 < 2)
          × ((w : ℕ) → entry pt' w ≡ entry mapped_table w))
        ⊎ ((map mapped_table 0x6000 0xa000 6 ≡ (
          if is_valid (entry mapped_table 0x6000)
              then err page_table_page_already_mapped
              else ok tt,
          pt',
        ))
            × ((w : ℕ)
                → entry pt' w ≡ (
                    if not (is_valid (entry mapped_table 0x6000)) && true && same_page 0x6000 w
                    then set_all 0xa000 (bit_or 6 mapped_flags)
                    else entry mapped_table w))))
entry-map_example = entry-map grown_use mapped_table 0x6000 0xa000 6 mapped_table-IsTree

entry-unmap_example :
    (result : Done) × (pt' : PageTable) × (unmap mapped_table 0x5000 ≡ (result, pt'))
    × (is_ok result ≡ is_valid (entry mapped_table 0x5000))
    × IsTree grown_use pt'
    × (pt'.free ≡ 0x4000 ∷ [])
    × ((w : ℕ)
        → entry pt' w ≡ (
            if is_valid (entry mapped_table 0x5000) && same_page 0x5000 w
            then 0
            else entry mapped_table w))
entry-unmap_example = entry-unmap grown_use mapped_table 0x5000 mapped_table-IsTree
