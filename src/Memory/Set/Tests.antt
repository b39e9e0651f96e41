-- ===== src/Memory/Set/Tests.antt =====
-- A `MemorySet` on concrete values.
use maturin.Prelude.{
  ℕ, ◌≡◌, true, false, Bool-cases, le_or_lt, ap, inl, inr, leb, ltb, ◌&&◌, if◌then◌else◌, none,
  some, [], ◌∷◌, refl, arith,
}
use maturin.Memory.Pma.Lazy.{World}
use maturin.Memory.Table.Tests.{mapped_table, mapped_table-IsTree, grown_use}
use maturin.Memory.Area.Lazy.{lazy, lazy-IsLawful}
use maturin.Memory.Entry.{is_valid, flags, addr, set_all}
use maturin.Memory.Area.{contains}
use maturin.Memory.Area.Entries.{entry-same_page}
use maturin.Memory.Area.Flags.{carries}
use maturin.Memory.Table.Walk.{entry}
use maturin.Fd.Manager.{is_some}
use maturin.Memory.Area.Seg.{Space}
use maturin.Memory.Area.Segments.{Spans, vm_area-IsLawful}
use maturin.Memory.Area.Tests.{no_files, two_pages, state, two_pages-Fits, state-Agrees}
use maturin.Memory.Set.{MemorySet, munmap, mprotect}
use maturin.Memory.Set.Spec.{IsInOrder, flags_at, carries_at, munmap_lem, mprotect-flags_at}
use maturin.Range.Protect.{repaint}

-- The set of the one area, from 0x5000 to 0x7000.
abbrev one_area : MemorySet (lazy no_files)
one_area = record {
  area_map = record {
    segments = (0x5000, record { start = 0x5000; end = 0x7000; segment = two_pages }) ∷ [];
    args = 0;
  };
  is_user = true;
}

abbrev space : Space (World no_files)
space = record { pt = mapped_table; world = state.world }

two_pages-Spans : Spans (lazy no_files) (lazy-IsLawful no_files) two_pages 0x5000 0x7000 space
unfolding contains is_valid flags addr set_all maturin.Memory.Table.write_entry
    maturin.Memory.Table.zero maturin.Memory.Addr.pte_idx_of_virt_addr
two_pages-Spans = record {
  starts = refl;
  ends = refl;
  fits = two_pages-Fits;
  agrees = state-Agrees;
  tree = (grown_use, mapped_table-IsTree);
  flagged = λ x. elim (Bool-cases (leb 0x5000 x && ltb x 0x7000)) [
    | inr out ↦ rw out refl
    | inl within ↦ rw within (elim (le_or_lt 0x6000 x) [
      | inl second ↦
          ap (carries 6) (entry-same_page mapped_table 0x6000 x (ground (arith, within, second)))
      | inr first ↦
          ap (carries 6) (entry-same_page mapped_table 0x5000 x (ground (arith, within, first)))
    ])
  ];
}

one_area-IsInOrder : IsInOrder (lazy no_files) (lazy-IsLawful no_files) one_area space
unfolding vm_area-IsLawful
one_area-IsInOrder = record { chain = omega arith; live = (two_pages-Spans, tt) }

munmap_lem_example :
    (self' : MemorySet (lazy no_files)) × (w' : Space (World no_files)) × (munmap
        (lazy no_files)
        one_area
        0x6000
        0x8000
        space
      ≡ some ((true, self'), w'))
    × IsInOrder (lazy no_files) (lazy-IsLawful no_files) self' w'
    × ((p : ℕ)
        → flags_at (lazy no_files) (lazy-IsLawful no_files) self' p ≡ (
            if leb 0x6000 p && ltb p 0x8000
            then none
            else flags_at (lazy no_files) (lazy-IsLawful no_files) one_area p))
    × ((p : ℕ)
        → (leb 0x6000 p
            && ltb p 0x8000
            && is_some (flags_at (lazy no_files) (lazy-IsLawful no_files) one_area p)
            && is_valid (entry w'.pt p))
          ≡ false)
munmap_lem_example =
    munmap_lem (lazy no_files) (lazy-IsLawful no_files) one_area space 0x6000 0x8000 refl refl
      (omega arith) one_area-IsInOrder

mprotect-flags_at_example :
    (self' : MemorySet (lazy no_files)) × (w' : Space (World no_files)) × (mprotect
        (lazy no_files)
        one_area
        0x5000
        0x6000
        2
        space
      ≡ some ((true, self'), w'))
    × IsInOrder (lazy no_files) (lazy-IsLawful no_files) self' w'
    × ((p : ℕ)
        → flags_at (lazy no_files) (lazy-IsLawful no_files) self' p ≡ (
            if leb 0x5000 p && ltb p 0x6000
            then repaint 2 (flags_at (lazy no_files) (lazy-IsLawful no_files) one_area p)
            else flags_at (lazy no_files) (lazy-IsLawful no_files) one_area p))
    × ((p : ℕ)
        → carries_at
            (lazy no_files)
            (lazy-IsLawful no_files)
            (flags_at (lazy no_files) (lazy-IsLawful no_files) self' p)
            (entry w'.pt p)
          ≡ true)
mprotect-flags_at_example =
    mprotect-flags_at (lazy no_files) (lazy-IsLawful no_files) one_area space 0x5000 0x6000 2 refl
      refl (omega arith) (omega arith) one_area-IsInOrder
