-- ===== src/Memory/Area/Tests.antt =====
-- Areas on concrete values.
use maturin.Prelude.{
  ℕ, zero, suc, ◌+◌, ◌*◌, ◌/◌, ◌<◌, ◌≤◌, ◌≡◌, ◌⊎◌, true, false, ◌&&◌, ◌==◌, if◌then◌else◌, none,
  some, [], ◌∷◌, refl, arith,
}
use Prim.Native.Nat.{bit_and}
use maturin.Fd.Manager.{is_some}
use maturin.File.VirtFile.{page_size}
use maturin.Memory.Addr.{align_down}
use maturin.Memory.Entry.{addr, flags, is_valid, set_all}
use maturin.Memory.Error.{
  Done, ok, err, page_fault_handler_access_denied, page_fault_handler_trap_at_valid_page,
  memory_run_out_of_memory,
}
use maturin.Memory.Backend.{FileStore}
use maturin.Memory.Table.{find_pte}
use maturin.Memory.Table.Tree.{IsTree}
use maturin.Memory.Table.Walk.{entry, same_page}
use maturin.Memory.Table.Tests.{mapped_table, mapped_table-IsTree, grown_use}
use maturin.Memory.Area.{VmArea, Store, contains, unmap_area, handle_page_fault}
use maturin.Memory.Area.Synced.{Matches, Fits, Agrees}
use maturin.Memory.Area.Entries.{make-Agrees}
use maturin.Memory.Area.Lazy.{lazy, lazy-IsLawful}
use maturin.Memory.Area.Unmap.{unmap_area_lem}
use maturin.Memory.Area.Fault.{handle_page_fault_lem}

abbrev pub no_files : FileStore
no_files = record {
  File = Unit {0};
  Files = Unit {0};
  read_from_offset = λ files file pos len. none;
  write_to_offset = λ files file pos bytes. (files, none);
}

-- Two pages: the first has the frame 0x9000, the second has none.
abbrev pub two_pages : VmArea (lazy no_files)
two_pages = record {
  start = 0x5000;
  end = 0x7000;
  flags = 6;
  pma = record {
    frames = some (record { start_paddr = 0x9000; bytes = [] }) ∷ none ∷ [];
    backend = none;
  };
}

abbrev pub state : Store (lazy no_files)
state = record {
  area = two_pages;
  pt = mapped_table;
  world = record { free = record { start_paddr = 0xb000; bytes = [] } ∷ []; files = tt };
}

pub two_pages-Fits : Fits (lazy no_files) (lazy-IsLawful no_files) two_pages
unfolding lazy-IsLawful
two_pages-Fits = record { from = refl; to = refl; low = omega arith; byte = omega arith }

pub state-Agrees : Agrees (lazy no_files) (lazy-IsLawful no_files) state 0
unfolding lazy-IsLawful is_valid flags addr set_all maturin.Memory.Table.write_entry
    maturin.Memory.Table.zero maturin.Memory.Addr.pte_idx_of_virt_addr
state-Agrees = make-Agrees (lazy no_files) (lazy-IsLawful no_files) state 0 each
  where
    each :
        (j : ℕ)
        → j < 2
        → 0 ≤ j
        → Matches
            ((lazy-IsLawful no_files).frame_at two_pages.pma j)
            (entry mapped_table (0x5000 + j * page_size))
    each zero h l = (refl, refl)
    each (suc zero) h l = refl
    each (suc (suc j)) h l = absurd (omega arith)

unmap_area_lem_example :
    (s' : Store (lazy no_files)) × (unmap_area (lazy no_files) state ≡ some (ok tt, s'))
    × IsTree grown_use s'.pt
    × (entry s'.pt 0x5008 ≡ (
        if contains (lazy no_files) two_pages 0x5008 && is_valid (entry mapped_table 0x5008)
        then 0
        else entry mapped_table 0x5008))
unmap_area_lem_example =
    unmap_area_lem (lazy no_files) (lazy-IsLawful no_files) grown_use state 0x5008
      mapped_table-IsTree two_pages-Fits state-Agrees (omega arith)

way_there : is_some (find_pte mapped_table 0x6000) ≡ true
unfolding find_pte is_valid flags addr set_all maturin.Memory.Table.write_entry
    maturin.Memory.Table.zero maturin.Memory.Addr.pte_idx_of_virt_addr
way_there = refl

handle_page_fault_lem_example :
    (result : Done) × (s' : Store (lazy no_files)) × (handle_page_fault
        (lazy no_files)
        0x1008
        2
        state
      ≡ some (result, s'))
    × IsTree grown_use s'.pt
    × Agrees (lazy no_files) (lazy-IsLawful no_files) s' 0
    × (((result ≡ err page_fault_handler_access_denied)
          × (s' ≡ state)
          × ((bit_and 6 2 == 2) ≡ false))
        ⊎ (((bit_and 6 2 == 2) ≡ true)
            × (((result ≡ err memory_run_out_of_memory)
                  × (s' ≡ state)
                  × ((lazy-IsLawful no_files).frame_at two_pages.pma (0x1008 / page_size) ≡ none))
                ⊎ ((result ≡ err page_fault_handler_trap_at_valid_page)
                    × (is_valid (entry mapped_table (0x5000 + align_down 0x1008)) ≡ true))
                ⊎ ((result ≡ ok tt)
                    × (is_valid (entry mapped_table (0x5000 + align_down 0x1008)) ≡ false)
                    × (is_valid (entry s'.pt (0x5000 + align_down 0x1008)) ≡ true)
                    × ((w : ℕ)
                        → entry s'.pt w ≡ (
                            if same_page (0x5000 + align_down 0x1008) w
                            then entry s'.pt (0x5000 + align_down 0x1008)
                            else entry mapped_table w))))))
unfolding align_down
handle_page_fault_lem_example =
    handle_page_fault_lem (lazy no_files) (lazy-IsLawful no_files) grown_use state 0x1008 2
      mapped_table-IsTree two_pages-Fits state-Agrees (omega arith) way_there
