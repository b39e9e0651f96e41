-- ===== src/Memory/Area.antt =====
-- kernel/src/memory/areas/mod.rs: `VmArea`, over any `PmArea`. Its name, for messages, is left out.
pub mod Pages
pub mod Synced
pub mod Entries
pub mod Flags
pub mod Alike
pub mod Unmap
pub mod Seg
pub mod Segments
pub mod Modify
pub mod Tests
pub mod Fill
pub mod Fault
pub mod Lazy
use maturin.Prelude.{
  ℕ, zero, suc, ◌+◌, ◌-◌, ◌*◌, ◌/◌, ◌%◌, min, max, leb, ltb, ◌==◌, ◌&&◌, ◌||◌, not, Bool, true,
  false, if◌then◌else◌, Option, none, some,
}
use Prim.Native.Nat.{bit_and, bit_or}
use maturin.File.VirtFile.{page_size}
use maturin.Prelude.Bits.{bit}
use maturin.Memory.Addr.{align_down, align_up}
use maturin.Memory.Entry.{is_valid, set_all, mapped_flags}
use maturin.Memory.Error.{
  Result, ok, err, Done, vm_area_invalid_range, vm_area_vm_size_not_equal_to_pm_size,
  page_fault_handler_access_denied, page_fault_handler_trap_at_valid_page,
  pm_area_lazy_release_not_allocated_page, memory_run_out_of_memory, page_table_page_not_mapped,
}
use maturin.Memory.Table.{PageTable, find_pte, map, set_entry_flags, unmap, write_entry}
use maturin.Memory.Pma.{PmArea, ◌>>=◌, pure}

module _ {World : Type 0} (ops : PmArea World) where
  pub record VmArea : Type 0 where
    pub start : ℕ
    pub end : ℕ
    pub flags : ℕ
    pub pma : ops.State

  -- An area, a page table and the shared state.
  pub record Store : Type 0 where
    pub area : VmArea
    pub pt : PageTable
    pub world : World

  unfoldable pub new : ℕ → ℕ → ℕ → ops.State → Result VmArea
  new start end flags pma =
      if leb end start
      then err vm_area_invalid_range
      else if align_up end - align_down start == ops.size pma
      then ok (record { start = align_down start; end = align_up end; flags = flags; pma = pma })
      else err vm_area_vm_size_not_equal_to_pm_size

  unfoldable pub contains : VmArea → ℕ → Bool
  contains self vaddr = leb self.start vaddr && ltb vaddr self.end

  unfoldable pub is_overlap_with : VmArea → ℕ → ℕ → Bool
  is_overlap_with self start end =
      not (leb self.end (align_down start) || leb (align_up end) self.start)

  unfoldable pub is_user : VmArea → Bool
  is_user self = bit self.flags 4

  -- The number of addresses of `(start..end).step_by(PAGE_SIZE)`.
  abbrev pub step_by : ℕ → ℕ → ℕ
  step_by start end = (end - start + page_size - 1) / page_size

  -- A loop over `n` addresses from one on, which ends at the first error.
  unfoldable pub each_page :
      (ℕ → Store → Option (Done × Store)) → ℕ → ℕ → Store → Option (Done × Store)
  each_page body zero vaddr self = some (ok tt, self)
  each_page body (suc n) vaddr self = elim (body vaddr self) [
    | none ↦ none
    | some (result, self') ↦ elim result [
      | err e ↦ some (err e, self')
      | ok done ↦ each_page body n (vaddr + page_size) self'
    ]
  ]

  unfoldable pub page_frame : ℕ → Bool → Store → Option (Result (Option ℕ) × Store)
  page_frame vaddr need_alloc self = do
    (frame, pma, world) ←
        ops.get_frame self.area.pma ((vaddr - self.area.start) / page_size) need_alloc self.world
    pure (frame, record self { area = record self.area { pma = pma }; world = world })

  abbrev pub with_table : Store → Done × PageTable → Done × Store
  with_table self (result, pt) = (result, record self { pt = pt })

  -- `unwrap` of the change of a page's flags.
  unfoldable pub changed : Store → Done × PageTable → Option (Done × Store)
  changed self (err e, pt) = none
  changed self (ok done, pt) = some (ok tt, record self { pt = pt })

  -- The flags of a page are changed where it has a frame.
  unfoldable pub modify_found : ℕ → Result (Option ℕ) × Store → Option (Done × Store)
  modify_found vaddr (err e, self) = some (err e, self)
  modify_found vaddr (ok none, self) = some (ok tt, self)
  modify_found vaddr (ok (some paddr), self) =
      changed self (set_entry_flags self.pt vaddr self.area.flags)

  unfoldable pub modify_page : ℕ → Store → Option (Done × Store)
  modify_page vaddr self = page_frame vaddr false self >>= modify_found vaddr

  unfoldable pub modify_area_flags : Store → Option (Done × Store)
  modify_area_flags self =
      each_page modify_page (step_by self.area.start self.area.end) self.area.start self

  -- With no frame only the pages on the way to the entry are made.
  unfoldable pub map_found : ℕ → Result (Option ℕ) × Store → Option (Done × Store)
  map_found vaddr (err e, self) = some (err e, self)
  map_found vaddr (ok none, self) = some (with_table self (map self.pt vaddr 0 0))
  map_found vaddr (ok (some paddr), self) =
      some (with_table self (map self.pt vaddr paddr self.area.flags))

  unfoldable pub map_page : ℕ → Store → Option (Done × Store)
  map_page vaddr self = page_frame vaddr false self >>= map_found vaddr

  unfoldable pub map_area : Store → Option (Done × Store)
  map_area self = each_page map_page (step_by self.area.start self.area.end) self.area.start self

  -- A page that never had a frame is left as it is.
  unfoldable pub unmap_released : ℕ → Done × Store → Option (Done × Store)
  unmap_released vaddr (ok done, self) = some (with_table self (unmap self.pt vaddr))
  unmap_released vaddr (err e, self) = elim e [
    | pm_area_lazy_release_not_allocated_page ↦ some (ok tt, self)
    | e ↦ some (err e, self)
  ]

  unfoldable pub release_page : ℕ → Store → Option (Done × Store)
  release_page vaddr self = do
    (result, pma, world) ←
        ops.release_frame self.area.pma ((vaddr - self.area.start) / page_size) self.world
    pure (result, record self { area = record self.area { pma = pma }; world = world })

  unfoldable pub unmap_page : ℕ → Store → Option (Done × Store)
  unmap_page vaddr self = release_page vaddr self >>= unmap_released vaddr

  unfoldable pub unmap_area_partial : Store → ℕ → ℕ → Option (Done × Store)
  unmap_area_partial self start end = each_page unmap_page (step_by start end) start self

  unfoldable pub unmap_area : Store → Option (Done × Store)
  unmap_area self = unmap_area_partial self self.area.start self.area.end

  unfoldable pub sync_page : ℕ → Store → Option (Done × Store)
  sync_page vaddr self = do
    world ←
        ops.sync_frame_with_file self.area.pma ((vaddr - self.area.start) / page_size) self.world
    pure (ok tt, record self { world = world })

  unfoldable pub msync : Store → ℕ → ℕ → Option (Done × Store)
  msync self start end =
      let from = max start self.area.start in
      each_page sync_page (step_by from (min end self.area.end)) from self

  unfoldable pub copy_to_new_area_empty : VmArea → Result VmArea
  copy_to_new_area_empty self = elim (ops.clone_as_fork self.pma) [
    | err e ↦ err e
    | ok pma ↦ ok (record self { pma = pma })
  ]

  -- What is done with the entry of the page, once it has a frame: `on_valid` is the result where the
  -- entry is valid already.
  unfoldable pub fill_entry : ℕ → Done → Result (Option ℕ) × Store → Done × Store
  fill_entry vaddr on_valid (err e, self) = (err e, self)
  fill_entry vaddr on_valid (ok none, self) = (err memory_run_out_of_memory, self)
  fill_entry vaddr on_valid (ok (some paddr), self) = elim (find_pte self.pt vaddr) [
    | none ↦ (err page_table_page_not_mapped, self)
    | some (p, i) ↦ if is_valid (self.pt.memory p i) then (on_valid, self) else (
      ok tt,
      record self {
        pt = record self.pt {
          memory =
              write_entry self.pt.memory p i (set_all paddr (bit_or self.area.flags mapped_flags));
        };
      },
    )
  ]

  unfoldable pub handle_page_fault : ℕ → ℕ → Store → Option (Done × Store)
  handle_page_fault offset access_flags self =
      if not (bit_and self.area.flags access_flags == access_flags)
      then some (err page_fault_handler_access_denied, self)
      else do
        found ← page_frame (self.area.start + align_down offset) true self
        pure (
            fill_entry (self.area.start + align_down offset)
              (err page_fault_handler_trap_at_valid_page) found)

  unfoldable pub manually_alloc_page : ℕ → Store → Option (Done × Store)
  manually_alloc_page offset self = do
    found ← page_frame (self.area.start + align_down offset) true self
    pure (fill_entry (self.area.start + align_down offset) (ok tt) found)
