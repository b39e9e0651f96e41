-- ===== src/Memory/Set.antt =====
-- kernel/src/memory/vmm.rs: `MemorySet`, the areas of an address space in the map of ranges, with the
-- page table. The table stands in the shared state. An area that a call changes through its lock is
-- put back at its place in the map.
pub mod Spec
pub mod Tests
use maturin.Prelude.{
  ℕ, zero, suc, ◌+◌, ◌-◌, ◌%◌, leb, not, Bool, true, false, if◌then◌else◌, usize_mod, Option, none,
  some,
}
use maturin.File.VirtFile.{addr_to_page_id}
use maturin.Memory.Addr.{cross_page, page_count, page_id_to_addr}
use maturin.Memory.Error.{
  Result, ok, err, Done, page_fault_handler_unhandled, memory_set_user_mmap_intersect_with_kernel,
}
use maturin.Memory.Pma.{PmArea}
use maturin.Memory.Pma.Lazy.{user_virt_addr_limit}
use maturin.Memory.Area.{VmArea, Store, new, map_area, handle_page_fault, manually_alloc_page}
use maturin.Memory.Area.Seg.{Space, store_of, unwrapped, vm_area}
use maturin.Range.Segment.{M, ◌>>=◌, pure}
use maturin.Range.Ram
use maturin.Range.Ram.{
  RangeActionMap, lower_limit, upper_limit, insert_raw, find, mmap_fixed, mmap_anywhere,
}

module _ {World : Type 0} (ops : PmArea World) where
  pub record MemorySet : Type 0 where
    pub area_map : RangeActionMap (VmArea ops)
    pub is_user : Bool

  abbrev with_map : MemorySet → RangeActionMap (VmArea ops) → MemorySet
  with_map self area_map = record self { area_map = area_map }

  unfoldable pub munmap : MemorySet → ℕ → ℕ → M (Space World) (Bool × MemorySet)
  munmap self start end = do
    area_map ← Ram.unmap (vm_area ops) self.area_map start end
    pure (true, with_map self area_map)

  unfoldable pub mprotect : MemorySet → ℕ → ℕ → ℕ → M (Space World) (Bool × MemorySet)
  mprotect self start end new_flags = do
    area_map ← Ram.mprotect (vm_area ops) self.area_map start end new_flags
    pure (true, with_map self area_map)

  -- `map_area` with its `unwrap`.
  unfoldable pub mapped : VmArea ops → M (Space World) (VmArea ops)
  mapped area w = unwrapped ops (map_area ops (store_of ops area w))

  -- `unwrap` of the address that the map returned.
  unfoldable pub placed :
      MemorySet → Option ℕ × RangeActionMap (VmArea ops) → M (Space World) (ℕ × MemorySet)
  placed self (none, area_map) w = none
  placed self (some start, area_map) w = some ((start, with_map self area_map), w)

  unfoldable pub push : MemorySet → VmArea ops → M (Space World) (Done × MemorySet)
  push self vma = do
    result ← mmap_fixed (vm_area ops) self.area_map vma.start vma.end (mapped vma)
    (start, self') ← placed self result
    pure (ok tt, self')

  -- The area that the closures of `push_with_backend` make. `fresh` is `PmAreaLazy::new` with the
  -- file behind it.
  unfoldable pub made_area : (ℕ → Result ops.State) → ℕ → ℕ → ℕ → M (Space World) (VmArea ops)
  made_area fresh flags start end w = elim (fresh (page_count (end - start))) [
    | err e ↦ none
    | ok pma ↦ elim (new ops start end flags pma) [ err e ↦ none | ok area ↦ mapped area w ]
  ]

  unfoldable pub push_with_backend :
      (ℕ → Result ops.State) → MemorySet → ℕ → ℕ → ℕ → Bool → M (Space World) (Result ℕ × MemorySet)
  push_with_backend fresh self start end flags anywhere =
      if anywhere
      then (do
        result ←
            mmap_anywhere self.area_map start (end - start)
              (λ at. made_area fresh flags at ((end - start + at) % usize_mod))
        (at, self') ← placed self result
        pure (ok at, self'))
      else if leb user_virt_addr_limit end
      then pure (err memory_set_user_mmap_intersect_with_kernel, self)
      else (do
        result ← mmap_fixed (vm_area ops) self.area_map start end (made_area fresh flags start end)
        (at, self') ← placed self result
        pure (ok at, self'))

  unfoldable pub put_back :
      MemorySet → Option (Done × Store ops) → Option ((Done × MemorySet) × Space World)
  put_back self none = none
  put_back self (some (result, s)) = some (
    (result, with_map self (insert_raw self.area_map s.area.start s.area.end s.area)),
    record { pt = s.pt; world = s.world },
  )

  unfoldable pub set_handle_page_fault : MemorySet → ℕ → ℕ → M (Space World) (Done × MemorySet)
  set_handle_page_fault self vaddr access_flags w = elim (find self.area_map vaddr) [
    | none ↦ some ((err page_fault_handler_unhandled, self), w)
    | some area ↦
        put_back self
          (handle_page_fault ops (vaddr - area.start) access_flags (store_of ops area w))
  ]

  unfoldable pub set_manually_alloc_page : MemorySet → ℕ → M (Space World) (Done × MemorySet)
  set_manually_alloc_page self vaddr w = elim (find self.area_map vaddr) [
    | none ↦ some ((err page_fault_handler_unhandled, self), w)
    | some area ↦ put_back self (manually_alloc_page ops (vaddr - area.start) (store_of ops area w))
  ]

  -- `n` pages from one on, up to the first error.
  unfoldable pub alloc_pages : ℕ → ℕ → MemorySet → M (Space World) (Done × MemorySet)
  alloc_pages zero page self w = some ((ok tt, self), w)
  alloc_pages (suc n) page self w = elim (set_manually_alloc_page self (page_id_to_addr page) w) [
    | none ↦ none
    | some ((result, self'), w') ↦ elim result [
      | err e ↦ some ((err e, self'), w')
      | ok done ↦ alloc_pages n (suc page) self' w'
    ]
  ]

  unfoldable pub manually_alloc_range : MemorySet → ℕ → ℕ → M (Space World) (Done × MemorySet)
  manually_alloc_range self start_vaddr end_vaddr =
      let first = addr_to_page_id start_vaddr in
      alloc_pages (suc (addr_to_page_id end_vaddr) - first) first self

  -- For a type of `size` bytes.
  unfoldable pub manually_alloc_type : ℕ → MemorySet → ℕ → M (Space World) (Done × MemorySet)
  manually_alloc_type size self vaddr =
      if cross_page size vaddr
      then manually_alloc_range self vaddr ((usize_mod + vaddr + size - 1) % usize_mod)
      else set_manually_alloc_page self vaddr

  unfoldable pub manually_alloc_user_str : MemorySet → ℕ → ℕ → M (Space World) (Done × MemorySet)
  manually_alloc_user_str self buf len =
      manually_alloc_range self buf ((usize_mod + buf + len - 1) % usize_mod)

  unfoldable pub clear_user_pages : MemorySet → M (Space World) MemorySet
  clear_user_pages self = if not self.is_user then pure self else (do
    area_map ← Ram.unmap (vm_area ops) self.area_map lower_limit upper_limit
    pure (with_map self area_map))

  unfoldable pub clear_user_pages_and_save_kernel : MemorySet → M (Space World) MemorySet
  clear_user_pages_and_save_kernel self = if not self.is_user then pure self else (do
    area_map ← Ram.unmap (vm_area ops) self.area_map lower_limit user_virt_addr_limit
    pure (with_map self area_map))
