-- ===== src/Memory/Area/Seg.antt =====
-- kernel/src/memory/areas/mod.rs: `impl Segment for VmArea`. The page table is the one that the
-- map's `args` stand for; a failed `unwrap` is `none`.
use maturin.Prelude.{ℕ, ◌-◌, ◌%◌, ◌^◌, Option, none, some}
use maturin.Memory.Error.{Result, ok, err, Done}
use maturin.Memory.Pma.{PmArea}
use maturin.Memory.Table.{PageTable}
use maturin.Memory.Area.{VmArea, Store, new, modify_area_flags, unmap_area}
use maturin.Range.Segment.{M, Segment}

-- The page table and the state that all areas share.
pub record Space (World : Type 0) : Type 0 where
  pub pt : PageTable
  pub world : World

module _ {World : Type 0} (ops : PmArea World) where
  abbrev pub store_of : VmArea ops → Space World → Store ops
  store_of area w = record { area = area; pt = w.pt; world = w.world }

  -- `unwrap` of what a method did.
  unfoldable pub unwrapped : Option (Done × Store ops) → Option (VmArea ops × Space World)
  unwrapped none = none
  unwrapped (some (err e, s)) = none
  unwrapped (some (ok done, s)) = some (s.area, record { pt = s.pt; world = s.world })

  unfoldable pub modify : VmArea ops → ℕ → ℕ → M (Space World) (VmArea ops)
  modify self new_flag args w =
      unwrapped (modify_area_flags ops (store_of (record self { flags = new_flag % 2 ^ 8 }) w))

  unfoldable pub remove : VmArea ops → ℕ → M (Space World) (VmArea ops)
  remove self args w = unwrapped (unmap_area ops (store_of self w))

  -- The left part, with what is left of the memory, and the right one as a new area.
  unfoldable pub split_into :
      VmArea ops
      → ℕ
      → PageTable
      → Option (Result ops.State × ops.State × World)
      → Option ((VmArea ops × VmArea ops) × Space World)
  split_into self pos pt none = none
  split_into self pos pt (some (err e, pma, world)) = none
  split_into self pos pt (some (ok right_pma, pma, world)) =
      elim (new ops pos self.end self.flags right_pma) [
        | err e ↦ none
        | ok right ↦
            some ((record self { end = pos; pma = pma }, right), record { pt = pt; world = world })
      ]

  unfoldable pub split : VmArea ops → ℕ → ℕ → M (Space World) (VmArea ops × VmArea ops)
  split self pos args w =
      split_into self pos w.pt (ops.split self.pma (pos - self.start) (pos - self.start) w.world)

  abbrev pub vm_area : Segment (Space World) (VmArea ops)
  vm_area = record { remove = remove; split = split; modify = modify }
