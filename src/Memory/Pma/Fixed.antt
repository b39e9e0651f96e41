-- ===== src/Memory/Pma/Fixed.antt =====
-- kernel/src/memory/areas/fixed.rs: `PmAreaFixed`, a range of physical memory. The bytes of physical
-- memory are the shared state.
use maturin.Prelude.{
  ℕ, ◌+◌, ◌-◌, ◌*◌, ◌%◌, min, leb, ltb, ◌==◌, ◌&&◌, Bool, if◌then◌else◌, Option, none, some, List,
  usize_mod, length, get_or, zero, suc, ◌∷◌, [],
}
use maturin.File.VirtFile.{page_size}
use maturin.Memory.Addr.{align_down, align_up}
use maturin.Memory.Error.{
  Result, ok, err, Done, pm_area_invalid_range, pm_area_out_of_range, pm_area_shrink_failed,
  pm_area_split_failed,
}

pub record PmAreaFixed : Type 0 where
  pub start : ℕ
  pub end : ℕ

abbrev pub Bytes : Type 0
Bytes = ℕ → ℕ

unfoldable pub new : ℕ → ℕ → Result PmAreaFixed
new start end =
    if leb end start
    then err pm_area_invalid_range
    else ok (record { start = align_down start; end = align_up end })

unfoldable pub size : PmAreaFixed → ℕ
size self = self.end - self.start

unfoldable pub clone_as_fork : PmAreaFixed → Result PmAreaFixed
clone_as_fork self = ok (record { start = self.start; end = self.end })

unfoldable pub get_frame : PmAreaFixed → ℕ → Bool → Result (Option ℕ)
get_frame self idx need_alloc = ok (some ((self.start + idx * page_size) % usize_mod))

unfoldable pub release_frame : PmAreaFixed → ℕ → Done
release_frame self idx = ok tt

-- `n` bytes of memory from an address on.
abbrev pub from_raw_parts : Bytes → ℕ → ℕ → List ℕ
from_raw_parts bytes paddr zero = []
from_raw_parts bytes paddr (suc n) = bytes paddr ∷ from_raw_parts bytes (suc paddr) n

abbrev pub copy_from_slice : Bytes → ℕ → List ℕ → Bytes
copy_from_slice bytes paddr src p =
    if leb paddr p && ltb p (paddr + length src) then get_or src (p - paddr) 0 else bytes p

-- The number of bytes that fit is taken from the end's address. `copy_from_slice` panics where that
-- is not the length of the slice.
unfoldable pub read : PmAreaFixed → ℕ → ℕ → Bytes → Option (Result (List ℕ))
read self offset dst_len bytes =
    if leb (size self) offset
    then some (err pm_area_out_of_range)
    else let len = min dst_len (self.end - offset) in
      if len == dst_len then some (ok (from_raw_parts bytes (self.start + offset) len)) else none

unfoldable pub write : PmAreaFixed → ℕ → List ℕ → Bytes → Option (Result ℕ × Bytes)
write self offset src bytes =
    if leb (size self) offset
    then some (err pm_area_out_of_range, bytes)
    else let len = min (length src) (self.end - offset) in
      if len == length src
      then some (ok len, copy_from_slice bytes (self.start + offset) src)
      else none

unfoldable pub shrink_left : PmAreaFixed → ℕ → Done × PmAreaFixed
shrink_left self new_start =
    if ltb new_start (self.end - self.start)
    then (ok tt, record self { start = self.start + new_start })
    else (err pm_area_shrink_failed, self)

unfoldable pub shrink_right : PmAreaFixed → ℕ → Done × PmAreaFixed
shrink_right self new_end =
    if ltb new_end (self.end - self.start)
    then (ok tt, record self { end = self.start + new_end })
    else (err pm_area_shrink_failed, self)

-- The right part, whose `unwrap` can panic, and `self`, which is the left one.
unfoldable pub split : PmAreaFixed → ℕ → ℕ → Option (Result PmAreaFixed × PmAreaFixed)
split self left_end right_start =
    if leb left_end right_start && ltb right_start (self.end - self.start)
    then elim (new (self.start + right_start) self.end) [
      | err e ↦ none
      | ok right ↦ some (ok right, record self { end = self.start + left_end })
    ]
    else some (err pm_area_split_failed, self)
