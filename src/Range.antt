-- ===== src/Range.antt =====
-- modules/range-action-map: a map of disjoint half-open address ranges, each with a segment that the
-- kernel acts on (its `VmArea`). `Segment` and `Area` model segment.rs, set.rs and range_area.rs,
-- `Tree` what the code uses of `BTreeMap`, and `Ram` the map of lib.rs.
pub mod Segment
pub mod Area
pub mod Tree
pub mod Ram
pub mod Valid
pub mod Entries
pub mod Loop
pub mod Defaults
pub mod Unmap
pub mod Protect
pub mod Find
pub mod Spec
pub mod Seg
mod Tests
