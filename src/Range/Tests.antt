-- ===== src/Range/Tests.antt =====
-- Runs of the range map with the test segment, after modules/range-action-map-test/src/main.rs, and
-- the theorems of `Range.Spec` and `Range.Find` at concrete maps.
use maturin.Prelude.{
  ℕ, ◌+◌, ◌-◌, ◌^◌, ◌≤◌, ◌<◌, ◌≡◌, ltb, leb, ◌&&◌, if◌then◌else◌, max, replicate, none, some, [],
  ◌∷◌, refl, arith,
}
use maturin.Range.Segment.{M, split_and_remove_middle}
use maturin.Range.Ram.{
  RangeActionMap, lower_limit, upper_limit, new, find, find_free_area, free_from, unmap, unmap_area,
  for_each, put, put_back, mprotect, mmap_anywhere, mmap_fixed,
}
use maturin.Range.Area.{contains, is_overlap_with, shrink_or_split_if_overlap}
use maturin.Range.Tree.{insert, last_up_to, drained, kept}
use maturin.Range.Valid.{Free}
use maturin.Range.Protect.{repaint}
use maturin.Prelude.{usize_mod, ◌⊎◌}
use maturin.Range.Find.{find_free_area_or_wraps, find_free_area_first, find_free_area-some}
use maturin.Range.Spec.{
  IsValid, flag_at, Makes, new-IsValid, find-Spans, unmap_lem, mprotect_lem, mmap_anywhere_lem,
  mmap_fixed_lem, mmap_fixed_refused,
}
use maturin.Range.Seg.{
  FrameAllocator, Seg, Seg_new, alloc, alloc_frames, dealloc, drop_frames, seg_remove, seg_split,
  seg_modify, seg_ops, SegSpans, seg_lawful,
}

abbrev world : FrameAllocator
world = record { start = 20; recycled = [] }

abbrev seg_at : ℕ → ℕ → ℕ → ℕ → Seg
seg_at start end flags n = record {
  start = start;
  end = end;
  flags = flags;
  frames = replicate n 7;
}

-- Two segments: 5000 to 5010 with flags 3, and 5010 to 5014 with flags 5.
abbrev two : RangeActionMap Seg
two = record {
  segments =
      (5000, record { start = 5000; end = 5010; segment = seg_at 5000 5010 3 10 })
      ∷ (5010, record { start = 5010; end = 5014; segment = seg_at 5010 5014 5 4 })
      ∷ [];
  args = 0;
}

two-IsValid : IsValid seg_lawful two world
two-IsValid = record { chain = omega arith; live = omega arith }

-- `find` and the first and last byte of a segment, as in `test_ram`.
find_ends :
    (flag_at seg_lawful two 4999 ≡ none)
    × (flag_at seg_lawful two 5000 ≡ some 3)
    × (flag_at seg_lawful two 5010 ≡ some 5)
    × (flag_at seg_lawful two 5014 ≡ none)
unfolding find last_up_to contains
find_ends = (refl, refl, refl, refl)

new-IsValid_example :
    IsValid seg_lawful (new 9) world × ((p : ℕ) → flag_at seg_lawful (new 9) p ≡ none)
new-IsValid_example = new-IsValid seg_lawful 9 world

find-Spans_example :
    (a b : ℕ) × (a ≤ 5003) × (5003 < b) × SegSpans (seg_at 5000 5010 3 10) a b world
unfolding find last_up_to contains
find-Spans_example = find-Spans seg_lawful two world 5003 two-IsValid refl

unmap_lem_example :
    (m' : RangeActionMap Seg) × (w' : FrameAllocator) × (unmap seg_ops two 5003 5012 world
      ≡ some (m', w'))
    × IsValid seg_lawful m' w'
    × ((p : ℕ)
        → flag_at seg_lawful m' p
          ≡ (if leb 5003 p && ltb p 5012 then none else flag_at seg_lawful two p))
unmap_lem_example = unmap_lem seg_lawful two world 5003 5012 tt tt (omega arith) two-IsValid

mprotect_lem_example :
    (m' : RangeActionMap Seg) × (w' : FrameAllocator) × (mprotect seg_ops two 5002 5012 6 world
      ≡ some (m', w'))
    × IsValid seg_lawful m' w'
    × ((p : ℕ)
        → flag_at seg_lawful m' p ≡ (
            if leb 5002 p && ltb p 5012
            then repaint 6 (flag_at seg_lawful two p)
            else flag_at seg_lawful two p))
mprotect_lem_example =
    mprotect_lem seg_lawful two world 5002 5012 6 tt tt (omega arith) tt two-IsValid

-- A fresh segment of three frames, as `Seg::new` makes it.
abbrev fresh_at : ℕ → M FrameAllocator Seg
fresh_at x = Seg_new x (x + 3) 8

abbrev fresh : Seg
fresh = record { start = 5014; end = 5017; flags = 8; frames = 20 ∷ 21 ∷ 22 ∷ [] }

fresh-Makes :
    Makes seg_lawful (fresh_at 5014) 5014 5017 8 world fresh (record { start = 23; recycled = [] })
unfolding Seg_new alloc_frames alloc
fresh-Makes = record { makes = refl; spans = omega arith; flagged = refl; outside = λ c d h. tt }

find_free_area_or_wraps_example :
    (max 5002 lower_limit ≤ 5014)
    × ((usize_mod ≤ 5014 + 3) ⊎ ((5014 + 3 ≤ upper_limit) × Free 5014 5017 two.segments))
unfolding find_free_area free_from
find_free_area_or_wraps_example = find_free_area_or_wraps two 5002 3 5014 (two-IsValid.chain) refl

find_free_area_first_example : (x : ℕ) × (find_free_area two 5002 3 ≡ some x) × (x ≤ 5100)
find_free_area_first_example =
    find_free_area_first two 5002 3 6000 5100 (two-IsValid.chain) (omega arith) (omega arith)
      (omega arith) (omega arith) (omega arith) (omega arith)

mmap_anywhere_lem_example :
    (m' : RangeActionMap Seg) × (mmap_anywhere two 5002 3 fresh_at world
      ≡ some ((some 5014, m'), record { start = 23; recycled = [] }))
    × (max 5002 lower_limit ≤ 5014)
    × IsValid seg_lawful m' (record { start = 23; recycled = [] })
    × ((p : ℕ) → (if leb 5014 p && ltb p 5017 then flag_at seg_lawful two p else none) ≡ none)
    × ((p : ℕ)
        → flag_at seg_lawful m' p
          ≡ (if leb 5014 p && ltb p 5017 then some 8 else flag_at seg_lawful two p))
unfolding find_free_area free_from
mmap_anywhere_lem_example =
    mmap_anywhere_lem seg_lawful two 5002 3 6000 5014 8 fresh_at world fresh
      (record { start = 23; recycled = [] }) (omega arith) (omega arith) (omega arith) (omega arith)
      two-IsValid refl fresh-Makes

find_free_area-some_example : (x : ℕ) × (find_free_area two 0 (2 ^ 64 - 1) ≡ some x)
find_free_area-some_example = find_free_area-some two 0 (2 ^ 64 - 1)

abbrev pair_at : M FrameAllocator Seg
pair_at w = some (seg_at 5008 5012 9 4, w)

mmap_fixed_refused_example :
    mmap_fixed seg_ops two 4000 5012 pair_at world ≡ some ((none, two), world)
mmap_fixed_refused_example = mmap_fixed_refused seg_lawful two 4000 5012 pair_at world (omega arith)

mmap_fixed_lem_example :
    (m' : RangeActionMap Seg) × (w' : FrameAllocator) × (mmap_fixed seg_ops two 5008 5012 pair_at
        world
      ≡ some ((some 5008, m'), w'))
    × IsValid seg_lawful m' w'
    × ((p : ℕ)
        → flag_at seg_lawful m' p
          ≡ (if leb 5008 p && ltb p 5012 then some 9 else flag_at seg_lawful two p))
mmap_fixed_lem_example =
    mmap_fixed_lem seg_lawful two world 5008 5012 9 pair_at tt tt (omega arith) (omega arith)
      (omega arith) two-IsValid
      (λ u. (
        seg_at 5008 5012 9 4,
        u,
        record { makes = refl; spans = omega arith; flagged = refl; outside = λ c d h. tt },
      ))

-- `test_ram`: a hole in the middle of a segment, and a change of flags across two.
unmap_run :
    (m : RangeActionMap Seg) × (w : FrameAllocator) × (unmap seg_ops two 5003 5006 world
      ≡ some (m, w))
    × (flag_at seg_lawful m 5002 ≡ some 3)
    × (flag_at seg_lawful m 5003 ≡ none)
    × (flag_at seg_lawful m 5006 ≡ some 3)
unfolding unmap unmap_area shrink_or_split_if_overlap is_overlap_with split_and_remove_middle
    for_each put_back put insert drained kept find last_up_to contains seg_remove seg_split
    seg_modify drop_frames dealloc
unmap_run = (_, _, refl, refl, refl, refl)
