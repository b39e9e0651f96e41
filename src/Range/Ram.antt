-- ===== src/Range/Ram.antt =====
-- modules/range-action-map/src/lib.rs and defs.rs: `RangeActionMap`. A closure that makes a segment
-- (`impl FnOnce`) is a function into the same monad, since the kernel's closures map pages.
use maturin.Prelude.{
  ℕ, ◌+◌, ◌-◌, ◌%◌, max, ltb, leb, ◌||◌, if◌then◌else◌, usize_mod, Option, none, some, List, [],
  ◌∷◌,
}
use maturin.Range.Segment.{M, ◌>>=◌, pure, Segment}
use maturin.Range.Area.{
  RangeArea, DiffSet, CutSet, contains, is_overlap_with, shrink_or_split_if_overlap,
  split_and_modify_if_overlap,
}
use maturin.Range.Tree.{BTreeMap, insert, last_up_to, drained, kept}

abbrev pub lower_limit : ℕ
lower_limit = 0x1000

abbrev pub upper_limit : ℕ
upper_limit = usize_mod - 1

pub record RangeActionMap (S : Type 0) : Type 0 where
  pub segments : BTreeMap (RangeArea S)
  pub args : ℕ

module _ {S : Type 0} where
  unfoldable pub new : ℕ → RangeActionMap S
  new args = record { segments = []; args = args }

  unfoldable pub insert_raw : RangeActionMap S → ℕ → ℕ → S → RangeActionMap S
  insert_raw self start end segment = record self {
    segments = insert start (record { start = start; end = end; segment = segment }) self.segments;
  }

  unfoldable pub find : RangeActionMap S → ℕ → Option S
  find self pos = elim (last_up_to pos self.segments) [
    | none ↦ none
    | some (_, area) ↦ if contains area pos then some area.segment else none
  ]

  -- `self.segments.insert(area.start, area)`
  unfoldable pub put : RangeArea S → BTreeMap (RangeArea S) → BTreeMap (RangeArea S)
  put area = insert area.start area

  -- The arms of the `match` in `unmap`.
  unfoldable pub put_back :
      DiffSet S → RangeArea S → BTreeMap (RangeArea S) → BTreeMap (RangeArea S)
  put_back DiffSet.shrinked area t = put area t
  put_back (DiffSet.splitted right) area t = put right (put area t)
  put_back DiffSet.removed area t = t
  put_back DiffSet.unchanged area t = t

  -- The arms of the `match` in `mprotect`.
  unfoldable pub put_cut : CutSet S → RangeArea S → BTreeMap (RangeArea S) → BTreeMap (RangeArea S)
  put_cut CutSet.whole_modified area t = put area t
  put_cut (CutSet.modified_left right) area t = put right (put area t)
  put_cut (CutSet.modified_right right) area t = put right (put area t)
  put_cut (CutSet.modified_middle mid right) area t = put right (put mid (put area t))
  put_cut CutSet.unchanged area t = t

  -- `for mut area in areas_to_be_modified`
  unfoldable pub for_each :
      {W : Type 0}
      → (RangeArea S → BTreeMap (RangeArea S) → M W (BTreeMap (RangeArea S)))
      → List (RangeArea S)
      → BTreeMap (RangeArea S)
      → M W (BTreeMap (RangeArea S))
  for_each body [] t = pure t
  for_each body (area ∷ areas) t = do t' ← body area t; for_each body areas t'

  -- The loop of `find_free_area`, from the end of the last segment on. `+` wraps.
  unfoldable pub free_from : ℕ → ℕ → BTreeMap (RangeArea S) → Option ℕ
  free_from last_seg_end len [] =
      if leb ((last_seg_end + len) % usize_mod) upper_limit then some last_seg_end else none
  free_from last_seg_end len ((start, seg) ∷ t) =
      let rest = free_from (max last_seg_end seg.end) len t in
      if leb ((last_seg_end + len) % usize_mod) start then some last_seg_end else rest

  unfoldable pub find_free_area : RangeActionMap S → ℕ → ℕ → Option ℕ
  find_free_area self hint len = free_from (max hint lower_limit) len self.segments

  unfoldable pub mmap_anywhere :
      {W : Type 0} → RangeActionMap S → ℕ → ℕ → (ℕ → M W S) → M W (Option ℕ × RangeActionMap S)
  mmap_anywhere self hint len f = elim (find_free_area self hint len) [
    | none ↦ pure (none, self)
    | some start ↦ do
      segment ← f start
      pure (some start, insert_raw self start ((start + len) % usize_mod) segment)
  ]

module _ {W S : Type 0} (ops : Segment W S) where
  unfoldable pub unmap_area :
      ℕ → ℕ → ℕ → RangeArea S → BTreeMap (RangeArea S) → M W (BTreeMap (RangeArea S))
  unmap_area start end args area t = do
    (diff, area') ← shrink_or_split_if_overlap ops area start end args
    pure (put_back diff area' t)

  unfoldable pub unmap : RangeActionMap S → ℕ → ℕ → M W (RangeActionMap S)
  unmap self start end =
      let hit = λ (area : RangeArea S). is_overlap_with area start end in
      do
        t ←
            for_each (unmap_area start end self.args) (drained hit self.segments)
              (kept hit self.segments)
        pure (record self { segments = t })

  unfoldable pub protect_area :
      ℕ → ℕ → ℕ → ℕ → RangeArea S → BTreeMap (RangeArea S) → M W (BTreeMap (RangeArea S))
  protect_area start end new_flags args area t = do
    (cut, area') ← split_and_modify_if_overlap ops area start end new_flags args
    pure (put_cut cut area' t)

  unfoldable pub mprotect : RangeActionMap S → ℕ → ℕ → ℕ → M W (RangeActionMap S)
  mprotect self start end new_flags =
      let hit = λ (area : RangeArea S). is_overlap_with area start end in
      do
        t ←
            for_each (protect_area start end new_flags self.args) (drained hit self.segments)
              (kept hit self.segments)
        pure (record self { segments = t })

  unfoldable pub mmap_fixed : RangeActionMap S → ℕ → ℕ → M W S → M W (Option ℕ × RangeActionMap S)
  mmap_fixed self start end f =
      if ltb start lower_limit || ltb upper_limit end then pure (none, self) else (do
        self' ← unmap self start end
        segment ← f
        pure (some start, insert_raw self' start end segment))
