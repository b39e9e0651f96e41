-- ===== src/Range/Area.antt =====
-- modules/range-action-map/src/range_area.rs and set.rs: one range with its segment, and what is
-- left of it when a range is taken out or changed.
use maturin.Prelude.{ℕ, ltb, leb, if◌then◌else◌, Bool, not, ◌&&◌, ◌||◌, none}
use maturin.Range.Segment.{
  M, ◌>>=◌, pure, Segment, shrink_to_left, shrink_to_right, split_and_remove_middle, modify_left,
  modify_right, modify_middle,
}

pub record RangeArea (S : Type 0) : Type 0 where
  pub start : ℕ
  pub end : ℕ
  pub segment : S

pub data DiffSet (S : Type 0) : Type 0 where
  unchanged removed shrinked : DiffSet S
  splitted : RangeArea S → DiffSet S

pub data CutSet (S : Type 0) : Type 0 where
  unchanged whole_modified : CutSet S
  modified_left modified_right : RangeArea S → CutSet S
  modified_middle : RangeArea S → RangeArea S → CutSet S

module _ {S : Type 0} where
  unfoldable pub contains : RangeArea S → ℕ → Bool
  contains self pos = leb self.start pos && ltb pos self.end

  unfoldable pub is_overlap_with : RangeArea S → ℕ → ℕ → Bool
  is_overlap_with self start end = not (leb self.end start || leb end self.start)

module _ {W S : Type 0} (ops : Segment W S) where
  -- The result, beside what `self` becomes. The last case is the code's `assert!`.
  unfoldable pub shrink_or_split_if_overlap :
      RangeArea S → ℕ → ℕ → ℕ → M W (DiffSet S × RangeArea S)
  shrink_or_split_if_overlap self start end args =
      if leb end self.start || leb self.end start
      then pure (DiffSet.unchanged, self)
      else if leb start self.start && leb self.end end
      then (do
        segment ← ops.remove self.segment args
        pure (DiffSet.removed, record self { segment = segment }))
      else if ltb self.start start && ltb end self.end
      then (do
        (left, right) ← split_and_remove_middle ops self.segment start end args
        pure (
          DiffSet.splitted (record { start = end; end = self.end; segment = right }),
          record self { end = start; segment = left },
        ))
      else if ltb end self.end
      then (do
        segment ← shrink_to_right ops self.segment end args
        pure (DiffSet.shrinked, record self { start = end; segment = segment }))
      else if ltb self.start start
      then (do
        segment ← shrink_to_left ops self.segment start args
        pure (DiffSet.shrinked, record self { end = start; segment = segment }))
      else (λ _. none)

  unfoldable pub split_and_modify_if_overlap :
      RangeArea S → ℕ → ℕ → ℕ → ℕ → M W (CutSet S × RangeArea S)
  split_and_modify_if_overlap self start end new_flag args =
      if leb end self.start || leb self.end start
      then pure (CutSet.unchanged, self)
      else if leb start self.start && leb self.end end
      then (do
        segment ← ops.modify self.segment new_flag args
        pure (CutSet.whole_modified, record self { segment = segment }))
      else if ltb self.start start && ltb end self.end
      then (do
        (left, middle, right) ← modify_middle ops self.segment start end new_flag args
        pure (
          CutSet.modified_middle (record { start = start; end = end; segment = middle })
              (record { start = end; end = self.end; segment = right }),
          record self { end = start; segment = left },
        ))
      else if ltb end self.end
      then (do
        (left, right) ← modify_left ops self.segment end new_flag args
        pure (
          CutSet.modified_left (record { start = end; end = self.end; segment = right }),
          record self { end = end; segment = left },
        ))
      else if ltb self.start start
      then (do
        (left, right) ← modify_right ops self.segment start new_flag args
        pure (
          CutSet.modified_right (record { start = start; end = self.end; segment = right }),
          record self { end = start; segment = left },
        ))
      else (λ _. none)
