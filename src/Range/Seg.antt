-- ===== src/Range/Seg.antt =====
-- modules/range-action-map-test: the segment type that the crate is tested with, and its frame
-- allocator, as an implementation of the trait.
use maturin.Prelude.{
  ℕ, zero, suc, ◌+◌, ◌-◌, ◌<◌, ◌≡◌, ltb, if◌then◌else◌, length, take, drop, length-take-drop, refl,
  none, some, List, [], ◌∷◌, arith,
}
use maturin.Range.Segment.{M, Segment, IsLawful}

-- resource.rs. `recycled` is a stack: its head is the last frame pushed.
pub record FrameAllocator : Type 0 where
  pub start : ℕ
  pub recycled : List ℕ

unfoldable pub alloc : M FrameAllocator ℕ
alloc self = elim self.recycled [
  | [] ↦ some (self.start, record self { start = self.start + 1 })
  | frame ∷ rest ↦ some (frame, record self { recycled = rest })
]

unfoldable pub dealloc : ℕ → FrameAllocator → FrameAllocator
dealloc frame self = record self { recycled = frame ∷ self.recycled }

pub record Seg : Type 0 where
  pub start : ℕ
  pub end : ℕ
  pub flags : ℕ
  pub frames : List ℕ

-- The frames of the rounds `start..end`.
unfoldable pub alloc_frames : ℕ → M FrameAllocator (List ℕ)
unfolding alloc
alloc_frames zero w = some ([], w)
alloc_frames (suc n) w = elim (alloc w) [
  | none ↦ none
  | some (frame, w') ↦ elim (alloc_frames n w') [
    | none ↦ none
    | some (frames, w'') ↦ some (frame ∷ frames, w'')
  ]
]

unfoldable pub Seg_new : ℕ → ℕ → ℕ → M FrameAllocator Seg
Seg_new start end flags w = elim (alloc_frames (end - start) w) [
  | none ↦ none
  | some (frames, w') ↦
      some (record { start = start; end = end; flags = flags; frames = frames }, w')
]

-- `frames.clear()` drops the frames in order, and a dropped frame goes back to the allocator.
unfoldable pub drop_frames : List ℕ → FrameAllocator → FrameAllocator
unfolding dealloc
drop_frames [] w = w
drop_frames (frame ∷ frames) w = drop_frames frames (dealloc frame w)

unfoldable pub seg_remove : Seg → ℕ → M FrameAllocator Seg
seg_remove self args w = some (record self { frames = [] }, drop_frames self.frames w)

-- `drain(pos - self.start..)` panics where the position is not within the frames.
unfoldable pub seg_split : Seg → ℕ → ℕ → M FrameAllocator (Seg × Seg)
seg_split self pos args w =
    if ltb pos self.start
    then none
    else if ltb (length self.frames) (pos - self.start)
    then none
    else some (
      (
        record self { end = pos; frames = take (pos - self.start) self.frames },
        record {
          start = pos;
          end = self.end;
          flags = self.flags;
          frames = drop (pos - self.start) self.frames;
        },
      ),
      w,
    )

unfoldable pub seg_modify : Seg → ℕ → ℕ → M FrameAllocator Seg
seg_modify self new_flag args w = some (record self { flags = new_flag }, w)

abbrev pub seg_ops : Segment FrameAllocator Seg
seg_ops = record { remove = seg_remove; split = seg_split; modify = seg_modify }

-- The segment knows its range and has a frame for each of its addresses.
pub record SegSpans (s : Seg) (a b : ℕ) (w : FrameAllocator) : Type 0 where
  pub at_start : s.start ≡ a
  pub at_end : s.end ≡ b
  pub filled : length s.frames + a ≡ b

pub split_ok :
    (s : Seg) (a b pos args : ℕ) (w : FrameAllocator)
    → SegSpans s a b w
    → a < pos
    → pos < b
    → (l r : Seg) × (w' : FrameAllocator) × (seg_split s pos args w ≡ some ((l, r), w'))
      × SegSpans l a pos w'
      × SegSpans r pos b w'
      × (l.flags ≡ s.flags)
      × (r.flags ≡ s.flags)
unfolding seg_split
split_ok s a b pos args w ok lo hi =
    let k = length-take-drop (pos - s.start) s.frames (omega (arith, ok)) in
    let l : Seg = record s { end = pos; frames = take (pos - s.start) s.frames } in
    let r : Seg = record s { start = pos; frames = drop (pos - s.start) s.frames } in
    (l, r, w, ground (arith, ok, k), omega (arith, ok, k), omega (arith, ok, k), refl, refl)

pub remove_ok :
    (s : Seg) (a b args : ℕ) (w : FrameAllocator)
    → SegSpans s a b w
    → (s' : Seg) × (w' : FrameAllocator) × (seg_remove s args w ≡ some (s', w'))
unfolding seg_remove
remove_ok s a b args w ok = (_, _, refl)

pub modify_ok :
    (s : Seg) (a b new_flag args : ℕ) (w : FrameAllocator)
    → SegSpans s a b w
    → (s' : Seg) × (w' : FrameAllocator) × (seg_modify s new_flag args w ≡ some (s', w'))
      × SegSpans s' a b w'
      × (s'.flags ≡ new_flag)
unfolding seg_modify
modify_ok s a b new_flag args w ok =
    (record s { flags = new_flag }, w, refl, omega (arith, ok), refl)

-- The test segment keeps the contract of the trait.
abbrev pub seg_lawful : IsLawful seg_ops
seg_lawful = record {
  Cut = λ p. Unit {0};
  Flag = λ x. Unit {0};
  Spans = SegSpans;
  Agree = λ a b w w'. Unit {0};
  Bare = λ p w. Unit {0};
  flag = λ s. s.flags;
  agree_refl = λ a b w. tt;
  agree_trans = λ a b u v w h k. tt;
  Spans-agree =
      λ s a b w w' h k. record { at_start = k.at_start; at_end = k.at_end; filled = k.filled };
  Bare-agree = λ a b p w w' h lo hi k. tt;
  remove_lem = λ s a b args w h.
      let (s', w', e) = remove_ok s a b args w h in (s', w', e, λ c d k. tt, λ p lo hi. tt);
  split_lem = λ s a b pos args w h c lo hi.
      let (l, r, w', e, sl, sr, fl, fr) = split_ok s a b pos args w h lo hi in
      (l, r, w', e, sl, sr, fl, fr, λ c d k. tt);
  modify_lem = λ s a b new_flag args w h k.
      let (s', w', e, ok, fl) = modify_ok s a b new_flag args w h in
      (s', w', e, ok, fl, λ c d k. tt);
}
