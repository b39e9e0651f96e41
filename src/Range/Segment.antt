-- ===== src/Range/Segment.antt =====
-- modules/range-action-map/src/segment.rs: the trait `Segment`, its three required methods as a
-- record and its default methods as functions over them.
use maturin.Prelude.{ℕ, ◌≤◌, ◌<◌, ◌≡◌, ◌⊎◌, Option, none, some}

-- A method reads and changes the world (page tables, frames) that the segments act on. `none` is a
-- panic.
abbrev pub M : Type 0 → Type 0 → Type 0
M W A = W → Option (A × W)

infixl 5 ◌>>=◌
abbrev pub ◌>>=◌ : {W A B : Type 0} → M W A → (A → M W B) → M W B
◌>>=◌ m f w = elim (m w) [ none ↦ none | some (a, w') ↦ f a w' ]

abbrev pub pure : {W A : Type 0} → A → M W A
pure a w = some (a, w)

-- The required methods. A method on `&mut self` returns the new `self`; `split` returns the left
-- part, which `self` becomes, and the right one. The last number is the `args` of the map.
pub record Segment (W S : Type 0) : Type 0 where
  pub remove : S → ℕ → M W S
  pub split : S → ℕ → ℕ → M W (S × S)
  pub modify : S → ℕ → ℕ → M W S

module _ {W S : Type 0} (ops : Segment W S) where
  open ops use {remove, split, modify}

  unfoldable pub shrink_to_left : S → ℕ → ℕ → M W S
  shrink_to_left self pos args = do
    (left, right) ← split self pos args
    _ ← remove right args
    pure left

  unfoldable pub shrink_to_right : S → ℕ → ℕ → M W S
  shrink_to_right self pos args = do
    (left, right) ← split self pos args
    _ ← remove left args
    pure right

  unfoldable pub split_and_remove_middle : S → ℕ → ℕ → ℕ → M W (S × S)
  split_and_remove_middle self pos_left pos_right args = do
    (rest, right) ← split self pos_right args
    (left, middle) ← split rest pos_left args
    _ ← remove middle args
    pure (left, right)

  unfoldable pub modify_left : S → ℕ → ℕ → ℕ → M W (S × S)
  modify_left self pos new_flag args = do
    (left, right) ← split self pos args
    left' ← modify left new_flag args
    pure (left', right)

  unfoldable pub modify_right : S → ℕ → ℕ → ℕ → M W (S × S)
  modify_right self pos new_flag args = do
    (left, right) ← split self pos args
    right' ← modify right new_flag args
    pure (left, right')

  unfoldable pub modify_middle : S → ℕ → ℕ → ℕ → ℕ → M W (S × S × S)
  modify_middle self pos_left pos_right new_flag args = do
    (rest, right) ← split self pos_right args
    (left, middle) ← split rest pos_left args
    middle' ← modify middle new_flag args
    pure (left, middle', right)

-- What the map relies on of an implementation of the trait. `Spans s a b w` says that `s` is in
-- order for the range from `a` to `b` in the world `w`; `Agree a b w w'` that two worlds are alike
-- for whatever lives in that range; `Bare p w` that nothing is left at the address `p`; `Cut` and `Flag` are the positions and attributes allowed.
pub record IsLawful {W S : Type 0} (ops : Segment W S) : Type 1 where
  pub Cut : ℕ → Type 0
  pub Flag : ℕ → Type 0
  pub Spans : S → ℕ → ℕ → W → Type 0
  pub Agree : ℕ → ℕ → W → W → Type 0
  pub Bare : ℕ → W → Type 0
  pub flag : S → ℕ
  pub agree_refl : (a b : ℕ) (w : W) → Agree a b w w
  pub agree_trans : (a b : ℕ) (u v w : W) → Agree a b u v → Agree a b v w → Agree a b u w
  pub Spans-agree : (s : S) (a b : ℕ) (w w' : W) → Agree a b w w' → Spans s a b w → Spans s a b w'
  pub Bare-agree : (a b p : ℕ) (w w' : W) → Agree a b w w' → a ≤ p → p < b → Bare p w → Bare p w'
  pub remove_lem :
      (s : S) (a b args : ℕ) (w : W)
      → Spans s a b w
      → (s' : S) × (w' : W) × (ops.remove s args w ≡ some (s', w'))
        × ((c d : ℕ) → (d ≤ a) ⊎ (b ≤ c) → Agree c d w w')
        × ((p : ℕ) → a ≤ p → p < b → Bare p w')
  pub split_lem :
      (s : S) (a b pos args : ℕ) (w : W)
      → Spans s a b w
      → Cut pos
      → a < pos
      → pos < b
      → (l r : S) × (w' : W) × (ops.split s pos args w ≡ some ((l, r), w'))
        × Spans l a pos w'
        × Spans r pos b w'
        × (flag l ≡ flag s)
        × (flag r ≡ flag s)
        × ((c d : ℕ) → (d ≤ a) ⊎ (b ≤ c) → Agree c d w w')
  pub modify_lem :
      (s : S) (a b new_flag args : ℕ) (w : W)
      → Spans s a b w
      → Flag new_flag
      → (s' : S) × (w' : W) × (ops.modify s new_flag args w ≡ some (s', w'))
        × Spans s' a b w'
        × (flag s' ≡ new_flag)
        × ((c d : ℕ) → (d ≤ a) ⊎ (b ≤ c) → Agree c d w w')
