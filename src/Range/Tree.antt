-- ===== src/Range/Tree.antt =====
-- What the range map uses of `BTreeMap<usize, V>`: a list of entries, in the order of the keys.
use maturin.Prelude.{ℕ, ltb, leb, ◌==◌, if◌then◌else◌, Bool, Option, none, some, List, [], ◌∷◌}

abbrev pub BTreeMap : Type 0 → Type 0
BTreeMap V = List (ℕ × V)

module _ {V : Type 0} where
  -- A value already at the key is replaced.
  unfoldable pub insert : ℕ → V → BTreeMap V → BTreeMap V
  insert k v [] = (k, v) ∷ []
  insert k v ((j, u) ∷ t) =
      if ltb k j then (k, v) ∷ (j, u) ∷ t else if k == j then (k, v) ∷ t else (j, u) ∷ insert k v t

  -- `range(..=pos).last()`
  unfoldable pub last_up_to : ℕ → BTreeMap V → Option (ℕ × V)
  last_up_to pos [] = none
  last_up_to pos ((j, u) ∷ t) =
      if leb j pos then elim (last_up_to pos t) [ none ↦ some (j, u) | some e ↦ some e ] else none

  -- `drain_filter(|_, v| p(v))`: what is taken out, in order, and what stays.
  unfoldable pub drained : (V → Bool) → BTreeMap V → List V
  drained p [] = []
  drained p ((j, u) ∷ t) = let rest = drained p t in if p u then u ∷ rest else rest

  unfoldable pub kept : (V → Bool) → BTreeMap V → BTreeMap V
  kept p [] = []
  kept p ((j, u) ∷ t) = let rest = kept p t in if p u then rest else (j, u) ∷ rest
