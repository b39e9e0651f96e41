-- ===== src/Range/Valid.antt =====
-- The order that the range map keeps its entries in, and the map seen as a function from addresses
-- to attributes.
use maturin.Prelude.{
  ℕ, ◌≤◌, ◌<◌, ◌≡◌, ◌⊎◌, inr, if◌then◌else◌, or_else, refl, Option, none, some, List, [], ◌∷◌,
  arith,
}
use maturin.Range.Area.{RangeArea, contains}
use maturin.Range.Tree.{BTreeMap}

module _ {S : Type 0} where
  -- Each entry stands at its own start, is not empty and ends before the next one begins.
  abbrev pub Chain : ℕ → BTreeMap (RangeArea S) → Type 0
  Chain lo [] = Unit {0}
  Chain lo ((k, a) ∷ t) = (k ≡ a.start) × (lo ≤ a.start) × (a.start < a.end) × Chain a.end t

  -- The same of areas without their keys.
  abbrev pub Row : ℕ → List (RangeArea S) → Type 0
  Row lo [] = Unit {0}
  Row lo (a ∷ areas) = (lo ≤ a.start) × (a.start < a.end) × Row a.end areas

  -- No entry meets the range from `a` to `b`.
  abbrev pub Free : ℕ → ℕ → BTreeMap (RangeArea S) → Type 0
  Free a b [] = Unit {0}
  Free a b ((k, u) ∷ t) = ((b ≤ u.start) ⊎ (u.end ≤ a)) × Free a b t

  -- None of the areas meets an entry.
  abbrev pub Apart : List (RangeArea S) → BTreeMap (RangeArea S) → Type 0
  Apart [] t = Unit {0}
  Apart (a ∷ areas) t = Free a.start a.end t × Apart areas t

  pub Chain-mono : (lo hi : ℕ) (t : BTreeMap (RangeArea S)) → lo ≤ hi → Chain hi t → Chain lo t
  Chain-mono lo hi [] h c = tt
  Chain-mono lo hi ((k, a) ∷ t) h c = (c.0, omega arith, c.2, c.3)

  pub Row-mono : (lo hi : ℕ) (areas : List (RangeArea S)) → lo ≤ hi → Row hi areas → Row lo areas
  Row-mono lo hi [] h c = tt
  Row-mono lo hi (a ∷ areas) h c = (omega arith, c.1, c.2)

  pub Free-sub :
      (a b c d : ℕ) (t : BTreeMap (RangeArea S)) → a ≤ c → d ≤ b → Free a b t → Free c d t
  Free-sub a b c d [] h k f = tt
  Free-sub a b c d ((j, u) ∷ t) h k f = (omega arith, Free-sub a b c d t h k f.1)

  -- What comes after an area is free of it.
  pub Chain-Free : (lo a b : ℕ) (t : BTreeMap (RangeArea S)) → Chain lo t → b ≤ lo → Free a b t
  Chain-Free lo a b [] c h = tt
  Chain-Free lo a b ((k, u) ∷ t) c h = (omega arith, Chain-Free u.end a b t c.3 (omega arith))

  pub Row-Apart-cons :
      (k : ℕ) (u : RangeArea S) (areas : List (RangeArea S)) (t : BTreeMap (RangeArea S))
      → Row u.end areas
      → Apart areas t
      → Apart areas ((k, u) ∷ t)
  Row-Apart-cons k u [] t r f = tt
  Row-Apart-cons k u (a ∷ areas) t r f = (
    (inr r.0, f.0),
    Row-Apart-cons k u areas t (Row-mono u.end a.end areas (omega arith) r.2) f.1,
  )

module _ {S : Type 0} (flag : S → ℕ) where
  -- The attribute of the address `p`, if an area holds it.
  abbrev pub attr : ℕ → RangeArea S → Option ℕ
  attr p a = if contains a p then some (flag a.segment) else none

  abbrev pub prot : ℕ → BTreeMap (RangeArea S) → Option ℕ
  prot p [] = none
  prot p ((k, a) ∷ t) = or_else (attr p a) (prot p t)

  abbrev pub prot_row : ℕ → List (RangeArea S) → Option ℕ
  prot_row p [] = none
  prot_row p (a ∷ areas) = or_else (attr p a) (prot_row p areas)

  pub prot-Free :
      (a b p : ℕ) (t : BTreeMap (RangeArea S)) → Free a b t → a ≤ p → p < b → prot p t ≡ none
  unfolding contains
  prot-Free a b p [] f h k = refl
  prot-Free a b p ((j, u) ∷ t) f h k = ground (arith, prot-Free a b p t f.1 h k)

  pub prot-Chain : (lo p : ℕ) (t : BTreeMap (RangeArea S)) → Chain lo t → p < lo → prot p t ≡ none
  prot-Chain lo p t c h = prot-Free p lo p t (Chain-Free lo p lo t c (omega arith)) (omega arith) h
