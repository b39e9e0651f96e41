-- ===== src/Range/Find.antt =====
-- `find` and `find_free_area` on a map in order.
use maturin.Prelude.{
  ℕ, ◌+◌, ◌%◌, ◌≤◌, ◌<◌, ◌≡◌, ◌⊎◌, inl, inr, max, leb, if◌then◌else◌, usize_mod, Option-cases,
  Bool-cases, refl, Option, none, some, [], ◌∷◌, arith,
}
use mathlib.Core.Option
use maturin.Range.Area.{RangeArea, contains}
use maturin.Range.Tree.{BTreeMap, last_up_to}
use maturin.Range.Ram.{RangeActionMap, lower_limit, upper_limit, find, free_from, find_free_area}
use maturin.Range.Valid.{Chain, Free, Chain-Free, prot, prot-Chain}
use maturin.Range.Entries.{Live}

module _ {S : Type 0} where
  -- What `find` makes of the entry that the tree gives it.
  abbrev seg_of : ℕ → Option (ℕ × RangeArea S) → Option S
  seg_of pos none = none
  seg_of pos (some (_, area)) = if contains area pos then some area.segment else none

  pub find_lem :
      (m : RangeActionMap S) (pos : ℕ) → find m pos ≡ seg_of pos (last_up_to pos m.segments)
  unfolding find
  find_lem m pos = ground arith

  last_up_to-bounds :
      (pos lo : ℕ) (t : BTreeMap (RangeArea S)) {e : ℕ × RangeArea S}
      → Chain lo t
      → last_up_to pos t ≡ some e
      → (lo ≤ e.1.start) × (e.1.start ≤ pos)
  unfolding last_up_to
  last_up_to-bounds pos lo [] c h = absurd (cc)
  last_up_to-bounds pos lo ((k, u) ∷ t) {e} c h =
      ground (arith, last_up_to-bounds pos u.end t {e = e} c.3)

  prot-last :
      (flag : S → ℕ) (pos lo : ℕ) (t : BTreeMap (RangeArea S))
      → Chain lo t
      → Option.map flag (seg_of pos (last_up_to pos t)) ≡ prot flag pos t
  unfolding last_up_to contains
  prot-last flag pos lo [] c = refl
  prot-last flag pos lo ((k, u) ∷ t) c = elim (Option-cases (last_up_to pos t)) [
    | inl e ↦ ground (arith, prot-last flag pos u.end t c.3, prot-Chain flag u.end pos t c.3)
    | inr (x, e) ↦ ground (
      arith,
      prot-last flag pos u.end t c.3,
      prot-Chain flag u.end pos t c.3,
      last_up_to-bounds pos u.end t c.3 e,
    )
  ]

  -- `find` reads the map's attribute at every address.
  pub flag-find :
      (flag : S → ℕ) (m : RangeActionMap S) (pos : ℕ)
      → Chain 0 m.segments
      → Option.map flag (find m pos) ≡ prot flag pos m.segments
  flag-find flag m pos c = rw (find_lem m pos) (prot-last flag pos 0 m.segments c)

  pub last_up_to-Live :
      (P : RangeArea S → Type 0) (pos : ℕ) (t : BTreeMap (RangeArea S)) (k : ℕ) (a : RangeArea S)
      → Live P t
      → last_up_to pos t ≡ some (k, a)
      → P a
  unfolding last_up_to
  last_up_to-Live P pos [] k a l h = absurd (cc)
  last_up_to-Live P pos ((j, u) ∷ t) k a l h = ground (arith, last_up_to-Live P pos t k a l.1)

  -- Every area ends at `b` at the latest.
  abbrev pub Ends : ℕ → BTreeMap (RangeArea S) → Type 0
  Ends b [] = Unit {0}
  Ends b ((k, u) ∷ t) = (u.end ≤ b) × Ends b t

  free_from_sound :
      (last len lo b x : ℕ) (t : BTreeMap (RangeArea S))
      → Chain lo t
      → Ends b t
      → last ≤ b
      → b + len < usize_mod
      → free_from last len t ≡ some x
      → (last ≤ x) × (x + len ≤ upper_limit) × Free x (x + len) t
  unfolding free_from
  free_from_sound last len lo b x [] c e h k eq = ground arith
  free_from_sound last len lo b x ((j, u) ∷ t) c e h k eq = ground (
    arith,
    free_from_sound (max last u.end) len u.end b x t c.3 e.1,
    Chain-Free u.end x (x + len) t c.3,
  )

  free_from_first :
      (last len lo b y : ℕ) (t : BTreeMap (RangeArea S))
      → Chain lo t
      → Ends b t
      → last ≤ b
      → b + len < usize_mod
      → last ≤ y
      → y + len ≤ upper_limit
      → Free y (y + len) t
      → (x : ℕ) × (free_from last len t ≡ some x) × (x ≤ y)
  unfolding free_from
  free_from_first last len lo b y [] c e h k p q f = (last, ground arith, p)
  free_from_first last len lo b y ((j, u) ∷ t) c e h k p q f =
      elim (Bool-cases (leb ((last + len) % usize_mod) j)) [
        | inl yes' ↦ (last, rw yes' refl, p)
        | inr no' ↦
            let (x, eq, g) =
              free_from_first (max last u.end) len u.end b y t c.3 e.1 (omega arith) k
                (ground (arith, no', f)) q f.1 in
            (x, rw no' eq, g)
      ]

  -- Where no sum with an area's end or the hint wraps, the range that `find_free_area` returns is
  -- free and lies at or above the hint and the lower limit, under the upper limit.
  pub find_free_area_sound :
      (m : RangeActionMap S) (hint len b x : ℕ)
      → Chain 0 m.segments
      → Ends b m.segments
      → max hint lower_limit ≤ b
      → b + len < usize_mod
      → find_free_area m hint len ≡ some x
      → (max hint lower_limit ≤ x) × (x + len ≤ upper_limit) × Free x (x + len) m.segments
  unfolding find_free_area
  find_free_area_sound m hint len b x c e h k eq =
      free_from_sound (max hint lower_limit) len 0 b x m.segments c e h k eq

  free_from_or_wraps :
      (last len lo x : ℕ) (t : BTreeMap (RangeArea S))
      → Chain lo t
      → free_from last len t ≡ some x
      → (last ≤ x) × ((usize_mod ≤ x + len) ⊎ ((x + len ≤ upper_limit) × Free x (x + len) t))
  unfolding free_from
  free_from_or_wraps last len lo x [] c eq = ground arith
  free_from_or_wraps last len lo x ((j, u) ∷ t) c eq = ground (
    arith,
    free_from_or_wraps (max last u.end) len u.end x t c.3,
    Chain-Free u.end x (x + len) t c.3,
  )

  -- What `find_free_area` returns on a map in order lies at or above the hint and the lower limit.
  -- Where the sum of it and the length does not wrap, the range from it is under the upper limit and
  -- holds no address of an area.
  pub find_free_area_or_wraps :
      (m : RangeActionMap S) (hint len x : ℕ)
      → Chain 0 m.segments
      → find_free_area m hint len ≡ some x
      → (max hint lower_limit ≤ x)
        × ((usize_mod ≤ x + len) ⊎ ((x + len ≤ upper_limit) × Free x (x + len) m.segments))
  unfolding find_free_area
  find_free_area_or_wraps m hint len x c eq =
      free_from_or_wraps (max hint lower_limit) len 0 x m.segments c eq

  -- Where a range of the length `len` at `y`, at or above the hint and the lower limit and under the
  -- upper limit, holds no address of an area, and no sum with an area's end or the hint wraps,
  -- `find_free_area` returns an address that is not above `y`.
  pub find_free_area_first :
      (m : RangeActionMap S) (hint len b y : ℕ)
      → Chain 0 m.segments
      → Ends b m.segments
      → max hint lower_limit ≤ b
      → b + len < usize_mod
      → max hint lower_limit ≤ y
      → y + len ≤ upper_limit
      → Free y (y + len) m.segments
      → (x : ℕ) × (find_free_area m hint len ≡ some x) × (x ≤ y)
  unfolding find_free_area
  find_free_area_first m hint len b y c e h k p q f =
      free_from_first (max hint lower_limit) len 0 b y m.segments c e h k p q f

  free_from-some :
      (last len : ℕ) (t : BTreeMap (RangeArea S)) → (x : ℕ) × (free_from last len t ≡ some x)
  unfolding free_from
  free_from-some last len [] = (last, ground arith)
  free_from-some last len ((j, u) ∷ t) = elim (Bool-cases (leb ((last + len) % usize_mod) j)) [
    | inl fits ↦ (last, rw fits refl)
    | inr other ↦ let (x, e) = free_from-some (max last u.end) len t in (x, rw other e)
  ]

  -- The search never fails: the upper limit is the largest `usize`, which no sum exceeds.
  pub find_free_area-some :
      (m : RangeActionMap S) (hint len : ℕ) → (x : ℕ) × (find_free_area m hint len ≡ some x)
  unfolding find_free_area
  find_free_area-some m hint len = free_from-some (max hint lower_limit) len m.segments

  -- Where the search starts at or below the first area, and the length is so large that the sum
  -- wraps to an address at or below that area's start, the range returned is not free.
  pub find_free_area_wraps :
      (m : RangeActionMap S) (u : RangeArea S) (t : BTreeMap (RangeArea S)) (hint len : ℕ)
      → m.segments ≡ (u.start, u) ∷ t
      → Chain 0 m.segments
      → max hint lower_limit ≤ u.start
      → u.end < usize_mod
      → len < usize_mod
      → usize_mod ≤ max hint lower_limit + len
      → max hint lower_limit + len ≤ usize_mod + u.start
      → (x : ℕ) × (find_free_area m hint len ≡ some x) × ¬ Free x (x + len) m.segments
  unfolding find_free_area free_from
  find_free_area_wraps m u t hint len e c h k l p q =
      (max hint lower_limit, rw e (ground arith), rw e (λ f. omega (arith, rw e at c)))
