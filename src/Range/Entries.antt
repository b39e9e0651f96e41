-- ===== src/Range/Entries.antt =====
-- What putting an area back, and taking areas out, does to the order of the entries and to the
-- attributes of the addresses.
use maturin.Prelude.{ℕ, ◌≤◌, ◌<◌, ◌≡◌, ◌⊎◌, or_else, refl, Bool, true, List, [], ◌∷◌, arith}
use maturin.Range.Area.{RangeArea, contains, is_overlap_with}
use maturin.Range.Tree.{BTreeMap, insert, drained, kept}
use maturin.Range.Ram.{put}
use maturin.Range.Valid.{
  Chain, Row, Free, Apart, Chain-mono, Row-mono, Chain-Free, Row-Apart-cons, attr, prot, prot_row,
  prot-Chain,
}

module _ {S : Type 0} where
  -- Every segment is in order.
  abbrev pub Live : (RangeArea S → Type 0) → BTreeMap (RangeArea S) → Type 0
  Live P [] = Unit {0}
  Live P ((k, a) ∷ t) = P a × Live P t

  abbrev pub LiveRow : (RangeArea S → Type 0) → List (RangeArea S) → Type 0
  LiveRow P [] = Unit {0}
  LiveRow P (a ∷ areas) = P a × LiveRow P areas

  pub put-Chain :
      (lo : ℕ) (a : RangeArea S) (t : BTreeMap (RangeArea S))
      → lo ≤ a.start
      → a.start < a.end
      → Free a.start a.end t
      → Chain lo t
      → Chain lo (put a t)
  unfolding put insert
  put-Chain lo a [] h ne f c = (refl, h, ne, tt)
  put-Chain lo a ((k, u) ∷ t) h ne f c = ground (arith, put-Chain u.end a t)

  pub put-Free :
      (b e : ℕ) (a : RangeArea S) (t : BTreeMap (RangeArea S))
      → (e ≤ a.start) ⊎ (a.end ≤ b)
      → Free b e t
      → Free b e (put a t)
  unfolding put insert
  put-Free b e a [] h f = (h, tt)
  put-Free b e a ((k, u) ∷ t) h f = ground (arith, put-Free b e a t)

  pub put-Live :
      (P : RangeArea S → Type 0) (a : RangeArea S) (t : BTreeMap (RangeArea S))
      → P a
      → Live P t
      → Live P (put a t)
  unfolding put insert
  put-Live P a [] h l = (h, tt)
  put-Live P a ((k, u) ∷ t) h l = ground (arith, put-Live P a t)

  pub kept-Chain :
      (hit : RangeArea S → Bool) (lo : ℕ) (t : BTreeMap (RangeArea S))
      → Chain lo t
      → Chain lo (kept hit t)
  unfolding kept
  kept-Chain hit lo [] c = tt
  kept-Chain hit lo ((k, u) ∷ t) c =
      ground (arith, kept-Chain hit u.end t c.3, Chain-mono lo u.end (kept hit t))

  pub drained-Row :
      (hit : RangeArea S → Bool) (lo : ℕ) (t : BTreeMap (RangeArea S))
      → Chain lo t
      → Row lo (drained hit t)
  unfolding drained
  drained-Row hit lo [] c = tt
  drained-Row hit lo ((k, u) ∷ t) c =
      ground (arith, drained-Row hit u.end t c.3, Row-mono lo u.end (drained hit t))

  pub kept-Live :
      (P : RangeArea S → Type 0) (hit : RangeArea S → Bool) (t : BTreeMap (RangeArea S))
      → Live P t
      → Live P (kept hit t)
  unfolding kept
  kept-Live P hit [] l = tt
  kept-Live P hit ((k, u) ∷ t) l = ground (arith, kept-Live P hit t l.1)

  pub drained-Live :
      (P : RangeArea S → Type 0) (hit : RangeArea S → Bool) (t : BTreeMap (RangeArea S))
      → Live P t
      → LiveRow P (drained hit t)
  unfolding drained
  drained-Live P hit [] l = tt
  drained-Live P hit ((k, u) ∷ t) l = ground (arith, drained-Live P hit t l.1)

  pub drained-hit :
      (hit : RangeArea S → Bool) (t : BTreeMap (RangeArea S))
      → LiveRow (λ a. hit a ≡ true) (drained hit t)
  unfolding drained
  drained-hit hit [] = tt
  drained-hit hit ((k, u) ∷ t) = ground (arith, drained-hit hit t)

  -- What is taken out and what stays do not meet.
  pub drained-Apart :
      (hit : RangeArea S → Bool) (lo : ℕ) (t : BTreeMap (RangeArea S))
      → Chain lo t
      → Apart (drained hit t) (kept hit t)
  unfolding drained kept
  drained-Apart hit lo [] c = tt
  drained-Apart hit lo ((k, u) ∷ t) c = ground (
    arith,
    drained-Apart hit u.end t c.3,
    Chain-Free u.end u.start u.end (kept hit t) (kept-Chain hit u.end t c.3),
    Row-Apart-cons k u (drained hit t) (kept hit t) (drained-Row hit u.end t c.3),
  )

  pub kept-Free :
      (b e : ℕ) (t : BTreeMap (RangeArea S)) → Free b e (kept (λ a. is_overlap_with a b e) t)
  unfolding kept is_overlap_with
  kept-Free b e [] = tt
  kept-Free b e ((k, u) ∷ t) = ground (arith, kept-Free b e t)

module _ {S : Type 0} (flag : S → ℕ) where
  pub prot-put :
      (lo p : ℕ) (a : RangeArea S) (t : BTreeMap (RangeArea S))
      → a.start < a.end
      → Free a.start a.end t
      → Chain lo t
      → prot flag p (put a t) ≡ or_else (attr flag p a) (prot flag p t)
  unfolding put insert contains
  prot-put lo p a [] ne f c = refl
  prot-put lo p a ((k, u) ∷ t) ne f c = ground (arith, prot-put u.end p a t ne f.1 c.3)

  pub prot-drained :
      (hit : RangeArea S → Bool) (lo p : ℕ) (t : BTreeMap (RangeArea S))
      → Chain lo t
      → prot flag p t ≡ or_else (prot flag p (kept hit t)) (prot_row flag p (drained hit t))
  unfolding drained kept contains
  prot-drained hit lo p [] c = refl
  prot-drained hit lo p ((k, u) ∷ t) c = ground (
    arith,
    prot-drained hit u.end p t c.3,
    prot-Chain flag u.end p (kept hit t) (kept-Chain hit u.end t c.3),
  )
