-- ===== src/Range/Loop.antt =====
-- The loop that `unmap` and `mprotect` share: take the areas that meet a range out of the map, treat
-- each, and put what is left back. One rule for it, from a rule for the treatment of one area.
use maturin.Prelude.{
  ℕ, ◌+◌, ◌∙◌, Bool-cases, false, inl, ◌≤◌, ◌<◌, ◌≡◌, ◌⊎◌, inr, or_else, or_else-none,
  or_else_assoc, refl, sym, Bool, true, Option, none, some, List, [], ◌∷◌, arith,
}
use maturin.Range.Segment.{M, ◌>>=◌, Segment, IsLawful}
use maturin.Range.Area.{RangeArea, contains}
use maturin.Range.Tree.{BTreeMap, drained, kept}
use maturin.Range.Ram.{for_each}
use maturin.Range.Valid.{Chain, Row, Free, Apart, Row-mono, attr, prot, prot_row}
use maturin.Range.Entries.{
  Live, LiveRow, kept-Chain, drained-Row, kept-Live, drained-Live, drained-hit, drained-Apart,
  prot-drained,
}

module _ {W S : Type 0} {ops : Segment W S} (L : IsLawful ops) where
  -- The segment of the area is in order for the area's range.
  abbrev pub Sound : W → RangeArea S → Type 0
  Sound w a = L.Spans a.segment a.start a.end w

  -- The worlds are alike for whatever lives off the range from `a` to `b`.
  abbrev pub Outside : ℕ → ℕ → W → W → Type 0
  Outside a b w w' = (c d : ℕ) → (d ≤ a) ⊎ (b ≤ c) → L.Agree c d w w'

  pub Outside-trans : (a b : ℕ) (u v w : W) → Outside a b u v → Outside a b v w → Outside a b u w
  Outside-trans a b u v w f g c d h = L.agree_trans c d u v w (f c d h) (g c d h)

  pub Live-frame :
      (a b : ℕ) (w w' : W) (t : BTreeMap (RangeArea S))
      → Outside a b w w'
      → Free a b t
      → Live (Sound w) t
      → Live (Sound w') t
  Live-frame a b w w' [] o f l = tt
  Live-frame a b w w' ((k, u) ∷ t) o f l = (
    L.Spans-agree u.segment u.start u.end w w' (o u.start u.end (omega arith)) l.0,
    Live-frame a b w w' t o f.1 l.1,
  )

  LiveRow-frame :
      (a b : ℕ) (w w' : W) (areas : List (RangeArea S))
      → Outside a b w w'
      → Row b areas
      → LiveRow (Sound w) areas
      → LiveRow (Sound w') areas
  LiveRow-frame a b w w' [] o r l = tt
  LiveRow-frame a b w w' (u ∷ areas) o r l = (
    L.Spans-agree u.segment u.start u.end w w' (o u.start u.end (omega arith)) l.0,
    LiveRow-frame a b w w' areas o (Row-mono b u.end areas (omega arith) r.2) l.1,
  )

  or_else-left : (x y : Option ℕ) → or_else x y ≡ none → x ≡ none
  or_else-left none y e = refl
  or_else-left (some a) y e = absurd (ground (arith, e))

  or_else-none-left : (x y : Option ℕ) → x ≡ none → or_else x y ≡ y
  or_else-none-left x y e = rw e refl

  inside : (a : RangeArea S) (p : ℕ) → contains a p ≡ true → (a.start ≤ p) × (p + 1 ≤ a.end)
  unfolding contains
  inside a p h = (ground (arith, h), ground (arith, h))

  elsewhere :
      (a : RangeArea S) (p : ℕ) (areas : List (RangeArea S))
      → contains a p ≡ false
      → prot_row L.flag p (a ∷ areas) ≡ prot_row L.flag p areas
  elsewhere a p areas h = rw h refl

  -- What the treatment of the area `a` has done when it is back: the map is in order, nothing off
  -- the area has changed, and the area's addresses have the attributes that `g` makes of them.
  pub record Done (g : ℕ → Option ℕ → Option ℕ) (a : RangeArea S) (t : BTreeMap (RangeArea S))
      (w : W) (t' : BTreeMap (RangeArea S)) (w' : W) : Type 0 where
    pub chain : Chain 0 t'
    pub live : Live (Sound w') t'
    pub free : (c d : ℕ) → (d ≤ a.start) ⊎ (a.end ≤ c) → Free c d t → Free c d t'
    pub outside : Outside a.start a.end w w'
    pub view : (p : ℕ) → prot L.flag p t' ≡ or_else (prot L.flag p t) (g p (attr L.flag p a))
    pub bare : (p : ℕ) → a.start ≤ p → p < a.end → prot L.flag p t' ≡ none → L.Bare p w'

  abbrev pub Handles :
      (RangeArea S → Bool)
      → (ℕ → Option ℕ → Option ℕ)
      → (RangeArea S → BTreeMap (RangeArea S) → M W (BTreeMap (RangeArea S)))
      → Type 0
  Handles hit g body =
      (a : RangeArea S) (t : BTreeMap (RangeArea S)) (w : W)
      → hit a ≡ true
      → a.start < a.end
      → Sound w a
      → Chain 0 t
      → Live (Sound w) t
      → Free a.start a.end t
      → (t' : BTreeMap (RangeArea S)) × (w' : W) × (body a t w ≡ some (t', w')) × Done g a t w t' w'

  -- A map of attributes that leaves the absent ones absent, and treats each address by itself.
  pub record IsPointwise (g : ℕ → Option ℕ → Option ℕ) : Type 0 where
    pub at_none : (p : ℕ) → g p none ≡ none
    pub at_or : (p : ℕ) (x y : Option ℕ) → g p (or_else x y) ≡ or_else (g p x) (g p y)

  Apart-Done :
      (g : ℕ → Option ℕ → Option ℕ) (a : RangeArea S) (areas : List (RangeArea S))
      (t : BTreeMap (RangeArea S)) (w : W) (t' : BTreeMap (RangeArea S)) (w' : W)
      → Done g a t w t' w'
      → Row a.end areas
      → Apart areas t
      → Apart areas t'
  Apart-Done g a [] t w t' w' d r f = tt
  Apart-Done g a (u ∷ areas) t w t' w' d r f = (
    d.free u.start u.end (inr r.0) f.0,
    Apart-Done g a areas t w t' w' d (Row-mono a.end u.end areas (omega arith) r.2) f.1,
  )

  pub for_each_lem :
      (hit : RangeArea S → Bool) (g : ℕ → Option ℕ → Option ℕ)
      (body : RangeArea S → BTreeMap (RangeArea S) → M W (BTreeMap (RangeArea S)))
      → IsPointwise g
      → Handles hit g body
      → (areas : List (RangeArea S)) (lo : ℕ) (t : BTreeMap (RangeArea S)) (w : W) → Row lo areas
      → LiveRow (Sound w) areas
      → LiveRow (λ a. hit a ≡ true) areas
      → Chain 0 t
      → Live (Sound w) t
      → Apart areas t
      → (t' : BTreeMap (RangeArea S)) × (w' : W) × (for_each body areas t w ≡ some (t', w'))
        × Chain 0 t'
        × Live (Sound w') t'
        × ((p : ℕ) → prot L.flag p t' ≡ or_else (prot L.flag p t) (g p (prot_row L.flag p areas)))
        × ((c d : ℕ) → d ≤ lo → L.Agree c d w w')
        × ((p f : ℕ) → prot_row L.flag p areas ≡ some f → prot L.flag p t' ≡ none → L.Bare p w')
  unfolding for_each
  for_each_lem hit g body gp h [] lo t w r s q c l f = (
    t,
    w,
    refl,
    c,
    l,
    λ p. rw (gp.at_none p) (sym (or_else-none _)),
    λ c d h. L.agree_refl c d w,
    λ p f e n. absurd (ground (arith, e)),
  )
  for_each_lem hit g body gp h (a ∷ areas) lo t w r s q c l f =
      let (t1, w1, e1, d) = h a t w q.0 r.1 s.0 c l f.0 in
      let (t2, w2, e2, c2, l2, v2, o2, b2) =
        for_each_lem hit g body gp h areas a.end t1 w1 r.2
          (LiveRow-frame a.start a.end w w1 areas d.outside r.2 s.1) q.1 d.chain d.live
          (Apart-Done g a areas t w t1 w1 d r.2 f.1) in
      (
        t2,
        w2,
        rw (e1, ◌>>=◌) e2,
        c2,
        l2,
        λ p.
            rw (v2 p, d.view p, gp.at_or p)
              (or_else_assoc (prot L.flag p t) (g p (attr L.flag p a))
                (g p (prot_row L.flag p areas))),
        λ x y k.
            L.agree_trans x y w w1 w2 (d.outside x y (inl (omega (arith, r.0))))
              (o2 x y (omega (arith, r.0, r.1))),
        λ p f e n. elim (Bool-cases (contains a p)) [
          | inl here ↦
              L.Bare-agree p (p + 1) p w1 w2 (o2 p (p + 1) (inside a p here).1) (omega arith)
                (omega arith)
                (d.bare p (inside a p here).0 (omega (arith, (inside a p here).1))
                  (or_else-left _ _ (sym (v2 p) ∙ n)))
          | inr away ↦ b2 p f (sym (elsewhere a p areas away) ∙ e) n
        ],
      )

  -- The whole pass: every address has what `g` makes of its attribute.
  pub pass_lem :
      (hit : RangeArea S → Bool) (g : ℕ → Option ℕ → Option ℕ)
      (body : RangeArea S → BTreeMap (RangeArea S) → M W (BTreeMap (RangeArea S)))
      → IsPointwise g
      → Handles hit g body
      → (t : BTreeMap (RangeArea S)) (w : W) → Chain 0 t
      → Live (Sound w) t
      → ((p : ℕ) → g p (prot L.flag p (kept hit t)) ≡ prot L.flag p (kept hit t))
      → (t' : BTreeMap (RangeArea S)) × (w' : W) × (for_each body (drained hit t) (kept hit t) w
          ≡ some (t', w'))
        × Chain 0 t'
        × Live (Sound w') t'
        × ((p : ℕ) → prot L.flag p t' ≡ g p (prot L.flag p t))
        × ((p f : ℕ) → prot L.flag p t ≡ some f → prot L.flag p t' ≡ none → L.Bare p w')
  pass_lem hit g body gp h t w c l same =
      let (t', w', e, c', l', v, _, bare) =
        for_each_lem hit g body gp h (drained hit t) 0 (kept hit t) w (drained-Row hit 0 t c)
          (drained-Live (Sound w) hit t l) (drained-hit hit t) (kept-Chain hit 0 t c)
          (kept-Live (Sound w) hit t l) (drained-Apart hit 0 t c) in
      (
        t',
        w',
        e,
        c',
        l',
        λ p. rw (v p, prot-drained L.flag hit 0 p t c, gp.at_or p, same p) refl,
        λ p f there n.
            bare p f
              (sym (or_else-none-left _ _ (or_else-left _ _ (sym (v p) ∙ n)))
                ∙ sym (prot-drained L.flag hit 0 p t c)
                ∙ there)
              n,
      )
