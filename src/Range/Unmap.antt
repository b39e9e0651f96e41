-- ===== src/Range/Unmap.antt =====
-- `unmap` empties exactly the range that it is given.
use maturin.Prelude.{
  ℕ, ◌≤◌, ◌<◌, ◌≡◌, inl, inr, ltb, leb, ◌&&◌, if◌then◌else◌, or_else, or_else-none, le_or_lt, refl,
  true, Option, none, some, arith,
}
use maturin.Range.Segment.{◌>>=◌, Segment, IsLawful}
use maturin.Range.Area.{RangeArea, contains, is_overlap_with, shrink_or_split_if_overlap}
use maturin.Range.Tree.{BTreeMap, kept}
use maturin.Range.Ram.{put, put_back, unmap_area, unmap}
use maturin.Range.Valid.{Chain, Free, Free-sub, attr, prot, prot-Free}
use maturin.Range.Entries.{Live, put-Chain, put-Free, put-Live, kept-Free, prot-put}
use maturin.Range.Loop.{Sound, Live-frame, Done, Handles, IsPointwise, pass_lem}
use maturin.Range.Defaults.{shrink_to_left_lem, shrink_to_right_lem, split_and_remove_middle_lem}

pub overlap_bounds :
    {S : Type 0} (a : RangeArea S) (s e : ℕ)
    → is_overlap_with a s e ≡ true
    → (s < a.end) × (a.start < e)
unfolding is_overlap_with
overlap_bounds a s e h = ground arith

-- The attribute of an address after the range from `s` to `e` is emptied.
abbrev pub carve : ℕ → ℕ → ℕ → Option ℕ → Option ℕ
carve s e p x = if leb s p && ltb p e then none else x

module _ {W S : Type 0} {ops : Segment W S} (L : IsLawful ops) where
  -- Putting a piece of a free range into a map in order.
  pub record Placed (t : BTreeMap (RangeArea S)) (u : RangeArea S) (w : W)
      (t' : BTreeMap (RangeArea S)) : Type 0 where
    pub chain : Chain 0 t'
    pub live : Live (Sound L w) t'
    pub view : (p : ℕ) → prot L.flag p t' ≡ or_else (prot L.flag p t) (attr L.flag p u)

  pub put-Placed :
      (t : BTreeMap (RangeArea S)) (u : RangeArea S) (w : W)
      → u.start < u.end
      → Sound L w u
      → Chain 0 t
      → Live (Sound L w) t
      → Free u.start u.end t
      → Placed t u w (put u t)
  unfolding contains
  put-Placed t u w ne ok c l f = record {
    chain = put-Chain 0 u t (omega arith) ne f c;
    live = put-Live (Sound L w) u t ok l;
    view =
        λ p. ground (arith, prot-put L.flag 0 p u t ne f c, prot-Free L.flag u.start u.end p t f);
  }

  module _ (s e args : ℕ) (cut_s : L.Cut s) (cut_e : L.Cut e) (ne : s < e) where
    -- One lemma for each way in which an area meets the range.
    module _ (a : RangeArea S) (t : BTreeMap (RangeArea S)) (w : W)
        (hit : is_overlap_with a s e ≡ true) (nea : a.start < a.end) (ok : Sound L w a)
        (c : Chain 0 t) (l : Live (Sound L w) t) (f : Free a.start a.end t) where
      abbrev Goal : Type 0
      Goal =
          (t' : BTreeMap (RangeArea S)) × (w' : W) × (unmap_area ops s e args a t w ≡ some (t', w'))
          × Done L (carve s e) a t w t' w'

      abbrev b : (s < a.end) × (a.start < e)
      b = overlap_bounds a s e hit

      unmap_removed : s ≤ a.start → a.end ≤ e → Goal
      unfolding unmap_area shrink_or_split_if_overlap put_back contains
      unmap_removed p q =
          let (s', w', eq, o, bare) = L.remove_lem a.segment a.start a.end args w ok in
          (
            t,
            w',
            ground (arith, b, eq),
            record {
              chain = c;
              live = Live-frame L a.start a.end w w' t o f l;
              free = λ c d h g. g;
              outside = o;
              view = λ x. ground (arith, or_else-none (prot L.flag x t));
              bare = λ x lo hi n. bare x lo hi;
            },
          )

      unmap_right : s ≤ a.start → e < a.end → Goal
      unfolding unmap_area shrink_or_split_if_overlap put_back contains
      unmap_right p q =
          let (r, w', eq, ok', fl, o, bare) =
            shrink_to_right_lem L a.segment a.start a.end args w ok e cut_e b.1 q in
          let u : RangeArea S = record { start = e; end = a.end; segment = r } in
          let pl =
            put-Placed t u w' q ok' c (Live-frame L a.start a.end w w' t o f l)
              (Free-sub a.start a.end e a.end t (omega (arith, b)) (omega arith) f) in
          (
            put u t,
            w',
            ground (arith, b, eq),
            record {
              chain = pl.chain;
              live = pl.live;
              free = λ c d h g. put-Free c d u t (omega (arith, b)) g;
              outside = o;
              view = λ x. ground (arith, b, pl.view x);
              bare = λ x lo hi n. bare x lo (ground (arith, pl.view x, hi, n));
            },
          )

      unmap_left : a.start < s → a.end ≤ e → Goal
      unfolding unmap_area shrink_or_split_if_overlap put_back contains
      unmap_left p q =
          let (r, w', eq, ok', fl, o, bare) =
            shrink_to_left_lem L a.segment a.start a.end args w ok s cut_s p b.0 in
          let u : RangeArea S = record { start = a.start; end = s; segment = r } in
          let pl =
            put-Placed t u w' p ok' c (Live-frame L a.start a.end w w' t o f l)
              (Free-sub a.start a.end a.start s t (omega arith) (omega (arith, b)) f) in
          (
            put u t,
            w',
            ground (arith, b, eq),
            record {
              chain = pl.chain;
              live = pl.live;
              free = λ c d h g. put-Free c d u t (omega (arith, b)) g;
              outside = o;
              view = λ x. ground (arith, b, pl.view x);
              bare = λ x lo hi n. bare x (ground (arith, pl.view x, lo, hi, n)) hi;
            },
          )

      unmap_middle : a.start < s → e < a.end → Goal
      unfolding unmap_area shrink_or_split_if_overlap put_back contains
      unmap_middle p q =
          let (l1, r, w', eq, ok1, ok2, fl1, fl2, o, bare) =
            split_and_remove_middle_lem L a.segment a.start a.end args w ok s e cut_s cut_e p ne
              q in
          let u : RangeArea S = record { start = a.start; end = s; segment = l1 } in
          let v : RangeArea S = record { start = e; end = a.end; segment = r } in
          let pu =
            put-Placed t u w' p ok1 c (Live-frame L a.start a.end w w' t o f l)
              (Free-sub a.start a.end a.start s t (omega arith) (omega (arith, b)) f) in
          let pv = put-Placed (put u t) v w' q ok2 pu.chain pu.live (
            put-Free e a.end u t (inr (omega arith))
              (Free-sub a.start a.end e a.end t (omega (arith, b)) (omega arith) f)) in
          (
            put v (put u t),
            w',
            ground (arith, b, eq),
            record {
              chain = pv.chain;
              live = pv.live;
              free = λ c d h g.
                  put-Free c d v (put u t) (omega (arith, b))
                    (put-Free c d u t (omega (arith, b)) g);
              outside = o;
              view = λ x. ground (arith, b, pu.view x, pv.view x);
              bare = λ x lo hi n.
                  bare x (ground (arith, pu.view x, pv.view x, lo, hi, n))
                    (ground (arith, pu.view x, pv.view x, lo, hi, n));
            },
          )

    unmap_area-Handles :
        Handles L (λ a. is_overlap_with a s e) (carve s e) (unmap_area ops s e args)
    unmap_area-Handles a t w hit nea ok c l f = elim (le_or_lt s a.start) [
      | inl p ↦ elim (le_or_lt a.end e) [
        | inl q ↦ unmap_removed a t w hit nea ok c l f p q
        | inr q ↦ unmap_right a t w hit nea ok c l f p q
      ]
      | inr p ↦ elim (le_or_lt a.end e) [
        | inl q ↦ unmap_left a t w hit nea ok c l f p q
        | inr q ↦ unmap_middle a t w hit nea ok c l f p q
      ]
    ]

    carve-IsPointwise : IsPointwise L (carve s e)
    carve-IsPointwise = record { at_none = λ p. ground arith; at_or = λ p x y. ground arith }

    -- The pass of `unmap` over the entries of a map in order.
    pub unmap_pass :
        (t : BTreeMap (RangeArea S)) (w : W)
        → Chain 0 t
        → Live (Sound L w) t
        → (t' : BTreeMap (RangeArea S)) × (w' : W) × (unmap ops
              (record { segments = t; args = args })
              s
              e
              w
            ≡ some (record { segments = t'; args = args }, w'))
          × Chain 0 t'
          × Live (Sound L w') t'
          × ((p : ℕ) → prot L.flag p t' ≡ carve s e p (prot L.flag p t))
          × ((p f : ℕ) → prot L.flag p t ≡ some f → prot L.flag p t' ≡ none → L.Bare p w')
    unfolding unmap
    unmap_pass t w c l =
        let hit = λ (a : RangeArea S). is_overlap_with a s e in
        let (t', w', eq, c', l', v, bare) =
          pass_lem L hit (carve s e) (unmap_area ops s e args) carve-IsPointwise unmap_area-Handles
            t w c l (λ p. ground (arith, prot-Free L.flag s e p (kept hit t) (kept-Free s e t))) in
        (t', w', rw (eq, ◌>>=◌) refl, c', l', v, bare)
