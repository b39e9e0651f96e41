-- ===== src/Range/Protect.antt =====
-- `mprotect` gives the mapped addresses of its range the new attribute, and changes no other.
use maturin.Prelude.{
  ℕ, ◌≤◌, ◌<◌, ◌≡◌, inl, inr, ltb, leb, ◌&&◌, if◌then◌else◌, le_or_lt, refl, Option, none, some,
  arith, true,
}
use maturin.Range.Segment.{◌>>=◌, Segment, IsLawful}
use maturin.Range.Area.{RangeArea, contains, is_overlap_with, split_and_modify_if_overlap}
use maturin.Range.Tree.{BTreeMap, kept}
use maturin.Range.Ram.{put, put_cut, protect_area, mprotect}
use maturin.Range.Valid.{Chain, Free, Free-sub, prot, prot-Free}
use maturin.Range.Entries.{Live, put-Free, kept-Free}
use maturin.Range.Loop.{Sound, Outside, Live-frame, Done, Handles, IsPointwise, pass_lem}
use maturin.Range.Defaults.{modify_left_lem, modify_right_lem, modify_middle_lem}
use maturin.Range.Unmap.{overlap_bounds, Placed, put-Placed}

-- Every attribute becomes `flag`.
abbrev pub repaint : ℕ → Option ℕ → Option ℕ
repaint flag none = none
repaint flag (some x) = some flag

-- The attribute of an address after the range from `s` to `e` has been given `new_flag`.
abbrev pub recolor : ℕ → ℕ → ℕ → ℕ → Option ℕ → Option ℕ
recolor s e new_flag p x = if leb s p && ltb p e then repaint new_flag x else x

module _ {W S : Type 0} {ops : Segment W S} (L : IsLawful ops) where
  module _ (s e new_flag args : ℕ) (cut_s : L.Cut s) (cut_e : L.Cut e) (ne : s < e)
      (allowed : L.Flag new_flag) where
    -- One lemma for each way in which an area meets the range.
    module _ (a : RangeArea S) (t : BTreeMap (RangeArea S)) (w : W)
        (hit : is_overlap_with a s e ≡ true) (nea : a.start < a.end) (ok : Sound L w a)
        (c : Chain 0 t) (l : Live (Sound L w) t) (f : Free a.start a.end t) where
      abbrev Goal : Type 0
      Goal =
          (t' : BTreeMap (RangeArea S)) × (w' : W) × (protect_area ops s e new_flag args a t w
            ≡ some (t', w'))
          × Done L (recolor s e new_flag) a t w t' w'

      abbrev b : (s < a.end) × (a.start < e)
      b = overlap_bounds a s e hit

      protect_whole : s ≤ a.start → a.end ≤ e → Goal
      unfolding protect_area split_and_modify_if_overlap put_cut contains
      protect_whole p q =
          let (s', w', eq, ok', fl, o) =
            L.modify_lem a.segment a.start a.end new_flag args w ok allowed in
          let u : RangeArea S = record a { segment = s' } in
          let pu = put-Placed L t u w' nea ok' c (Live-frame L a.start a.end w w' t o f l) f in
          (
            put u t,
            w',
            ground (arith, b, eq),
            record {
              chain = pu.chain;
              live = pu.live;
              free = λ c d h g. put-Free c d u t h g;
              outside = o;
              view = λ x. ground (arith, pu.view x);
              bare = λ x lo hi n. absurd (ground (arith, pu.view x, lo, hi, n));
            },
          )

      -- Two parts, cut at `x`.
      abbrev Halves : ℕ → S → S → W → Type 0
      Halves x l1 r w' =
          L.Spans l1 a.start x w' × L.Spans r x a.end w' × Outside L a.start a.end w w'

      two_Placed :
          (x : ℕ) (l1 r : S) (w' : W)
          → a.start < x
          → x < a.end
          → Halves x l1 r w'
          → let u : RangeArea S = record { start = a.start; end = x; segment = l1 } in
            let v : RangeArea S = record { start = x; end = a.end; segment = r } in
            Placed L t u w' (put u t) × Placed L (put u t) v w' (put v (put u t))
      two_Placed x l1 r w' p q h =
          let u : RangeArea S = record { start = a.start; end = x; segment = l1 } in
          let v : RangeArea S = record { start = x; end = a.end; segment = r } in
          let pu =
            put-Placed L t u w' p h.0 c (Live-frame L a.start a.end w w' t h.2 f l)
              (Free-sub a.start a.end a.start x t (omega arith) (omega arith) f) in
          (
            pu,
            put-Placed L (put u t) v w' q h.1 pu.chain pu.live (
                put-Free x a.end u t (inr (omega arith))
                  (Free-sub a.start a.end x a.end t (omega arith) (omega arith) f)),
          )

      protect_left : s ≤ a.start → e < a.end → Goal
      unfolding protect_area split_and_modify_if_overlap put_cut contains
      protect_left p q =
          let (l1, r, w', eq, ok1, ok2, fl1, fl2, o) =
            modify_left_lem L a.segment a.start a.end args w ok e cut_e b.1 q new_flag allowed in
          let u : RangeArea S = record { start = a.start; end = e; segment = l1 } in
          let v : RangeArea S = record { start = e; end = a.end; segment = r } in
          let (pu, pv) = two_Placed e l1 r w' b.1 q (ok1, ok2, o) in
          (
            put v (put u t),
            w',
            ground (arith, b, eq),
            record {
              chain = pv.chain;
              live = pv.live;
              free = λ c d h g.
                  put-Free c d v (put u t) (omega (arith, b))
                    (put-Free c d u t (omega (arith, b)) g);
              outside = o;
              view = λ x. ground (arith, b, pu.view x, pv.view x);
              bare = λ x lo hi n. absurd (ground (arith, b, pu.view x, pv.view x, lo, hi, n));
            },
          )

      protect_right : a.start < s → a.end ≤ e → Goal
      unfolding protect_area split_and_modify_if_overlap put_cut contains
      protect_right p q =
          let (l1, r, w', eq, ok1, ok2, fl1, fl2, o) =
            modify_right_lem L a.segment a.start a.end args w ok s cut_s p b.0 new_flag allowed in
          let u : RangeArea S = record { start = a.start; end = s; segment = l1 } in
          let v : RangeArea S = record { start = s; end = a.end; segment = r } in
          let (pu, pv) = two_Placed s l1 r w' p b.0 (ok1, ok2, o) in
          (
            put v (put u t),
            w',
            ground (arith, b, eq),
            record {
              chain = pv.chain;
              live = pv.live;
              free = λ c d h g.
                  put-Free c d v (put u t) (omega (arith, b))
                    (put-Free c d u t (omega (arith, b)) g);
              outside = o;
              view = λ x. ground (arith, b, pu.view x, pv.view x);
              bare = λ x lo hi n. absurd (ground (arith, b, pu.view x, pv.view x, lo, hi, n));
            },
          )

      protect_middle : a.start < s → e < a.end → Goal
      unfolding protect_area split_and_modify_if_overlap put_cut contains
      protect_middle p q =
          let (l1, m, r, w', eq, ok1, okm, ok2, fl1, flm, fl2, o) =
            modify_middle_lem L a.segment a.start a.end args w ok s e cut_s cut_e p ne q new_flag
              allowed in
          let u : RangeArea S = record { start = a.start; end = s; segment = l1 } in
          let z : RangeArea S = record { start = s; end = e; segment = m } in
          let v : RangeArea S = record { start = e; end = a.end; segment = r } in
          let fr =
            λ (x y : ℕ) (h : a.start ≤ x) (k : y ≤ a.end). Free-sub a.start a.end x y t h k f in
          let pu =
            put-Placed L t u w' p ok1 c (Live-frame L a.start a.end w w' t o f l)
              (fr a.start s (omega arith) (omega (arith, b))) in
          let pz =
            put-Placed L (put u t) z w' ne okm pu.chain pu.live
              (put-Free s e u t (inr (omega arith)) (fr s e (omega arith) (omega arith))) in
          let pv = put-Placed L (put z (put u t)) v w' q ok2 pz.chain pz.live (
            put-Free e a.end z (put u t) (inr (omega arith)) (
              put-Free e a.end u t (inr (omega arith)) (fr e a.end (omega arith) (omega arith)))) in
          (
            put v (put z (put u t)),
            w',
            ground (arith, b, eq),
            record {
              chain = pv.chain;
              live = pv.live;
              free = λ c d h g. put-Free c d v (put z (put u t)) (omega (arith, b)) (
                  put-Free c d z (put u t) (omega (arith, b))
                    (put-Free c d u t (omega (arith, b)) g));
              outside = o;
              view = λ x. ground (arith, b, pu.view x, pz.view x, pv.view x);
              bare = λ x lo hi n.
                  absurd (ground (arith, b, pu.view x, pz.view x, pv.view x, lo, hi, n));
            },
          )

    protect_area-Handles :
        Handles L
          (λ a. is_overlap_with a s e)
          (recolor s e new_flag)
          (protect_area ops s e new_flag args)
    protect_area-Handles a t w hit nea ok c l f = elim (le_or_lt s a.start) [
      | inl p ↦ elim (le_or_lt a.end e) [
        | inl q ↦ protect_whole a t w hit nea ok c l f p q
        | inr q ↦ protect_left a t w hit nea ok c l f p q
      ]
      | inr p ↦ elim (le_or_lt a.end e) [
        | inl q ↦ protect_right a t w hit nea ok c l f p q
        | inr q ↦ protect_middle a t w hit nea ok c l f p q
      ]
    ]

    recolor-IsPointwise : IsPointwise L (recolor s e new_flag)
    recolor-IsPointwise = record { at_none = λ p. ground arith; at_or = λ p x y. ground arith }

    -- The pass of `mprotect` over the entries of a map in order.
    pub mprotect_pass :
        (t : BTreeMap (RangeArea S)) (w : W)
        → Chain 0 t
        → Live (Sound L w) t
        → (t' : BTreeMap (RangeArea S)) × (w' : W) × (mprotect ops
              (record { segments = t; args = args })
              s
              e
              new_flag
              w
            ≡ some (record { segments = t'; args = args }, w'))
          × Chain 0 t'
          × Live (Sound L w') t'
          × ((p : ℕ) → prot L.flag p t' ≡ recolor s e new_flag p (prot L.flag p t))
    unfolding mprotect
    mprotect_pass t w c l =
        let hit = λ (a : RangeArea S). is_overlap_with a s e in
        let (t', w', eq, c', l', v, _) =
          pass_lem L hit (recolor s e new_flag) (protect_area ops s e new_flag args)
            recolor-IsPointwise protect_area-Handles t w c l
            (λ p. ground (arith, prot-Free L.flag s e p (kept hit t) (kept-Free s e t))) in
        (t', w', rw (eq, ◌>>=◌) refl, c', l', v)
