-- ===== src/Range/Defaults.antt =====
-- The default methods of the trait `Segment`, from the laws of the required ones.
use maturin.Prelude.{ℕ, ◌≤◌, ◌<◌, ◌≡◌, inl, inr, ◌∙◌, some, refl, arith}
use maturin.Range.Segment.{
  ◌>>=◌, Segment, IsLawful, shrink_to_left, shrink_to_right, split_and_remove_middle, modify_left,
  modify_right, modify_middle,
}
use maturin.Range.Loop.{Outside, Outside-trans}

module _ {W S : Type 0} {ops : Segment W S} (L : IsLawful ops) where
  Outside-widen : (a b c d : ℕ) (w w' : W) → c ≤ a → b ≤ d → Outside L a b w w' → Outside L c d w w'
  Outside-widen a b c d w w' h k o x y z = o x y (omega arith)

  module _ (s : S) (a b args : ℕ) (w : W) (ok : L.Spans s a b w) where
    module _ (pos : ℕ) (cut : L.Cut pos) (lo : a < pos) (hi : pos < b) where
      pub shrink_to_left_lem :
          (l : S) × (w' : W) × (shrink_to_left ops s pos args w ≡ some (l, w'))
          × L.Spans l a pos w'
          × (L.flag l ≡ L.flag s)
          × Outside L a b w w'
          × ((p : ℕ) → pos ≤ p → p < b → L.Bare p w')
      unfolding shrink_to_left
      shrink_to_left_lem =
          let (l, r, w1, e1, sl, sr, fl, fr, o1) = L.split_lem s a b pos args w ok cut lo hi in
          let (r', w2, e2, o2, bare) = L.remove_lem r pos b args w1 sr in
          (
            l,
            w2,
            rw (e1, ◌>>=◌, e2) refl,
            L.Spans-agree l a pos w1 w2 (o2 a pos (inl (omega arith))) sl,
            fl,
            Outside-trans L a b w w1 w2 o1
                (Outside-widen pos b a b w1 w2 (omega arith) (omega arith) o2),
            bare,
          )

      pub shrink_to_right_lem :
          (r : S) × (w' : W) × (shrink_to_right ops s pos args w ≡ some (r, w'))
          × L.Spans r pos b w'
          × (L.flag r ≡ L.flag s)
          × Outside L a b w w'
          × ((p : ℕ) → a ≤ p → p < pos → L.Bare p w')
      unfolding shrink_to_right
      shrink_to_right_lem =
          let (l, r, w1, e1, sl, sr, fl, fr, o1) = L.split_lem s a b pos args w ok cut lo hi in
          let (l', w2, e2, o2, bare) = L.remove_lem l a pos args w1 sl in
          (
            r,
            w2,
            rw (e1, ◌>>=◌, e2) refl,
            L.Spans-agree r pos b w1 w2 (o2 pos b (inr (omega arith))) sr,
            fr,
            Outside-trans L a b w w1 w2 o1
                (Outside-widen a pos a b w1 w2 (omega arith) (omega arith) o2),
            bare,
          )

      module _ (new_flag : ℕ) (allowed : L.Flag new_flag) where
        pub modify_left_lem :
            (l r : S) × (w' : W) × (modify_left ops s pos new_flag args w ≡ some ((l, r), w'))
            × L.Spans l a pos w'
            × L.Spans r pos b w'
            × (L.flag l ≡ new_flag)
            × (L.flag r ≡ L.flag s)
            × Outside L a b w w'
        unfolding modify_left
        modify_left_lem =
            let (l, r, w1, e1, sl, sr, fl, fr, o1) = L.split_lem s a b pos args w ok cut lo hi in
            let (l', w2, e2, sl', fl', o2) = L.modify_lem l a pos new_flag args w1 sl allowed in
            (
              l',
              r,
              w2,
              rw (e1, ◌>>=◌, e2) refl,
              sl',
              L.Spans-agree r pos b w1 w2 (o2 pos b (inr (omega arith))) sr,
              fl',
              fr,
              Outside-trans L a b w w1 w2 o1
                  (Outside-widen a pos a b w1 w2 (omega arith) (omega arith) o2),
            )

        pub modify_right_lem :
            (l r : S) × (w' : W) × (modify_right ops s pos new_flag args w ≡ some ((l, r), w'))
            × L.Spans l a pos w'
            × L.Spans r pos b w'
            × (L.flag l ≡ L.flag s)
            × (L.flag r ≡ new_flag)
            × Outside L a b w w'
        unfolding modify_right
        modify_right_lem =
            let (l, r, w1, e1, sl, sr, fl, fr, o1) = L.split_lem s a b pos args w ok cut lo hi in
            let (r', w2, e2, sr', fr', o2) = L.modify_lem r pos b new_flag args w1 sr allowed in
            (
              l,
              r',
              w2,
              rw (e1, ◌>>=◌, e2) refl,
              L.Spans-agree l a pos w1 w2 (o2 a pos (inl (omega arith))) sl,
              sr',
              fl,
              fr',
              Outside-trans L a b w w1 w2 o1
                  (Outside-widen pos b a b w1 w2 (omega arith) (omega arith) o2),
            )

    module _ (x y : ℕ) (cut_x : L.Cut x) (cut_y : L.Cut y) (lo : a < x) (mid : x < y)
        (hi : y < b) where
      -- Both cuts, before the middle is treated.
      record Three (w' : W) (l m r : S) : Type 0 where
        left : L.Spans l a x w'
        middle : L.Spans m x y w'
        right : L.Spans r y b w'
        left_flag : L.flag l ≡ L.flag s
        right_flag : L.flag r ≡ L.flag s
        outside : Outside L a b w w'

      three :
          (rest r l m : S) × (w1 w2 : W) × (ops.split s y args w ≡ some ((rest, r), w1))
          × (ops.split rest x args w1 ≡ some ((l, m), w2))
          × Three w2 l m r
      three =
          let (rest, r, w1, e1, sl, sr, fl, fr, o1) =
            L.split_lem s a b y args w ok cut_y (omega arith) hi in
          let (l, m, w2, e2, sl2, sm, fl2, fm, o2) =
            L.split_lem rest a y x args w1 sl cut_x lo mid in
          (
            rest,
            r,
            l,
            m,
            w1,
            w2,
            e1,
            e2,
            record {
              left = sl2;
              middle = sm;
              right = L.Spans-agree r y b w1 w2 (o2 y b (inr (omega arith))) sr;
              left_flag = fl2 ∙ fl;
              right_flag = fr;
              outside =
                  Outside-trans L a b w w1 w2 o1
                    (Outside-widen a y a b w1 w2 (omega arith) (omega arith) o2);
            },
          )

      pub split_and_remove_middle_lem :
          (l r : S) × (w' : W) × (split_and_remove_middle ops s x y args w ≡ some ((l, r), w'))
          × L.Spans l a x w'
          × L.Spans r y b w'
          × (L.flag l ≡ L.flag s)
          × (L.flag r ≡ L.flag s)
          × Outside L a b w w'
          × ((p : ℕ) → x ≤ p → p < y → L.Bare p w')
      unfolding split_and_remove_middle
      split_and_remove_middle_lem =
          let (rest, r, l, m, w1, w2, e1, e2, t) = three in
          let (m', w3, e3, o3, bare) = L.remove_lem m x y args w2 t.middle in
          (
            l,
            r,
            w3,
            rw (e1, ◌>>=◌, e2, e3) refl,
            L.Spans-agree l a x w2 w3 (o3 a x (inl (omega arith))) t.left,
            L.Spans-agree r y b w2 w3 (o3 y b (inr (omega arith))) t.right,
            t.left_flag,
            t.right_flag,
            Outside-trans L a b w w2 w3 t.outside
                (Outside-widen x y a b w2 w3 (omega arith) (omega arith) o3),
            bare,
          )

      pub modify_middle_lem :
          (new_flag : ℕ)
          → L.Flag new_flag
          → (l m r : S) × (w' : W) × (modify_middle ops s x y new_flag args w
              ≡ some ((l, m, r), w'))
            × L.Spans l a x w'
            × L.Spans m x y w'
            × L.Spans r y b w'
            × (L.flag l ≡ L.flag s)
            × (L.flag m ≡ new_flag)
            × (L.flag r ≡ L.flag s)
            × Outside L a b w w'
      unfolding modify_middle
      modify_middle_lem new_flag allowed =
          let (rest, r, l, m, w1, w2, e1, e2, t) = three in
          let (m', w3, e3, sm, fm, o3) = L.modify_lem m x y new_flag args w2 t.middle allowed in
          (
            l,
            m',
            r,
            w3,
            rw (e1, ◌>>=◌, e2, e3) refl,
            L.Spans-agree l a x w2 w3 (o3 a x (inl (omega arith))) t.left,
            sm,
            L.Spans-agree r y b w2 w3 (o3 y b (inr (omega arith))) t.right,
            t.left_flag,
            fm,
            t.right_flag,
            Outside-trans L a b w w2 w3 t.outside
                (Outside-widen x y a b w2 w3 (omega arith) (omega arith) o3),
          )
