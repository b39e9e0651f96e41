-- ===== src/Memory/Area/Segments.antt =====
-- `VmArea` keeps the laws that `RangeActionMap` relies on, over memory that keeps its own.
use maturin.Prelude.{
  ℕ, ◌+◌, ◌-◌, ◌*◌, ◌/◌, ◌%◌, ◌^◌, ◌<◌, ◌≤◌, ◌≡◌, ◌⊎◌, inl, inr, true, false, not, ◌||◌, Bool-cases,
  if◌then◌else◌, ltb, leb, ◌&&◌, ◌==◌, usize_mod, some, refl, sym, ap, ◌∙◌, arith,
}
use maturin.File.VirtFile.{page_size}
use maturin.Memory.Addr.{align_down, align_up}
use maturin.Memory.Entry.{is_valid}
use maturin.Memory.Table.Grow.{zero_invalid}
use maturin.Memory.Area.Flags.{carries}
use maturin.Memory.Error.{ok}
use maturin.Memory.Pma.{PmArea}
use maturin.Memory.Table.Walk.{entry}
use maturin.Memory.Area.{VmArea, new, contains}
use maturin.Memory.Area.Synced.{IsLawful, Fits, Agrees}
use maturin.Memory.Area.Entries.{Agrees-at, make-Agrees}
use maturin.Memory.Area.Unmap.{unmap_area_lem}
use maturin.Memory.Area.Modify.{modify_area_flags_lem}
use maturin.Memory.Area.Alike.{
  HasTree, Alike, same_at, make_same, Alike-refl, Alike-trans, some_inj,
}
use maturin.Memory.Area.Seg.{Space, store_of, unwrapped, remove, modify, split_into, split, vm_area}
use maturin.Range.Segment

module _ {World : Type 0} (ops : PmArea World) (laws : IsLawful ops) where
  -- The area is the range's, and the page table agrees with it and has its flags.
  pub record Spans (area : VmArea ops) (a b : ℕ) (w : Space World) : Type 0 where
    pub starts : area.start ≡ a
    pub ends : area.end ≡ b
    pub fits : Fits ops laws area
    pub agrees : Agrees ops laws (store_of ops area w) 0
    pub tree : HasTree w.pt
    pub flagged : (x : ℕ) → (not (contains ops area x) || carries area.flags (entry w.pt x)) ≡ true

  -- Addresses in a range beside the area.
  outside_of :
      (a b : ℕ) (s : VmArea ops) (x c d : ℕ)
      → c ≤ x
      → x < d
      → s.start ≡ a
      → s.end ≡ b
      → (d ≤ a) ⊎ (b ≤ c)
      → (leb s.start x && ltb x s.end) ≡ false
  outside_of a b s x c d lo hi e f (inl below) = ground (arith, lo, hi, e, f, below)
  outside_of a b s x c d lo hi e f (inr above) = ground (arith, lo, hi, e, f, above)

  -- That an address of the lower half has no page.
  abbrev pub Unmapped : ℕ → Space World → Type 0
  Unmapped p w = (p < 2 ^ 39) × (is_valid (entry w.pt p) ≡ false)

  pub Unmapped-Alike :
      (a b p : ℕ) (w w' : Space World)
      → Alike a b w w'
      → a ≤ p
      → p < b
      → Unmapped p w
      → Unmapped p w'
  Unmapped-Alike a b p w w' h lo hi (small, off) =
      (small, ap is_valid (same_at a b w.pt w'.pt p h.same lo hi small) ∙ off)

  cleared_invalid : (e : ℕ) → is_valid (if is_valid e then 0 else e) ≡ false
  cleared_invalid e = elim (Bool-cases (is_valid e)) [
    | inl on ↦ rw on zero_invalid
    | inr off ↦ rw off off
  ]

  pub remove_lem :
      (s : VmArea ops) (a b args : ℕ) (w : Space World)
      → Spans s a b w
      → (s' : VmArea ops) × (w' : Space World) × (remove ops s args w ≡ some (s', w'))
        × ((c d : ℕ) → (d ≤ a) ⊎ (b ≤ c) → Alike c d w w')
        × ((p : ℕ) → a ≤ p → p < b → Unmapped p w')
  unfolding remove unwrapped contains
  remove_lem s a b args w h =
      let (owner, tree) = h.tree in
      let st = store_of ops s w in
      let (st', e, tree', _) =
        unmap_area_lem ops laws owner st 0 tree h.fits h.agrees (omega arith) in
      (
        st'.area,
        record { pt = st'.pt; world = st'.world },
        ap (unwrapped ops) e,
        λ c d away. record {
          keeps = λ t. (owner, tree');
          same = make_same c d w.pt st'.pt (λ x lo hi small.
              let (st_x, e_x, _, kept) =
                unmap_area_lem ops laws owner st x tree h.fits h.agrees small in
              let as_one : st'.pt ≡ st_x.pt =
                ap (λ p. p.1.pt) (some_inj (ok tt, st') (ok tt, st_x) (sym e ∙ e_x)) in
              let outside : (leb s.start x && ltb x s.end) ≡ false =
                outside_of a b s x c d lo hi h.starts h.ends away in
              ap (λ pt. entry pt x) as_one ∙ kept ∙ rw outside refl);
        },
        λ p lo hi.
            let small : p < 2 ^ 39 = omega (arith, h.ends, h.fits.low, hi) in
            let (st_p, e_p, _, kept) =
              unmap_area_lem ops laws owner st p tree h.fits h.agrees small in
            let as_one : st'.pt ≡ st_p.pt =
              ap (λ q. q.1.pt) (some_inj (ok tt, st') (ok tt, st_p) (sym e ∙ e_p)) in
            let within : (leb s.start p && ltb p s.end) ≡ true =
              ground (arith, lo, hi, h.starts, h.ends) in
            (
              small,
              ap (λ t. is_valid (entry t p)) as_one
                  ∙ ap is_valid kept
                  ∙ rw within (cleared_invalid (entry w.pt p)),
            ),
      )

  pub modify_lem :
      (s : VmArea ops) (a b new_flag args : ℕ) (w : Space World)
      → Spans s a b w
      → new_flag < 2 ^ 8
      → (s' : VmArea ops) × (w' : Space World) × (modify ops s new_flag args w ≡ some (s', w'))
        × Spans s' a b w'
        × (s'.flags ≡ new_flag)
        × ((c d : ℕ) → (d ≤ a) ⊎ (b ≤ c) → Alike c d w w')
  unfolding modify unwrapped contains
  modify_lem s a b new_flag args w h byte =
      let (owner, tree) = h.tree in
      let area : VmArea ops = record s { flags = new_flag % 2 ^ 8 } in
      let fits : Fits ops laws area = record {
        from = h.fits.from;
        to = h.fits.to;
        low = h.fits.low;
        byte = omega arith;
      } in
      let st = store_of ops area w in
      let (pt, e, tree', agrees', _, _) =
        modify_area_flags_lem ops laws owner st 0 tree fits h.agrees (omega arith) in
      (
        area,
        record { pt = pt; world = w.world },
        ap (unwrapped ops) e,
        record {
          starts = h.starts;
          ends = h.ends;
          fits = fits;
          agrees = agrees';
          tree = (owner, tree');
          flagged = λ x. elim (Bool-cases (leb s.start x && ltb x s.end)) [
            | inr out ↦ rw out refl
            | inl within ↦
                let (pt_x, e_x, _, _, _, now) =
                  modify_area_flags_lem ops laws owner st x tree fits h.agrees
                    (ground (arith, within, h.fits.low)) in
                let as_one : pt ≡ pt_x =
                  ap (λ p. p.1.pt)
                    (some_inj (ok tt, record st { pt = pt }) (ok tt, record st { pt = pt_x })
                      (sym e ∙ e_x)) in
                ap
                  (λ t.
                    not (leb s.start x && ltb x s.end) || carries (new_flag % 2 ^ 8) (entry t x))
                  as_one
                ∙ now
          ];
        },
        omega arith,
        λ c d away. record {
          keeps = λ t. (owner, tree');
          same = make_same c d w.pt pt (λ x lo hi small.
              let (pt_x, e_x, _, _, kept, _) =
                modify_area_flags_lem ops laws owner st x tree fits h.agrees small in
              let as_one : pt ≡ pt_x =
                ap (λ p. p.1.pt)
                  (some_inj (ok tt, record st { pt = pt }) (ok tt, record st { pt = pt_x })
                    (sym e ∙ e_x)) in
              let outside : (leb s.start x && ltb x s.end) ≡ false =
                outside_of a b s x c d lo hi h.starts h.ends away in
              ap (λ t. entry t x) as_one ∙ kept ∙ rw outside refl);
        },
      )

  new_right :
      (s : VmArea ops) (pos : ℕ) (r : ops.State)
      → pos % page_size ≡ 0
      → pos < s.end
      → s.end % page_size ≡ 0
      → s.end ≤ 2 ^ 39
      → ops.size r ≡ s.end - pos
      → new ops pos s.end s.flags r
        ≡ ok (record { start = pos; end = s.end; flags = s.flags; pma = r })
  unfolding new align_down align_up
  new_right s pos r cut low whole small sized =
      let proper : leb s.end pos ≡ false = ground arith in
      let down : pos / page_size * page_size ≡ pos = omega arith in
      let up : (s.end + page_size - 1) % usize_mod / page_size * page_size ≡ s.end = omega arith in
      let sizes : (s.end - pos == ops.size r) ≡ true = ground (arith, sized) in
      rw (proper, down, up, sizes, new) refl

  pub split_lem :
      (s : VmArea ops) (a b pos args : ℕ) (w : Space World)
      → Spans s a b w
      → pos % page_size ≡ 0
      → a < pos
      → pos < b
      → (l r : VmArea ops) × (w' : Space World) × (split ops s pos args w ≡ some ((l, r), w'))
        × Spans l a pos w'
        × Spans r pos b w'
        × (l.flags ≡ s.flags)
        × (r.flags ≡ s.flags)
        × ((c d : ℕ) → (d ≤ a) ⊎ (b ≤ c) → Alike c d w w')
  unfolding split split_into contains
  split_lem s a b pos args w h cut lo hi =
      let k = (pos - s.start) / page_size in
      let whole : (pos - s.start) % page_size ≡ 0 = omega (arith, h.fits.from, h.starts) in
      let inside : pos - s.start < laws.pages s.pma * page_size =
        omega (arith, h.fits.to, h.starts, h.ends) in
      let (pl, pr, world, e, count_l, count_r, sized, frames_l, frames_r) =
        laws.cut s.pma (pos - s.start) w.world whole inside in
      let rest : laws.pages pr * page_size ≡ s.end - pos =
        omega (arith, count_r, h.fits.to, h.starts, whole) in
      let l : VmArea ops = record s { end = pos; pma = pl } in
      let r : VmArea ops = record { start = pos; end = s.end; flags = s.flags; pma = pr } in
      let w' : Space World = record { pt = w.pt; world = world } in
      let made =
        new_right s pos pr cut (omega (arith, h.ends)) (omega (arith, h.fits.from, h.fits.to))
          h.fits.low (sized ∙ rest) in
      (
        l,
        r,
        w',
        ap (split_into ops s pos w.pt) e ∙ rw (made, split_into) refl,
        record {
          starts = h.starts;
          ends = refl;
          fits = record {
            from = h.fits.from;
            to = omega (arith, count_l, whole, h.starts);
            low = omega (arith, h.fits.low, h.ends);
            byte = h.fits.byte;
          };
          agrees = make-Agrees ops laws (store_of ops l w') 0 (λ j m n.
              let below : ltb j k ≡ true = ground (arith, m, count_l) in
              rw (frames_l j, below)
                (Agrees-at ops laws (store_of ops s w) 0 j h.agrees
                  (omega (arith, m, count_l, inside, whole)) n));
          tree = h.tree;
          flagged = λ x. ground (arith, h.flagged x, h.ends, hi);
        },
        record {
          starts = refl;
          ends = h.ends;
          fits = record {
            from = cut;
            to = omega (arith, rest, h.ends);
            low = h.fits.low;
            byte = h.fits.byte;
          };
          agrees = make-Agrees ops laws (store_of ops r w') 0 (λ j m n.
              let at : s.start + (k + j) * page_size ≡ pos + j * page_size =
                omega (arith, whole, h.starts) in
              rw (frames_r j, sym at)
                (Agrees-at ops laws (store_of ops s w) 0 (k + j) h.agrees
                  (omega (arith, m, count_r)) (omega arith)));
          tree = h.tree;
          flagged = λ x. ground (arith, h.flagged x, h.starts, lo);
        },
        refl,
        refl,
        λ c d away. record { keeps = λ t. t; same = make_same c d w.pt w.pt (λ x p q t. refl) },
      )

  pub Spans-Alike :
      (s : VmArea ops) (a b : ℕ) (w w' : Space World)
      → Alike a b w w'
      → Spans s a b w
      → Spans s a b w'
  unfolding contains
  Spans-Alike s a b w w' agree h = record {
    starts = h.starts;
    ends = h.ends;
    fits = h.fits;
    agrees = make-Agrees ops laws (store_of ops s w') 0 (λ j m n.
        let x = s.start + j * page_size in
        rw
          (same_at a b w.pt w'.pt x agree.same (omega (arith, h.starts))
            (omega (arith, h.starts, h.ends, h.fits.to, m))
            (omega (arith, h.fits.to, h.fits.low, m)))
          (Agrees-at ops laws (store_of ops s w) 0 j h.agrees m n));
    tree = agree.keeps h.tree;
    flagged = λ x. elim (Bool-cases (leb s.start x && ltb x s.end)) [
      | inr out ↦ rw out refl
      | inl within ↦
          ap (λ e. not (leb s.start x && ltb x s.end) || carries s.flags e)
            (same_at a b w.pt w'.pt x agree.same (ground (arith, within, h.starts))
              (ground (arith, within, h.ends)) (ground (arith, within, h.fits.low)))
          ∙ h.flagged x
    ];
  }

  unfoldable pub vm_area-IsLawful : Segment.IsLawful (vm_area ops)
  vm_area-IsLawful = record {
    Cut = λ pos. pos % page_size ≡ 0;
    Flag = λ f. f < 2 ^ 8;
    Spans = Spans;
    Agree = Alike;
    Bare = Unmapped;
    flag = λ s. s.flags;
    agree_refl = Alike-refl;
    agree_trans = Alike-trans;
    Spans-agree = Spans-Alike;
    Bare-agree = Unmapped-Alike;
    remove_lem = remove_lem;
    split_lem = split_lem;
    modify_lem = modify_lem;
  }
