-- ===== src/Memory/Area/Unmap.antt =====
-- `unmap_area` on a page table that agrees with the area.
use maturin.Prelude.{
  ℕ, zero, suc, ◌+◌, ◌-◌, ◌*◌, ◌/◌, ◌^◌, ◌<◌, ◌≡◌, inl, inr, Bool, true, false, ◌&&◌, ◌||◌, ◌==◌,
  if◌then◌else◌, Bool-cases, some, refl, sym, ap, subst, ◌∙◌, arith,
}
use maturin.File.VirtFile.{page_size}
use maturin.Memory.Entry.{is_valid}
use maturin.Memory.Error.{Done, ok, err}
use maturin.Memory.Pma.{PmArea, ◌>>=◌}
use maturin.Memory.Table.{PageTable}
use maturin.Memory.Table.Tree.{Use, IsTree}
use maturin.Memory.Table.Walk.{entry, same_page}
use maturin.Memory.Table.Unmap.{is_ok, entry-unmap}
use maturin.Memory.Area.{
  Store, contains, each_page, step_by, release_page, unmap_released, unmap_page, unmap_area_partial,
  unmap_area,
}
use maturin.Memory.Area.Synced.{IsLawful, Matches, Fits, Agrees}
use maturin.Memory.Area.Entries.{
  entry-same_page, Agrees-at, make-Agrees, other_page, with, among, among_none, among-suc,
  among_all,
}

is_ok-true : (r : Done) → is_ok r ≡ true → r ≡ ok tt
is_ok-true (ok x) e = refl
is_ok-true (err x) e = absurd (ground (arith, e))

swapped :
    (pt : PageTable) (v w : ℕ)
    → (if is_valid (entry pt v) && same_page v w then 0 else entry pt w)
      ≡ (if same_page v w && is_valid (entry pt w) then 0 else entry pt w)
swapped pt v w = elim (Bool-cases (same_page v w)) [
  | inr other ↦
      rw other
        (elim (Bool-cases (is_valid (entry pt v))) [ inl on ↦ rw on refl | inr off ↦ rw off refl ])
  | inl is ↦
      let same : is_valid (entry pt w) ≡ is_valid (entry pt v) =
        ap is_valid (entry-same_page pt v w is) in
      rw (is, same)
        (elim (Bool-cases (is_valid (entry pt v))) [ inl on ↦ rw on refl | inr off ↦ rw off refl ])
]

-- Clearing the entries of one set of pages and then of another.
cleared_twice :
    (first second both : Bool) (e0 e1 e2 : ℕ)
    → both ≡ (first || second)
    → e1 ≡ (if first && is_valid e0 then 0 else e0)
    → e2 ≡ (if second && is_valid e1 then 0 else e1)
    → e2 ≡ (if both && is_valid e0 then 0 else e0)
cleared_twice true second both e0 e1 e2 b h1 h2 = elim (Bool-cases (is_valid e0)) [
  | inl on ↦
      let gone : e1 ≡ 0 = h1 ∙ rw on refl in
      let still : (c : Bool) → (if c then 0 else e1) ≡ 0 = zero_either e1 gone in
      h2 ∙ still (second && is_valid e1) ∙ rw (b, on) refl
  | inr off ↦
      let same : e1 ≡ e0 = h1 ∙ rw off refl in
      h2 ∙ rw (same, off, b) (elim (Bool-cases second) [ inl s ↦ rw s refl | inr s ↦ rw s refl ])
]
  where
    zero_either : (e1 : ℕ) → e1 ≡ 0 → (c : Bool) → (if c then 0 else e1) ≡ 0
    zero_either e1 gone true = refl
    zero_either e1 gone false = gone
cleared_twice false second both e0 e1 e2 b h1 h2 =
    h2 ∙ ap (λ e. if second && is_valid e then 0 else e) h1 ∙ rw b refl

module _ {World : Type 0} (ops : PmArea World) (laws : IsLawful ops) where
  -- One page.
  unmap_page_lem :
      (owner : ℕ → Use) (s : Store ops) (k : ℕ)
      → IsTree owner s.pt
      → Fits ops laws s.area
      → Agrees ops laws s k
      → k < laws.pages s.area.pma
      → (pma : ops.State) × (pt : PageTable) × (world : World) × (unmap_page ops
            (s.area.start + k * page_size)
            s
          ≡ some (ok tt, with ops laws s pma pt world))
        × (laws.pages pma ≡ laws.pages s.area.pma)
        × IsTree owner pt
        × Agrees ops laws (with ops laws s pma pt world) (suc k)
        × ((w : ℕ)
            → entry pt w ≡ (
                if same_page (s.area.start + k * page_size) w && is_valid (entry s.pt w)
                then 0
                else entry s.pt w))
  unfolding unmap_page release_page unmap_released
  unmap_page_lem owner s k tree fits agrees h =
      let v = s.area.start + k * page_size in
      let idx : (v - s.area.start) / page_size ≡ k = omega arith in
      let here = Agrees-at ops laws s k k agrees h (omega arith) in
      elim (laws.release s.area.pma k s.world h) [
        | inl (free, e) ↦ (
          s.area.pma,
          s.pt,
          s.world,
          rw (idx, e, ◌>>=◌) refl,
          refl,
          tree,
          make-Agrees ops laws s (suc k) (λ j a b. Agrees-at ops laws s k j agrees a (omega arith)),
          λ w. elim (Bool-cases (same_page v w)) [
            | inr other ↦ rw other refl
            | inl is ↦
                let off : is_valid (entry s.pt v) ≡ false =
                  subst (λ f. Matches f (entry s.pt v)) free here in
                let off_w : is_valid (entry s.pt w) ≡ false =
                  ap is_valid (entry-same_page s.pt v w is) ∙ off in
                rw (off_w, is) refl
          ],
        )
        | inr (p, pma, world, frame, e, count, others) ↦
            let (on, _) : Matches (some p) (entry s.pt v) =
              subst (λ f. Matches f (entry s.pt v)) frame here in
            let (result, pt, gone, succeeds, tree', _, kept) = entry-unmap owner s.pt v tree in
            let is_done : result ≡ ok tt = is_ok-true result (succeeds ∙ on) in
            (
              pma,
              pt,
              world,
              rw (idx, e, gone, is_done, ◌>>=◌) refl,
              count,
              tree',
              make-Agrees ops laws (with ops laws s pma pt world) (suc k) (λ j a b.
                  let l : j < laws.pages s.area.pma = omega (arith, a, count) in
                  let apart_j : (k == j) ≡ false = ground (arith, b) in
                  let apart_k : (j == k) ≡ false = ground (arith, b) in
                  rw
                    (
                      others j,
                      apart_k,
                      kept (s.area.start + j * page_size),
                      on,
                      other_page ops laws s k j fits h l,
                      apart_j,
                    )
                    (Agrees-at ops laws s k j agrees l (omega arith))),
              λ w. kept w ∙ swapped s.pt v w,
            )
      ]

  unmap_pages :
      (owner : ℕ → Use) (s : Store ops) (k n w : ℕ)
      → IsTree owner s.pt
      → Fits ops laws s.area
      → Agrees ops laws s k
      → k + n ≡ laws.pages s.area.pma
      → w < 2 ^ 39
      → (pma : ops.State) × (pt : PageTable) × (world : World) × (each_page ops
            (unmap_page ops)
            n
            (s.area.start + k * page_size)
            s
          ≡ some (ok tt, with ops laws s pma pt world))
        × (laws.pages pma ≡ laws.pages s.area.pma)
        × IsTree owner pt
        × (entry pt w
            ≡ (if among ops laws s k n w && is_valid (entry s.pt w) then 0 else entry s.pt w))
  unfolding each_page
  unmap_pages owner s k zero w tree fits agrees h small =
      (s.area.pma, s.pt, s.world, refl, refl, tree, rw (among_none ops laws s k w) refl)
  unmap_pages owner s k (suc n) w tree fits agrees h small =
      let v = s.area.start + k * page_size in
      let (pma1, pt1, world1, e1, count1, tree1, agrees1, kept1) =
        unmap_page_lem owner s k tree fits agrees (omega (arith, h)) in
      let s1 = with ops laws s pma1 pt1 world1 in
      let fits1 : Fits ops laws s1.area = record {
        from = fits.from;
        to = omega (arith, fits.to, count1);
        low = fits.low;
        byte = fits.byte;
      } in
      let (pma2, pt2, world2, e2, count2, tree2, kept2) =
        unmap_pages owner s1 (suc k) n w tree1 fits1 agrees1 (omega (arith, h, count1)) small in
      let next : v + page_size ≡ s.area.start + suc k * page_size = omega arith in
      (
        pma2,
        pt2,
        world2,
        rw (e1, each_page, next) e2,
        count2 ∙ count1,
        tree2,
        cleared_twice (same_page v w) (among ops laws s (suc k) n w) (among ops laws s k (suc n) w)
            (entry s.pt w) (entry pt1 w) (entry pt2 w)
            (among-suc ops laws s k n w fits (omega (arith, h)) small) (kept1 w) kept2,
      )

  -- On a page table that agrees with the area, `unmap_area` does not fail: an entry of a page of the
  -- area that was valid is then 0, every other entry below 2 ^ 39 is as it was, and the pages of the
  -- table stay the same tree.
  pub unmap_area_lem :
      (owner : ℕ → Use) (s : Store ops) (w : ℕ)
      → IsTree owner s.pt
      → Fits ops laws s.area
      → Agrees ops laws s 0
      → w < 2 ^ 39
      → (s' : Store ops) × (unmap_area ops s ≡ some (ok tt, s'))
        × IsTree owner s'.pt
        × (entry s'.pt w
            ≡ (if contains ops s.area w && is_valid (entry s.pt w) then 0 else entry s.pt w))
  unfolding unmap_area unmap_area_partial contains
  unmap_area_lem owner s w tree fits agrees small =
      let n = laws.pages s.area.pma in
      let (pma, pt, world, e, _, tree', kept) =
        unmap_pages owner s 0 n w tree fits agrees (omega arith) small in
      let count : step_by ops s.area.start s.area.end ≡ n = omega (arith, fits.to) in
      let first : s.area.start ≡ s.area.start + 0 * page_size = omega arith in
      (
        with ops laws s pma pt world,
        rw count (
            subst
              (λ a.
                each_page ops (unmap_page ops) n a s ≡ some (ok tt, with ops laws s pma pt world))
              (sym first) e),
        tree',
        kept
            ∙ ap (λ b. if b && is_valid (entry s.pt w) then 0 else entry s.pt w)
                (among_all ops laws s w fits),
      )
