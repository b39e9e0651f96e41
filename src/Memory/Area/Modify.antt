-- ===== src/Memory/Area/Modify.antt =====
-- `modify_area_flags` on a page table that agrees with the area.
use maturin.Prelude.{
  ℕ, zero, suc, ◌+◌, ◌-◌, ◌*◌, ◌/◌, ◌^◌, ◌<◌, ◌≡◌, inl, inr, Bool, true, false, not, ◌||◌, ◌==◌,
  ==_iff, if◌then◌else◌, Bool-cases, some, Option-cases, refl, sym, ap, subst, ◌∙◌, arith,
}
use Prim.Native.Nat.{bit_or}
use maturin.File.VirtFile.{page_size}
use maturin.Memory.Entry.{is_valid, flags, set_flags, mapped_flags}
use maturin.Memory.Error.{ok}
use maturin.Memory.Pma.{PmArea, ◌>>=◌}
use maturin.Memory.Table.{PageTable}
use maturin.Memory.Table.Tree.{Use, IsTree}
use maturin.Memory.Table.Walk.{entry, same_page}
use maturin.Memory.Area.{
  Store, contains, each_page, step_by, page_frame, changed, modify_found, modify_page,
  modify_area_flags,
}
use maturin.Memory.Area.Synced.{IsLawful, Matches, Fits, Agrees}
use maturin.Memory.Area.Entries.{
  entry-same_page, Agrees-at, make-Agrees, other_page, with, among, among_none, among-suc,
  among_all,
}
use maturin.Memory.Area.Flags.{carries, reflagged, set_entry_flags-mapped}

module _ {World : Type 0} (ops : PmArea World) (laws : IsLawful ops) where
  abbrev with_table : Store ops → PageTable → Store ops
  with_table s pt = with ops laws s s.area.pma pt s.world

  -- One page.
  modify_page_lem :
      (owner : ℕ → Use) (s : Store ops) (k : ℕ)
      → IsTree owner s.pt
      → Fits ops laws s.area
      → Agrees ops laws s 0
      → k < laws.pages s.area.pma
      → (pt : PageTable) × (modify_page ops (s.area.start + k * page_size) s
          ≡ some (ok tt, with_table s pt))
        × IsTree owner pt
        × Agrees ops laws (with_table s pt) 0
        × ((w : ℕ)
            → entry pt w
              ≡ (if same_page (s.area.start + k * page_size) w then entry pt w else entry s.pt w))
        × ((w : ℕ)
            → (not (same_page (s.area.start + k * page_size) w)
                || carries s.area.flags (entry pt w))
              ≡ true)
  unfolding modify_page page_frame modify_found changed
  modify_page_lem owner s k tree fits agrees h =
      let v = s.area.start + k * page_size in
      let idx : (v - s.area.start) / page_size ≡ k = omega arith in
      let here = Agrees-at ops laws s 0 k agrees h (omega arith) in
      let asked = laws.query s.area.pma k s.world h in
      elim (Option-cases (laws.frame_at s.area.pma k)) [
        | inl free ↦ (
          s.pt,
          rw (idx, asked, free, modify_page, ◌>>=◌) refl,
          tree,
          agrees,
          λ w. either (same_page v w) (entry s.pt w),
          λ w. elim (Bool-cases (same_page v w)) [
            | inr other ↦ rw other refl
            | inl is ↦
                let off : is_valid (entry s.pt w) ≡ false =
                  ap is_valid (entry-same_page s.pt v w is)
                  ∙ subst (λ f. Matches f (entry s.pt v)) free here in
                rw (off, is) refl
          ],
        )
        | inr (paddr, frame) ↦
            let (on, is_addr) : Matches (some paddr) (entry s.pt v) =
              subst (λ f. Matches f (entry s.pt v)) frame here in
            let (pt, e, tree', change) = set_entry_flags-mapped owner s.pt v s.area.flags tree on in
            let (on', addr', flags') = reflagged (entry s.pt v) s.area.flags fits.byte in
            let now : entry pt v ≡ set_flags (entry s.pt v) (bit_or s.area.flags mapped_flags) =
              change v ∙ rw (same_page_self v) refl in
            (
              pt,
              rw (idx, asked, frame, modify_page, ◌>>=◌) refl ∙ ap (changed ops s) e,
              tree',
              make-Agrees ops laws (with_table s pt) 0 (λ j a b. elim (Bool-cases (k == j)) [
                | inl is ↦
                    subst
                      (λ i.
                        Matches (laws.frame_at s.area.pma i)
                          (entry pt (s.area.start + i * page_size)))
                      ((==_iff k j).0 is) (rw (frame, now) (on', addr' ∙ is_addr))
                | inr other ↦
                    rw
                      (
                        change (s.area.start + j * page_size),
                        other_page ops laws s k j fits h a,
                        other,
                      )
                      (Agrees-at ops laws s 0 j agrees a b)
              ]),
              λ w. elim (Bool-cases (same_page v w)) [
                | inl is ↦ rw is refl
                | inr other ↦ change w ∙ rw other refl
              ],
              λ w. elim (Bool-cases (same_page v w)) [
                | inr other ↦ rw other refl
                | inl is ↦
                    let same : flags (entry pt w) ≡ bit_or s.area.flags mapped_flags =
                      ap flags (change w ∙ rw is refl) ∙ flags' in
                    ground (arith, same)
              ],
            )
      ]
    where
      same_page_self : (v : ℕ) → same_page v v ≡ true
      same_page_self v = ground arith

      either : (b : Bool) (e : ℕ) → e ≡ (if b then e else e)
      either true e = refl
      either false e = refl

  modify_pages :
      (owner : ℕ → Use) (s : Store ops) (k n w : ℕ)
      → IsTree owner s.pt
      → Fits ops laws s.area
      → Agrees ops laws s 0
      → k + n ≡ laws.pages s.area.pma
      → w < 2 ^ 39
      → (pt : PageTable) × (each_page ops (modify_page ops) n (s.area.start + k * page_size) s
          ≡ some (ok tt, with_table s pt))
        × IsTree owner pt
        × Agrees ops laws (with_table s pt) 0
        × (entry pt w ≡ (if among ops laws s k n w then entry pt w else entry s.pt w))
        × ((not (among ops laws s k n w) || carries s.area.flags (entry pt w)) ≡ true)
  unfolding each_page
  modify_pages owner s k zero w tree fits agrees h small = (
    s.pt,
    refl,
    tree,
    agrees,
    rw (among_none ops laws s k w) refl,
    rw (among_none ops laws s k w) refl,
  )
  modify_pages owner s k (suc n) w tree fits agrees h small =
      let (pt1, e1, tree1, agrees1, kept1, now1) =
        modify_page_lem owner s k tree fits agrees (omega (arith, h)) in
      let s1 = with_table s pt1 in
      let (pt2, e2, tree2, agrees2, kept2, now2) =
        modify_pages owner s1 (suc k) n w tree1 fits agrees1 (omega (arith, h)) small in
      let next : s.area.start + k * page_size + page_size ≡ s.area.start + suc k * page_size =
        omega arith in
      (
        pt2,
        rw (e1, each_page, next) e2,
        tree2,
        agrees2,
        changed_twice (same_page (s.area.start + k * page_size) w) (among ops laws s (suc k) n w)
            (among ops laws s k (suc n) w) (entry s.pt w) (entry pt1 w) (entry pt2 w)
            (among-suc ops laws s k n w fits (omega (arith, h)) small) (kept1 w) kept2,
        carried (same_page (s.area.start + k * page_size) w) (among ops laws s (suc k) n w)
            (among ops laws s k (suc n) w) s.area.flags (entry pt1 w) (entry pt2 w)
            (among-suc ops laws s k n w fits (omega (arith, h)) small) (now1 w) kept2 now2,
      )
    where
      either_true : (x : Bool) → (x || true) ≡ true
      either_true true = refl
      either_true false = refl

      carried :
          (first second both : Bool) (f e1 e2 : ℕ)
          → both ≡ (first || second)
          → (not first || carries f e1) ≡ true
          → e2 ≡ (if second then e2 else e1)
          → (not second || carries f e2) ≡ true
          → (not both || carries f e2) ≡ true
      carried first true both f e1 e2 b h k l = rw l (either_true (not both))
      carried true false both f e1 e2 b h k l = rw (b, k) h
      carried false false both f e1 e2 b h k l = rw b refl

      changed_twice :
          (first second both : Bool) (e0 e1 e2 : ℕ)
          → both ≡ (first || second)
          → e1 ≡ (if first then e1 else e0)
          → e2 ≡ (if second then e2 else e1)
          → e2 ≡ (if both then e2 else e0)
      changed_twice true second both e0 e1 e2 b h1 h2 = rw b refl
      changed_twice false true both e0 e1 e2 b h1 h2 = rw b refl
      changed_twice false false both e0 e1 e2 b h1 h2 = rw b (h2 ∙ h1)

  -- On a page table that agrees with the area, `modify_area_flags` does not fail, and the table still
  -- agrees with the area: no page of it is mapped or unmapped, and each that is mapped has the area's
  -- flags. The entries below 2 ^ 39 that are not
  -- the area's are as they were, and the pages of the table stay the same tree.
  pub modify_area_flags_lem :
      (owner : ℕ → Use) (s : Store ops) (w : ℕ)
      → IsTree owner s.pt
      → Fits ops laws s.area
      → Agrees ops laws s 0
      → w < 2 ^ 39
      → (pt : PageTable) × (modify_area_flags ops s ≡ some (ok tt, record s { pt = pt }))
        × IsTree owner pt
        × Agrees ops laws (record s { pt = pt }) 0
        × (entry pt w ≡ (if contains ops s.area w then entry pt w else entry s.pt w))
        × ((not (contains ops s.area w) || carries s.area.flags (entry pt w)) ≡ true)
  unfolding modify_area_flags contains
  modify_area_flags_lem owner s w tree fits agrees small =
      let n = laws.pages s.area.pma in
      let (pt, e, tree', agrees', kept, now) =
        modify_pages owner s 0 n w tree fits agrees (omega arith) small in
      let count : step_by ops s.area.start s.area.end ≡ n = omega (arith, fits.to) in
      let first : s.area.start + 0 * page_size ≡ s.area.start = omega arith in
      (
        pt,
        rw count (
            subst (λ a. each_page ops (modify_page ops) n a s ≡ some (ok tt, with_table s pt)) first
              e),
        tree',
        agrees',
        kept ∙ ap (λ b. if b then entry pt w else entry s.pt w) (among_all ops laws s w fits),
        ap (λ b. not b || carries s.area.flags (entry pt w)) (sym (among_all ops laws s w fits))
            ∙ now,
      )
