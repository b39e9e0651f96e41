-- ===== src/Memory/Area/Fill.antt =====
-- A page of an area gets its frame and its entry.
use maturin.Prelude.{
  Option, ℕ, ◌+◌, ◌-◌, ◌*◌, ◌/◌, ◌<◌, ◌≡◌, ◌⊎◌, inl, inr, true, false, ◌==◌, ==_iff, if◌then◌else◌,
  Bool-cases, none, some, refl, sym, ap, subst, ◌∙◌, arith,
}
use Prim.Native.Nat.{bit_or}
use maturin.File.VirtFile.{page_size}
use maturin.Memory.Entry.{is_valid, set_all, mapped_flags}
use maturin.Memory.Error.{Result, Done, ok, err, memory_run_out_of_memory}
use maturin.Memory.Pma.{PmArea, ◌>>=◌}
use maturin.Memory.Table.{PageTable, find_pte}
use maturin.Memory.Table.Tree.{Use, IsTree}
use maturin.Memory.Table.Walk.{
  entry, same_page, line0, line1, line2, find_pte-Reaches, entry-Reaches,
}
use maturin.Memory.Table.Spec.{written, written-IsTree, entry-written}
use maturin.Memory.Table.Unmap.{walk_cases}
use maturin.Fd.Manager.{is_some}
use maturin.Memory.Area.{Store, page_frame, fill_entry}
use maturin.Memory.Area.Synced.{IsLawful, Matches, Fits, Agrees}
use maturin.Memory.Area.Flags.{filled_entry}
use maturin.Memory.Area.Entries.{Agrees-at, make-Agrees, other_page, with}

module _ {World : Type 0} (ops : PmArea World) (laws : IsLawful ops) where
  -- The page of a frame that was there, or that is new and has now its entry.
  Agrees-after :
      (s : Store ops) (k paddr : ℕ) (pma : ops.State) (pt : PageTable) (world : World)
      → Agrees ops laws s 0
      → laws.pages pma ≡ laws.pages s.area.pma
      → ((j : ℕ)
          → laws.frame_at pma j ≡ (if j == k then some paddr else laws.frame_at s.area.pma j))
      → Matches (some paddr) (entry pt (s.area.start + k * page_size))
      → ((j : ℕ)
          → j < laws.pages s.area.pma
          → (k == j) ≡ false
          → entry pt (s.area.start + j * page_size) ≡ entry s.pt (s.area.start + j * page_size))
      → Agrees ops laws (with ops laws s pma pt world) 0
  Agrees-after s k paddr pma pt world agrees count frames here others =
      make-Agrees ops laws (with ops laws s pma pt world) 0 (λ j a b.
        let l : j < laws.pages s.area.pma = omega (arith, a, count) in
        elim (Bool-cases (j == k)) [
          | inl is ↦
              rw (frames j, is)
                (subst (λ i. Matches (some paddr) (entry pt (s.area.start + i * page_size)))
                  (sym ((==_iff j k).0 is)) here)
          | inr other ↦
              rw (frames j, other, others j l (ground (arith, other)))
                (Agrees-at ops laws s 0 j agrees l b)
        ])

  mapped_before :
      (s : Store ops) (k paddr : ℕ)
      → is_valid (entry s.pt (s.area.start + k * page_size)) ≡ true
      → (laws.frame_at s.area.pma k ≡ none) ⊎ (laws.frame_at s.area.pma k ≡ some paddr)
      → Matches (laws.frame_at s.area.pma k) (entry s.pt (s.area.start + k * page_size))
      → Matches (some paddr) (entry s.pt (s.area.start + k * page_size))
  mapped_before s k paddr on (inl free) here =
      let off : is_valid (entry s.pt (s.area.start + k * page_size)) ≡ false =
        subst (λ f. Matches f (entry s.pt (s.area.start + k * page_size))) free here in
      absurd (ground (arith, on, off))
  mapped_before s k paddr on (inr frame) here =
      subst (λ f. Matches f (entry s.pt (s.area.start + k * page_size))) frame here

  same_page_self : (v : ℕ) → same_page v v ≡ true
  same_page_self v = ground arith

  -- The frame of a page, and then its entry: the memory has run out, or the entry was valid, or it
  -- is now, and no other entry changed. The page table agrees with the area.
  pub fill_entry_lem :
      (owner : ℕ → Use) (s : Store ops) (k : ℕ) (on_valid : Done)
      → IsTree owner s.pt
      → Fits ops laws s.area
      → Agrees ops laws s 0
      → k < laws.pages s.area.pma
      → is_some (find_pte s.pt (s.area.start + k * page_size)) ≡ true
      → ((laws.frame_at s.area.pma k ≡ none)
          × (page_frame ops (s.area.start + k * page_size) true s
              ≡ some (err memory_run_out_of_memory, s)))
        ⊎ ((found : Result (Option ℕ) × Store ops) × (result : Done) × (s' : Store ops)
            × (page_frame ops (s.area.start + k * page_size) true s ≡ some found)
            × (fill_entry ops (s.area.start + k * page_size) on_valid found ≡ (result, s'))
            × IsTree owner s'.pt
            × Agrees ops laws s' 0
            × (((result ≡ on_valid) × (is_valid (entry s.pt (s.area.start + k * page_size)) ≡ true))
                ⊎ ((result ≡ ok tt)
                    × (is_valid (entry s.pt (s.area.start + k * page_size)) ≡ false)
                    × (is_valid (entry s'.pt (s.area.start + k * page_size)) ≡ true)
                    × ((w : ℕ)
                        → entry s'.pt w ≡ (
                            if same_page (s.area.start + k * page_size) w
                            then entry s'.pt (s.area.start + k * page_size)
                            else entry s.pt w)))))
  unfolding page_frame fill_entry
  fill_entry_lem owner s k on_valid tree fits agrees low way =
      let v = s.area.start + k * page_size in
      let idx : (v - s.area.start) / page_size ≡ k = omega arith in
      let here = Agrees-at ops laws s 0 k agrees low (omega arith) in
      elim (laws.alloc s.area.pma k s.world low) [
        | inl (free, e) ↦ inl (free, rw (idx, e, page_frame, ◌>>=◌) refl)
        | inr (paddr, pma, world, e, count, was, frames) ↦ elim (walk_cases owner s.pt v tree) [
          | inl (stop, _) ↦ absurd (ground (arith, way, ap is_some stop))
          | inr (p, o, reaches) ↦
              let go = find_pte-Reaches s.pt v p reaches in
              let old : s.pt.memory p (line2 v) ≡ entry s.pt v =
                sym (entry-Reaches s.pt v p reaches) in
              let found : Result (Option ℕ) × Store ops =
                (ok (some paddr), with ops laws s pma s.pt world) in
              let taken : page_frame ops v true s ≡ some found =
                rw (idx, e, page_frame, ◌>>=◌) refl in
              elim (Bool-cases (is_valid (entry s.pt v))) [
                | inl on ↦ inr (
                  found,
                  on_valid,
                  with ops laws s pma s.pt world,
                  taken,
                  rw (go, old, on, fill_entry) refl,
                  tree,
                  Agrees-after s k paddr pma s.pt world agrees count frames
                      (mapped_before s k paddr on was here) (λ j a b. refl),
                  inl (refl, on),
                )
                | inr off ↦
                    let bits = set_all paddr (bit_or s.area.flags mapped_flags) in
                    let pt = written s.pt p (line2 v) bits in
                    let change = λ (w : ℕ). entry-written owner s.pt v p bits w tree o reaches in
                    let now : entry pt v ≡ bits = change v ∙ rw (same_page_self v) refl in
                    let (valid, is_addr) = filled_entry paddr s.area.flags fits.byte in
                    inr (
                      found,
                      ok tt,
                      with ops laws s pma pt world,
                      taken,
                      rw (go, old, off, fill_entry) refl,
                      written-IsTree owner s.pt (line0 v) (line1 v) p (line2 v) bits tree o,
                      Agrees-after s k paddr pma pt world agrees count frames
                          (rw now (valid, is_addr))
                          (λ j a b.
                            change (s.area.start + j * page_size)
                            ∙ rw (other_page ops laws s k j fits low a, b) refl),
                      inr (refl, off, rw now valid, λ w. rw now (change w)),
                    )
              ]
        ]
      ]
