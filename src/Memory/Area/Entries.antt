-- ===== src/Memory/Area/Entries.antt =====
-- The entries of the pages of an area.
use maturin.Prelude.{
  ℕ, zero, suc, ◌+◌, ◌*◌, ◌/◌, ◌^◌, ◌<◌, ◌≤◌, ◌≡◌, inl, inr, Bool, true, false, ltb, leb, ◌&&◌,
  ◌||◌, ◌==◌, if◌then◌else◌, Bool-cases, refl, sym, ap, subst, ◌∙◌, arith,
}
use maturin.File.VirtFile.{page_size}
use maturin.Memory.Pma.{PmArea}
use maturin.Memory.Table.{PageTable}
use maturin.Memory.Table.Walk.{entry, same_page, line0, line1, line2}
use maturin.Memory.Area.{Store}
use maturin.Memory.Area.Pages.{same_page_lem}
use maturin.Memory.Area.Synced.{IsLawful, Matches, Fits, Agrees}

-- Addresses of one page have the same entry.
pub entry-same_page : (pt : PageTable) (v w : ℕ) → same_page v w ≡ true → entry pt w ≡ entry pt v
entry-same_page pt v w is =
    let e0 : line0 w ≡ line0 v = ground (arith, is) in
    let e1 : line1 w ≡ line1 v = ground (arith, is) in
    let e2 : line2 w ≡ line2 v = ground (arith, is) in rw (e0, e1, e2) refl

module _ {World : Type 0} (ops : PmArea World) (laws : IsLawful ops) where
  -- The entry of a page of the area.
  pub Agrees-at :
      (s : Store ops) (k j : ℕ)
      → Agrees ops laws s k
      → j < laws.pages s.area.pma
      → k ≤ j
      → Matches (laws.frame_at s.area.pma j) (entry s.pt (s.area.start + j * page_size))
  Agrees-at s k j h l m =
      let on : (ltb j (laws.pages s.area.pma) && leb k j) ≡ true = ground arith in
      subst
        (λ b.
          if b
          then Matches (laws.frame_at s.area.pma j) (entry s.pt (s.area.start + j * page_size))
          else Unit {0})
        on (h j)

  pub make-Agrees :
      (s : Store ops) (k : ℕ)
      → ((j : ℕ)
          → j < laws.pages s.area.pma
          → k ≤ j
          → Matches (laws.frame_at s.area.pma j) (entry s.pt (s.area.start + j * page_size)))
      → Agrees ops laws s k
  make-Agrees s k each j = elim (Bool-cases (ltb j (laws.pages s.area.pma) && leb k j)) [
    | inl on ↦ rw on (each j (ground (arith, on)) (ground (arith, on)))
    | inr off ↦ rw off tt
  ]

  -- Two pages of the area.
  pub other_page :
      (s : Store ops) (k j : ℕ)
      → Fits ops laws s.area
      → k < laws.pages s.area.pma
      → j < laws.pages s.area.pma
      → same_page (s.area.start + k * page_size) (s.area.start + j * page_size) ≡ (k == j)
  other_page s k j fits h l =
      same_page_lem (s.area.start + k * page_size) (s.area.start + j * page_size)
        (omega (arith, fits.to, fits.low)) (omega (arith, fits.to, fits.low))
      ∙ ground (arith, fits.from)

  abbrev pub with : Store ops → ops.State → PageTable → World → Store ops
  with s pma pt world = record { area = record s.area { pma = pma }; pt = pt; world = world }

  -- Whether an address is in the pages of the area from `k` on, `n` of them.
  abbrev pub among : Store ops → ℕ → ℕ → ℕ → Bool
  among s k n w =
      leb (s.area.start / page_size + k) (w / page_size)
      && ltb (w / page_size) (s.area.start / page_size + k + n)

  pub among_none : (s : Store ops) (k w : ℕ) → among s k zero w ≡ false
  among_none s k w = ground arith

  among_more :
      (s : Store ops) (k n w : ℕ)
      → among s k (suc n) w
        ≡ ((s.area.start / page_size + k == w / page_size) || among s (suc k) n w)
  among_more s k n w = ground arith

  pub among-suc :
      (s : Store ops) (k n w : ℕ)
      → Fits ops laws s.area
      → k < laws.pages s.area.pma
      → w < 2 ^ 39
      → among s k (suc n) w ≡ (same_page (s.area.start + k * page_size) w || among s (suc k) n w)
  among-suc s k n w fits h small =
      let v = s.area.start + k * page_size in
      let same : same_page v w ≡ (s.area.start / page_size + k == w / page_size) =
        same_page_lem v w (omega (arith, fits.to, fits.low, h)) small
        ∙ ap (λ x. x == w / page_size) (omega (arith, fits.from)) in
      among_more s k n w ∙ ap (λ b. b || among s (suc k) n w) (sym same)

  pub among_all :
      (s : Store ops) (w : ℕ)
      → Fits ops laws s.area
      → among s 0 (laws.pages s.area.pma) w ≡ (leb s.area.start w && ltb w s.area.end)
  among_all s w fits = ground (arith, fits.to, fits.from)
