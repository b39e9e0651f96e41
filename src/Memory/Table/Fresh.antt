-- ===== src/Memory/Table/Fresh.antt =====
-- A new page table.
use maturin.Prelude.{
  ℕ, ◌≡◌, true, ◌==◌, ==_iff, List, [], ◌∷◌, Bool-cases, inl, inr, some, refl, arith,
}
use maturin.Memory.Table.{PageTable, Pages, new, zero}
use maturin.Memory.Table.Tree.{Use, no_page, root, IsTree, Unused}
use maturin.Memory.Table.Grow.{assign, Leads-zero, Unused-kept, zero_invalid}
use maturin.Memory.Table.Walk.{entry}

abbrev pub no_pages : ℕ → Use
no_pages p = no_page

zeroed : (memory : Pages) (p i : ℕ) → zero memory p p i ≡ 0
unfolding zero
zeroed memory p i = ground arith

-- With a free frame, a new page table is a tree whose only page is that frame, and every entry is 0:
-- no address is mapped.
pub new_lem :
    (memory : Pages) (q : ℕ) (rest : List ℕ)
    → Unused no_pages (q ∷ rest)
    → (pt : PageTable) × (new memory (q ∷ rest) ≡ some pt)
      × (pt.frames ≡ q ∷ [])
      × IsTree (assign no_pages q root) pt
      × ((w : ℕ) → entry pt w ≡ 0)
unfolding new
new_lem memory q rest (_, _, _, once, others) =
    let pt : PageTable = record {
      root_paddr = q;
      frames = q ∷ [];
      memory = zero memory q;
      free = rest;
    } in
    (
      pt,
      refl,
      refl,
      record {
        top = ground arith;
        leads = λ p i. elim (Bool-cases (p == q)) [
          | inl is ↦
              rw (page p i is) (Leads-zero (assign no_pages q root) (assign no_pages q root p) i)
          | inr other ↦ rw other tt
        ];
        unused = Unused-kept no_pages q root rest once others;
      },
      λ w. rw (zeroed memory q, zero_invalid) refl,
    )
  where
    page : (p i : ℕ) → (p == q) ≡ true → zero memory q p i ≡ 0
    page p i is = rw ((==_iff p q).0 is) (zeroed memory q i)
