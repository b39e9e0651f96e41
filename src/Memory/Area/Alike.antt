-- ===== src/Memory/Area/Alike.antt =====
-- When two worlds are alike for the pages of a range.
use maturin.Prelude.{
  ℕ, ◌^◌, ◌<◌, ◌≤◌, ◌≡◌, inl, inr, true, ltb, leb, ◌&&◌, if◌then◌else◌, Bool-cases, none, some,
  refl, ap, subst, ◌∙◌, arith,
}
use maturin.Memory.Table.{PageTable}
use maturin.Memory.Table.Tree.{Use, IsTree}
use maturin.Memory.Table.Walk.{entry}
use maturin.Memory.Area.Seg.{Space}

-- That the pages of a table are a tree.
abbrev pub HasTree : PageTable → Type 0
HasTree pt = (owner : ℕ → Use) × IsTree owner pt

-- That two tables have the same entry for an address that is below 2 ^ 39 and in a range.
abbrev pub SameFrom : ℕ → ℕ → PageTable → PageTable → Type 0
SameFrom c d pt pt' =
    (x : ℕ) → if leb c x && ltb x d && ltb x (2 ^ 39) then entry pt' x ≡ entry pt x else Unit {0}

-- The second world has a tree where the first has, and the same entries in the range.
pub record Alike {World : Type 0} (c d : ℕ) (w w' : Space World) : Type 0 where
  pub keeps : HasTree w.pt → HasTree w'.pt
  pub same : SameFrom c d w.pt w'.pt

pub same_at :
    (c d : ℕ) (pt pt' : PageTable) (x : ℕ)
    → SameFrom c d pt pt'
    → c ≤ x
    → x < d
    → x < 2 ^ 39
    → entry pt' x ≡ entry pt x
same_at c d pt pt' x h a b l =
    let on : (leb c x && ltb x d && ltb x (2 ^ 39)) ≡ true = ground arith in
    subst (λ t. if t then entry pt' x ≡ entry pt x else Unit {0}) on (h x)

pub make_same :
    (c d : ℕ) (pt pt' : PageTable)
    → ((x : ℕ) → c ≤ x → x < d → x < 2 ^ 39 → entry pt' x ≡ entry pt x)
    → SameFrom c d pt pt'
make_same c d pt pt' each x = elim (Bool-cases (leb c x && ltb x d && ltb x (2 ^ 39))) [
  | inl on ↦ rw on (each x (ground (arith, on)) (ground (arith, on)) (ground (arith, on)))
  | inr off ↦ rw off tt
]

pub Alike-refl : {World : Type 0} (a b : ℕ) (w : Space World) → Alike a b w w
Alike-refl a b w = record { keeps = λ t. t; same = make_same a b w.pt w.pt (λ x p q t. refl) }

pub Alike-trans :
    {World : Type 0} (a b : ℕ) (u v w : Space World) → Alike a b u v → Alike a b v w → Alike a b u w
Alike-trans a b u v w h k = record {
  keeps = λ t. k.keeps (h.keeps t);
  same =
      make_same a b u.pt w.pt
        (λ x p q t. same_at a b v.pt w.pt x k.same p q t ∙ same_at a b u.pt v.pt x h.same p q t);
}

pub some_inj : {A : Type 0} (a b : A) → some a ≡ some b → a ≡ b
some_inj a b e = ap (λ o. elim o [ none ↦ a | some c ↦ c ]) e
