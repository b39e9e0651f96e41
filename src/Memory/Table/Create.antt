-- ===== src/Memory/Table/Create.antt =====
-- `find_pte_create`: the pages on the way to an entry are there, or the frames have run out.
use maturin.Prelude.{
  ℕ, ◌+◌, ◌<◌, ◌≤◌, ◌≡◌, ◌⊎◌, true, List, [], ◌∷◌, length, Bool-cases, inl, inr, none, some, refl,
  sym, ap, subst, ◌∙◌, arith,
}
use maturin.Memory.Addr.{pte_idx_of_virt_addr}
use maturin.Memory.Entry.{addr, is_valid}
use maturin.Memory.Table.{PageTable, get_addr_create, find_pte_create}
use maturin.Memory.Table.Tree.{Use, no_page, root, mid, leaf, child, IsTree}
use maturin.Memory.Table.Walk.{entry_at, line0, line1, line2, apart, lead_root, lead_mid, Reaches}
use maturin.Memory.Table.Grow.{assign, grown, grown_there, grown_other, with_page, with_page-IsTree}
use maturin.Memory.Table.Extend.{fresh, entry_at-root, entry_at-mid}

-- That two tables have the same entries of the last level.
abbrev pub Same : PageTable → PageTable → Type 0
Same pt' pt =
    (x y z : ℕ) → entry_at pt'.memory pt'.root_paddr x y z ≡ entry_at pt.memory pt.root_paddr x y z

free_cases : (ps : List ℕ) → (ps ≡ []) ⊎ ((q : ℕ) × (rest : List ℕ) × (ps ≡ q ∷ rest))
free_cases [] = inl refl
free_cases (q ∷ rest) = inr (q, rest, refl)

-- `get_addr_create` on a line of the root.
create_root :
    (owner : ℕ → Use) (pt : PageTable) (i : ℕ)
    → IsTree owner pt
    → ((get_addr_create pt pt.root_paddr i ≡ none) × (pt.free ≡ []))
      ⊎ ((pt' : PageTable) × (p : ℕ) × (owner' : ℕ → Use) × (get_addr_create pt pt.root_paddr i
            ≡ some (p, pt'))
          × IsTree owner' pt'
          × (is_valid (pt'.memory pt'.root_paddr i) ≡ true)
          × (addr (pt'.memory pt'.root_paddr i) ≡ p)
          × (length pt.free ≤ length pt'.free + 1)
          × Same pt' pt)
unfolding get_addr_create
create_root owner pt i tree = elim (Bool-cases (is_valid (pt.memory pt.root_paddr i))) [
  | inl on ↦ inr (
    pt,
    addr (pt.memory pt.root_paddr i),
    owner,
    rw on refl,
    tree,
    on,
    refl,
    omega arith,
    λ x y z. refl,
  )
  | inr off ↦ elim (free_cases pt.free) [
    | inl out ↦ inl (rw (off, out) refl, out)
    | inr (q, rest, f) ↦
        let (new, is_addr, valid) = fresh owner pt q rest tree f in
        inr (
          with_page pt pt.root_paddr i q rest,
          q,
          assign owner q (mid i),
          rw (off, f, is_addr) refl,
          subst (λ u. IsTree (assign owner q (child u i)) (with_page pt pt.root_paddr i q rest))
              tree.top (with_page-IsTree owner pt pt.root_paddr i q rest tree f (rw tree.top refl)),
          rw (grown_there pt.memory pt.root_paddr i q) valid,
          rw (grown_there pt.memory pt.root_paddr i q) is_addr,
          rw f (omega arith),
          λ x y z. entry_at-root owner pt i q rest x y z tree f off,
        )
  ]
]

-- `get_addr_create` on a line of the page below the line `a` of the root.
create_mid :
    (owner : ℕ → Use) (pt : PageTable) (a p i : ℕ)
    → IsTree owner pt
    → is_valid (pt.memory pt.root_paddr a) ≡ true
    → addr (pt.memory pt.root_paddr a) ≡ p
    → ((get_addr_create pt p i ≡ none) × (pt.free ≡ []))
      ⊎ ((pt' : PageTable) × (r : ℕ) × (owner' : ℕ → Use) × (get_addr_create pt p i ≡ some (r, pt'))
          × IsTree owner' pt'
          × (owner' r ≡ leaf a i)
          × Reaches pt' a i r
          × Same pt' pt)
unfolding get_addr_create
create_mid owner pt a p i tree on_a to_p =
    let op : owner p ≡ mid a = ap owner (sym to_p) ∙ lead_root owner pt a tree on_a in
    elim (Bool-cases (is_valid (pt.memory p i))) [
      | inl on ↦ inr (
        pt,
        addr (pt.memory p i),
        owner,
        rw on refl,
        tree,
        lead_mid owner pt p a i tree op on,
        record { first = on_a; second = rw to_p on; there = rw to_p refl },
        λ x y z. refl,
      )
      | inr off ↦ elim (free_cases pt.free) [
        | inl out ↦ inl (rw (off, out) refl, out)
        | inr (q, rest, f) ↦
            let (new, is_addr, valid) = fresh owner pt q rest tree f in
            let same : grown pt.memory p i q pt.root_paddr a ≡ pt.memory pt.root_paddr a =
              grown_other pt.memory p i q pt.root_paddr a
                (apart owner pt.root_paddr q root no_page tree.top new refl)
                (rw (apart owner pt.root_paddr p root (mid a) tree.top op refl) refl) in
            inr (
              with_page pt p i q rest,
              q,
              assign owner q (leaf a i),
              rw (off, f, is_addr) refl,
              subst (λ u. IsTree (assign owner q (child u i)) (with_page pt p i q rest)) op
                  (with_page-IsTree owner pt p i q rest tree f (rw op refl)),
              ground arith,
              record {
                first = rw same on_a;
                second = rw (same, to_p, grown_there pt.memory p i q) valid;
                there = rw (same, to_p, grown_there pt.memory p i q) is_addr;
              },
              λ x y z. entry_at-mid owner pt a p i q rest x y z tree f on_a to_p off,
            )
      ]
    ]

-- Without two free frames, `find_pte_create` may end in `none`.
pub find_pte_create_lem :
    (owner : ℕ → Use) (pt : PageTable) (v : ℕ)
    → IsTree owner pt
    → (pt' : PageTable) × (owner' : ℕ → Use) × IsTree owner' pt'
      × Same pt' pt
      × (((find_pte_create pt v ≡ (none, pt')) × (length pt.free < 2))
          ⊎ ((p : ℕ) × (find_pte_create pt v ≡ (some (p, line2 v), pt'))
              × (owner' p ≡ leaf (line0 v) (line1 v))
              × Reaches pt' (line0 v) (line1 v) p))
unfolding find_pte_create pte_idx_of_virt_addr
find_pte_create_lem owner pt v tree = elim (create_root owner pt (line0 v) tree) [
  | inl (stop, out) ↦ (
    pt,
    owner,
    tree,
    (λ x y z. refl),
    inl (rw (stop, find_pte_create) refl, rw out (omega arith)),
  )
  | inr (pt1, p1, owner1, go, tree1, on, to, frames, same1) ↦
      elim (create_mid owner1 pt1 (line0 v) p1 (line1 v) tree1 on to) [
        | inl (stop, out) ↦ (
          pt1,
          owner1,
          tree1,
          same1,
          inl (
            rw (go, stop, find_pte_create) refl,
            let l : length pt1.free ≡ 0 = rw out refl in omega (arith, l, frames),
          ),
        )
        | inr (pt2, p2, owner2, go2, tree2, is_leaf, way, same2) ↦ (
          pt2,
          owner2,
          tree2,
          (λ x y z. same2 x y z ∙ same1 x y z),
          inr (p2, rw (go, go2, find_pte_create) refl, is_leaf, way),
        )
      ]
]
