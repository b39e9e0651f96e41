-- ===== src/Memory/Table/Extend.antt =====
-- A page that is added to the table leaves every entry of the last level.
use maturin.Prelude.{
  ℕ, ◌≡◌, true, false, ◌==◌, ==_iff, ◌&&◌, List, ◌∷◌, Bool-cases, inl, inr, refl, sym, ap, subst,
  ◌∙◌, arith,
}
use maturin.Memory.Entry.{addr, is_valid, set_all, valid_flag}
use maturin.Memory.Table.{PageTable}
use maturin.Memory.Table.Tree.{Use, no_page, root, mid, leaf, IsTree, Unused}
use maturin.Memory.Table.Walk.{entry_at, entry_at-ext, apart, lead_root, lead_mid, upper}
use maturin.Memory.Table.Grow.{grown, new_entry, zero_invalid, grown_there, grown_new, grown_other}

-- The frame that is first, of those that are free.
pub fresh :
    (owner : ℕ → Use) (pt : PageTable) (q : ℕ) (rest : List ℕ)
    → IsTree owner pt
    → pt.free ≡ q ∷ rest
    → (owner q ≡ no_page)
      × (addr (set_all q valid_flag) ≡ q)
      × (is_valid (set_all q valid_flag) ≡ true)
fresh owner pt q rest tree f =
    let (new, aligned, low, _, _) : Unused owner (q ∷ rest) = subst (Unused owner) f tree.unused in
    let (is_addr, valid) = new_entry q aligned low in (new, is_addr, valid)

-- A page for a line of the root.
pub entry_at-root :
    (owner : ℕ → Use) (pt : PageTable) (i q : ℕ) (rest : List ℕ) (x y z : ℕ)
    → IsTree owner pt
    → pt.free ≡ q ∷ rest
    → is_valid (pt.memory pt.root_paddr i) ≡ false
    → entry_at (grown pt.memory pt.root_paddr i q) pt.root_paddr x y z
      ≡ entry_at pt.memory pt.root_paddr x y z
entry_at-root owner pt i q rest x y z tree f off =
    let (new, is_addr, valid) = fresh owner pt q rest tree f in
    let top = pt.root_paddr in
    let top_q : (top == q) ≡ false = apart owner top q root no_page tree.top new refl in
    let q_top : (q == top) ≡ false = apart owner q top no_page root new tree.top refl in
    elim (Bool-cases (i == x)) [
      | inl is ↦
          let added : entry_at (grown pt.memory top i q) top i y z ≡ 0 =
            rw
              (
                grown_there pt.memory top i q,
                valid,
                is_addr,
                grown_new pt.memory top i q y q_top,
                zero_invalid,
              )
              refl in
          let before : entry_at pt.memory top i y z ≡ 0 = rw off refl in
          subst (λ k. entry_at (grown pt.memory top i q) top k y z ≡ entry_at pt.memory top k y z)
            ((==_iff i x).0 is) (added ∙ sym before)
      | inr other ↦
          entry_at-ext pt.memory (grown pt.memory top i q) top x y z
            (grown_other pt.memory top i q top x top_q (ground (arith, other)))
            (λ on.
              let o = lead_root owner pt x tree on in
              let r = addr (pt.memory top x) in
              grown_other pt.memory top i q r y (apart owner r q (mid x) no_page o new refl)
                (rw (apart owner r top (mid x) root o tree.top refl) refl))
            (λ on on'.
              let o =
                lead_mid owner pt (addr (pt.memory top x)) x y tree (lead_root owner pt x tree on)
                  on' in
              let r = addr (pt.memory (addr (pt.memory top x)) y) in
              grown_other pt.memory top i q r z (apart owner r q (leaf x y) no_page o new refl)
                (rw (apart owner r top (leaf x y) root o tree.top refl) refl))
    ]

-- A page for a line of the page below the line `a` of the root.
pub entry_at-mid :
    (owner : ℕ → Use) (pt : PageTable) (a p i q : ℕ) (rest : List ℕ) (x y z : ℕ)
    → IsTree owner pt
    → pt.free ≡ q ∷ rest
    → is_valid (pt.memory pt.root_paddr a) ≡ true
    → addr (pt.memory pt.root_paddr a) ≡ p
    → is_valid (pt.memory p i) ≡ false
    → entry_at (grown pt.memory p i q) pt.root_paddr x y z ≡ entry_at pt.memory pt.root_paddr x y z
entry_at-mid owner pt a p i q rest x y z tree f on_a to_p off =
    let (new, is_addr, valid) = fresh owner pt q rest tree f in
    let top = pt.root_paddr in
    let op : owner p ≡ mid a = ap owner (sym to_p) ∙ lead_root owner pt a tree on_a in
    let q_p : (q == p) ≡ false = apart owner q p no_page (mid a) new op refl in
    let top_same : (k : ℕ) → grown pt.memory p i q top k ≡ pt.memory top k = λ k.
      grown_other pt.memory p i q top k (apart owner top q root no_page tree.top new refl)
        (rw (apart owner top p root (mid a) tree.top op refl) refl) in
    elim (Bool-cases (a == x && i == y)) [
      | inl is ↦
          let added : entry_at (grown pt.memory p i q) top a i z ≡ 0 =
            rw
              (
                top_same a,
                on_a,
                to_p,
                grown_there pt.memory p i q,
                valid,
                is_addr,
                grown_new pt.memory p i q z q_p,
              )
              refl in
          let before : entry_at pt.memory top a i z ≡ 0 = rw (on_a, to_p, off) refl in
          let eq_x : a ≡ x = ground (arith, is) in
          let eq_y : i ≡ y = ground (arith, is) in rw (sym eq_x, sym eq_y) (added ∙ sym before)
      | inr other ↦
          entry_at-ext pt.memory (grown pt.memory p i q) top x y z (top_same x)
            (λ on.
              let o = lead_root owner pt x tree on in
              let r = addr (pt.memory top x) in
              grown_other pt.memory p i q r y (apart owner r q (mid x) no_page o new refl)
                (away r o op other))
            (λ on on'.
              let o =
                lead_mid owner pt (addr (pt.memory top x)) x y tree (lead_root owner pt x tree on)
                  on' in
              let r = addr (pt.memory (addr (pt.memory top x)) y) in
              grown_other pt.memory p i q r z (apart owner r q (leaf x y) no_page o new refl)
                (rw (apart owner r p (leaf x y) (mid a) o op refl) refl))
    ]
  where
    away :
        (r : ℕ)
        → owner r ≡ mid x
        → owner p ≡ mid a
        → (a == x && i == y) ≡ false
        → (r == p && y == i) ≡ false
    away r leads op other = elim (Bool-cases (r == p)) [
      | inr not_it ↦ rw not_it refl
      | inl is ↦
          let same : mid x ≡ mid a = sym leads ∙ ap owner ((==_iff r p).0 is) ∙ op in
          ground (arith, ap upper same, other)
    ]
