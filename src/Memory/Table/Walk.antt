-- ===== src/Memory/Table/Walk.antt =====
-- The walk through the three levels of a page table, and a write to an entry of the last one.
use maturin.Prelude.{
  ℕ, ◌≡◌, Bool, true, false, ◌==◌, ==_iff, ◌&&◌, if◌then◌else◌, Bool-cases, inl, inr, some, refl,
  sym, ap, subst, ◌∙◌, arith,
}
use maturin.Memory.Addr.{pte_idx_of_virt_addr}
use maturin.Memory.Entry.{addr, is_valid}
use maturin.Memory.Table.{PageTable, Pages, find_pte, write_entry}
use maturin.Memory.Table.Tree.{Use, no_page, root, mid, leaf, Leads, IsTree}

-- The entry of the last level for three indices, 0 where the walk ends before it.
abbrev pub entry_at : Pages → ℕ → ℕ → ℕ → ℕ → ℕ
entry_at memory top a b c =
    if is_valid (memory top a)
    then (if is_valid (memory (addr (memory top a)) b)
        then memory (addr (memory (addr (memory top a)) b)) c
        else 0)
    else 0

abbrev pub line0 : ℕ → ℕ
line0 vaddr = (pte_idx_of_virt_addr vaddr).0

abbrev pub line1 : ℕ → ℕ
line1 vaddr = (pte_idx_of_virt_addr vaddr).1

abbrev pub line2 : ℕ → ℕ
line2 vaddr = (pte_idx_of_virt_addr vaddr).2

-- The entry for an address.
abbrev pub entry : PageTable → ℕ → ℕ
entry pt vaddr = entry_at pt.memory pt.root_paddr (line0 vaddr) (line1 vaddr) (line2 vaddr)

abbrev pub same_page : ℕ → ℕ → Bool
same_page v w = line0 v == line0 w && line1 v == line1 w && line2 v == line2 w

abbrev pub level : Use → ℕ
level no_page = 0
level root = 1
level (mid i) = 2
level (leaf i j) = 3

abbrev pub upper : Use → ℕ
upper no_page = 0
upper root = 0
upper (mid i) = i
upper (leaf i j) = i

abbrev lower : Use → ℕ
lower no_page = 0
lower root = 0
lower (mid i) = 0
lower (leaf i j) = j

-- Pages on different levels are different.
pub apart :
    (owner : ℕ → Use) (p q : ℕ) (u w : Use)
    → owner p ≡ u
    → owner q ≡ w
    → (level u == level w) ≡ false
    → (p == q) ≡ false
apart owner p q u w e f h = elim (Bool-cases (p == q)) [
  | inl is ↦
      let same : level u ≡ level w = ap level (sym e ∙ ap owner ((==_iff p q).0 is) ∙ f) in
      absurd (ground (arith, same, h))
  | inr other ↦ other
]

pub lead_root :
    (owner : ℕ → Use) (pt : PageTable) (i : ℕ)
    → IsTree owner pt
    → is_valid (pt.memory pt.root_paddr i) ≡ true
    → owner (addr (pt.memory pt.root_paddr i)) ≡ mid i
lead_root owner pt i tree v =
    let here : Leads owner root (pt.memory pt.root_paddr i) i =
      subst (λ u. Leads owner u (pt.memory pt.root_paddr i) i) tree.top
        (tree.leads pt.root_paddr i) in
    subst (λ b. if b then owner (addr (pt.memory pt.root_paddr i)) ≡ mid i else Unit {0}) v here

pub lead_mid :
    (owner : ℕ → Use) (pt : PageTable) (p k i : ℕ)
    → IsTree owner pt
    → owner p ≡ mid k
    → is_valid (pt.memory p i) ≡ true
    → owner (addr (pt.memory p i)) ≡ leaf k i
lead_mid owner pt p k i tree o v =
    let here : Leads owner (mid k) (pt.memory p i) i =
      subst (λ u. Leads owner u (pt.memory p i) i) o (tree.leads p i) in
    subst (λ b. if b then owner (addr (pt.memory p i)) ≡ leaf k i else Unit {0}) v here

-- That the walk along two indices ends at a page.
pub record Reaches (pt : PageTable) (a b p : ℕ) : Type 0 where
  pub first : is_valid (pt.memory pt.root_paddr a) ≡ true
  pub second : is_valid (pt.memory (addr (pt.memory pt.root_paddr a)) b) ≡ true
  pub there : addr (pt.memory (addr (pt.memory pt.root_paddr a)) b) ≡ p

pub find_pte-Reaches :
    (pt : PageTable) (v p : ℕ)
    → Reaches pt (line0 v) (line1 v) p
    → find_pte pt v ≡ some (p, line2 v)
unfolding find_pte pte_idx_of_virt_addr
find_pte-Reaches pt v p way = rw (way.first, way.second, way.there, find_pte) refl

pub entry-Reaches :
    (pt : PageTable) (v p : ℕ)
    → Reaches pt (line0 v) (line1 v) p
    → entry pt v ≡ pt.memory p (line2 v)
entry-Reaches pt v p way = rw (way.first, way.second, way.there, entry) refl

-- Memories that agree on the pages of a walk have the same entry at its end.
pub entry_at-ext :
    (memory memory' : Pages) (top a b c : ℕ)
    → memory' top a ≡ memory top a
    → (is_valid (memory top a) ≡ true
        → memory' (addr (memory top a)) b ≡ memory (addr (memory top a)) b)
    → (is_valid (memory top a) ≡ true
        → is_valid (memory (addr (memory top a)) b) ≡ true
        → memory' (addr (memory (addr (memory top a)) b)) c
          ≡ memory (addr (memory (addr (memory top a)) b)) c)
    → entry_at memory' top a b c ≡ entry_at memory top a b c
entry_at-ext memory memory' top a b c h0 h1 h2 = elim (Bool-cases (is_valid (memory top a))) [
  | inr stop ↦ rw (h0, stop) refl
  | inl on ↦ elim (Bool-cases (is_valid (memory (addr (memory top a)) b))) [
    | inr stop ↦ rw (h0, on, h1 on, stop) refl
    | inl on' ↦ rw (h0, on, h1 on, on', h2 on on') refl
  ]
]

pub write_other :
    (memory : Pages) (p i bits q j : ℕ)
    → (q == p) ≡ false
    → write_entry memory p i bits q j ≡ memory q j
unfolding write_entry
write_other memory p i bits q j h = rw h refl

-- A write to another index of the same page, or to another page.
pub write_elsewhere :
    (memory : Pages) (p i bits q j : ℕ)
    → (q == p && j == i) ≡ false
    → write_entry memory p i bits q j ≡ memory q j
unfolding write_entry
write_elsewhere memory p i bits q j h = rw h refl

pub write_here : (memory : Pages) (p i bits : ℕ) → write_entry memory p i bits p i ≡ bits
unfolding write_entry
write_here memory p i bits = ground arith

pub Reaches-write :
    (owner : ℕ → Use) (pt : PageTable) (a b p i bits : ℕ)
    → IsTree owner pt
    → owner p ≡ leaf a b
    → Reaches pt a b p
    → Reaches (record pt { memory = write_entry pt.memory p i bits }) a b p
Reaches-write owner pt a b p i bits tree o way =
    let same0 : write_entry pt.memory p i bits pt.root_paddr a ≡ pt.memory pt.root_paddr a =
      write_other pt.memory p i bits pt.root_paddr a
        (apart owner pt.root_paddr p root (leaf a b) tree.top o refl) in
    let q = addr (pt.memory pt.root_paddr a) in
    let same1 : write_entry pt.memory p i bits q b ≡ pt.memory q b =
      write_other pt.memory p i bits q b
        (apart owner q p (mid a) (leaf a b) (lead_root owner pt a tree way.first) o refl) in
    record {
      first = rw same0 way.first;
      second = rw (same0, same1) way.second;
      there = rw (same0, same1) way.there;
    }

-- A write to an entry of a page of the last level changes that entry and no other.
pub entry_at-write :
    (owner : ℕ → Use) (pt : PageTable) (a b p i bits x y z : ℕ)
    → IsTree owner pt
    → owner p ≡ leaf a b
    → Reaches pt a b p
    → entry_at (write_entry pt.memory p i bits) pt.root_paddr x y z
      ≡ (if a == x && b == y && i == z then bits else entry_at pt.memory pt.root_paddr x y z)
entry_at-write owner pt a b p i bits x y z tree o way =
    elim (Bool-cases (a == x && b == y && i == z)) [
      | inl is ↦
          let new = Reaches-write owner pt a b p i bits tree o way in
          let written : entry_at (write_entry pt.memory p i bits) pt.root_paddr a b i ≡ bits =
            rw (new.first, new.second, new.there, write_here pt.memory p i bits) refl in
          rw is
            (at a b i x y z (ground (arith, is)) (ground (arith, is)) (ground (arith, is)) written)
      | inr other ↦ rw other (
          entry_at-ext pt.memory (write_entry pt.memory p i bits) pt.root_paddr x y z
            (write_other pt.memory p i bits pt.root_paddr x
              (apart owner pt.root_paddr p root (leaf a b) tree.top o refl))
            (λ on. write_other pt.memory p i bits (addr (pt.memory pt.root_paddr x)) y (
              apart owner (addr (pt.memory pt.root_paddr x)) p (mid x) (leaf a b)
                (lead_root owner pt x tree on) o refl))
            (λ on on'.
              let q = addr (pt.memory pt.root_paddr x) in
              write_elsewhere pt.memory p i bits (addr (pt.memory q y)) z (
                away (addr (pt.memory q y))
                  (lead_mid owner pt q x y tree (lead_root owner pt x tree on) on') other)))
    ]
  where
    at :
        (a b c x y z : ℕ)
        → a ≡ x
        → b ≡ y
        → c ≡ z
        → entry_at (write_entry pt.memory p i bits) pt.root_paddr a b c ≡ bits
        → entry_at (write_entry pt.memory p i bits) pt.root_paddr x y z ≡ bits
    at a b c x y z e f g h = rw (sym e, sym f, sym g) h

    away :
        (r : ℕ)
        → owner r ≡ leaf x y
        → (a == x && b == y && i == z) ≡ false
        → (r == p && z == i) ≡ false
    away r leads other = elim (Bool-cases (r == p)) [
      | inr not_it ↦ rw not_it refl
      | inl is ↦
          let same : leaf x y ≡ leaf a b = sym leads ∙ ap owner ((==_iff r p).0 is) ∙ o in
          ground (arith, ap upper same, ap lower same, other)
    ]
