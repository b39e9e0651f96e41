-- ===== src/Memory/Table/Grow.antt =====
-- What a page that `get_addr_create` adds changes: the pages stay a tree, and no entry of the last
-- level is other than it was.
use maturin.Prelude.{
  ℕ, ◌%◌, ◌^◌, ◌<◌, ◌≡◌, true, false, ◌==◌, ==_iff, ◌&&◌, if◌then◌else◌, List, [], ◌∷◌, ◌++◌,
  Bool-cases, inl, inr, refl, ap, subst, ◌∙◌, arith,
}
use maturin.File.VirtFile.{page_size}
use maturin.Memory.Entry.{addr, is_valid, flags, set_all, valid_flag, set_all_lem}
use maturin.Memory.Table.{PageTable, Pages, write_entry, zero}
use maturin.Memory.Table.Tree.{Use, no_page, root, mid, leaf, child, Leads, IsTree, Unused, has}
use maturin.Memory.Table.Walk.{apart, level}

abbrev pub assign : (ℕ → Use) → ℕ → Use → ℕ → Use
assign owner q u p = if p == q then u else owner p

-- The memory after `alloc_and_set` of the entry at `p` and `i`, with the frame `q`.
abbrev pub grown : Pages → ℕ → ℕ → ℕ → Pages
grown memory p i q = write_entry (zero memory q) p i (set_all q valid_flag)

pub new_entry :
    (q : ℕ)
    → q % page_size ≡ 0
    → q < 2 ^ 56
    → (addr (set_all q valid_flag) ≡ q) × (is_valid (set_all q valid_flag) ≡ true)
unfolding is_valid
new_entry q h l =
    let all = set_all_lem q 0 1 0 h l refl (omega arith) (omega arith) (omega arith) in
    (all.0, rw all.1 refl)

pub zero_invalid : is_valid 0 ≡ false
unfolding is_valid flags
zero_invalid = refl

pub grown_there : (memory : Pages) (p i q : ℕ) → grown memory p i q p i ≡ set_all q valid_flag
unfolding write_entry
grown_there memory p i q = ground arith

pub grown_new : (memory : Pages) (p i q j : ℕ) → (q == p) ≡ false → grown memory p i q q j ≡ 0
unfolding write_entry zero
grown_new memory p i q j h = ground (arith, h)

pub grown_other :
    (memory : Pages) (p i q r j : ℕ)
    → (r == q) ≡ false
    → (r == p && j == i) ≡ false
    → grown memory p i q r j ≡ memory r j
unfolding write_entry zero
grown_other memory p i q r j h e = rw (e, h) refl

pub Leads-zero : (owner : ℕ → Use) (u : Use) (i : ℕ) → Leads owner u 0 i
Leads-zero owner no_page i = tt
Leads-zero owner root i = rw zero_invalid (tt)
Leads-zero owner (mid k) i = rw zero_invalid (tt)
Leads-zero owner (leaf j k) i = tt

Leads-child :
    (owner : ℕ → Use) (u : Use) (i q : ℕ)
    → addr (set_all q valid_flag) ≡ q
    → is_valid (set_all q valid_flag) ≡ true
    → owner q ≡ child u i
    → Leads owner u (set_all q valid_flag) i
Leads-child owner no_page i q a v o = tt
Leads-child owner root i q a v o = rw (v, a) o
Leads-child owner (mid k) i q a v o = rw (v, a) o
Leads-child owner (leaf j k) i q a v o = tt

-- A page that was not used is not the one that an entry leads to.
assign_kept :
    (owner : ℕ → Use) (q p : ℕ) (u w : Use)
    → owner q ≡ no_page
    → owner p ≡ w
    → (level w == 0) ≡ false
    → assign owner q u p ≡ w
assign_kept owner q p u w n o l = rw (apart owner p q w no_page o n l) o

Leads-kept :
    (owner : ℕ → Use) (q : ℕ) (w u : Use) (bits i : ℕ)
    → owner q ≡ no_page
    → Leads owner u bits i
    → Leads (assign owner q w) u bits i
Leads-kept owner q w no_page bits i n h = tt
Leads-kept owner q w root bits i n h = elim (Bool-cases (is_valid bits)) [
  | inr off ↦ rw off (tt)
  | inl on ↦
      let leads : owner (addr bits) ≡ mid i =
        subst (λ b. if b then owner (addr bits) ≡ mid i else Unit {0}) on h in
      rw on (assign_kept owner q (addr bits) w (mid i) n leads refl)
]
Leads-kept owner q w (mid k) bits i n h = elim (Bool-cases (is_valid bits)) [
  | inr off ↦ rw off (tt)
  | inl on ↦
      let leads : owner (addr bits) ≡ leaf k i =
        subst (λ b. if b then owner (addr bits) ≡ leaf k i else Unit {0}) on h in
      rw on (assign_kept owner q (addr bits) w (leaf k i) n leads refl)
]
Leads-kept owner q w (leaf j k) bits i n h = tt

pub Unused-kept :
    (owner : ℕ → Use) (q : ℕ) (u : Use) (ps : List ℕ)
    → has q ps ≡ false
    → Unused owner ps
    → Unused (assign owner q u) ps
Unused-kept owner q u [] h un = un
Unused-kept owner q u (p ∷ ps) h (new, aligned, low, once, rest) =
    let other : (p == q) ≡ false = ground (arith, h) in
    let on : has q ps ≡ false = ground (arith, h) in
    (rw other new, aligned, low, once, Unused-kept owner q u ps on rest)

-- `get_addr_create` with the frame `q`, on an entry of the root or of a page below it.
abbrev pub with_page : PageTable → ℕ → ℕ → ℕ → List ℕ → PageTable
with_page pt p i q rest = record pt {
  frames = pt.frames ++ q ∷ [];
  memory = grown pt.memory p i q;
  free = rest;
}

pub with_page-IsTree :
    (owner : ℕ → Use) (pt : PageTable) (p i q : ℕ) (rest : List ℕ)
    → IsTree owner pt
    → pt.free ≡ q ∷ rest
    → (level (owner p) == 0) ≡ false
    → IsTree (assign owner q (child (owner p) i)) (with_page pt p i q rest)
with_page-IsTree owner pt p i q rest tree f used =
    let (new, aligned, low, once, others) : Unused owner (q ∷ rest) =
      subst (Unused owner) f tree.unused in
    let (is_addr, valid) = new_entry q aligned low in
    let u = child (owner p) i in
    let p_q : (p == q) ≡ false = apart owner p q (owner p) no_page refl new used in
    let q_p : (q == p) ≡ false =
      apart owner q p no_page (owner p) new refl (ground (arith, used)) in
    let moved : Leads (assign owner q u) (assign owner q u p) (grown pt.memory p i q p i) i =
      rw (p_q, grown_there pt.memory p i q)
        (Leads-child (assign owner q u) (owner p) i q is_addr valid (ground arith)) in
    record {
      top = assign_kept owner q pt.root_paddr u root new tree.top refl;
      leads = λ r j. elim (Bool-cases (r == q)) [
        | inl is ↦
            let eq : r ≡ q = (==_iff r q).0 is in
            let none_yet : grown pt.memory p i q r j ≡ 0 =
              ap (λ x. grown pt.memory p i q x j) eq ∙ grown_new pt.memory p i q j q_p in
            rw none_yet (Leads-zero (assign owner q u) (assign owner q u r) j)
        | inr not_q ↦
            let same : assign owner q u r ≡ owner r = rw not_q refl in
            elim (Bool-cases (r == p && j == i)) [
              | inl here ↦
                  let eq_r : p ≡ r = ground (arith, here) in
                  let eq_j : i ≡ j = ground (arith, here) in
                  subst
                    (λ x.
                      Leads (assign owner q u) (assign owner q u x) (grown pt.memory p i q x j) j)
                    eq_r
                    (subst
                      (λ y.
                        Leads (assign owner q u) (assign owner q u p) (grown pt.memory p i q p y) y)
                      eq_j moved)
              | inr away ↦
                  rw (same, grown_other pt.memory p i q r j not_q away)
                    (Leads-kept owner q u (owner r) (pt.memory r j) j new (tree.leads r j))
            ]
      ];
      unused = Unused-kept owner q u rest once others;
    }
