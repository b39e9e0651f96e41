-- ===== src/Memory/Table/Tree.antt =====
-- When the pages of a page table form a tree.
use maturin.Prelude.{ℕ, ◌%◌, ◌^◌, ◌<◌, ◌≡◌, ◌==◌, Bool, true, false, if◌then◌else◌, List, [], ◌∷◌}
use maturin.File.VirtFile.{page_size}
use maturin.Memory.Entry.{addr, is_valid}
use maturin.Memory.Table.{PageTable}

-- What a page is used for: the root, the page below its line `i`, or the page below the line `j` of
-- that one. `no_page` is any other page of the memory.
pub data Use : Type 0 where
  no_page root : Use
  mid : ℕ → Use
  leaf : ℕ → ℕ → Use

abbrev pub child : Use → ℕ → Use
child no_page i = no_page
child root i = mid i
child (mid i) j = leaf i j
child (leaf i j) k = no_page

-- A valid entry of the root or of a page below it leads to the page of its own line.
abbrev pub Leads : (ℕ → Use) → Use → ℕ → ℕ → Type 0
Leads owner no_page bits i = Unit {0}
Leads owner root bits i = if is_valid bits then owner (addr bits) ≡ mid i else Unit {0}
Leads owner (mid k) bits i = if is_valid bits then owner (addr bits) ≡ leaf k i else Unit {0}
Leads owner (leaf j k) bits i = Unit {0}

abbrev pub has : ℕ → List ℕ → Bool
has p [] = false
has p (q ∷ qs) = if p == q then true else has p qs

-- The free frames are pages of the memory, all different, and none is in use.
abbrev pub Unused : (ℕ → Use) → List ℕ → Type 0
Unused owner [] = Unit {0}
Unused owner (p ∷ ps) =
    (owner p ≡ no_page) × (p % page_size ≡ 0) × (p < 2 ^ 56) × (has p ps ≡ false) × Unused owner ps

pub record IsTree (owner : ℕ → Use) (pt : PageTable) : Type 0 where
  pub top : owner pt.root_paddr ≡ root
  pub leads : (p i : ℕ) → Leads owner (owner p) (pt.memory p i) i
  pub unused : Unused owner pt.free
