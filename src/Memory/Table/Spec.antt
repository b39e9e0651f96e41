-- ===== src/Memory/Table/Spec.antt =====
-- `map`, `set_flags`, `unmap` and `query` of a page table, as changes of its entries.
use maturin.Prelude.{
  ℕ, ◌<◌, ◌≡◌, ◌⊎◌, not, ◌==◌, ◌&&◌, if◌then◌else◌, length, Bool-cases, inl, inr, refl, sym, ap,
  subst, ◌∙◌, arith,
}
use Prim.Native.Nat.{bit_or}
use maturin.Memory.Error.{
  ok, err, page_table_frame_alloc_failed, page_table_page_already_mapped,
  page_table_page_not_mapped,
}
use maturin.Memory.Entry.{is_valid, set_all, set_flags, mapped_flags}
use maturin.Memory.Table.{PageTable, write_entry, map_entry, map, set_flags_entry, set_entry_flags}
use maturin.Memory.Table.Tree.{Use, leaf, Leads, IsTree}
use maturin.Memory.Table.Walk.{
  entry, line0, line1, line2, same_page, Reaches, entry-Reaches, entry_at-write, write_elsewhere,
}
use maturin.Memory.Table.Create.{find_pte_create_lem}

abbrev pub written : PageTable → ℕ → ℕ → ℕ → PageTable
written pt p i bits = record pt { memory = write_entry pt.memory p i bits }

pub written-IsTree :
    (owner : ℕ → Use) (pt : PageTable) (a b p i bits : ℕ)
    → IsTree owner pt
    → owner p ≡ leaf a b
    → IsTree owner (written pt p i bits)
written-IsTree owner pt a b p i bits tree o = record {
  top = tree.top;
  leads = λ r j. elim (Bool-cases (r == p && j == i)) [
    | inl here ↦
        let eq : p ≡ r = ground (arith, here) in
        subst (λ u. Leads owner u (write_entry pt.memory p i bits r j) j) (sym o ∙ ap owner eq) tt
    | inr away ↦ rw (write_elsewhere pt.memory p i bits r j away) (tree.leads r j)
  ];
  unused = tree.unused;
}

-- The entries after a write to the entry for an address.
pub entry-written :
    (owner : ℕ → Use) (pt : PageTable) (v p bits w : ℕ)
    → IsTree owner pt
    → owner p ≡ leaf (line0 v) (line1 v)
    → Reaches pt (line0 v) (line1 v) p
    → entry (written pt p (line2 v) bits) w ≡ (if same_page v w then bits else entry pt w)
entry-written owner pt v p bits w tree o way =
    entry_at-write owner pt (line0 v) (line1 v) p (line2 v) bits (line0 w) (line1 w) (line2 w) tree
      o way

-- Where the page's address is not mapped, `map` with flags maps it, with the flags and the ones that
-- every mapping has, and changes the entry of no other page; with no flags it changes no entry.
-- Where the address is mapped it is an error, and no entry changes. It fails for want of frames only
-- when fewer than two are free, and then no entry changes. The pages of the table stay a tree.
pub entry-map :
    (owner : ℕ → Use) (pt : PageTable) (v paddr new_flags : ℕ)
    → IsTree owner pt
    → (pt' : PageTable) × (owner' : ℕ → Use) × IsTree owner' pt'
      × (((map pt v paddr new_flags ≡ (err page_table_frame_alloc_failed, pt'))
            × (length pt.free < 2)
            × ((w : ℕ) → entry pt' w ≡ entry pt w))
          ⊎ ((map pt v paddr new_flags ≡ (
            if is_valid (entry pt v) then err page_table_page_already_mapped else ok tt,
            pt',
          ))
              × ((w : ℕ)
                  → entry pt' w ≡ (
                      if not (is_valid (entry pt v)) && not (new_flags == 0) && same_page v w
                      then set_all paddr (bit_or new_flags mapped_flags)
                      else entry pt w))))
unfolding map map_entry
entry-map owner pt v paddr new_flags tree =
    let bits = set_all paddr (bit_or new_flags mapped_flags) in
    let (pt1, owner1, tree1, same, how) = find_pte_create_lem owner pt v tree in
    let kept : (w : ℕ) → entry pt1 w ≡ entry pt w = λ w. same (line0 w) (line1 w) (line2 w) in
    elim how [
      | inl (stop, out) ↦ (pt1, owner1, tree1, inl (rw (stop, map) refl, out, kept))
      | inr (p, go, o, way) ↦
          let here : pt1.memory p (line2 v) ≡ entry pt v =
            sym (entry-Reaches pt1 v p way) ∙ kept v in
          elim (Bool-cases (is_valid (entry pt v))) [
            | inl on ↦ (pt1, owner1, tree1, inr (rw (go, here, on, map) refl, λ w. rw on (kept w)))
            | inr off ↦ elim (Bool-cases (new_flags == 0)) [
              | inl nothing ↦ (
                pt1,
                owner1,
                tree1,
                inr (rw (go, here, off, nothing, map) refl, λ w. rw (off, nothing) (kept w)),
              )
              | inr some_flags ↦ (
                written pt1 p (line2 v) bits,
                owner1,
                written-IsTree owner1 pt1 (line0 v) (line1 v) p (line2 v) bits tree1 o,
                inr (
                  rw (go, here, off, some_flags, map) refl,
                  λ w.
                      rw (off, some_flags)
                        (entry-written owner1 pt1 v p bits w tree1 o way
                          ∙ ap (λ e. if same_page v w then bits else e) (kept w)),
                ),
              )
            ]
          ]
    ]

-- Where the page's address is mapped, `set_flags` gives its entry the new flags and the ones that
-- every mapping has, and changes the entry of no other page. Where it is not mapped, or for want of
-- frames, it is an error, and no entry changes. The pages of the table stay a tree.
pub entry-set_entry_flags :
    (owner : ℕ → Use) (pt : PageTable) (v new_flags : ℕ)
    → IsTree owner pt
    → (pt' : PageTable) × (owner' : ℕ → Use) × IsTree owner' pt'
      × (((set_entry_flags pt v new_flags ≡ (err page_table_frame_alloc_failed, pt'))
            × (length pt.free < 2)
            × ((w : ℕ) → entry pt' w ≡ entry pt w))
          ⊎ ((set_entry_flags pt v new_flags
                ≡ (if is_valid (entry pt v) then ok tt else err page_table_page_not_mapped, pt'))
              × ((w : ℕ)
                  → entry pt' w ≡ (
                      if is_valid (entry pt v) && same_page v w
                      then set_flags (entry pt v) (bit_or new_flags mapped_flags)
                      else entry pt w))))
unfolding set_entry_flags set_flags_entry
entry-set_entry_flags owner pt v new_flags tree =
    let bits = set_flags (entry pt v) (bit_or new_flags mapped_flags) in
    let (pt1, owner1, tree1, same, how) = find_pte_create_lem owner pt v tree in
    let kept : (w : ℕ) → entry pt1 w ≡ entry pt w = λ w. same (line0 w) (line1 w) (line2 w) in
    elim how [
      | inl (stop, out) ↦ (pt1, owner1, tree1, inl (rw (stop, set_entry_flags) refl, out, kept))
      | inr (p, go, o, way) ↦
          let here : pt1.memory p (line2 v) ≡ entry pt v =
            sym (entry-Reaches pt1 v p way) ∙ kept v in
          elim (Bool-cases (is_valid (entry pt v))) [
            | inr off ↦ (
              pt1,
              owner1,
              tree1,
              inr (rw (go, here, off, set_entry_flags) refl, λ w. rw off (kept w)),
            )
            | inl on ↦ (
              written pt1 p (line2 v) bits,
              owner1,
              written-IsTree owner1 pt1 (line0 v) (line1 v) p (line2 v) bits tree1 o,
              inr (
                rw (go, here, on, set_entry_flags) refl,
                λ w. rw on (
                    entry-written owner1 pt1 v p bits w tree1 o way
                    ∙ ap (λ e. if same_page v w then bits else e) (kept w)),
              ),
            )
          ]
    ]
