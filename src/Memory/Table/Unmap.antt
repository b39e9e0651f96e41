-- ===== src/Memory/Table/Unmap.antt =====
-- `unmap` and `query` of a page table, which add no pages.
use maturin.Prelude.{
  ℕ, ◌≡◌, ◌⊎◌, Bool, true, false, ◌&&◌, if◌then◌else◌, Bool-cases, inl, inr, none, some, refl, sym,
  ap, arith,
}
use maturin.Memory.Error.{Done, ok, err, page_table_page_not_mapped, page_table_virt_not_found}
use maturin.Memory.Addr.{pte_idx_of_virt_addr}
use maturin.Memory.Entry.{addr, is_valid}
use maturin.Memory.Table.{PageTable, find_pte, unmap, query}
use maturin.Memory.Table.Tree.{Use, leaf, IsTree}
use maturin.Memory.Table.Walk.{
  entry, line0, line1, line2, same_page, Reaches, find_pte-Reaches, entry-Reaches, Reaches-write,
  write_here, lead_root, lead_mid,
}
use maturin.Memory.Table.Grow.{zero_invalid}
use maturin.Memory.Table.Spec.{written, written-IsTree, entry-written}

-- The walk to an address ends at a page, or before it, and the entry is then 0.
pub walk_cases :
    (owner : ℕ → Use) (pt : PageTable) (v : ℕ)
    → IsTree owner pt
    → ((find_pte pt v ≡ none) × (entry pt v ≡ 0))
      ⊎ ((p : ℕ) × (owner p ≡ leaf (line0 v) (line1 v)) × Reaches pt (line0 v) (line1 v) p)
unfolding find_pte pte_idx_of_virt_addr
walk_cases owner pt v tree =
    let q = addr (pt.memory pt.root_paddr (line0 v)) in
    elim (Bool-cases (is_valid (pt.memory pt.root_paddr (line0 v)))) [
      | inr stop ↦ inl (rw (stop, find_pte) refl, rw stop refl)
      | inl on ↦ elim (Bool-cases (is_valid (pt.memory q (line1 v)))) [
        | inr stop ↦ inl (rw (on, stop, find_pte) refl, rw (on, stop) refl)
        | inl on' ↦ inr (
          addr (pt.memory q (line1 v)),
          lead_mid owner pt q (line0 v) (line1 v) tree (lead_root owner pt (line0 v) tree on) on',
          record { first = on; second = on'; there = refl },
        )
      ]
    ]

abbrev pub is_ok : Done → Bool
is_ok (ok x) = true
is_ok (err e) = false

-- `unmap` succeeds exactly when the address is mapped: the entry of its page is then 0, and the
-- entry of no other page changes. It takes no frames, and the pages of the table stay the same tree.
pub entry-unmap :
    (owner : ℕ → Use) (pt : PageTable) (v : ℕ)
    → IsTree owner pt
    → (result : Done) × (pt' : PageTable) × (unmap pt v ≡ (result, pt'))
      × (is_ok result ≡ is_valid (entry pt v))
      × IsTree owner pt'
      × (pt'.free ≡ pt.free)
      × ((w : ℕ) → entry pt' w ≡ (if is_valid (entry pt v) && same_page v w then 0 else entry pt w))
unfolding unmap
entry-unmap owner pt v tree = elim (walk_cases owner pt v tree) [
  | inl (stop, nothing) ↦ (
    err page_table_virt_not_found,
    pt,
    rw (stop, unmap) refl,
    rw nothing (sym zero_invalid),
    tree,
    refl,
    λ w. rw (nothing, zero_invalid) refl,
  )
  | inr (p, o, way) ↦
      let go = find_pte-Reaches pt v p way in
      let here : pt.memory p (line2 v) ≡ entry pt v = sym (entry-Reaches pt v p way) in
      elim (Bool-cases (is_valid (entry pt v))) [
        | inr off ↦ (
          err page_table_page_not_mapped,
          pt,
          rw (go, here, off, unmap) refl,
          rw off refl,
          tree,
          refl,
          λ w. rw off refl,
        )
        | inl on ↦ (
          ok tt,
          written pt p (line2 v) 0,
          rw (go, here, on, unmap) refl,
          rw on refl,
          written-IsTree owner pt (line0 v) (line1 v) p (line2 v) 0 tree o,
          refl,
          λ w. rw on (entry-written owner pt v p 0 w tree o way),
        )
      ]
]

-- `query` of a mapped address is the address in its entry. When the address is then unmapped,
-- `query` does not fail: it is the address 0.
pub query-unmap :
    (owner : ℕ → Use) (pt : PageTable) (v : ℕ)
    → IsTree owner pt
    → is_valid (entry pt v) ≡ true
    → (pt' : PageTable) × (query pt v ≡ some (addr (entry pt v)))
      × (unmap pt v ≡ (ok tt, pt'))
      × (query pt' v ≡ some 0)
unfolding unmap query addr
query-unmap owner pt v tree on = elim (walk_cases owner pt v tree) [
  | inl (stop, nothing) ↦ absurd (ground (arith, on, ap is_valid nothing, zero_invalid))
  | inr (p, o, way) ↦
      let go = find_pte-Reaches pt v p way in
      let here : pt.memory p (line2 v) ≡ entry pt v = sym (entry-Reaches pt v p way) in
      let pt' = written pt p (line2 v) 0 in
      let go' =
        find_pte-Reaches pt' v p
          (Reaches-write owner pt (line0 v) (line1 v) p (line2 v) 0 tree o way) in
      (
        pt',
        rw (go, here, query) refl,
        rw (go, here, on, unmap) refl,
        rw (go', write_here pt.memory p (line2 v) 0, query) refl,
      )
]
