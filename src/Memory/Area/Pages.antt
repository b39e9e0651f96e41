-- ===== src/Memory/Area/Pages.antt =====
-- The pages of addresses below 2 ^ 39.
use maturin.Prelude.{ℕ, ◌/◌, ◌^◌, ◌<◌, ◌≡◌, ◌==◌, Bool-cases, inl, inr, refl, arith}
use maturin.File.VirtFile.{page_size, page_offset}
use maturin.Memory.Addr.{pte_idx_of_virt_addr}
use maturin.Memory.Table.Walk.{same_page, line0, line1, line2}

-- Addresses have the same three indices exactly when they have the same page number.
pub same_page_lem :
    (v w : ℕ) → v < 2 ^ 39 → w < 2 ^ 39 → same_page v w ≡ (v / page_size == w / page_size)
unfolding pte_idx_of_virt_addr page_offset
same_page_lem v w hv hw = elim (Bool-cases (v / page_size == w / page_size)) [
  | inl is ↦
      let same : v / page_size ≡ w / page_size = ground (arith, is) in
      let e0 : line0 v ≡ line0 w = omega (arith, same) in
      let e1 : line1 v ≡ line1 w = omega (arith, same) in
      let e2 : line2 v ≡ line2 w = omega (arith, same) in rw (is, e0, e1, e2) (ground arith)
  | inr other ↦ elim (Bool-cases (same_page v w)) [
    | inr no_match ↦ rw (other, no_match) refl
    | inl is ↦
        let e0 : line0 v ≡ line0 w = ground (arith, is) in
        let e1 : line1 v ≡ line1 w = ground (arith, is) in
        let e2 : line2 v ≡ line2 w = ground (arith, is) in
        let same : v / page_size ≡ w / page_size = omega (arith, e0, e1, e2) in
        absurd (ground (arith, same, other))
  ]
]
