-- ===== src/Memory/Area/Fault.antt =====
-- `handle_page_fault` on a page table that agrees with the area.
use maturin.Prelude.{
  ℕ, ◌+◌, ◌-◌, ◌/◌, ◌<◌, ◌≡◌, ◌⊎◌, inl, inr, true, false, ◌==◌, if◌then◌else◌, Bool-cases, none,
  some, refl, ap, ◌∙◌, arith,
}
use Prim.Native.Nat.{bit_and}
use maturin.File.VirtFile.{page_size}
use maturin.Memory.Addr.{align_down}
use maturin.Memory.Entry.{is_valid}
use maturin.Memory.Error.{
  Done, ok, err, page_fault_handler_access_denied, page_fault_handler_trap_at_valid_page,
  memory_run_out_of_memory,
}
use maturin.Memory.Pma.{PmArea, ◌>>=◌}
use maturin.Memory.Table.{find_pte}
use maturin.Memory.Table.Tree.{Use, IsTree}
use maturin.Memory.Table.Walk.{entry, same_page}
use maturin.Fd.Manager.{is_some}
use maturin.Memory.Area.{Store, fill_entry, handle_page_fault}
use maturin.Memory.Area.Synced.{IsLawful, Fits, Agrees}
use maturin.Memory.Area.Fill.{fill_entry_lem}

module _ {World : Type 0} (ops : PmArea World) (laws : IsLawful ops) where
  -- Where the table pages on the way to the page are there, `handle_page_fault` inside the area
  -- leaves a page table that agrees with the area, of the same pages. It denies an access just when
  -- the flags do not allow it. An access that they allow is out of memory only for a page without a
  -- frame; it is an error where the page is mapped already; otherwise the page is mapped, and no other
  -- entry changes. A denied access and one that is out of memory change nothing.
  pub handle_page_fault_lem :
      (owner : ℕ → Use) (s : Store ops) (offset access : ℕ)
      → IsTree owner s.pt
      → Fits ops laws s.area
      → Agrees ops laws s 0
      → offset < s.area.end - s.area.start
      → is_some (find_pte s.pt (s.area.start + align_down offset)) ≡ true
      → (result : Done) × (s' : Store ops) × (handle_page_fault ops offset access s
          ≡ some (result, s'))
        × IsTree owner s'.pt
        × Agrees ops laws s' 0
        × (((result ≡ err page_fault_handler_access_denied)
              × (s' ≡ s)
              × ((bit_and s.area.flags access == access) ≡ false))
            ⊎ (((bit_and s.area.flags access == access) ≡ true)
                × (((result ≡ err memory_run_out_of_memory)
                      × (s' ≡ s)
                      × (laws.frame_at s.area.pma (offset / page_size) ≡ none))
                    ⊎ ((result ≡ err page_fault_handler_trap_at_valid_page)
                        × (is_valid (entry s.pt (s.area.start + align_down offset)) ≡ true))
                    ⊎ ((result ≡ ok tt)
                        × (is_valid (entry s.pt (s.area.start + align_down offset)) ≡ false)
                        × (is_valid (entry s'.pt (s.area.start + align_down offset)) ≡ true)
                        × ((w : ℕ)
                            → entry s'.pt w ≡ (
                                if same_page (s.area.start + align_down offset) w
                                then entry s'.pt (s.area.start + align_down offset)
                                else entry s.pt w))))))
  unfolding handle_page_fault align_down fill_entry
  handle_page_fault_lem owner s offset access tree fits agrees inside way =
      let k = offset / page_size in
      let trap : Done = err page_fault_handler_trap_at_valid_page in
      let low : k < laws.pages s.area.pma = omega (arith, fits.to) in
      elim (Bool-cases (bit_and s.area.flags access == access)) [
        | inr denied ↦ (
          err page_fault_handler_access_denied,
          s,
          rw (denied, handle_page_fault) refl,
          tree,
          agrees,
          inl (refl, refl, denied),
        )
        | inl allowed ↦ elim (fill_entry_lem ops laws owner s k trap tree fits agrees low way) [
          | inl (free, e) ↦ (
            err memory_run_out_of_memory,
            s,
            rw (allowed, e, handle_page_fault, ◌>>=◌) refl,
            tree,
            agrees,
            inr (allowed, inl (refl, refl, free)),
          )
          | inr (found, result, s', e, filled, tree', agrees', how) ↦ (
            result,
            s',
            rw (allowed, e, handle_page_fault, ◌>>=◌) refl ∙ ap (λ r. some r) filled,
            tree',
            agrees',
            inr (allowed, inr how),
          )
        ]
      ]
