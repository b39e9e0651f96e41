-- ===== src/Memory/Set/Spec.antt =====
-- What `munmap` and `mprotect` of a `MemorySet` do, from the theorems of the map of ranges and the
-- laws that `VmArea` keeps.
use maturin.Prelude.{
  ℕ, ◌%◌, ◌^◌, ◌<◌, ◌≡◌, ◌∙◌, ap, sym, arith, Bool, true, false, not, ◌||◌, leb, ltb, ◌&&◌,
  Bool-cases, Option-cases, inl, inr, if◌then◌else◌, Option, none, some, refl,
}
use maturin.File.VirtFile.{page_size}
use maturin.Memory.Pma.{PmArea}
use maturin.Memory.Entry.{is_valid}
use maturin.Memory.Table.Walk.{entry}
use maturin.Memory.Area.{contains}
use maturin.Memory.Area.Flags.{carries}
use maturin.Fd.Manager.{is_some}
use maturin.Range.Ram.{find}
use maturin.Memory.Area.Synced.{IsLawful}
use maturin.Memory.Area.Seg.{Space}
use maturin.Memory.Area.Segments.{vm_area-IsLawful}
use maturin.Memory.Set.{MemorySet, munmap, mprotect}
use maturin.Range.Segment.{◌>>=◌}
use maturin.Range.Spec.{IsValid, flag_at, unmap-Bare, mprotect_lem, find-Spans}
use maturin.Range.Protect.{repaint}

module _ {World : Type 0} (ops : PmArea World) (laws : IsLawful ops) where
  -- The areas are ordered and disjoint, and the page table is a tree that agrees with each of them.
  abbrev pub IsInOrder : MemorySet ops → Space World → Type 0
  IsInOrder self w = IsValid (vm_area-IsLawful ops laws) self.area_map w

  -- The access flags of the area of an address.
  abbrev pub flags_at : MemorySet ops → ℕ → Option ℕ
  flags_at self p = flag_at (vm_area-IsLawful ops laws) self.area_map p

  -- That an entry carries the flags of the area of its address, if there is one.
  abbrev pub carries_at : Option ℕ → ℕ → Bool
  carries_at none bits = true
  carries_at (some area_flags) bits = carries area_flags bits

  IsInOrder-carries_at :
      (self : MemorySet ops) (w : Space World) (p : ℕ)
      → IsInOrder self w
      → carries_at (flags_at self p) (entry w.pt p) ≡ true
  unfolding vm_area-IsLawful contains
  IsInOrder-carries_at self w p order = elim (Option-cases (find self.area_map p)) [
    | inl free ↦ rw free refl
    | inr (area, found) ↦
        let (a, b, lo, hi, spans) =
          find-Spans (vm_area-IsLawful ops laws) self.area_map w p order found in
        let within : (leb area.start p && ltb p area.end) ≡ true =
          ground (arith, lo, hi, spans.starts, spans.ends) in
        rw found
          (ap (λ b. not b || carries area.flags (entry w.pt p)) (sym within) ∙ spans.flagged p)
  ]

  -- For a range of whole pages, `munmap` does not panic: the set is in order again, so the page table
  -- agrees with every area that is left; no address of the range is in an area, and every other
  -- address has the flags that it had. Where an address of the range was in an area, the page table
  -- has no page for it any more.
  pub munmap_lem :
      (self : MemorySet ops) (w : Space World) (start end : ℕ)
      → start % page_size ≡ 0
      → end % page_size ≡ 0
      → start < end
      → IsInOrder self w
      → (self' : MemorySet ops) × (w' : Space World) × (munmap ops self start end w
          ≡ some ((true, self'), w'))
        × IsInOrder self' w'
        × ((p : ℕ)
            → flags_at self' p ≡ (if leb start p && ltb p end then none else flags_at self p))
        × ((p : ℕ)
            → (leb start p && ltb p end && is_some (flags_at self p) && is_valid (entry w'.pt p))
              ≡ false)
  unfolding munmap vm_area-IsLawful
  munmap_lem self w start end from to proper order =
      let (area_map, w', e, order', view, bare) =
        unmap-Bare (vm_area-IsLawful ops laws) self.area_map w start end from to proper order in
      (
        record self { area_map = area_map },
        w',
        rw (e, munmap, ◌>>=◌) refl,
        order',
        view,
        λ p. elim (Bool-cases (leb start p && ltb p end)) [
          | inr out ↦ rw out refl
          | inl within ↦ elim (Option-cases (flags_at self p)) [
            | inl free ↦ rw (within, free) refl
            | inr (f, there) ↦
                let off : is_valid (entry w'.pt p) ≡ false =
                  (bare p f there (view p ∙ rw within refl)).1 in
                rw (within, there, off) refl
          ]
        ],
      )

  -- For a range of whole pages and flags of a byte, `mprotect` does not panic: the set is in order
  -- again, each address of the range that is in an area has the new flags, and every other address
  -- has the flags that it had, or none. Each page that the page table has for an address of an area
  -- has these flags, with those of a page that is mapped (V, A and D).
  pub mprotect-flags_at :
      (self : MemorySet ops) (w : Space World) (start end new_flags : ℕ)
      → start % page_size ≡ 0
      → end % page_size ≡ 0
      → start < end
      → new_flags < 2 ^ 8
      → IsInOrder self w
      → (self' : MemorySet ops) × (w' : Space World) × (mprotect ops self start end new_flags w
          ≡ some ((true, self'), w'))
        × IsInOrder self' w'
        × ((p : ℕ)
            → flags_at self' p ≡ (
                if leb start p && ltb p end
                then repaint new_flags (flags_at self p)
                else flags_at self p))
        × ((p : ℕ) → carries_at (flags_at self' p) (entry w'.pt p) ≡ true)
  unfolding mprotect vm_area-IsLawful
  mprotect-flags_at self w start end new_flags from to proper byte order =
      let (area_map, w', e, order', view) =
        mprotect_lem (vm_area-IsLawful ops laws) self.area_map w start end new_flags from to proper
          byte order in
      (
        record self { area_map = area_map },
        w',
        rw (e, mprotect, ◌>>=◌) refl,
        order',
        view,
        λ p. IsInOrder-carries_at (record self { area_map = area_map }) w' p order',
      )
