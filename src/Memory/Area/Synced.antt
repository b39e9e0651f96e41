-- ===== src/Memory/Area/Synced.antt =====
-- What `VmArea` relies on of the memory behind it, and when the page table agrees with an area.
use maturin.Prelude.{
  ℕ, ◌+◌, ◌-◌, ◌*◌, ◌/◌, ◌%◌, ◌^◌, ◌<◌, ◌≤◌, ◌≡◌, ◌⊎◌, true, false, ltb, leb, ◌&&◌, ◌==◌,
  if◌then◌else◌, Option, none, some,
}
use maturin.File.VirtFile.{page_size}
use maturin.Memory.Entry.{addr, is_valid}
use maturin.Memory.Error.{
  ok, err, pm_area_lazy_release_not_allocated_page, memory_run_out_of_memory,
}
use maturin.Memory.Pma.{PmArea}
use maturin.Memory.Area.{VmArea, Store}
use maturin.Memory.Table.Walk.{entry}

-- The frame of each page. Asking for a frame changes nothing where there is no need for one; a frame
-- that is needed is the page's, or one that is new, or the memory has run out. A frame is released
-- where there is one; a cut shares the frames out.
pub record IsLawful {World : Type 0} (ops : PmArea World) : Type 0 where
  pub pages : ops.State → ℕ
  pub frame_at : ops.State → ℕ → Option ℕ
  pub query :
      (s : ops.State) (idx : ℕ) (world : World)
      → idx < pages s
      → ops.get_frame s idx false world ≡ some (ok (frame_at s idx), s, world)
  pub alloc :
      (s : ops.State) (idx : ℕ) (world : World)
      → idx < pages s
      → ((frame_at s idx ≡ none)
          × (ops.get_frame s idx true world ≡ some (err memory_run_out_of_memory, s, world)))
        ⊎ ((p : ℕ) × (s' : ops.State) × (world' : World) × (ops.get_frame s idx true world
              ≡ some (ok (some p), s', world'))
            × (pages s' ≡ pages s)
            × ((frame_at s idx ≡ none) ⊎ (frame_at s idx ≡ some p))
            × ((j : ℕ) → frame_at s' j ≡ (if j == idx then some p else frame_at s j)))
  pub release :
      (s : ops.State) (idx : ℕ) (world : World)
      → idx < pages s
      → ((frame_at s idx ≡ none)
          × (ops.release_frame s idx world
              ≡ some (err pm_area_lazy_release_not_allocated_page, s, world)))
        ⊎ ((p : ℕ) × (s' : ops.State) × (world' : World) × (frame_at s idx ≡ some p)
            × (ops.release_frame s idx world ≡ some (ok tt, s', world'))
            × (pages s' ≡ pages s)
            × ((j : ℕ) → frame_at s' j ≡ (if j == idx then frame_at s' idx else frame_at s j)))
  pub cut :
      (s : ops.State) (pos : ℕ) (world : World)
      → pos % page_size ≡ 0
      → pos < pages s * page_size
      → (l r : ops.State) × (world' : World) × (ops.split s pos pos world ≡ some (ok r, l, world'))
        × (pages l ≡ pos / page_size)
        × (pages r ≡ pages s - pos / page_size)
        × (ops.size r ≡ pages r * page_size)
        × ((j : ℕ) → frame_at l j ≡ (if ltb j (pos / page_size) then frame_at s j else none))
        × ((j : ℕ) → frame_at r j ≡ frame_at s (pos / page_size + j))

-- The page of an address of 56 bits.
abbrev pub page_of : ℕ → ℕ
page_of paddr = paddr / 2 ^ 12 % 2 ^ 44 * 2 ^ 12

-- That an entry is what the frame of its page says.
abbrev pub Matches : Option ℕ → ℕ → Type 0
Matches none bits = is_valid bits ≡ false
Matches (some p) bits = (is_valid bits ≡ true) × (addr bits ≡ page_of p)

module _ {World : Type 0} (ops : PmArea World) (laws : IsLawful ops) where
  -- The area stands on whole pages below 2 ^ 39, as many as its memory has; its flags are a byte.
  pub record Fits (area : VmArea ops) : Type 0 where
    pub from : area.start % page_size ≡ 0
    pub to : area.end ≡ area.start + laws.pages area.pma * page_size
    pub low : area.end ≤ 2 ^ 39
    pub byte : area.flags < 2 ^ 8

  -- The entry of a page of the area is what its frame says, from the page `k` on.
  abbrev pub Agrees : Store ops → ℕ → Type 0
  Agrees s k =
      (j : ℕ)
      → if ltb j (laws.pages s.area.pma) && leb k j
        then Matches (laws.frame_at s.area.pma j) (entry s.pt (s.area.start + j * page_size))
        else Unit {0}
