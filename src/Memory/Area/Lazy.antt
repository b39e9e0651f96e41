-- ===== src/Memory/Area/Lazy.antt =====
-- `PmAreaLazy` is a `PmArea` as `VmArea` relies on it.
use maturin.Prelude.{
  ℕ, ◌+◌, ◌-◌, ◌*◌, ◌/◌, ◌%◌, ◌<◌, ◌≡◌, ◌⊎◌, inl, inr, true, Bool-cases, ◌==◌, ==_iff, leb, ltb,
  ◌&&◌, if◌then◌else◌, length, get_elem?, set, take, drop, length-take, length-drop, Option, none,
  some, List, [], ◌∷◌, refl, ap, ◌∙◌, arith,
}
use maturin.File.VirtFile.{page_size, addr_to_page_id}
use maturin.Memory.Pma.{◌>>=◌}
use maturin.Prelude.Index.{
  get_elem?-take, get_elem?-drop, get_elem?-set, length-set, get_elem?-length,
}
use maturin.Memory.Error.{ok}
use maturin.Memory.Backend.{FileStore}
use maturin.Memory.Pma.{PmArea}
use maturin.Memory.Pma.Lazy.{
  Frame, World, PmAreaLazy, size, clone_as_fork, get_frame, sync_frame_with_file, release_frame,
  release_frames, split, split_backend, filled, write_back,
}
use maturin.Memory.Area.Synced.{IsLawful}

abbrev pub lazy : (store : FileStore) → PmArea (World store)
lazy store = record {
  State = PmAreaLazy store;
  size = size store;
  clone_as_fork = clone_as_fork store;
  get_frame = get_frame store;
  sync_frame_with_file = sync_frame_with_file store;
  release_frame = release_frame store;
  split = split store;
}

abbrev pub paddr_of : Option (Option Frame) → Option ℕ
paddr_of none = none
paddr_of (some none) = none
paddr_of (some (some frame)) = some frame.start_paddr

module _ (store : FileStore) where
  abbrev pub frame_of : PmAreaLazy store → ℕ → Option ℕ
  frame_of self idx = paddr_of (get_elem? self.frames idx)

  pub frame_of-set :
      (self : PmAreaLazy store) (idx j : ℕ) (frame : Option Frame)
      → idx < length self.frames
      → frame_of (record self { frames = set self.frames idx frame }) j
        ≡ (if j == idx then paddr_of (some frame) else frame_of self j)
  frame_of-set self idx j frame h =
      ap paddr_of (get_elem?-set self.frames idx j frame h)
      ∙ elim (Bool-cases (j == idx)) [ inl is ↦ rw is refl | inr other ↦ rw other refl ]

  pub frame_of-cleared :
      (self : PmAreaLazy store) (idx : ℕ)
      → idx < length self.frames
      → frame_of (record self { frames = set self.frames idx none }) idx ≡ none
  frame_of-cleared self idx h = frame_of-set self idx idx none h ∙ ground arith

  pub slot_cases :
      (self : PmAreaLazy store) (idx : ℕ)
      → idx < length self.frames
      → (get_elem? self.frames idx ≡ some none)
        ⊎ ((frame : Frame) × (get_elem? self.frames idx ≡ some (some frame)))
  slot_cases self idx h = let (found, e) = get_elem?-length self.frames idx h in go found e
    where
      go :
          (found : Option Frame)
          → get_elem? self.frames idx ≡ some found
          → (get_elem? self.frames idx ≡ some none)
            ⊎ ((frame : Frame) × (get_elem? self.frames idx ≡ some (some frame)))
      go none e = inl e
      go (some frame) e = inr (frame, e)

  pub free_cases :
      (frames : List Frame)
      → (frames ≡ []) ⊎ ((frame : Frame) × (rest : List Frame) × (frames ≡ frame ∷ rest))
  free_cases [] = inl refl
  free_cases (frame ∷ rest) = inr (frame, rest, refl)

  pub lazy_cut :
      (s : PmAreaLazy store) (pos : ℕ) (world : World store)
      → pos % page_size ≡ 0
      → pos < length s.frames * page_size
      → (l r : PmAreaLazy store) × (world' : World store) × (split store s pos pos world
          ≡ some (ok r, l, world'))
        × (length l.frames ≡ pos / page_size)
        × (length r.frames ≡ length s.frames - pos / page_size)
        × (size store r ≡ length r.frames * page_size)
        × ((j : ℕ) → frame_of l j ≡ (if ltb j (pos / page_size) then frame_of s j else none))
        × ((j : ℕ) → frame_of r j ≡ frame_of s (pos / page_size + j))
  unfolding split size release_frames addr_to_page_id
  lazy_cut s pos world h l =
      let k = pos / page_size in
      let left : PmAreaLazy store = record s { frames = take k (take k s.frames) } in
      let right : PmAreaLazy store = record {
        frames = drop k s.frames;
        backend = split_backend store s.backend pos;
      } in
      let inside : (leb pos pos && ltb pos (length s.frames * page_size)) ≡ true = ground arith in
      let nothing : k - k ≡ 0 = omega arith in
      (
        left,
        right,
        world,
        rw (inside, nothing, split, ◌>>=◌) refl,
        omega (arith, length-take k (take k s.frames), length-take k s.frames),
        length-drop k s.frames,
        refl,
        (λ j. ap paddr_of (get_elem?-take k (take k s.frames) j) ∙ taken j),
        λ j. ap paddr_of (get_elem?-drop k s.frames j),
      )
    where
      taken :
          (j : ℕ)
          → paddr_of (
              if ltb j (pos / page_size)
              then get_elem? (take (pos / page_size) s.frames) j
              else none)
            ≡ (if ltb j (pos / page_size) then frame_of s j else none)
      taken j = elim (Bool-cases (ltb j (pos / page_size))) [
        | inl low ↦ rw low (ap paddr_of (get_elem?-take (pos / page_size) s.frames j ∙ rw low refl))
        | inr high ↦ rw high refl
      ]

  unfoldable pub lazy-IsLawful : IsLawful (lazy store)
  unfolding get_frame release_frame
  lazy-IsLawful = record {
    pages = λ s. length s.frames;
    frame_at = frame_of;
    query = λ s idx world h. elim (slot_cases s idx h) [
      | inl e ↦ rw (e, get_frame) refl
      | inr (frame, e) ↦ rw (e, get_frame) refl
    ];
    alloc = λ s idx world h. elim (slot_cases s idx h) [
      | inl e ↦ elim (free_cases world.free) [
        | inl out ↦ inl (rw e refl, simp (e, out, get_frame))
        | inr (frame, rest, f) ↦
            let taken : Frame = record frame {
              bytes = filled store s.backend world.files idx frame;
            } in
            inr (
              frame.start_paddr,
              record s { frames = set s.frames idx (some taken) },
              record world { free = rest },
              rw (e, f, get_frame) refl,
              length-set s.frames idx (some taken),
              inl (rw e refl),
              λ j. frame_of-set s idx j (some taken) h,
            )
      ]
      | inr (frame, e) ↦ inr (
        frame.start_paddr,
        s,
        world,
        rw (e, get_frame) refl,
        refl,
        inr (rw e refl),
        λ j. elim (Bool-cases (j == idx)) [
          | inl is ↦ rw (is, (==_iff j idx).0 is, e) refl
          | inr other ↦ rw other refl
        ],
      )
    ];
    release = λ s idx world h. elim (slot_cases s idx h) [
      | inl e ↦ inl (rw e refl, rw (e, release_frame) refl)
      | inr (frame, e) ↦
          let s' : PmAreaLazy store = record s { frames = set s.frames idx none } in
          let gone : frame_of s' idx ≡ none = frame_of-cleared s idx h in
          inr (
            frame.start_paddr,
            s',
            record {
              free = frame ∷ world.free;
              files = write_back store s.backend world.files idx frame;
            },
            rw e refl,
            rw (e, release_frame) refl,
            length-set s.frames idx none,
            λ j. rw gone (frame_of-set s idx j none h),
          )
    ];
    cut = λ s pos world h l. lazy_cut s pos world h l;
  }
