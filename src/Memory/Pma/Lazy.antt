-- ===== src/Memory/Pma/Lazy.antt =====
-- kernel/src/memory/areas/lazy.rs: `PmAreaLazy`, which takes a frame for a page when it is used. A
-- frame that is dropped is free again.
use maturin.Prelude.{
  ℕ, zero, suc, ◌-◌, ◌*◌, leb, ltb, ◌==◌, ◌&&◌, not, Bool, if◌then◌else◌, Option, none, some, List,
  [], ◌∷◌, ◌++◌, length, get_elem?, set, take, drop, replicate,
}
use maturin.File.VirtFile.{page_size, addr_to_page_id}
use maturin.Memory.Addr.{page_count}
use maturin.Memory.Error.{
  Result, ok, err, Done, pm_area_invalid_range, pm_area_shrink_failed, pm_area_split_failed,
  pm_area_lazy_release_not_allocated_page, memory_run_out_of_memory,
}
use maturin.Memory.Backend.{
  FileStore, BackEndFile, clone_file, split_file, modify_offset, read_backend, write_backend,
}
use maturin.Memory.Pma.{◌>>=◌, pure}

pub record Frame : Type 0 where
  pub start_paddr : ℕ
  pub bytes : List ℕ

abbrev pub user_virt_addr_limit : ℕ
user_virt_addr_limit = 0xffff_ffff

module _ (store : FileStore) where
  -- The frames that are free, and the files.
  pub record World : Type 0 where
    pub free : List Frame
    pub files : store.Files

  pub record PmAreaLazy : Type 0 where
    pub frames : List (Option Frame)
    pub backend : Option (BackEndFile store)

  unfoldable pub new : ℕ → Option (BackEndFile store) → Result PmAreaLazy
  new count backend =
      if count == 0
      then err pm_area_invalid_range
      else if ltb (page_count user_virt_addr_limit) count
      then err memory_run_out_of_memory
      else ok (record { frames = replicate count none; backend = backend })

  unfoldable pub size : PmAreaLazy → ℕ
  size self = length self.frames * page_size

  unfoldable pub clone_backend : Option (BackEndFile store) → Option (BackEndFile store)
  clone_backend none = none
  clone_backend (some file) = some (clone_file store file)

  unfoldable pub clone_as_fork : PmAreaLazy → Result PmAreaLazy
  clone_as_fork self = new (length self.frames) (clone_backend self.backend)

  abbrev zeroed : List ℕ
  zeroed = replicate page_size 0

  -- What a frame holds once it was taken: a read that is short leaves the rest of it as it was.
  unfoldable pub filled : Option (BackEndFile store) → store.Files → ℕ → Frame → List ℕ
  filled none files idx frame = zeroed
  filled (some file) files idx frame =
      elim (read_backend store file files (idx * page_size) page_size) [
        | none ↦ zeroed
        | some bytes ↦ bytes ++ drop (length bytes) frame.bytes
      ]

  unfoldable pub get_frame :
      PmAreaLazy → ℕ → Bool → World → Option (Result (Option ℕ) × PmAreaLazy × World)
  get_frame self idx need_alloc world = elim (get_elem? self.frames idx) [
    | none ↦ none
    | some (some frame) ↦ some (ok (some frame.start_paddr), self, world)
    | some none ↦
        if need_alloc
        then elim world.free [
          | [] ↦ some (err memory_run_out_of_memory, self, world)
          | frame ∷ rest ↦
              let taken = record frame { bytes = filled self.backend world.files idx frame } in
              some (
                ok (some frame.start_paddr),
                record self { frames = set self.frames idx (some taken) },
                record world { free = rest },
              )
        ]
        else some (ok none, self, world)
  ]

  unfoldable pub write_back : Option (BackEndFile store) → store.Files → ℕ → Frame → store.Files
  write_back none files idx frame = files
  write_back (some file) files idx frame =
      (write_backend store file files (idx * page_size) frame.bytes).0

  -- `unwrap` of a page without a frame panics.
  unfoldable pub sync_frame_with_file : PmAreaLazy → ℕ → World → Option World
  sync_frame_with_file self idx world = elim self.backend [
    | none ↦ some world
    | some file ↦ elim (get_elem? self.frames idx) [
      | none ↦ none
      | some none ↦ none
      | some (some frame) ↦
          some (record world { files = write_back self.backend world.files idx frame })
    ]
  ]

  unfoldable pub release_frame : PmAreaLazy → ℕ → World → Option (Done × PmAreaLazy × World)
  release_frame self idx world = elim (get_elem? self.frames idx) [
    | none ↦ none
    | some none ↦ some (err pm_area_lazy_release_not_allocated_page, self, world)
    | some (some frame) ↦ some (
      ok tt,
      record self { frames = set self.frames idx none },
      record { free = frame ∷ world.free; files = write_back self.backend world.files idx frame },
    )
  ]

  -- `release_frame` of `n` pages from one on, whose errors are ignored.
  unfoldable pub release_frames : PmAreaLazy → ℕ → ℕ → World → Option (PmAreaLazy × World)
  release_frames self idx zero world = some (self, world)
  release_frames self idx (suc n) world = do
    (result, self', world') ← release_frame self idx world
    release_frames self' (suc idx) n world'

  unfoldable pub moved_backend : Option (BackEndFile store) → ℕ → Option (BackEndFile store)
  moved_backend none delta = none
  moved_backend (some file) delta = some (modify_offset store file delta)

  unfoldable pub shrink_left : PmAreaLazy → ℕ → World → Option (Done × PmAreaLazy × World)
  shrink_left self new_start world =
      if not (ltb new_start (size self)) then some (err pm_area_shrink_failed, self, world) else do
        (self', world') ← release_frames self 0 (addr_to_page_id new_start) world
        pure (
          ok tt,
          record {
            frames = drop (addr_to_page_id new_start) self'.frames;
            backend = moved_backend self'.backend new_start;
          },
          world',
        )

  unfoldable pub shrink_right : PmAreaLazy → ℕ → World → Option (Done × PmAreaLazy × World)
  shrink_right self new_end world =
      if not (ltb new_end (size self)) then some (err pm_area_shrink_failed, self, world) else do
        let kept = addr_to_page_id new_end
        (self', world') ← release_frames self kept (length self.frames - kept) world
        pure (ok tt, record self' { frames = take kept self'.frames }, world')

  unfoldable pub split_backend : Option (BackEndFile store) → ℕ → Option (BackEndFile store)
  split_backend none delta = none
  split_backend (some file) delta = some (split_file store file delta)

  -- The right part, and `self`, which is the left one.
  unfoldable pub split :
      PmAreaLazy → ℕ → ℕ → World → Option (Result PmAreaLazy × PmAreaLazy × World)
  split self left_end right_start world =
      if not (leb left_end right_start && ltb right_start (size self))
      then some (err pm_area_split_failed, self, world)
      else do
        let left = addr_to_page_id left_end
        let right = addr_to_page_id right_start
        let kept = record self { frames = take right self.frames }
        (self', world') ← release_frames kept left (right - left) world
        pure (
          ok (record {
            frames = drop right self.frames;
            backend = split_backend self.backend right_start;
          }),
          record self' { frames = take left self'.frames },
          world',
        )
