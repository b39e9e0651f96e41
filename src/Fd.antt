-- ===== src/Fd.antt =====
-- kernel/src/file/fd_manager.rs and kernel/src/memory/allocator/fd.rs: the file descriptors of a
-- process. The bitmap under the allocator is the library bitmap-allocator: its operations are an
-- argument, in `BitAlloc`, and what its documentation promises is `IsLawful`. `none` is a panic in
-- it: a bit past its capacity, an empty range, or a bit freed twice.
pub mod Table
pub mod Manager
pub mod Copies
pub mod Tests
use maturin.Prelude.{
  ℕ, zero, suc, ◌+◌, ◌-◌, ◌≤◌, ◌<◌, ◌≡◌, ◌⊎◌, min, Bool, true, false, not, ltb, leb, ◌==◌, ◌&&◌,
  if◌then◌else◌, length, get_elem?, set, replicate, Option, none, some, List, [], ◌∷◌, ◌++◌,
}

pub record BitAlloc (B : Type 0) : Type 0 where
  pub default : B
  pub alloc : B → Option (ℕ × B)
  pub dealloc : B → ℕ → Option B
  pub insert : B → ℕ → ℕ → Option B
  pub remove : B → ℕ → ℕ → Option B
  pub test : B → ℕ → Option Bool

-- `BitAlloc256::CAP`
abbrev pub cap : ℕ
cap = 256

abbrev pub fd_limit_origin : ℕ
fd_limit_origin = 256

abbrev pub fd_limit_hard : ℕ
fd_limit_hard = 256

-- `alloc` marks a free bit, `insert` and `remove` a range, `dealloc` a bit that is not free; `test`
-- says whether a bit is free.
pub record IsLawful {B : Type 0} (bits : BitAlloc B) : Type 0 where
  pub free : B → ℕ → Bool
  pub default_lem : (k : ℕ) → free bits.default k ≡ false
  pub test_lem : (b : B) (k : ℕ) → k < cap → bits.test b k ≡ some (free b k)
  pub alloc_lem :
      (b : B)
      → ((bits.alloc b ≡ none) × ((k : ℕ) → free b k ≡ false))
        ⊎ ((k : ℕ) × (b' : B) × (bits.alloc b ≡ some (k, b'))
            × (k < cap)
            × (free b k ≡ true)
            × ((j : ℕ) → free b' j ≡ (if j == k then false else free b j)))
  pub dealloc_lem :
      (b : B) (k : ℕ)
      → k < cap
      → free b k ≡ false
      → (b' : B) × (bits.dealloc b k ≡ some b')
        × ((j : ℕ) → free b' j ≡ (if j == k then true else free b j))
  pub insert_lem :
      (b : B) (l r : ℕ)
      → l < r
      → r ≤ cap
      → (b' : B) × (bits.insert b l r ≡ some b')
        × ((j : ℕ) → free b' j ≡ (if leb l j && ltb j r then true else free b j))
  pub remove_lem :
      (b : B) (l r : ℕ)
      → l < r
      → r ≤ cap
      → (b' : B) × (bits.remove b l r ≡ some b')
        × ((j : ℕ) → free b' j ≡ (if leb l j && ltb j r then false else free b j))

pub data OsError : Type 0 where
  no_available_fd : OsError
  fd_not_found : OsError

pub data OsResult (A : Type 0) : Type 0 where
  ok : A → OsResult A
  err : OsError → OsResult A

-- `limit` and the mode bits that `umask` takes away.
pub record FdManager (B F : Type 0) : Type 0 where
  pub files : List (Option F)
  pub fd_allocator : B
  pub limit : ℕ
  pub umask : ℕ

-- `files.resize(n, None)` where `n` is not less than the length.
unfoldable pub resize : {F : Type 0} → List (Option F) → ℕ → List (Option F)
resize files n = files ++ replicate (n - length files) none

-- A closed descriptor, and one past the end of the table.
abbrev pub file_at : {F : Type 0} → List (Option F) → ℕ → Option F
file_at [] fd = none
file_at (file ∷ files) zero = file
file_at (file ∷ files) (suc fd) = file_at files fd

module _ {B : Type 0} (bits : BitAlloc B) where
  -- `FdAllocator::new`
  unfoldable pub fd_allocator_new : ℕ → Option B
  fd_allocator_new limit = bits.insert bits.default 0 limit

  unfoldable pub is_allocated : B → ℕ → Option Bool
  is_allocated b fd = elim (bits.test b fd) [ none ↦ none | some free ↦ some (not free) ]

  unfoldable pub alloc_exact : B → ℕ → Option B
  alloc_exact b fd = bits.remove b fd (fd + 1)

  unfoldable pub alloc_exact_if_possible : B → ℕ → Option (Bool × B)
  alloc_exact_if_possible b fd = elim (is_allocated b fd) [
    | none ↦ none
    | some true ↦ some (false, b)
    | some false ↦ elim (alloc_exact b fd) [ none ↦ none | some b' ↦ some (true, b') ]
  ]

module _ {B F : Type 0} (bits : BitAlloc B) where
  unfoldable pub push : FdManager B F → F → OsResult ℕ × FdManager B F
  push self file = elim (bits.alloc self.fd_allocator) [
    | none ↦ (err OsError.no_available_fd, self)
    | some (fd, b) ↦ (
      ok fd,
      record self {
        files =
            set (if leb (length self.files) fd then resize self.files (fd + 1) else self.files) fd
              (some file);
        fd_allocator = b;
      },
    )
  ]

  unfoldable pub get_file : FdManager B F → ℕ → OsResult F
  get_file self fd = elim (file_at self.files fd) [
    | none ↦ err OsError.fd_not_found
    | some file ↦ ok file
  ]

  unfoldable pub copy_fd_anywhere : FdManager B F → ℕ → OsResult ℕ × FdManager B F
  copy_fd_anywhere self old_fd = elim (get_file self old_fd) [
    | err e ↦ (err e, self)
    | ok file ↦ push self file
  ]

  -- Whether the copy succeeded.
  unfoldable pub copy_fd_to : FdManager B F → ℕ → ℕ → Option (Bool × FdManager B F)
  copy_fd_to self old_fd new_fd = elim (get_file self old_fd) [
    | err e ↦ some (false, self)
    | ok file ↦ elim (alloc_exact_if_possible bits self.fd_allocator new_fd) [
      | none ↦ none
      | some (_, b) ↦ some (
        true,
        record self {
          files =
              set
                (if leb (length self.files) new_fd
                  then resize self.files (new_fd + 1)
                  else self.files)
                new_fd (some file);
          fd_allocator = b;
        },
      )
    ]
  ]

  unfoldable pub remove_file : FdManager B F → ℕ → Option (OsResult F × FdManager B F)
  remove_file self fd = elim (file_at self.files fd) [
    | none ↦ some (err OsError.fd_not_found, self)
    | some file ↦ elim (bits.dealloc self.fd_allocator fd) [
      | none ↦ none
      | some b ↦ some (ok file, record self { files = set self.files fd none; fd_allocator = b })
    ]
  ]

  unfoldable pub is_full : FdManager B F → Option (Bool × FdManager B F)
  is_full self = elim (bits.alloc self.fd_allocator) [
    | none ↦ some (true, self)
    | some (fd, b) ↦ elim (bits.dealloc b fd) [
      | none ↦ none
      | some b' ↦ some (false, record self { fd_allocator = b' })
    ]
  ]

  unfoldable pub modify_limit : FdManager B F → ℕ → Option (FdManager B F)
  modify_limit self new_limit =
      let limit = min new_limit fd_limit_hard in
      if ltb limit self.limit
      then (elim (bits.remove self.fd_allocator limit self.limit) [
        | none ↦ none
        | some b ↦ some (record self { fd_allocator = b; limit = limit })
      ])
      else if ltb self.limit limit
      then (elim (bits.insert self.fd_allocator self.limit limit) [
        | none ↦ none
        | some b ↦ some (record self { fd_allocator = b; limit = limit })
      ])
      else some self

  -- `fd_manager.push(file).unwrap()`
  unfoldable pub push_unwrap : FdManager B F → F → Option (FdManager B F)
  push_unwrap self file =
      let (fd, self') = push self file in elim fd [ err e ↦ none | ok _ ↦ some self' ]

  -- The three files are `Stdin`, `Stdout` and `Stderr`.
  unfoldable pub new : F → F → F → ℕ → Option (FdManager B F)
  new stdin stdout stderr umask = elim (fd_allocator_new bits fd_limit_origin) [
    | none ↦ none
    | some b ↦
        let start : FdManager B F = record {
          files = [];
          fd_allocator = b;
          limit = fd_limit_origin;
          umask = umask;
        } in
        elim (push_unwrap start stdin) [
          | none ↦ none
          | some m1 ↦ elim (push_unwrap m1 stdout) [ none ↦ none | some m2 ↦ push_unwrap m2 stderr ]
        ]
  ]

  -- The loop of `copy_all` over the table of the original, from the descriptor `fd` on.
  unfoldable pub alloc_all : B → ℕ → List (Option F) → Option B
  alloc_all b fd [] = some b
  alloc_all b fd (none ∷ files) = alloc_all b (suc fd) files
  alloc_all b fd (some file ∷ files) = elim (alloc_exact bits b fd) [
    | none ↦ none
    | some b' ↦ alloc_all b' (suc fd) files
  ]

  unfoldable pub copy_all : FdManager B F → Option (FdManager B F)
  copy_all self = elim (fd_allocator_new bits self.limit) [
    | none ↦ none
    | some b ↦ elim (alloc_all b 0 self.files) [
      | none ↦ none
      | some b' ↦
          some (record {
            files = self.files;
            fd_allocator = b';
            limit = self.limit;
            umask = self.umask;
          })
    ]
  ]

-- A file with the flag CLOEXEC is closed.
abbrev pub close_cloexec : {F : Type 0} → (F → Bool) → List (Option F) → List (Option F)
close_cloexec cloexec [] = []
close_cloexec cloexec (none ∷ files) = none ∷ close_cloexec cloexec files
close_cloexec cloexec (some file ∷ files) =
    (if cloexec file then none else some file) ∷ close_cloexec cloexec files

unfoldable pub close_cloexec_files : {B F : Type 0} → (F → Bool) → FdManager B F → FdManager B F
close_cloexec_files cloexec self = record self { files = close_cloexec cloexec self.files }

unfoldable pub set_umask_and_get_old : {B F : Type 0} → FdManager B F → ℕ → ℕ × FdManager B F
set_umask_and_get_old self new_umask = (self.umask, record self { umask = new_umask })
