-- ===== src/Fd/Tests.antt =====
-- A bitmap that keeps what the allocator asks for, and a table of files on it.
use maturin.Prelude.{
  ℕ, zero, suc, ◌+◌, ◌%◌, ◌≤◌, ◌<◌, ◌≡◌, ◌⊎◌, inl, inr, Bool, true, false, not, leb, ltb, ◌==◌,
  ◌&&◌, if◌then◌else◌, refl, ap, Bool-cases, Option, none, some, [], ◌∷◌, arith,
}
use maturin.Fd.{
  BitAlloc, IsLawful, cap, OsError, ok, err, FdManager, file_at, push, get_file, copy_fd_to,
  close_cloexec_files, copy_all,
}
use maturin.Fd.Manager.{is_some, IsValid, push_lem, copy_fd_to_lem, close_cloexec_files_lem}
use maturin.Fd.Copies.{copy_all_lem}

-- The first of the `n` bits from `i` on that is free.
abbrev first_free : (ℕ → Bool) → ℕ → ℕ → Option ℕ
first_free b zero i = none
first_free b (suc n) i = let later = first_free b n (suc i) in if b i then some i else later

abbrev within : (ℕ → Bool) → ℕ → Bool
within b k = ltb k cap && b k

abbrev mark : (ℕ → Bool) → ℕ → ℕ → Bool → ℕ → Bool
mark b l r v j = if leb l j && ltb j r then v else b j

abbrev alloc_below : ℕ → (ℕ → Bool) → Option (ℕ × (ℕ → Bool))
alloc_below n b = elim (first_free b n 0) [
  | none ↦ none
  | some k ↦ some (k, mark b k (k + 1) false)
]

abbrev bit_alloc : BitAlloc (ℕ → Bool)
bit_alloc = record {
  default = λ k. false;
  alloc = alloc_below cap;
  dealloc = λ b k. if ltb k cap && not (b k) then some (mark b k (k + 1) true) else none;
  insert = λ b l r. if ltb l r && leb r cap then some (mark b l r true) else none;
  remove = λ b l r. if ltb l r && leb r cap then some (mark b l r false) else none;
  test = λ b k. if ltb k cap then some (b k) else none;
}

first_free_lem :
    (b : ℕ → Bool) (n i : ℕ)
    → ((first_free b n i ≡ none) × ((k : ℕ) → (leb i k && ltb k (i + n) && b k) ≡ false))
      ⊎ ((k : ℕ) × (first_free b n i ≡ some k) × (k < i + n) × (b k ≡ true))
first_free_lem b zero i = inl (refl, λ k. ground arith)
first_free_lem b (suc n) i = elim (Bool-cases (b i)) [
  | inl here ↦ inr (i, ground (arith, here), omega arith, here)
  | inr taken ↦ elim (first_free_lem b n (suc i)) [
    | inl (e, all) ↦ inl (
      ground (arith, e, taken),
      λ k. elim (Bool-cases (k == i)) [
        | inl is ↦ let eq : k ≡ i = ground arith in ground (arith, ap b eq, taken)
        | inr other ↦ ground (arith, all k)
      ],
    )
    | inr (k, e, h, is_free) ↦ inr (k, ground (arith, e, taken), omega arith, is_free)
  ]
]

alloc_below_lem :
    (n : ℕ) (b : ℕ → Bool)
    → ((alloc_below n b ≡ none) × ((k : ℕ) → (ltb k n && b k) ≡ false))
      ⊎ ((k : ℕ) × (b' : ℕ → Bool) × (alloc_below n b ≡ some (k, b'))
          × (k < n)
          × ((ltb k n && b k) ≡ true)
          × ((j : ℕ) → (ltb j n && b' j) ≡ (if j == k then false else ltb j n && b j)))
alloc_below_lem n b = elim (first_free_lem b n 0) [
  | inl (e, all) ↦ inl (ground (arith, e), λ k. ground (arith, all k))
  | inr (k, e, h, is_free) ↦ inr (
    k,
    mark b k (k + 1) false,
    ground (arith, e),
    omega arith,
    ground (arith, is_free),
    λ j. ground arith,
  )
]

abbrev law : IsLawful bit_alloc
law = record {
  free = within;
  default_lem = λ k. ground arith;
  test_lem = λ b k h. ground arith;
  alloc_lem = λ b. alloc_below_lem cap b;
  dealloc_lem = λ b k h e. (mark b k (k + 1) true, ground arith, λ j. ground arith);
  insert_lem = λ b l r h k. (mark b l r true, ground arith, λ j. ground arith);
  remove_lem = λ b l r h k. (mark b l r false, ground arith, λ j. ground arith);
}

-- The files are numbers, and the odd ones are closed on `exec`. The descriptors 0 and 2 are open.
abbrev Table : Type 0
Table = FdManager (ℕ → Bool) ℕ

abbrev two_files : Table
two_files = record {
  files = some 10 ∷ none ∷ some 11 ∷ [];
  fd_allocator = λ k. not (k == 0) && not (k == 2);
  limit = 256;
  umask = 0;
}

at_most_three :
    (fd : ℕ) → (is_some (file_at two_files.files fd) && law.free two_files.fd_allocator fd) ≡ false
at_most_three zero = refl
at_most_three (suc zero) = refl
at_most_three (suc (suc zero)) = refl
at_most_three (suc (suc (suc fd))) = refl

two_files-IsValid : IsValid law two_files
two_files-IsValid = record { short = omega arith; taken = at_most_three }

opened : get_file bit_alloc two_files 0 ≡ ok 10
unfolding get_file
opened = refl

push_lem_example :
    ((push bit_alloc two_files 12 ≡ (err OsError.no_available_fd, two_files))
      × ((k : ℕ) → law.free two_files.fd_allocator k ≡ false))
    ⊎ ((fd : ℕ) × (m' : Table) × (push bit_alloc two_files 12 ≡ (ok fd, m'))
        × (fd < cap)
        × (get_file bit_alloc two_files fd ≡ err OsError.fd_not_found)
        × ((j : ℕ)
            → get_file bit_alloc m' j ≡ (if j == fd then ok 12 else get_file bit_alloc two_files j))
        × IsValid law m')
push_lem_example = push_lem law two_files 12 two_files-IsValid

copy_fd_to_lem_example :
    (m' : Table) × (copy_fd_to bit_alloc two_files 0 2 ≡ some (true, m'))
    × ((j : ℕ)
        → get_file bit_alloc m' j ≡ (if j == 2 then ok 10 else get_file bit_alloc two_files j))
    × (law.free m'.fd_allocator 2 ≡ false)
    × IsValid law m'
copy_fd_to_lem_example = copy_fd_to_lem law two_files 0 2 10 two_files-IsValid opened (omega arith)

abbrev odd : ℕ → Bool
odd file = file % 2 == 1

close_cloexec_files_lem_example :
    ((j : ℕ)
      → get_file bit_alloc (close_cloexec_files odd two_files) j
        ≡ elim (get_file bit_alloc two_files j) [
          | err e ↦ err e
          | ok file ↦ if odd file then err OsError.fd_not_found else ok file
        ])
    × ((j : ℕ)
        → law.free (close_cloexec_files odd two_files).fd_allocator j
          ≡ law.free two_files.fd_allocator j)
    × IsValid law (close_cloexec_files odd two_files)
close_cloexec_files_lem_example = close_cloexec_files_lem law two_files odd two_files-IsValid

copy_all_lem_example :
    (m' : Table) × (copy_all bit_alloc two_files ≡ some m')
    × ((j : ℕ) → get_file bit_alloc m' j ≡ get_file bit_alloc two_files j)
    × ((j : ℕ)
        → law.free m'.fd_allocator j ≡ (ltb j 256 && not (is_some (file_at two_files.files j))))
    × IsValid law m'
copy_all_lem_example = copy_all_lem law two_files two_files-IsValid (omega arith) (omega arith)

none_behind : (j : ℕ) → 256 ≤ j → file_at two_files.files j ≡ none
none_behind zero h = absurd (omega arith)
none_behind (suc zero) h = absurd (omega arith)
none_behind (suc (suc zero)) h = absurd (omega arith)
none_behind (suc (suc (suc j))) h = refl
