-- ===== src/Fd/Manager.antt =====
-- What the operations of a valid `FdManager` do to the files, descriptor by descriptor.
use maturin.Prelude.{
  set, ℕ, ◌+◌, ◌≤◌, ◌<◌, ◌≡◌, ◌⊎◌, inl, inr, Bool, true, false, leb, ◌==◌, ◌&&◌, if◌then◌else◌,
  length, refl, sym, ap, ◌∙◌, Option, none, some, Option-cases, Bool-cases, arith,
}
use maturin.Fd.{
  resize, BitAlloc, IsLawful, cap, OsError, ok, err, FdManager, file_at, push, get_file, copy_fd_to,
  alloc_exact_if_possible, alloc_exact, is_allocated, remove_file, close_cloexec_files,
}
use maturin.Fd.Table.{
  file_at-put, length-put, file_at-set, length-set, file_at-length, file_at-close_cloexec,
  length-close_cloexec,
}

abbrev pub is_some : {A : Type 0} → Option A → Bool
is_some none = false
is_some (some a) = true

-- Every descriptor in the table is one of the bitmap's, and one with a file is not free in it.
pub record IsValid {B F : Type 0} {bits : BitAlloc B} (law : IsLawful bits) (m : FdManager B F)
    : Type 0 where
  pub short : length m.files ≤ cap
  pub taken : (fd : ℕ) → (is_some (file_at m.files fd) && law.free m.fd_allocator fd) ≡ false

module _ {B : Type 0} {bits : BitAlloc B} (law : IsLawful bits) where
  exact :
      (b : B) (fd : ℕ)
      → fd < cap
      → (got : Bool) × (b' : B) × (alloc_exact_if_possible bits b fd ≡ some (got, b'))
        × (got ≡ law.free b fd)
        × ((j : ℕ) → law.free b' j ≡ (if j == fd then false else law.free b j))
  unfolding alloc_exact_if_possible is_allocated alloc_exact
  exact b fd h = elim (Bool-cases (law.free b fd)) [
    | inl is_free ↦
        let (b', e, frees) = law.remove_lem b fd (fd + 1) (omega arith) (omega arith) in
        (
          true,
          b',
          ground (arith, law.test_lem b fd h, is_free, e),
          sym is_free,
          λ j. ground (arith, frees j),
        )
    | inr is_taken ↦ (
      false,
      b,
      ground (arith, law.test_lem b fd h, is_taken),
      sym is_taken,
      λ j. same b fd j is_taken,
    )
  ]
    where
      same :
          (b : B) (fd j : ℕ)
          → law.free b fd ≡ false
          → law.free b j ≡ (if j == fd then false else law.free b j)
      same b fd j e = elim (Bool-cases (j == fd)) [
        | inl is ↦ let eq : j ≡ fd = ground arith in rw is (ap (law.free b) eq ∙ e)
        | inr is ↦ rw is refl
      ]

module _ {B F : Type 0} {bits : BitAlloc B} (law : IsLawful bits) where
  free-closed :
      (m : FdManager B F) (fd : ℕ)
      → IsValid law m
      → law.free m.fd_allocator fd ≡ true
      → file_at m.files fd ≡ none
  free-closed m fd v e = elim (Option-cases (file_at m.files fd)) [
    | inl none_there ↦ none_there
    | inr (file, there) ↦ ground (arith, v.taken fd, there, e)
  ]

  open-taken :
      (m : FdManager B F) (fd : ℕ) (file : F)
      → IsValid law m
      → file_at m.files fd ≡ some file
      → law.free m.fd_allocator fd ≡ false
  open-taken m fd file v e = ground (arith, v.taken fd, e)

  -- On a valid table `push` either finds no free descriptor, reports that and changes nothing, or
  -- returns a descriptor that had no file and puts the file there, and nowhere else.
  pub push_lem :
      (m : FdManager B F) (file : F)
      → IsValid law m
      → ((push bits m file ≡ (err OsError.no_available_fd, m))
          × ((k : ℕ) → law.free m.fd_allocator k ≡ false))
        ⊎ ((fd : ℕ) × (m' : FdManager B F) × (push bits m file ≡ (ok fd, m'))
            × (fd < cap)
            × (get_file bits m fd ≡ err OsError.fd_not_found)
            × ((j : ℕ) → get_file bits m' j ≡ (if j == fd then ok file else get_file bits m j))
            × IsValid law m')
  unfolding push get_file
  push_lem m file v = elim (law.alloc_lem m.fd_allocator) [
    | inl (e, full) ↦ inl (rw (e, push) refl, full)
    | inr (fd, b, e, small, was_free, frees) ↦ inr (
      fd,
      record m {
        files =
            set (if leb (length m.files) fd then resize m.files (fd + 1) else m.files) fd
              (some file);
        fd_allocator = b;
      },
      rw (e, push) refl,
      small,
      rw (free-closed m fd v was_free, get_file) refl,
      (λ j. ground (arith, file_at-put m.files fd (some file) j)),
      record {
        short = length-put m.files fd cap (some file) small v.short;
        taken = λ j. ground (arith, file_at-put m.files fd (some file) j, frees j, v.taken j);
      },
    )
  ]

  -- On a valid table `copy_fd_to` with an open descriptor, and a new one that the bitmap has, puts
  -- the file at the new one, in place of what was there, and leaves the others; the new descriptor
  -- is then not free.
  pub copy_fd_to_lem :
      (m : FdManager B F) (old_fd new_fd : ℕ) (file : F)
      → IsValid law m
      → get_file bits m old_fd ≡ ok file
      → new_fd < cap
      → (m' : FdManager B F) × (copy_fd_to bits m old_fd new_fd ≡ some (true, m'))
        × ((j : ℕ) → get_file bits m' j ≡ (if j == new_fd then ok file else get_file bits m j))
        × (law.free m'.fd_allocator new_fd ≡ false)
        × IsValid law m'
  unfolding copy_fd_to get_file
  copy_fd_to_lem m old_fd new_fd file v e h =
      let (got, b, done, _, frees) = exact law m.fd_allocator new_fd h in
      (
        record m {
          files =
              set (if leb (length m.files) new_fd then resize m.files (new_fd + 1) else m.files)
                new_fd (some file);
          fd_allocator = b;
        },
        rw (e, done, copy_fd_to) refl,
        (λ j. ground (arith, file_at-put m.files new_fd (some file) j)),
        ground (arith, frees new_fd),
        record {
          short = length-put m.files new_fd cap (some file) h v.short;
          taken = λ j. ground (arith, file_at-put m.files new_fd (some file) j, frees j, v.taken j);
        },
      )

  -- On a valid table `remove_file` with an open descriptor returns its file, closes it and no other,
  -- and the descriptor is free.
  pub remove_file_lem :
      (m : FdManager B F) (fd : ℕ) (file : F)
      → IsValid law m
      → get_file bits m fd ≡ ok file
      → (m' : FdManager B F) × (remove_file bits m fd ≡ some (ok file, m'))
        × ((j : ℕ)
            → get_file bits m' j
              ≡ (if j == fd then err OsError.fd_not_found else get_file bits m j))
        × ((j : ℕ)
            → law.free m'.fd_allocator j ≡ (if j == fd then true else law.free m.fd_allocator j))
        × IsValid law m'
  unfolding remove_file get_file
  remove_file_lem m fd file v e = elim (Option-cases (file_at m.files fd)) [
    | inl closed ↦ absurd (ground (arith, e, closed))
    | inr (f, there) ↦
        let same : ok f ≡ ok file = ground (arith, e, there) in
        let len = file_at-length m.files fd f there in
        let (b, done, frees) =
          law.dealloc_lem m.fd_allocator fd (omega (arith, v.short, len))
            (open-taken m fd f v there) in
        (
          record m { files = set m.files fd none; fd_allocator = b },
          rw (there, done, remove_file)
              (ap (λ r. some (r, record m { files = set m.files fd none; fd_allocator = b })) same),
          (λ j. ground (arith, file_at-set m.files fd none j len)),
          frees,
          record {
            short = omega (arith, v.short, length-set m.files fd none);
            taken = λ j. ground (arith, file_at-set m.files fd none j len, frees j, v.taken j);
          },
        )
  ]

  -- `close_cloexec_files` closes the files with the flag and no other, and frees no descriptor: what
  -- it closes stays taken in the bitmap.
  pub close_cloexec_files_lem :
      (m : FdManager B F) (cloexec : F → Bool)
      → IsValid law m
      → ((j : ℕ)
          → get_file bits (close_cloexec_files cloexec m) j ≡ elim (get_file bits m j) [
            | err e ↦ err e
            | ok file ↦ if cloexec file then err OsError.fd_not_found else ok file
          ])
        × ((j : ℕ)
            → law.free (close_cloexec_files cloexec m).fd_allocator j ≡ law.free m.fd_allocator j)
        × IsValid law (close_cloexec_files cloexec m)
  unfolding close_cloexec_files get_file
  close_cloexec_files_lem m cloexec v = (
    (λ j. elim (Option-cases (file_at m.files j)) [
      | inl closed ↦ ground (arith, file_at-close_cloexec cloexec m.files j, closed)
      | inr (file, there) ↦ ground (arith, file_at-close_cloexec cloexec m.files j, there)
    ]),
    (λ j. refl),
    record {
      short = omega (arith, v.short, length-close_cloexec cloexec m.files);
      taken = λ j. ground (arith, file_at-close_cloexec cloexec m.files j, v.taken j);
    },
  )
