-- ===== src/Fd/Table.antt =====
-- The table of files, as a function of the descriptor.
use maturin.Prelude.{
  ℕ, zero, suc, ◌+◌, ◌-◌, ◌<◌, ◌≤◌, ◌≡◌, Bool, leb, ◌==◌, if◌then◌else◌, length, set, replicate,
  length-append, refl, ap, Option, none, some, List, [], ◌∷◌, ◌++◌, arith,
}
use maturin.Fd.{file_at, resize, close_cloexec}

length-replicate : (F : Type 0) (n : ℕ) → length (replicate {A = Option F} n none) ≡ n
length-replicate F zero = refl
length-replicate F (suc n) = ap suc (length-replicate F n)

module _ {F : Type 0} where
  file_at-replicate : (n fd : ℕ) → file_at (replicate {A = Option F} n none) fd ≡ none
  file_at-replicate zero fd = refl
  file_at-replicate (suc n) zero = refl
  file_at-replicate (suc n) (suc fd) = file_at-replicate n fd

  file_at-append :
      (files : List (Option F)) (n fd : ℕ)
      → file_at (files ++ replicate n none) fd ≡ file_at files fd
  file_at-append [] n fd = file_at-replicate n fd
  file_at-append (file ∷ files) n zero = refl
  file_at-append (file ∷ files) n (suc fd) = file_at-append files n fd

  pub file_at-set :
      (files : List (Option F)) (fd : ℕ) (file : Option F) (j : ℕ)
      → fd < length files
      → file_at (set files fd file) j ≡ (if j == fd then file else file_at files j)
  file_at-set [] fd file j h = absurd (omega arith)
  file_at-set (f ∷ files) zero file zero h = ground arith
  file_at-set (f ∷ files) zero file (suc j) h = ground arith
  file_at-set (f ∷ files) (suc fd) file zero h = ground arith
  file_at-set (f ∷ files) (suc fd) file (suc j) h =
      ground (arith, file_at-set files fd file j (omega arith))

  pub length-set :
      (files : List (Option F)) (fd : ℕ) (file : Option F)
      → length (set files fd file) ≡ length files
  length-set [] fd file = refl
  length-set (f ∷ files) zero file = refl
  length-set (f ∷ files) (suc fd) file = ap suc (length-set files fd file)

  -- A file put in a table that is made long enough.
  pub file_at-put :
      (files : List (Option F)) (fd : ℕ) (file : Option F) (j : ℕ)
      → file_at (set (if leb (length files) fd then resize files (fd + 1) else files) fd file) j
        ≡ (if j == fd then file else file_at files j)
  unfolding resize
  file_at-put files fd file j =
      let grown = files ++ replicate (fd + 1 - length files) none in
      let len : length grown ≡ length files + (fd + 1 - length files) = omega (
        arith,
        length-append files (replicate (fd + 1 - length files) none),
        length-replicate F (fd + 1 - length files),
      ) in
      ground (
        arith,
        len,
        file_at-set grown fd file j,
        file_at-set files fd file j,
        file_at-append files (fd + 1 - length files) j,
      )

  pub length-put :
      (files : List (Option F)) (fd n : ℕ) (file : Option F)
      → fd < n
      → length files ≤ n
      → length (set (if leb (length files) fd then resize files (fd + 1) else files) fd file) ≤ n
  unfolding resize
  length-put files fd n file h k =
      let grown = files ++ replicate (fd + 1 - length files) none in
      let len : length grown ≡ length files + (fd + 1 - length files) = omega (
        arith,
        length-append files (replicate (fd + 1 - length files) none),
        length-replicate F (fd + 1 - length files),
      ) in
      ground (arith, len, length-set grown fd file, length-set files fd file)

  pub file_at-length :
      (files : List (Option F)) (fd : ℕ) (file : F)
      → file_at files fd ≡ some file
      → fd < length files
  file_at-length [] fd file e = ground arith
  file_at-length (f ∷ files) zero file e = omega arith
  file_at-length (f ∷ files) (suc fd) file e = omega (arith, file_at-length files fd file e)

  pub file_at-close_cloexec :
      (cloexec : F → Bool) (files : List (Option F)) (fd : ℕ)
      → file_at (close_cloexec cloexec files) fd ≡ elim (file_at files fd) [
        | none ↦ none
        | some file ↦ if cloexec file then none else some file
      ]
  file_at-close_cloexec cloexec [] fd = refl
  file_at-close_cloexec cloexec (none ∷ files) zero = refl
  file_at-close_cloexec cloexec (some file ∷ files) zero = refl
  file_at-close_cloexec cloexec (none ∷ files) (suc fd) = file_at-close_cloexec cloexec files fd
  file_at-close_cloexec cloexec (some file ∷ files) (suc fd) =
      file_at-close_cloexec cloexec files fd

  pub length-close_cloexec :
      (cloexec : F → Bool) (files : List (Option F))
      → length (close_cloexec cloexec files) ≡ length files
  length-close_cloexec cloexec [] = refl
  length-close_cloexec cloexec (none ∷ files) = ap suc (length-close_cloexec cloexec files)
  length-close_cloexec cloexec (some file ∷ files) = ap suc (length-close_cloexec cloexec files)
