-- ===== src/Fd/Copies.antt =====
-- `copy_all` and `modify_limit`.
use maturin.Prelude.{
  ℕ, zero, suc, ◌+◌, ◌-◌, ◌≤◌, ◌<◌, ◌≡◌, inl, inr, min, true, false, not, leb, ltb, ◌==◌, ◌&&◌,
  if◌then◌else◌, length, refl, ap, ◌∙◌, Option, none, some, Bool-cases, List, [], ◌∷◌, arith,
}
use maturin.Fd.{
  BitAlloc, IsLawful, cap, fd_limit_hard, FdManager, file_at, get_file, fd_allocator_new,
  alloc_exact, alloc_all, copy_all, modify_limit,
}
use maturin.Fd.Manager.{is_some, IsValid}

file_at-cons :
    {F : Type 0} (file : Option F) (files : List (Option F)) (fd j : ℕ)
    → file_at (file ∷ files) (j - fd) ≡ (if leb j fd then file else file_at files (j - suc fd))
file_at-cons file files fd j = at (j - fd) ∙ ground (arith, ap (file_at files) less)
  where
    at : (i : ℕ) → file_at (file ∷ files) i ≡ (if i == 0 then file else file_at files (i - 1))
    at zero = ground arith
    at (suc i) = ground (arith, ap (file_at files) (pred i))
      where
        pred : (i : ℕ) → i ≡ suc i - 1
        pred i = omega arith

    less : j - fd - 1 ≡ j - suc fd
    less = omega arith

module _ {B F : Type 0} {bits : BitAlloc B} (law : IsLawful bits) where
  -- The bits of the descriptors with a file, from `fd` on, are taken, and the others are left.
  alloc_all_lem :
      (b : B) (fd : ℕ) (files : List (Option F))
      → fd + length files ≤ cap
      → (b' : B) × (alloc_all bits b fd files ≡ some b')
        × ((j : ℕ)
            → law.free b' j
              ≡ (if leb fd j && is_some (file_at files (j - fd)) then false else law.free b j))
  unfolding alloc_all alloc_exact
  alloc_all_lem b fd [] h = (b, refl, λ j. ground arith)
  alloc_all_lem b fd (none ∷ files) h =
      let (b', e, frees) = alloc_all_lem b (suc fd) files (omega arith) in
      (b', e, λ j. ground (arith, frees j, file_at-cons none files fd j))
  alloc_all_lem b fd (some file ∷ files) h =
      let (b1, e1, frees1) = law.remove_lem b fd (fd + 1) (omega arith) (omega arith) in
      let (b', e, frees) = alloc_all_lem b1 (suc fd) files (omega arith) in
      (
        b',
        ground (arith, e1, e),
        λ j. ground (arith, frees j, frees1 j, file_at-cons (some file) files fd j),
      )

  -- `copy_all` of a valid table gives every descriptor the same file, and takes in the bitmap
  -- exactly those that have one: what the original had taken without a file is free in the copy.
  pub copy_all_lem :
      (m : FdManager B F)
      → IsValid law m
      → 0 < m.limit
      → m.limit ≤ cap
      → (m' : FdManager B F) × (copy_all bits m ≡ some m')
        × ((j : ℕ) → get_file bits m' j ≡ get_file bits m j)
        × ((j : ℕ)
            → law.free m'.fd_allocator j ≡ (ltb j m.limit && not (is_some (file_at m.files j))))
        × IsValid law m'
  unfolding copy_all fd_allocator_new get_file
  copy_all_lem m v pos le =
      let (b, e, frees) = law.insert_lem bits.default 0 m.limit pos le in
      let (b', e', taken) = alloc_all_lem b 0 m.files (omega (arith, v.short)) in
      (
        record { files = m.files; fd_allocator = b'; limit = m.limit; umask = m.umask },
        rw (e, e', copy_all) refl,
        (λ j. refl),
        (λ j. ground (arith, taken j, frees j, law.default_lem j, from_zero j)),
        record { short = v.short; taken = λ j. ground (arith, taken j, from_zero j) },
      )
    where
      from_zero : (j : ℕ) → file_at m.files (j - 0) ≡ file_at m.files j
      from_zero j = let e : j - 0 ≡ j = omega arith in ap (file_at m.files) e

  -- `modify_limit` on a valid table with no file between the old limit and the new one leaves the
  -- files, sets the limit, at most that of the allocator, and takes or frees the descriptors between.
  pub modify_limit_lem :
      (m : FdManager B F) (new_limit : ℕ)
      → IsValid law m
      → m.limit ≤ cap
      → ((j : ℕ) → m.limit ≤ j → file_at m.files j ≡ none)
      → (m' : FdManager B F) × (modify_limit bits m new_limit ≡ some m')
        × ((j : ℕ) → get_file bits m' j ≡ get_file bits m j)
        × (m'.limit ≡ min new_limit fd_limit_hard)
        × ((j : ℕ)
            → law.free m'.fd_allocator j ≡ (
                if leb m.limit j && ltb j (min new_limit fd_limit_hard)
                then true
                else if leb (min new_limit fd_limit_hard) j && ltb j m.limit
                then false
                else law.free m.fd_allocator j))
        × IsValid law m'
  unfolding modify_limit get_file
  modify_limit_lem m new_limit v le closed =
      let limit = min new_limit fd_limit_hard in
      elim (Bool-cases (ltb limit m.limit)) [
        | inl lower ↦
            let (b, e, frees) = law.remove_lem m.fd_allocator limit m.limit (ground arith) le in
            (
              record m { fd_allocator = b; limit = limit },
              rw (lower, e, modify_limit) refl,
              (λ j. refl),
              refl,
              (λ j. ground (arith, frees j)),
              record { short = v.short; taken = λ j. ground (arith, frees j, v.taken j) },
            )
        | inr not_lower ↦ elim (Bool-cases (ltb m.limit limit)) [
          | inl higher ↦
              let (b, e, frees) =
                law.insert_lem m.fd_allocator m.limit limit (ground arith) (omega arith) in
              (
                record m { fd_allocator = b; limit = limit },
                rw (not_lower, higher, e, modify_limit) refl,
                (λ j. refl),
                refl,
                (λ j. ground (arith, frees j)),
                record {
                  short = v.short;
                  taken = λ j. ground (arith, frees j, v.taken j, closed j);
                },
              )
          | inr same ↦ (
            m,
            rw (not_lower, same, modify_limit) refl,
            (λ j. refl),
            ground arith,
            (λ j. ground arith),
            v,
          )
        ]
      ]
