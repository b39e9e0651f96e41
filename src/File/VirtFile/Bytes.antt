-- ===== src/File/VirtFile/Bytes.antt =====
-- A list of page frames seen as one sequence of bytes.
use maturin.Prelude.{
  ℕ, zero, suc, ◌+◌, ◌-◌, ◌*◌, ◌≤◌, ◌<◌, ◌≡◌, ltb, leb, ◌&&◌, if◌then◌else◌, usize_mod, length,
  get_or, take, drop, refl, ap, ap₂, ◌∙◌, List, [], ◌∷◌, ◌++◌, arith,
}
use Prim.Native.Nat.add
use native.Mathlib.Nat.{add-zero}
use maturin.File.VirtFile.{VirtFileInner, page_size, Frame, write_at}

-- Every frame holds a page of bytes.
abbrev pub Full : List Frame → Type 0
Full [] = Unit {0}
Full (page ∷ pages) = (length page ≡ page_size) × Full pages

-- The byte at the position `q`.
abbrev pub byte_in : List Frame → ℕ → ℕ
byte_in [] q = 0
byte_in (page ∷ pages) q =
    let rest = byte_in pages (q - page_size) in if ltb q page_size then get_or page q 0 else rest

-- The values of `g` at `n` positions from `i` on.
abbrev pub range_of {ℓ} : {A : Type ℓ} → (ℕ → A) → ℕ → ℕ → List A
range_of g i zero = []
range_of g i (suc n) = g i ∷ range_of g (suc i) n

pub byte_in-write_at :
    (page : Frame) (off : ℕ) (src : List ℕ) (i : ℕ)
    → off + length src ≤ length page
    → get_or (write_at page off src) i 0
      ≡ (if leb off i && ltb i (off + length src) then get_or src (i - off) 0 else get_or page i 0)
byte_in-write_at [] zero [] i h = ground arith
byte_in-write_at [] zero (b ∷ src) i h = absurd (omega arith)
byte_in-write_at [] (suc off) src i h = absurd (omega arith)
byte_in-write_at (x ∷ xs) zero [] i h = ground arith
byte_in-write_at (x ∷ xs) zero (b ∷ src) zero h = ground arith
byte_in-write_at (x ∷ xs) zero (b ∷ src) (suc i) h = ground (arith, byte_in-write_at xs zero src i)
byte_in-write_at (x ∷ xs) (suc off) src zero h = ground arith
byte_in-write_at (x ∷ xs) (suc off) src (suc i) h = ground (arith, byte_in-write_at xs off src i)

pub length-write_at :
    (page : Frame) (off : ℕ) (src : List ℕ) → length (write_at page off src) ≡ length page
length-write_at [] off src = refl
length-write_at (x ∷ xs) zero [] = refl
length-write_at (x ∷ xs) zero (b ∷ src) = ap suc (length-write_at xs zero src)
length-write_at (x ∷ xs) (suc off) src = ap suc (length-write_at xs off src)

module _ {ℓ} {A : Type ℓ} where
  pub range_of_add :
      (g : ℕ → A) (i m n : ℕ) → range_of g i (m + n) ≡ range_of g i m ++ range_of g (i + m) n
  range_of_add g i zero n = rw (add.zero n, add-zero i) refl
  range_of_add g i (suc m) n = rw (add.suc m n) (
      ap (λ r. g i ∷ r)
        (range_of_add g (suc i) m n
          ∙ ap (λ j. range_of g (suc i) m ++ range_of g j n) (omega arith)))

  pub range_of-ext :
      (g h : ℕ → A) (i n : ℕ)
      → ((q : ℕ) → i ≤ q → q < i + n → g q ≡ h q)
      → range_of g i n ≡ range_of h i n
  range_of-ext g h i zero e = refl
  range_of-ext g h i (suc n) e =
      ap₂ ◌∷◌ (e i (omega arith) (omega arith))
        (range_of-ext g h (suc i) n (λ q a b. e q (omega arith) (omega arith)))

  pub range_of_shift :
      (g : ℕ → A) (i k n : ℕ) → range_of (λ q. g (q + k)) i n ≡ range_of g (i + k) n
  range_of_shift g i k zero = refl
  range_of_shift g i k (suc n) =
      ap (λ r. g (i + k) ∷ r)
        (range_of_shift g (suc i) k n ∙ ap (λ j. range_of g j n) (omega arith))

  pub range_of-suc : (g : ℕ → A) (i n : ℕ) → range_of (λ q. g (suc q)) i n ≡ range_of g (suc i) n
  range_of-suc g i zero = refl
  range_of-suc g i (suc n) = ap (λ r. g (suc i) ∷ r) (range_of-suc g (suc i) n)

  pub length-range_of : (g : ℕ → A) (i n : ℕ) → length (range_of g i n) ≡ n
  length-range_of g i zero = refl
  length-range_of g i (suc n) = ap suc (length-range_of g (suc i) n)

  pub take-drop_range :
      (d : A) (off n : ℕ) (xs : List A)
      → off + n ≤ length xs
      → take n (drop off xs) ≡ range_of (λ q. get_or xs q d) off n
  take-drop_range d zero zero xs h = refl
  take-drop_range d zero (suc n) [] h = absurd (omega arith)
  take-drop_range d zero (suc n) (x ∷ xs) h =
      ap (λ r. x ∷ r)
        (take-drop_range d zero n xs (omega arith) ∙ range_of-suc (λ q. get_or (x ∷ xs) q d) zero n)
  take-drop_range d (suc off) n [] h = absurd (omega arith)
  take-drop_range d (suc off) n (x ∷ xs) h =
      take-drop_range d off n xs (omega arith) ∙ range_of-suc (λ q. get_or (x ∷ xs) q d) off n

  pub take-length : (xs : List A) (n : ℕ) → length xs ≤ n → take n xs ≡ xs
  take-length [] zero h = refl
  take-length [] (suc n) h = refl
  take-length (x ∷ xs) zero h = absurd (omega arith)
  take-length (x ∷ xs) (suc n) h = ap (λ r. x ∷ r) (take-length xs n (omega arith))

  pub take-range_of : (g : ℕ → A) (i k n : ℕ) → k ≤ n → take k (range_of g i n) ≡ range_of g i k
  take-range_of g i zero n h = refl
  take-range_of g i (suc k) zero h = absurd (omega arith)
  take-range_of g i (suc k) (suc n) h =
      ap (λ r. g i ∷ r) (take-range_of g (suc i) k n (omega arith))

  pub drop-range_of :
      (g : ℕ → A) (i k n : ℕ) → k ≤ n → drop k (range_of g i n) ≡ range_of g (i + k) (n - k)
  drop-range_of g i zero n h = ap₂ (range_of g) (omega arith) (omega arith)
  drop-range_of g i (suc k) zero h = absurd (omega arith)
  drop-range_of g i (suc k) (suc n) h =
      drop-range_of g (suc i) k n (omega arith) ∙ ap₂ (range_of g) (omega arith) (omega arith)

-- Past the first page stand the bytes of the others.
pub byte_in-drop :
    (i q : ℕ) (pages : List Frame) → byte_in (drop i pages) q ≡ byte_in pages (q + i * page_size)
byte_in-drop zero q pages = ap (byte_in pages) (omega arith)
byte_in-drop (suc i) q [] = refl
byte_in-drop (suc i) q (page ∷ pages) =
    ground (arith, byte_in-drop i q pages, ap (byte_in pages) (lower i q))
  where
    lower : (i q : ℕ) → q + suc i * page_size - page_size ≡ q + i * page_size
    lower i q = omega arith

pub Full-drop : (i : ℕ) (pages : List Frame) → Full pages → Full (drop i pages)
Full-drop zero pages f = f
Full-drop (suc i) [] f = tt
Full-drop (suc i) (page ∷ pages) f = Full-drop i pages f.1

-- The frames hold the file, and its size is a `usize`.
pub record IsValid (f : VirtFileInner) : Type 0 where
  pub full : Full f.frames
  pub fits : f.size ≤ page_size * length f.frames
  pub small : f.size < usize_mod
