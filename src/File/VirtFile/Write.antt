-- ===== src/File/VirtFile/Write.antt =====
-- `write_inner` puts its buffer at the position of the file, and keeps every other byte.
use maturin.Prelude.{
  ℕ, zero, suc, ◌+◌, ◌-◌, ◌*◌, ◌≤◌, ◌<◌, ◌≡◌, ltb, leb, ◌&&◌, if◌then◌else◌, length, get_or, take,
  drop, inl, inr, Bool-cases, refl, ap, ◌∙◌, leb→le, leb-lt, length-take, length-drop, get_or-take,
  get_or-drop, some, List, [], ◌∷◌, ◌++◌, arith,
}
use maturin.File.VirtFile.{page_size, Frame, write_at, take_frames, write_pages, write_from}
use maturin.File.VirtFile.Bytes.{Full, byte_in, byte_in-write_at, length-write_at}

pub Full-append : (xs ys : List Frame) → Full xs → Full ys → Full (xs ++ ys)
Full-append [] ys f g = g
Full-append (x ∷ xs) ys f g = (f.0, Full-append xs ys f.1 g)

pub Full-take : (n : ℕ) (xs : List Frame) → Full xs → Full (take n xs)
Full-take zero xs f = tt
Full-take (suc n) [] f = tt
Full-take (suc n) (x ∷ xs) f = (f.0, Full-take n xs f.1)

-- The frames that a file has hold the same bytes when more are added behind them.
pub byte_in-append :
    (xs ys : List Frame) (q : ℕ) → q < page_size * length xs → byte_in (xs ++ ys) q ≡ byte_in xs q
byte_in-append [] ys q h = absurd (omega arith)
byte_in-append (x ∷ xs) ys q h = ground (arith, byte_in-append xs ys (q - page_size))

-- The pages before `i` and then others.
pub byte_in-take :
    (i q : ℕ) (pages ys : List Frame)
    → i ≤ length pages
    → byte_in (take i pages ++ ys) q
      ≡ (if ltb q (i * page_size) then byte_in pages q else byte_in ys (q - i * page_size))
byte_in-take zero q pages ys h = ground (arith, ap (byte_in ys) (sub_zero q))
  where
    sub_zero : (q : ℕ) → q - 0 * page_size ≡ q
    sub_zero q = omega arith
byte_in-take (suc i) q [] ys h = absurd (omega arith)
byte_in-take (suc i) q (page ∷ pages) ys h =
    ground (arith, byte_in-take i (q - page_size) pages ys, ap (byte_in ys) (less i q))
  where
    less : (i q : ℕ) → q - page_size - i * page_size ≡ q - suc i * page_size
    less i q = omega arith

pub take_frames_lem :
    (n : ℕ) (supply : List Frame)
    → n ≤ length supply
    → take_frames n supply ≡ some (take n supply, drop n supply)
unfolding take_frames
take_frames_lem zero supply h = refl
take_frames_lem (suc n) [] h = absurd (omega arith)
take_frames_lem (suc n) (frame ∷ supply) h =
    rw (take_frames_lem n supply (omega arith), take_frames) refl

-- The pages behind the first, written with what is left of the buffer from `buf_pos` on.
record Written (old new' : List Frame) (buf : List ℕ) (buf_pos : ℕ) : Type 0 where
  full : Full new'
  same_length : length new' ≡ length old
  bytes :
      (q : ℕ)
      → byte_in new' q
        ≡ (if ltb (buf_pos + q) (length buf) then get_or buf (buf_pos + q) 0 else byte_in old q)

get_or_past :
    (buf : List ℕ) (buf_pos q : ℕ)
    → page_size ≤ q
    → get_or buf (buf_pos + page_size + (q - page_size)) 0 ≡ get_or buf (buf_pos + q) 0
get_or_past buf buf_pos q h =
    let e : buf_pos + page_size + (q - page_size) ≡ buf_pos + q = omega arith in
    ap (λ j. get_or buf j 0) e

-- A page that is written whole, with pages behind it that are written further on.
whole_page :
    (page src : Frame) (pages new' : List Frame) (buf : List ℕ) (buf_pos : ℕ)
    → length page ≡ page_size
    → length src ≡ page_size
    → buf_pos + page_size ≤ length buf
    → ((i : ℕ) → i < page_size → get_or src i 0 ≡ get_or buf (buf_pos + i) 0)
    → Written pages new' buf (buf_pos + page_size)
    → Written (page ∷ pages) (write_at page 0 src ∷ new') buf buf_pos
whole_page page src pages new' buf buf_pos fp fs le same w = record {
  full = (length-write_at page 0 src ∙ fp, w.full);
  same_length = ap suc w.same_length;
  bytes = λ q. ground (
    arith,
    byte_in-write_at page 0 src q (omega arith),
    same q,
    w.bytes (q - page_size),
    get_or_past buf buf_pos q,
  );
}

-- The last page that is written, with pages behind it that are left alone.
last_page :
    (page src : Frame) (pages : List Frame) (buf : List ℕ) (buf_pos : ℕ)
    → length page ≡ page_size
    → Full pages
    → buf_pos + length src ≡ length buf
    → length src ≤ page_size
    → ((i : ℕ) → get_or src i 0 ≡ get_or buf (buf_pos + i) 0)
    → Written (page ∷ pages) (write_at page 0 src ∷ pages) buf buf_pos
last_page page src pages buf buf_pos fp f e le same = record {
  full = (length-write_at page 0 src ∙ fp, f);
  same_length = refl;
  bytes = λ q. ground (arith, byte_in-write_at page 0 src q (omega arith), same q);
}

write_pages-Written :
    (pages : List Frame) (buf_pos : ℕ) (buf : List ℕ)
    → Full pages
    → buf_pos ≤ length buf
    → length buf ≤ buf_pos + page_size * length pages
    → Written pages (write_pages pages buf_pos buf) buf buf_pos
unfolding write_pages
write_pages-Written [] buf_pos buf f h k = record {
  full = tt;
  same_length = refl;
  bytes = λ q. ground arith;
}
write_pages-Written (page ∷ pages) buf_pos buf f h k =
    elim (Bool-cases (leb (buf_pos + page_size) (length buf))) [
      | inl more ↦
          let le = leb→le (buf_pos + page_size) (length buf) more in
          rw more (
            whole_page page (take page_size (drop buf_pos buf)) pages
              (write_pages pages (buf_pos + page_size) buf) buf buf_pos f.0
              (omega (arith, length-take page_size (drop buf_pos buf), length-drop buf_pos buf)) le
              (λ i b. get_or-take page_size i (drop buf_pos buf) 0 b ∙ get_or-drop buf_pos i buf 0)
              (write_pages-Written pages (buf_pos + page_size) buf f.1 le (omega arith)))
      | inr last ↦
          let lt = leb-lt (buf_pos + page_size) (length buf) last in
          rw last (
            last_page page (drop buf_pos buf) pages buf buf_pos f.0 f.1
              (omega (arith, length-drop buf_pos buf)) (omega (arith, length-drop buf_pos buf))
              (λ i. get_or-drop buf_pos i buf 0))
    ]

-- What `write_from` makes of the first page and those behind it.
pub record WrittenFrom (old new' : List Frame) (off : ℕ) (buf : List ℕ) : Type 0 where
  pub full : Full new'
  pub same_length : length new' ≡ length old
  pub bytes :
      (q : ℕ)
      → byte_in new' q
        ≡ (if leb off q && ltb q (off + length buf) then get_or buf (q - off) 0 else byte_in old q)

first_page :
    (page src : Frame) (pages new' : List Frame) (off : ℕ) (buf : List ℕ)
    → length page ≡ page_size
    → off + length src ≡ page_size
    → page_size ≤ off + length buf
    → ((i : ℕ) → i < length src → get_or src i 0 ≡ get_or buf i 0)
    → Written pages new' buf (page_size - off)
    → WrittenFrom (page ∷ pages) (write_at page off src ∷ new') off buf
first_page page src pages new' off buf fp fs le same w = record {
  full = (length-write_at page off src ∙ fp, w.full);
  same_length = ap suc w.same_length;
  bytes = λ q. ground (
    arith,
    byte_in-write_at page off src q (omega arith),
    same (q - off),
    w.bytes (q - page_size),
    behind q,
  );
}
  where
    behind :
        (q : ℕ)
        → page_size ≤ q
        → get_or buf (page_size - off + (q - page_size)) 0 ≡ get_or buf (q - off) 0
    behind q h =
        let e : page_size - off + (q - page_size) ≡ q - off = omega arith in
        ap (λ j. get_or buf j 0) e

pub write_from-Written :
    (page : Frame) (rest : List Frame) (off : ℕ) (buf : List ℕ)
    → Full (page ∷ rest)
    → off < page_size
    → off + length buf ≤ page_size * length (page ∷ rest)
    → WrittenFrom (page ∷ rest) (write_from page rest off buf) off buf
unfolding write_from
write_from-Written page rest off buf f h k = elim (Bool-cases (leb (off + length buf) page_size)) [
  | inl one ↦ rw one (record {
    full = (length-write_at page off buf ∙ f.0, f.1);
    same_length = refl;
    bytes = λ q. ground (arith, byte_in-write_at page off buf q (omega (arith, leb→le _ _ one)));
  })
  | inr many ↦
      let lt = leb-lt (off + length buf) page_size many in
      let src = take (page_size - off) buf in
      let n : length src ≡ page_size - off = omega (arith, length-take (page_size - off) buf) in
      rw many (
        first_page page src rest (write_pages rest (page_size - off) buf) off buf f.0
          (omega (arith, n)) (omega arith)
          (λ i b. get_or-take (page_size - off) i buf 0 (omega (arith, n)))
          (write_pages-Written rest (page_size - off) buf f.1 (omega arith) (omega arith)))
]
