-- ===== src/File/VirtFile/Read.antt =====
-- `read_inner` returns the bytes of the file from its position on.
use maturin.Prelude.{
  ℕ, zero, suc, ◌+◌, ◌-◌, ◌*◌, ◌/◌, ◌%◌, ◌≤◌, ◌<◌, ◌≡◌, min, leb, usize_mod, length, get_or, take,
  drop, inl, inr, Bool-cases, refl, sym, subst, ap, ap₂, ◌∙◌, leb→le, leb-lt, length-take-drop,
  drop-cons, some, List, [], ◌∷◌, ◌++◌, arith,
}
use native.Mathlib.Nat.{add-zero}
use maturin.File.VirtFile.{
  page_size, Frame, VirtFileInner, addr_to_page_id, page_offset, read_pages, read_from, read_some,
  read_inner,
}
use maturin.File.VirtFile.Bytes.{
  Full, Full-drop, IsValid, byte_in, range_of, range_of_add, range_of-ext, range_of_shift,
  take-drop_range, take-length, byte_in-drop,
}

-- The bytes of the first page.
first_page :
    (page : Frame) (rest : List Frame) (off n : ℕ)
    → length page ≡ page_size
    → off + n ≤ page_size
    → take n (drop off page) ≡ range_of (byte_in (page ∷ rest)) off n
first_page page rest off n full h =
    take-drop_range 0 off n page (omega arith)
    ∙ range_of-ext (λ q. get_or page q 0) (byte_in (page ∷ rest)) off n (λ q a b. ground arith)

-- The bytes behind the first page.
later_pages :
    (page : Frame) (rest : List Frame) (n : ℕ)
    → range_of (byte_in (page ∷ rest)) page_size n ≡ range_of (byte_in rest) 0 n
later_pages page rest n =
    sym (range_of_shift (byte_in (page ∷ rest)) 0 page_size n)
    ∙ range_of-ext (λ q. byte_in (page ∷ rest) (q + page_size)) (byte_in rest) 0 n
        λ q a b. ground (arith, ap (byte_in rest) (back q))
  where
    back : (q : ℕ) → q + page_size - page_size ≡ q
    back q = omega arith

-- The first page from `off` on, with the bytes behind it.
join_page :
    (page : Frame) (rest : List Frame) (off n : ℕ)
    → length page ≡ page_size
    → off ≤ page_size
    → drop off page ++ range_of (byte_in rest) 0 n
      ≡ range_of (byte_in (page ∷ rest)) off (page_size - off + n)
join_page page rest off n full h =
    let e : off + (page_size - off) ≡ page_size = omega arith in
    let g = byte_in (page ∷ rest) in
    sym (
      range_of_add g off (page_size - off) n
      ∙ ap₂ ◌++◌
          (sym (first_page page rest off (page_size - off) full (omega arith))
            ∙ take-length (drop off page) (page_size - off)
                (omega (arith, length-take-drop off page (omega arith))))
          (ap (λ k. range_of g k n) e ∙ later_pages page rest n))

read_pages_lem :
    (pages : List Frame) (buf_pos read_len : ℕ)
    → Full pages
    → buf_pos ≤ read_len
    → read_len ≤ buf_pos + page_size * length pages
    → read_pages pages buf_pos read_len ≡ range_of (byte_in pages) 0 (read_len - buf_pos)
unfolding read_pages
read_pages_lem [] buf_pos read_len f h k =
    let e : zero ≡ read_len - buf_pos = omega arith in rw (← e) refl
read_pages_lem (page ∷ pages) buf_pos read_len f h k =
    elim (Bool-cases (leb (buf_pos + page_size) read_len)) [
      | inl more ↦ rw more (
          ap (◌++◌ page) (
            read_pages_lem pages (buf_pos + page_size) read_len f.1 (leb→le _ _ more) (omega arith))
          ∙ join_page page pages 0 (read_len - (buf_pos + page_size)) f.0 (omega arith)
          ∙ ap (range_of (byte_in (page ∷ pages)) 0) (omega (arith, leb→le _ _ more)))
      | inr last ↦ rw last (
          first_page page pages 0 (read_len - buf_pos) f.0
            (omega (arith, leb-lt (buf_pos + page_size) read_len last)))
    ]

read_from_lem :
    (page : Frame) (rest : List Frame) (off read_len : ℕ)
    → Full (page ∷ rest)
    → off < page_size
    → off + read_len ≤ page_size * length (page ∷ rest)
    → read_from page rest off read_len ≡ range_of (byte_in (page ∷ rest)) off read_len
unfolding read_from
read_from_lem page rest off read_len f h k = elim (Bool-cases (leb (off + read_len) page_size)) [
  | inl one ↦ rw one (first_page page rest off read_len f.0 (leb→le _ _ one))
  | inr many ↦
      let long = leb-lt (off + read_len) page_size many in
      rw many (
        ap (◌++◌ (drop off page))
          (read_pages_lem rest (page_size - off) read_len f.1 (omega arith) (omega arith))
        ∙ join_page page rest off (read_len - (page_size - off)) f.0 (omega arith)
        ∙ ap (range_of (byte_in (page ∷ rest)) off) (omega arith))
]

-- The bytes from the page of a position on are the file's from that position on.
pages_at :
    (pages : List Frame) (pos n : ℕ)
    → range_of (byte_in (drop (addr_to_page_id pos) pages)) (page_offset pos) n
      ≡ range_of (byte_in pages) pos n
unfolding addr_to_page_id page_offset
pages_at pages pos n =
    range_of-ext (byte_in (drop (pos / page_size) pages))
      (λ q. byte_in pages (q + pos / page_size * page_size)) (pos % page_size) n
      (λ q a b. byte_in-drop (pos / page_size) q pages)
    ∙ range_of_shift (byte_in pages) (pos % page_size) (pos / page_size * page_size) n
    ∙ ap (λ i. range_of (byte_in pages) i n) (omega arith)

page_offset-lt : (pos : ℕ) → page_offset pos < page_size
unfolding page_offset
page_offset-lt pos = omega arith

bound :
    (f : VirtFileInner) (n : ℕ)
    → IsValid f
    → f.pos ≤ f.size
    → suc n ≤ f.size - f.pos
    → addr_to_page_id f.pos < length f.frames
unfolding addr_to_page_id
bound f n v h k = omega (arith, v.fits)

within :
    (f : VirtFileInner) (n r : ℕ)
    → IsValid f
    → f.pos ≤ f.size
    → suc n ≤ f.size - f.pos
    → suc r + addr_to_page_id f.pos ≡ length f.frames
    → page_offset f.pos + suc n ≤ page_size * suc r
unfolding addr_to_page_id page_offset
within f n r v h k e = omega (arith, v.fits)

read_some_lem :
    (f : VirtFileInner) (n : ℕ)
    → IsValid f
    → f.pos ≤ f.size
    → n ≤ f.size - f.pos
    → read_some f n ≡ some (range_of (byte_in f.frames) f.pos n, record f { pos = f.pos + n })
unfolding read_some
read_some_lem f zero v h k = ground (arith, add-zero f.pos)
read_some_lem f (suc n) v h k =
    let (page, rest, e, len) = drop-cons (addr_to_page_id f.pos) f.frames (bound f n v h k) in
    ground (
      arith,
      e,
      pages_at f.frames f.pos (suc n),
      read_from_lem page rest (page_offset f.pos) (suc n)
          (subst Full e (Full-drop (addr_to_page_id f.pos) f.frames v.full)) (page_offset-lt f.pos)
          (within f n (length rest) v h k len),
    )

-- `read_inner` on a valid file whose position is not past the end returns as many bytes as the
-- buffer and the rest of the file allow, in order, and moves the position behind them.
pub read_inner_lem :
    (f : VirtFileInner) (len : ℕ)
    → IsValid f
    → f.pos ≤ f.size
    → read_inner f len
      ≡ some (
        range_of (byte_in f.frames) f.pos (min len (f.size - f.pos)),
        record f { pos = f.pos + min len (f.size - f.pos) },
      )
unfolding read_inner
read_inner_lem f len v h =
    let e : (usize_mod + f.size - f.pos) % usize_mod ≡ f.size - f.pos = omega (arith, v.small) in
    rw e (read_some_lem f (min len (f.size - f.pos)) v h (omega arith))
