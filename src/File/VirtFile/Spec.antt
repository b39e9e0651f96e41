-- ===== src/File/VirtFile/Spec.antt =====
-- `write_inner` and the reads and writes at an offset, as operations on the bytes of the file.
use maturin.Prelude.{
  append_nil, ℕ, suc, ◌+◌, ◌-◌, ◌*◌, ◌≤◌, ◌<◌, ◌≡◌, max, ltb, leb, ◌==◌, ◌&&◌, if◌then◌else◌,
  usize_mod, length, get_or, take, drop, refl, sym, subst, ap, ◌∙◌, length-append, length-take,
  take-append-drop, drop-cons, some, List, [], ◌∷◌, ◌++◌, arith,
}
use native.Mathlib.Nat.{add-zero}
use maturin.File.VirtFile.{
  page_size, Frame, VirtFileInner, addr_to_page_id, page_offset, write_from, write_inner,
}
use maturin.File.VirtFile.Bytes.{Full, Full-drop, IsValid, byte_in, byte_in-drop}
use maturin.File.VirtFile.Write.{
  Full-append, Full-take, byte_in-take, take_frames_lem, WrittenFrom, write_from-Written,
}

-- The frames of a write and what is left of the supply; the bytes that the buffer does not cover
-- are those of the old frames and, behind these, of the fresh ones.
pub record IsWritten (old : VirtFileInner) (buf : List ℕ) (fresh : List Frame) (f : VirtFileInner)
    : Type 0 where
  pub valid : IsValid f
  pub moved : f.pos ≡ old.pos + length buf
  pub grown : f.size ≡ (if length buf == 0 then old.size else max old.size (old.pos + length buf))
  pub pushed : length f.frames ≡ length old.frames + length fresh
  pub bytes :
      (q : ℕ)
      → byte_in f.frames q ≡ (
          if leb old.pos q && ltb q (old.pos + length buf)
          then get_or buf (q - old.pos) 0
          else byte_in (old.frames ++ fresh) q)

-- The number of pages that a file needs for its bytes up to `last`.
pages_needed :
    (last n supply : ℕ)
    → suc last ≤ page_size * (n + supply)
    → (addr_to_page_id last + 1 - n ≤ supply)
      × (addr_to_page_id last < n + (addr_to_page_id last + 1 - n))
unfolding addr_to_page_id
pages_needed last n supply h = (omega arith, omega arith)

addr_to_page_id_mono : (a b : ℕ) → a ≤ b → addr_to_page_id a ≤ addr_to_page_id b
unfolding addr_to_page_id
addr_to_page_id_mono a b h = omega arith

page_split :
    (a : ℕ) → (addr_to_page_id a * page_size + page_offset a ≡ a) × (page_offset a < page_size)
unfolding addr_to_page_id page_offset
page_split a = (omega arith, omega arith)

page_fits :
    (a n k : ℕ)
    → addr_to_page_id (a + n) < k + addr_to_page_id a
    → page_offset a + suc n ≤ page_size * k
unfolding addr_to_page_id page_offset
page_fits a n k h = omega arith

last_fits : (a k : ℕ) → addr_to_page_id a < k → suc a ≤ page_size * k
unfolding addr_to_page_id
last_fits a k h = omega arith

-- The frames that the write leaves, from what `write_from` makes of those from the first page on.
written_bytes :
    (frames new' : List Frame) (page : Frame) (rest : List Frame) (pos q : ℕ) (buf : List ℕ)
    → addr_to_page_id pos ≤ length frames
    → drop (addr_to_page_id pos) frames ≡ page ∷ rest
    → WrittenFrom (page ∷ rest) new' (page_offset pos) buf
    → byte_in (take (addr_to_page_id pos) frames ++ new') q
      ≡ (if leb pos q && ltb q (pos + length buf) then get_or buf (q - pos) 0 else byte_in frames q)
written_bytes frames new' page rest pos q buf h e w =
    let i = addr_to_page_id pos in
    let split = page_split pos in
    byte_in-take i q frames new' h
    ∙ ground (arith, split.0, split.1, w.bytes (q - i * page_size), old, same_index)
  where
    old :
        addr_to_page_id pos * page_size ≤ q
        → byte_in (page ∷ rest) (q - addr_to_page_id pos * page_size) ≡ byte_in frames q
    old le =
        ap (λ ps. byte_in ps (q - addr_to_page_id pos * page_size)) (sym e)
        ∙ byte_in-drop (addr_to_page_id pos) (q - addr_to_page_id pos * page_size) frames
        ∙ ap (byte_in frames) (omega arith)

    same_index :
        pos ≤ q
        → get_or buf (q - addr_to_page_id pos * page_size - page_offset pos) 0
          ≡ get_or buf (q - pos) 0
    same_index le =
        let s = page_split pos in
        let e : q - addr_to_page_id pos * page_size - page_offset pos ≡ q - pos =
          omega (arith, s) in
        ap (λ j. get_or buf j 0) e

-- The file that `write_inner` leaves for a buffer that is not empty.
write_page-IsWritten :
    (f : VirtFileInner) (b : ℕ) (bs : List ℕ) (fresh : List Frame) (page : Frame)
    (rest : List Frame)
    → IsValid f
    → Full fresh
    → f.pos + length (b ∷ bs) < usize_mod
    → addr_to_page_id (f.pos + length bs) < length (f.frames ++ fresh)
    → drop (addr_to_page_id f.pos) (f.frames ++ fresh) ≡ page ∷ rest
    → suc (length rest) + addr_to_page_id f.pos ≡ length (f.frames ++ fresh)
    → IsWritten f (b ∷ bs) fresh (record f {
      frames =
          take (addr_to_page_id f.pos) (f.frames ++ fresh)
          ++ write_from page rest (page_offset f.pos) (b ∷ bs);
      pos = f.pos + length (b ∷ bs);
      size = max f.size (f.pos + length (b ∷ bs));
    })
write_page-IsWritten f b bs fresh page rest v s small last e len =
    let i = addr_to_page_id f.pos in
    let frames' = f.frames ++ fresh in
    let full = Full-append f.frames fresh v.full s in
    let w =
      write_from-Written page rest (page_offset f.pos) (b ∷ bs)
        (subst Full e (Full-drop i frames' full)) (page_split f.pos).1
        (page_fits f.pos (length bs) (suc (length rest))
          (subst (λ n. addr_to_page_id (f.pos + length bs) < n) (sym len) last)) in
    let same : length (take i frames' ++ write_from page rest (page_offset f.pos) (b ∷ bs))
        ≡ length frames' =
      omega (
        arith,
        length-append (take i frames') (write_from page rest (page_offset f.pos) (b ∷ bs)),
        length-take i frames',
        w.same_length,
        len,
      ) in
    let count = length-append f.frames fresh in
    record {
      valid = record {
        full = Full-append (take i frames') _ (Full-take i frames' full) w.full;
        fits =
            omega (arith, v.fits, same, count, last_fits (f.pos + length bs) (length frames') last);
        small = omega (arith, v.small);
      };
      moved = refl;
      grown = ground arith;
      pushed = same ∙ count;
      bytes = λ q. written_bytes frames' _ page rest f.pos q (b ∷ bs) (omega (arith, len)) e w;
    }

-- `write_inner` puts a buffer in at the position of a valid file, with enough frames in the supply
-- and no position beyond a `usize`: it returns the buffer's length, takes frames from the front of
-- the supply, and what it leaves is the old file with these frames behind it and the buffer over
-- it, its position behind the buffer and its size grown to that if it was less.
pub write_inner_lem :
    (f : VirtFileInner) (buf : List ℕ) (supply : List Frame)
    → IsValid f
    → Full supply
    → f.pos + length buf < usize_mod
    → f.pos + length buf ≤ page_size * (length f.frames + length supply)
    → (fresh rest : List Frame) × (f' : VirtFileInner) × (supply ≡ fresh ++ rest)
      × (write_inner f buf supply ≡ some (length buf, f', rest))
      × IsWritten f buf fresh f'
unfolding write_inner
write_inner_lem f [] supply v s small room = (
  [],
  supply,
  f,
  refl,
  refl,
  record {
    valid = v;
    moved = sym (add-zero f.pos);
    grown = refl;
    pushed = sym (add-zero (length f.frames));
    bytes = λ q. ground (arith, ap (λ ps. byte_in ps q) (append_nil f.frames));
  },
)
write_inner_lem f (b ∷ bs) supply v s small room =
    let k = addr_to_page_id (f.pos + length (b ∷ bs) - 1) + 1 - length f.frames in
    let (enough, last) =
      pages_needed (f.pos + length (b ∷ bs) - 1) (length f.frames) (length supply)
        (omega (arith, room)) in
    let e' : f.pos + length (b ∷ bs) - 1 ≡ f.pos + length bs = omega arith in
    let count : length (f.frames ++ take k supply) ≡ length f.frames + k =
      omega (arith, length-append f.frames (take k supply), length-take k supply, enough) in
    let in_last : addr_to_page_id (f.pos + length bs) < length (f.frames ++ take k supply) =
      omega (arith, count, last, ap addr_to_page_id e') in
    let (page, rest, e, len) =
      drop-cons (addr_to_page_id f.pos) (f.frames ++ take k supply)
        (omega (arith, in_last, addr_to_page_id_mono f.pos (f.pos + length bs) (omega arith))) in
    (
      take k supply,
      drop k supply,
      _,
      sym (take-append-drop k supply),
      ground (arith, take_frames_lem k supply enough, e),
      write_page-IsWritten f b bs (take k supply) page rest v (Full-take k supply s) small in_last e
          len,
    )
