-- ===== src/File/VirtFile/Offset.antt =====
-- `read_from_offset` and `write_to_offset`: what one writes the other reads, and the position of
-- the file stays.
use maturin.Prelude.{
  ℕ, ◌+◌, ◌-◌, ◌*◌, ◌≤◌, ◌<◌, ◌≡◌, min, usize_mod, length, get_or, refl, sym, ap, ◌∙◌, some, List,
  ◌∷◌, arith,
}
use maturin.File.VirtFile.{
  page_size, Frame, VirtFileInner, read_from_offset, write_to_offset, set_pos,
}
use maturin.File.VirtFile.Bytes.{
  Full, IsValid, byte_in, range_of, range_of-ext, range_of_shift, take-drop_range, take-length,
}
use maturin.File.VirtFile.Read.{read_inner_lem}
use maturin.File.VirtFile.Spec.{IsWritten, write_inner_lem}

pub IsValid-set_pos : (pos : ℕ) (f : VirtFileInner) → IsValid f → IsValid (set_pos pos f)
unfolding set_pos
IsValid-set_pos pos f v = record { full = v.full; fits = v.fits; small = v.small }

-- The bytes of a buffer that is put at `pos`.
pub range_of-get_or :
    (buf : List ℕ) (pos : ℕ) → range_of (λ q. get_or buf (q - pos) 0) pos (length buf) ≡ buf
range_of-get_or buf pos =
    let g : ℕ → ℕ = λ q. get_or buf (q - pos) 0 in
    let start : pos ≡ 0 + pos = omega arith in
    ap (λ i. range_of g i (length buf)) start
    ∙ sym (range_of_shift g 0 pos (length buf))
    ∙ range_of-ext (λ q. get_or buf (q + pos - pos) 0) (λ q. get_or buf q 0) 0 (length buf)
        (λ q a b. let e : q + pos - pos ≡ q = omega arith in ap (λ j. get_or buf j 0) e)
    ∙ sym (take-drop_range 0 0 (length buf) buf (omega arith))
    ∙ take-length buf (length buf) (omega arith)

-- The bytes that a write put in.
pub written_range :
    (f f' : VirtFileInner) (buf : List ℕ) (fresh : List Frame)
    → IsWritten f buf fresh f'
    → range_of (byte_in f'.frames) f.pos (length buf) ≡ buf
written_range f f' buf fresh w =
    range_of-ext (byte_in f'.frames) (λ q. get_or buf (q - f.pos) 0) f.pos (length buf)
      (λ q a b. ground (arith, w.bytes q))
    ∙ range_of-get_or buf f.pos

read_from_offset_lem :
    (f : VirtFileInner) (pos len : ℕ)
    → IsValid f
    → pos ≤ f.size
    → read_from_offset f pos len
      ≡ some (range_of (byte_in f.frames) pos (min len (f.size - pos)), f)
unfolding read_from_offset set_pos
read_from_offset_lem f pos len v h =
    rw (read_inner_lem (set_pos pos f) len (IsValid-set_pos pos f v) h, read_from_offset) refl

-- A buffer that is not empty and is written at an offset of a valid file, with enough frames in
-- the supply and no position beyond a `usize`, is read back from that offset whole; neither call moves the position of the file.
pub read_from_offset-write_to_offset :
    (f : VirtFileInner) (pos b : ℕ) (bs : List ℕ) (supply : List Frame)
    → IsValid f
    → Full supply
    → pos + length (b ∷ bs) < usize_mod
    → pos + length (b ∷ bs) ≤ page_size * (length f.frames + length supply)
    → (f' : VirtFileInner) × (rest : List Frame) × (write_to_offset f pos (b ∷ bs) supply
        ≡ some (length (b ∷ bs), f', rest))
      × (read_from_offset f' pos (length (b ∷ bs)) ≡ some (b ∷ bs, f'))
      × (f'.pos ≡ f.pos)
      × IsValid f'
unfolding write_to_offset set_pos
read_from_offset-write_to_offset f pos b bs supply v s small room =
    let (fresh, rest, f', e, written, w) =
      write_inner_lem (set_pos pos f) (b ∷ bs) supply (IsValid-set_pos pos f v) s small room in
    let valid = IsValid-set_pos f.pos f' w.valid in
    let far : pos + length (b ∷ bs) ≤ f'.size = ground (arith, w.grown) in
    let n : min (length (b ∷ bs)) (f'.size - pos) ≡ length (b ∷ bs) = omega (arith, far) in
    (
      set_pos f.pos f',
      rest,
      rw (written, write_to_offset) refl,
      read_from_offset_lem (set_pos f.pos f') pos (length (b ∷ bs)) valid (omega (arith, far))
          ∙ ap (λ bytes. some (bytes, set_pos f.pos f'))
              (ap (range_of (byte_in f'.frames) pos) n
                ∙ written_range (set_pos pos f) f' (b ∷ bs) fresh w),
      refl,
      valid,
    )
