-- ===== src/File/VirtFile.antt =====
-- kernel/src/file/vfs/virt_file.rs: `VirtFileInner`, a file kept in page frames. A frame is the list
-- of its bytes. `Frame::new` hands out the frames of a supply, each with whatever it holds: the
-- allocator does not clear them. `none` is a panic: an index out of range, or no frame left.
pub mod Bytes
pub mod Read
pub mod Write
pub mod Spec
pub mod Offset
use maturin.Prelude.{
  ℕ, zero, suc, ◌+◌, ◌-◌, ◌/◌, ◌%◌, min, max, ltb, leb, ◌==◌, if◌then◌else◌, usize_mod, length,
  take, drop, Option, none, some, List, [], ◌∷◌, ◌++◌,
}

abbrev pub page_size : ℕ
page_size = 0x1000

abbrev pub Frame : Type 0
Frame = List ℕ

unfoldable pub addr_to_page_id : ℕ → ℕ
addr_to_page_id addr = addr / page_size

-- `addr & (PAGE_SIZE - 1)`, with a page size that is a power of two.
unfoldable pub page_offset : ℕ → ℕ
page_offset addr = addr % page_size

pub record VirtFileInner : Type 0 where
  pub frames : List Frame
  pub size : ℕ
  pub pos : ℕ
  pub flags : ℕ

unfoldable pub new : ℕ → VirtFileInner
new flags = record { frames = []; size = 0; pos = 0; flags = flags }

-- `dst[off..off + src.len()].copy_from_slice(src)`
abbrev pub write_at : Frame → ℕ → List ℕ → Frame
write_at [] off src = []
write_at (x ∷ xs) zero [] = x ∷ xs
write_at (x ∷ xs) zero (b ∷ src) = b ∷ write_at xs zero src
write_at (x ∷ xs) (suc off) src = x ∷ write_at xs off src

-- The loop over the pages behind the first in `read_inner`.
unfoldable pub read_pages : List Frame → ℕ → ℕ → List ℕ
read_pages [] buf_pos read_len = []
read_pages (page ∷ pages) buf_pos read_len =
    let rest = read_pages pages (buf_pos + page_size) read_len in
    if leb (buf_pos + page_size) read_len then page ++ rest else take (read_len - buf_pos) page

-- What is read from the page `page` at `off` on, and from the pages behind it.
unfoldable pub read_from : Frame → List Frame → ℕ → ℕ → List ℕ
read_from page rest off read_len =
    if leb (off + read_len) page_size
    then take read_len (drop off page)
    else drop off page ++ read_pages rest (page_size - off) read_len

-- `read_inner` once the length is known: the bytes that are put in the front of the buffer.
unfoldable pub read_some : VirtFileInner → ℕ → Option (List ℕ × VirtFileInner)
read_some self read_len =
    if read_len == 0 then some ([], self) else (elim (drop (addr_to_page_id self.pos) self.frames) [
      | [] ↦ none
      | page ∷ rest ↦ some (
        read_from page rest (page_offset self.pos) read_len,
        record self { pos = self.pos + read_len },
      )
    ])

-- The buffer has `len` bytes. `self.size - self.pos` wraps.
unfoldable pub read_inner : VirtFileInner → ℕ → Option (List ℕ × VirtFileInner)
read_inner self len = read_some self (min len ((usize_mod + self.size - self.pos) % usize_mod))

-- `for _i in self.frames.len()..=page_needed { self.frames.push(Frame::new().unwrap()) }`: the
-- frames pushed, and what is left of the supply.
unfoldable pub take_frames : ℕ → List Frame → Option (List Frame × List Frame)
take_frames zero supply = some ([], supply)
take_frames (suc n) [] = none
take_frames (suc n) (frame ∷ supply) = elim (take_frames n supply) [
  | none ↦ none
  | some (frames, rest) ↦ some (frame ∷ frames, rest)
]

-- The loop over the pages behind the first in `write_inner`.
unfoldable pub write_pages : List Frame → ℕ → List ℕ → List Frame
write_pages [] buf_pos buf = []
write_pages (page ∷ pages) buf_pos buf =
    let rest = write_pages pages (buf_pos + page_size) buf in
    if leb (buf_pos + page_size) (length buf)
    then write_at page 0 (take page_size (drop buf_pos buf)) ∷ rest
    else write_at page 0 (drop buf_pos buf) ∷ pages

-- What `buf`, written at `off` of the page `page`, makes of that page and those behind it.
unfoldable pub write_from : Frame → List Frame → ℕ → List ℕ → List Frame
write_from page rest off buf =
    if leb (off + length buf) page_size
    then write_at page off buf ∷ rest
    else write_at page off (take (page_size - off) buf) ∷ write_pages rest (page_size - off) buf

-- The file after the write, and what is left of the supply; the number returned is `buf.len()`.
unfoldable pub write_inner :
    VirtFileInner → List ℕ → List Frame → Option (ℕ × VirtFileInner × List Frame)
write_inner self buf supply =
    if length buf == 0
    then some (0, self, supply)
    else (elim (take_frames (addr_to_page_id (self.pos + length buf - 1) + 1 - length self.frames)
        supply) [
          | none ↦ none
          | some (fresh, supply') ↦
              let frames = self.frames ++ fresh in
              elim (drop (addr_to_page_id self.pos) frames) [
                | [] ↦ none
                | page ∷ rest ↦ some (
                  length buf,
                  record self {
                    frames =
                        take (addr_to_page_id self.pos) frames
                        ++ write_from page rest (page_offset self.pos) buf;
                    pos = self.pos + length buf;
                    size = max self.size (self.pos + length buf);
                  },
                  supply',
                )
              ]
        ])

unfoldable pub set_pos : ℕ → VirtFileInner → VirtFileInner
set_pos pos self = record self { pos = pos }

unfoldable pub clear : VirtFileInner → VirtFileInner
clear self = record self { pos = 0; size = 0; frames = [] }

unfoldable pub read_from_offset : VirtFileInner → ℕ → ℕ → Option (List ℕ × VirtFileInner)
unfolding set_pos
read_from_offset self pos len = elim (read_inner (set_pos pos self) len) [
  | none ↦ none
  | some (data', self') ↦ some (data', set_pos self.pos self')
]

unfoldable pub write_to_offset :
    VirtFileInner → ℕ → List ℕ → List Frame → Option (ℕ × VirtFileInner × List Frame)
unfolding set_pos
write_to_offset self pos buf supply = elim (write_inner (set_pos pos self) buf supply) [
  | none ↦ none
  | some (n, self', supply') ↦ some (n, set_pos self.pos self', supply')
]
