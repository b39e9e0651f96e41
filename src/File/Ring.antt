-- ===== src/File/Ring.antt =====
-- kernel/src/file/pipe.rs: `RingBuffer`, the queue of bytes behind a pipe, kept in the frames of a
-- `VirtFileInner`. `none` is a panic: a slice out of range, or one of the file's.
pub mod Valid
pub mod Read
pub mod Over
pub mod Push
pub mod Write
pub mod Queue
use maturin.Prelude.{
  ℕ, ◌+◌, ◌-◌, min, Bool, ltb, leb, ◌==◌, if◌then◌else◌, length, take, drop, Option, none, some,
  List,
}
use maturin.File.VirtFile
use maturin.File.VirtFile.{Frame, VirtFileInner, write_at, read_inner, write_inner, set_pos}

pub record RingBuffer : Type 0 where
  pub data' : VirtFileInner
  pub head : ℕ
  pub end : ℕ
  pub len : ℕ
  pub size_limit : ℕ

unfoldable pub new : ℕ → RingBuffer
new size_limit = record {
  data' = VirtFile.new 0;
  head = 0;
  end = 0;
  len = 0;
  size_limit = size_limit;
}

-- The part of `read` behind the start of the queue's space.
unfoldable pub read_wrapped : RingBuffer → List ℕ → ℕ → Option (ℕ × List ℕ × RingBuffer)
read_wrapped self buf max_len =
    if ltb self.size_limit self.head
    then none
    else (elim (read_inner (set_pos self.head self.data') (self.size_limit - self.head)) [
      | none ↦ none
      | some (first, data1) ↦
          elim (read_inner (set_pos 0 data1) (max_len - (self.size_limit - self.head))) [
            | none ↦ none
            | some (second, data2) ↦ some (
              max_len,
              write_at (write_at buf 0 first) (self.size_limit - self.head) second,
              record self {
                data' = data2;
                len = self.len - max_len;
                head = self.head + max_len - self.size_limit;
              },
            )
          ]
    ])

-- The number of bytes read, and the buffer with them in its front.
unfoldable pub read : RingBuffer → List ℕ → Option (ℕ × List ℕ × RingBuffer)
read self buf =
    let max_len = min (length buf) self.len in
    if leb (self.head + max_len) self.size_limit
    then (elim (read_inner (set_pos self.head self.data') max_len) [
      | none ↦ none
      | some (bytes, data1) ↦ some (
        max_len,
        write_at buf 0 bytes,
        record self { data' = data1; len = self.len - max_len; head = self.head + max_len },
      )
    ])
    else read_wrapped self buf max_len

unfoldable pub write_wrapped :
    RingBuffer → List ℕ → ℕ → List Frame → Option (ℕ × RingBuffer × List Frame)
write_wrapped self buf max_len supply =
    if ltb self.size_limit self.end
    then none
    else (elim (write_inner (set_pos self.end self.data') (take (self.size_limit - self.end) buf)
        supply) [
          | none ↦ none
          | some (_, data1, supply1) ↦
              elim (write_inner (set_pos 0 data1)
                (take (max_len - (self.size_limit - self.end))
                  (drop (self.size_limit - self.end) buf))
                supply1) [
                  | none ↦ none
                  | some (_, data2, supply2) ↦ some (
                    max_len,
                    record self {
                      data' = data2;
                      len = self.len + max_len;
                      end = self.end + max_len - self.size_limit;
                    },
                    supply2,
                  )
                ]
        ])

unfoldable pub write : RingBuffer → List ℕ → List Frame → Option (ℕ × RingBuffer × List Frame)
write self buf supply =
    let max_len = min (length buf) (self.size_limit - self.len) in
    if leb (self.end + max_len) self.size_limit
    then (elim (write_inner (set_pos self.end self.data') (take max_len buf) supply) [
      | none ↦ none
      | some (_, data1, supply1) ↦ some (
        max_len,
        record self { data' = data1; len = self.len + max_len; end = self.end + max_len },
        supply1,
      )
    ])
    else write_wrapped self buf max_len supply

unfoldable pub get_len : RingBuffer → ℕ
get_len self = self.len

unfoldable pub is_full : RingBuffer → Bool
is_full self = self.len == self.size_limit

unfoldable pub is_empty : RingBuffer → Bool
is_empty self = self.len == 0
