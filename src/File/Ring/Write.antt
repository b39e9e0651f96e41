-- ===== src/File/Ring/Write.antt =====
-- `write` puts bytes behind the queue.
use maturin.Prelude.{
  false, ℕ, ◌+◌, ◌-◌, ◌*◌, ◌≤◌, ◌<◌, ◌≡◌, inl, inr, min, ltb, leb, usize_mod, length, take, drop,
  Bool-cases, leb→le, leb-lt, length-drop, List, ◌++◌, refl, subst, some, arith,
}
use maturin.File.VirtFile.{page_size, Frame, VirtFileInner, set_pos, write_inner}
use maturin.File.VirtFile.Bytes
use maturin.File.VirtFile.Bytes.{
  Full, byte_in, range_of, range_of_add, range_of-ext, range_of_shift, take-drop_range,
}
use maturin.File.VirtFile.Spec.{IsWritten, write_inner_lem}
use maturin.File.VirtFile.Offset.{IsValid-set_pos}
use maturin.File.Ring.{RingBuffer, write, write_wrapped}
use maturin.File.Ring.Valid.{IsValid}
use maturin.File.Ring.Over.{length_of_take, Full-rest}
use maturin.File.Ring.Push.{IsPushed, same_room, write_straight, write_around}

-- A write of the first `n` bytes of a buffer that stays in the queue's space.
write_inner_at :
    (f : VirtFileInner) (supply : List Frame) (limit pos n : ℕ) (buf : List ℕ)
    → Bytes.IsValid f
    → Full supply
    → limit < usize_mod
    → limit ≤ page_size * (length f.frames + length supply)
    → n ≤ length buf
    → pos + n ≤ limit
    → (fresh rest : List Frame) × (d : VirtFileInner) × (supply ≡ fresh ++ rest)
      × (write_inner (set_pos pos f) (take n buf) supply ≡ some (length (take n buf), d, rest))
      × IsWritten (set_pos pos f) (take n buf) fresh d
unfolding set_pos
write_inner_at f supply limit pos n buf v s small room fits h =
    let len = length_of_take n buf fits in
    write_inner_lem (set_pos pos f) (take n buf) supply (IsValid-set_pos pos f v) s
      (omega (arith, len)) (omega (arith, len))

room_after :
    (r : RingBuffer) (supply fresh rest : List Frame) (buf : List ℕ) (d : VirtFileInner)
    → supply ≡ fresh ++ rest
    → IsWritten (set_pos r.end r.data') buf fresh d
    → length d.frames + length rest ≡ length r.data'.frames + length supply
unfolding set_pos
room_after r supply fresh rest buf d e w =
    same_room (set_pos r.end r.data') d buf fresh rest supply e w

write_wrapped_lem :
    (r : RingBuffer) (buf : List ℕ) (m : ℕ) (supply : List Frame)
    → IsValid r supply
    → m ≤ length buf
    → m ≤ r.size_limit - r.len
    → r.size_limit < r.end + m
    → (r' : RingBuffer) × (rest : List Frame) × (write_wrapped r buf m supply ≡ some (m, r', rest))
      × IsPushed r buf m rest r'
unfolding write_wrapped
write_wrapped_lem r buf m supply v fits h k =
    let n = r.size_limit - r.end in
    let guard : ltb r.size_limit r.end ≡ false = ground (arith, v.end_le) in
    let (fresh1, rest1, d1, e1, done1, w1) =
      write_inner_at r.data' supply r.size_limit r.end n buf v.file v.fresh v.small v.room
        (omega arith) (omega (arith, v.end_le)) in
    let s1 = Full-rest fresh1 rest1 (subst Full e1 v.fresh) in
    let room1 : r.size_limit ≤ page_size * (length d1.frames + length rest1) =
      omega (arith, v.room, room_after r supply fresh1 rest1 (take n buf) d1 e1 w1) in
    let (fresh2, rest2, d2, e2, done2, w2) =
      write_inner_at d1 rest1 r.size_limit 0 (m - n) (drop n buf) w1.valid s1 v.small room1
        (omega (arith, length-drop n buf)) (omega (arith, v.end_le)) in
    (
      record r { data' = d2; len = r.len + m; end = r.end + m - r.size_limit },
      rest2,
      rw (guard, done1, done2, write_wrapped) refl,
      write_around r supply fresh1 rest1 fresh2 rest2 buf m d1 d2 v fits h k e1 e2 w1 w2,
    )

-- `write` on a valid ring buffer does not panic: it returns the lesser of the buffer's length and
-- the room that the queue has, and that many of the buffer's first bytes stand behind those that
-- were queued.
pub write_lem :
    (r : RingBuffer) (buf : List ℕ) (supply : List Frame)
    → IsValid r supply
    → (r' : RingBuffer) × (rest : List Frame) × (write r buf supply
        ≡ some (min (length buf) (r.size_limit - r.len), r', rest))
      × IsPushed r buf (min (length buf) (r.size_limit - r.len)) rest r'
unfolding write
write_lem r buf supply v =
    let m = min (length buf) (r.size_limit - r.len) in
    let fits : m ≤ length buf = omega arith in
    elim (Bool-cases (leb (r.end + m) r.size_limit)) [
      | inl straight ↦
          let le = leb→le (r.end + m) r.size_limit straight in
          let (fresh, rest, d, e, done, w) =
            write_inner_at r.data' supply r.size_limit r.end m buf v.file v.fresh v.small v.room
              fits le in
          (
            record r { data' = d; len = r.len + m; end = r.end + m },
            rest,
            rw (straight, done) refl,
            write_straight r supply fresh rest buf m d v fits (omega arith) le e w,
          )
      | inr around ↦
          let (r', rest, done, pushed) =
            write_wrapped_lem r buf m supply v fits (omega arith)
              (leb-lt (r.end + m) r.size_limit around) in
          (r', rest, rw around done, pushed)
    ]
