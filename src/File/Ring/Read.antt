-- ===== src/File/Ring/Read.antt =====
-- `read` takes bytes from the front of the queue.
use maturin.Prelude.{
  false, ℕ, ◌+◌, ◌-◌, ◌≤◌, ◌<◌, ◌≡◌, inl, inr, min, ltb, leb, length, take, drop, Bool-cases,
  leb→le, leb-lt, List, [], ◌∷◌, ◌++◌, refl, sym, ap, ap₂, ◌∙◌, some, arith,
}
use maturin.File.VirtFile.{Frame, VirtFileInner, write_at, set_pos, read_inner}
use maturin.File.VirtFile.Bytes
use maturin.File.VirtFile.Bytes.{
  Full, byte_in, range_of, range_of_add, range_of-ext, range_of_shift, length-range_of,
  take-range_of, drop-range_of,
}
use maturin.File.VirtFile.Read.{read_inner_lem}
use maturin.File.VirtFile.Offset.{IsValid-set_pos}
use maturin.File.Ring.{RingBuffer, read, read_wrapped}
use maturin.File.Ring.Valid.{slot, content, IsValid}

write_at_append :
    (buf first second : List ℕ)
    → length first + length second ≤ length buf
    → write_at (write_at buf 0 first) (length first) second ≡ write_at buf 0 (first ++ second)
write_at_append [] [] [] h = refl
write_at_append [] [] (y ∷ ys) h = refl
write_at_append [] (x ∷ xs) ys h = refl
write_at_append (b ∷ buf) [] ys h = refl
write_at_append (b ∷ buf) (x ∷ xs) ys h = ap (λ r. x ∷ r) (write_at_append buf xs ys (omega arith))

-- A read that stays in the file moves the position behind what it read.
read_inner_at :
    (f : VirtFileInner) (pos len : ℕ)
    → Bytes.IsValid f
    → pos + len ≤ f.size
    → read_inner (set_pos pos f) len
      ≡ some (range_of (byte_in f.frames) pos len, set_pos (pos + len) f)
unfolding set_pos
read_inner_at f pos len v h =
    let e : min len (f.size - pos) ≡ len = omega arith in
    read_inner_lem (set_pos pos f) len (IsValid-set_pos pos f v) (omega arith)
    ∙ ap (λ n. some (range_of (byte_in f.frames) pos n, record f { pos = pos + n })) e

-- The cells in front of the end of the queue's space, and those behind it.
pub low_cells :
    (frames : List Frame) (limit i n : ℕ)
    → i + n ≤ limit
    → range_of (byte_in frames) i n ≡ range_of (λ q. byte_in frames (slot limit q)) i n
unfolding slot
low_cells frames limit i n h =
    range_of-ext (byte_in frames) (λ q. byte_in frames (slot limit q)) i n (λ q a b. ground arith)

pub high_cells :
    (frames : List Frame) (limit i n : ℕ)
    → range_of (byte_in frames) i n ≡ range_of (λ q. byte_in frames (slot limit q)) (i + limit) n
unfolding slot
high_cells frames limit i n =
    range_of-ext (byte_in frames) (λ q. byte_in frames (slot limit (q + limit))) i n
      (λ q a b.
        let e : q + limit - limit ≡ q = omega arith in ground (arith, ap (byte_in frames) e))
    ∙ range_of_shift (λ q. byte_in frames (slot limit q)) i limit n

take-content :
    (r : RingBuffer) (m : ℕ)
    → m ≤ r.len
    → take m (content r) ≡ range_of (λ q. byte_in r.data'.frames (slot r.size_limit q)) r.head m
unfolding content
take-content r m h = take-range_of _ r.head m r.len h

drop-content :
    (r : RingBuffer) (m : ℕ)
    → m ≤ r.len
    → drop m (content r)
      ≡ range_of (λ q. byte_in r.data'.frames (slot r.size_limit q)) (r.head + m) (r.len - m)
unfolding content
drop-content r m h = drop-range_of _ r.head m r.len h

-- What a read of `m` bytes leaves: the number, the buffer, and a queue without these bytes.
pub record IsRead (r : RingBuffer) (supply : List Frame) (m : ℕ) (r' : RingBuffer) : Type 0 where
  pub valid : IsValid r' supply
  pub left : content r' ≡ drop m (content r)
  pub fewer : r'.len ≡ r.len - m
  pub same_limit : r'.size_limit ≡ r.size_limit

IsRead-straight :
    (r : RingBuffer) (supply : List Frame) (m : ℕ)
    → IsValid r supply
    → m ≤ r.len
    → r.head + m ≤ r.size_limit
    → IsRead r supply m
        (record r { data' = set_pos (r.head + m) r.data'; len = r.len - m; head = r.head + m })
unfolding content set_pos
IsRead-straight r supply m v h k = record {
  valid = record {
    file = IsValid-set_pos (r.head + m) r.data' v.file;
    fresh = v.fresh;
    small = v.small;
    len_le = omega (arith, v.len_le);
    head_le = k;
    end_le = v.end_le;
    held = elim v.held [
      | inl straight ↦ inl (omega (arith, straight.0), straight.1)
      | inr wrapped ↦ inr (omega (arith, wrapped.0), wrapped.1)
    ];
    room = v.room;
  };
  left = sym (drop-content r m h);
  fewer = refl;
  same_limit = refl;
}

IsRead-around :
    (r : RingBuffer) (supply : List Frame) (m : ℕ)
    → IsValid r supply
    → m ≤ r.len
    → r.size_limit < r.head + m
    → IsRead r supply m (record r {
      data' = set_pos (m - (r.size_limit - r.head)) r.data';
      len = r.len - m;
      head = r.head + m - r.size_limit;
    })
unfolding content set_pos
IsRead-around r supply m v h k = record {
  valid = record {
    file = IsValid-set_pos (m - (r.size_limit - r.head)) r.data' v.file;
    fresh = v.fresh;
    small = v.small;
    len_le = omega (arith, v.len_le);
    head_le = omega (arith, v.len_le, v.head_le);
    end_le = v.end_le;
    held = elim v.held [
      | inl straight ↦ absurd (omega (arith, straight.0, v.end_le))
      | inr wrapped ↦ inl (omega (arith, wrapped.0), omega (arith, wrapped.1, v.end_le))
    ];
    room = v.room;
  };
  left =
      let past : r.head + m - r.size_limit + r.size_limit ≡ r.head + m = omega arith in
      sym (
        low_cells r.data'.frames r.size_limit (r.head + m - r.size_limit) (r.len - m)
          (omega (arith, v.held, v.end_le, v.head_le, v.len_le)))
      ∙ high_cells r.data'.frames r.size_limit (r.head + m - r.size_limit) (r.len - m)
      ∙ ap (λ i. range_of (λ q. byte_in r.data'.frames (slot r.size_limit q)) i (r.len - m)) past
      ∙ sym (drop-content r m h);
  fewer = refl;
  same_limit = refl;
}

-- The positions that a valid queue reads are in its file.
in_file :
    (r : RingBuffer) (supply : List Frame) (m : ℕ)
    → IsValid r supply
    → m ≤ r.len
    → min (r.head + m) r.size_limit ≤ r.data'.size
in_file r supply m v h = elim v.held [
  | inl straight ↦ omega (arith, straight, v.end_le)
  | inr wrapped ↦ omega (arith, wrapped)
]

-- Reading up to the end of the queue's space and then from its start.
read_wrapped_lem :
    (r : RingBuffer) (buf : List ℕ) (supply : List Frame) (m : ℕ)
    → IsValid r supply
    → m ≤ r.len
    → m ≤ length buf
    → r.size_limit < r.head + m
    → read_wrapped r buf m
      ≡ some (
        m,
        write_at buf 0 (take m (content r)),
        record r {
          data' = set_pos (m - (r.size_limit - r.head)) r.data';
          len = r.len - m;
          head = r.head + m - r.size_limit;
        },
      )
unfolding read_wrapped set_pos
read_wrapped_lem r buf supply m v h fits k =
    let limit = r.size_limit in
    let n = limit - r.head in
    let frames = r.data'.frames in
    let inside = in_file r supply m v h in
    let to_end : r.head + n ≡ limit = omega (arith, v.head_le) in
    let first = range_of (byte_in frames) r.head n in
    let first_len : length first ≡ n = length-range_of (byte_in frames) r.head n in
    let guard : ltb limit r.head ≡ false = ground (arith, v.head_le) in
    let second = range_of (byte_in frames) 0 (m - n) in
    let from_start : 0 + (m - n) ≡ m - n = omega arith in
    let second_read =
      read_inner_at (set_pos (r.head + n) r.data') 0 (m - n)
        (IsValid-set_pos (r.head + n) r.data' v.file) (omega (arith, inside)) in
    let bytes : first ++ second ≡ take m (content r) =
      ap₂ ◌++◌ (low_cells frames limit r.head n (omega arith)) (high_cells frames limit 0 (m - n))
      ∙ join n (omega (arith, v.head_le)) (omega (arith, k))
      ∙ sym (take-content r m h) in
    let both : write_at (write_at buf 0 first) n second ≡ write_at buf 0 (first ++ second) =
      ap (λ i. write_at (write_at buf 0 first) i second) (sym first_len)
      ∙ write_at_append buf first second
          (omega (arith, first_len, length-range_of (byte_in frames) 0 (m - n))) in
    rw
      (
        guard,
        read_inner_at r.data' r.head n v.file (omega (arith, inside, to_end)),
        second_read,
        ← bytes,
      )
      (ap₂
        (λ b p. some (
          m,
          b,
          record r { data' = set_pos p r.data'; len = r.len - m; head = r.head + m - r.size_limit },
        ))
        both from_start)
  where
    cell : ℕ → ℕ
    cell q = byte_in r.data'.frames (slot r.size_limit q)

    join :
        (n : ℕ)
        → r.head + n ≡ r.size_limit
        → n ≤ m
        → range_of cell r.head n ++ range_of cell (0 + r.size_limit) (m - n)
          ≡ range_of cell r.head m
    join n e le =
        let limit : 0 + r.size_limit ≡ r.head + n = omega (arith, e) in
        let all : n + (m - n) ≡ m = omega (arith, le) in
        ap (λ i. range_of cell r.head n ++ range_of cell i (m - n)) limit
        ∙ sym (range_of_add cell r.head n (m - n))
        ∙ ap (range_of cell r.head) all

-- `read` on a valid ring buffer does not panic: it returns the lesser of the buffer's length and
-- the number of bytes queued, puts that many of the oldest bytes in the front of the buffer and
-- leaves the rest of it, and what is queued afterwards is what is behind them.
pub read_lem :
    (r : RingBuffer) (buf : List ℕ) (supply : List Frame)
    → IsValid r supply
    → (r' : RingBuffer) × (read r buf
        ≡ some (
          min (length buf) r.len,
          write_at buf 0 (take (min (length buf) r.len) (content r)),
          r',
        ))
      × IsRead r supply (min (length buf) r.len) r'
unfolding read
read_lem r buf supply v =
    let m = min (length buf) r.len in
    let fewer : m ≤ r.len = omega arith in
    elim (Bool-cases (leb (r.head + m) r.size_limit)) [
      | inl straight ↦
          let le = leb→le (r.head + m) r.size_limit straight in
          (
            _,
            rw
                (
                  straight,
                  read_inner_at r.data' r.head m v.file (omega (arith, in_file r supply m v fewer)),
                )
                (ap
                  (λ bytes. some (
                    m,
                    write_at buf 0 bytes,
                    record r {
                      data' = set_pos (r.head + m) r.data';
                      len = r.len - m;
                      head = r.head + m;
                    },
                  ))
                  (low_cells r.data'.frames r.size_limit r.head m le
                    ∙ sym (take-content r m fewer))),
            IsRead-straight r supply m v fewer le,
          )
      | inr around ↦
          let lt = leb-lt (r.head + m) r.size_limit around in
          (
            _,
            rw around (read_wrapped_lem r buf supply m v fewer (omega arith) lt),
            IsRead-around r supply m v fewer lt,
          )
    ]
