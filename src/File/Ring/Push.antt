-- ===== src/File/Ring/Push.antt =====
-- The queue that one or two writes into its file leave.
use maturin.Prelude.{
  ℕ, ◌+◌, ◌-◌, ◌*◌, ◌≤◌, ◌<◌, ◌≡◌, inl, inr, ltb, if◌then◌else◌, length, get_or, take, drop,
  Bool-cases, ltb→lt, length-drop, length-append, get_or-drop, List, ◌++◌, refl, subst, ap, ◌∙◌,
  arith,
}
use maturin.File.VirtFile.{page_size, Frame, VirtFileInner, set_pos}
use maturin.File.VirtFile.Bytes.{Full, byte_in}
use maturin.File.VirtFile.Spec.{IsWritten}
use maturin.File.Ring.{RingBuffer}
use maturin.File.Ring.Valid.{slot, content, IsValid}
use maturin.File.Ring.Over.{
  IsOver, length_of_take, IsWritten-IsOver, push_range, Full-rest, slot_kept, slot_put,
}

-- What a write of the first `m` bytes of a buffer leaves.
pub record IsPushed (r : RingBuffer) (buf : List ℕ) (m : ℕ) (rest : List Frame) (r' : RingBuffer)
    : Type 0 where
  pub valid : IsValid r' rest
  pub queued : content r' ≡ content r ++ take m buf
  pub more : r'.len ≡ r.len + m
  pub same_limit : r'.size_limit ≡ r.size_limit

-- The frames of the file and of the supply together.
pub same_room :
    (f f' : VirtFileInner) (buf : List ℕ) (fresh rest supply : List Frame)
    → supply ≡ fresh ++ rest
    → IsWritten f buf fresh f'
    → length f'.frames + length rest ≡ length f.frames + length supply
same_room f f' buf fresh rest supply e w =
    omega (arith, w.pushed, ap length e, length-append fresh rest)

pub write_straight :
    (r : RingBuffer) (supply fresh rest : List Frame) (buf : List ℕ) (m : ℕ) (d : VirtFileInner)
    → IsValid r supply
    → m ≤ length buf
    → m ≤ r.size_limit - r.len
    → r.end + m ≤ r.size_limit
    → supply ≡ fresh ++ rest
    → IsWritten (set_pos r.end r.data') (take m buf) fresh d
    → IsPushed r buf m rest (record r { data' = d; len = r.len + m; end = r.end + m })
unfolding content set_pos
write_straight r supply fresh rest buf m d v fits h k e w =
    let over = IsWritten-IsOver (set_pos r.end r.data') d buf m fresh fits w in
    let len = length_of_take m buf fits in
    record {
      valid = record {
        file = w.valid;
        fresh = Full-rest fresh rest (subst Full e v.fresh);
        small = v.small;
        len_le = omega (arith, v.len_le);
        head_le = v.head_le;
        end_le = k;
        held = elim v.held [
          | inl straight ↦ inl (omega (arith, straight), ground (arith, len, w.grown, straight))
          | inr wrapped ↦ inr (omega (arith, wrapped), ground (arith, len, w.grown, wrapped))
        ];
        room =
            omega (
              arith,
              v.room,
              same_room (set_pos r.end r.data') d (take m buf) fresh rest supply e w,
            );
      };
      queued =
          push_range (λ q. byte_in r.data'.frames (slot r.size_limit q))
            (λ q. byte_in d.frames (slot r.size_limit q)) r.head r.len m buf fits
            (λ q a b.
              let (_, stored, apart) = slot_kept r supply m q v h a b in
              over.kept (slot r.size_limit q) (omega (arith, stored, v.file.fits))
                (ground (arith, apart)))
            (λ i a.
              ap (byte_in d.frames) (ground (arith, slot_put r supply m i v h a)) ∙ over.put i a);
      more = refl;
      same_limit = refl;
    }

-- The bytes that the two writes put in, at the places behind the queue.
put_around :
    (r : RingBuffer) (buf : List ℕ) (m : ℕ) (d1 d2 : VirtFileInner) (i : ℕ)
    → r.size_limit ≤ page_size * length d1.frames
    → m ≤ r.size_limit
    → r.size_limit < r.end + m
    → r.end ≤ r.size_limit
    → i < m
    → IsOver (set_pos r.end r.data') buf (r.size_limit - r.end) d1
    → IsOver (set_pos 0 d1) (drop (r.size_limit - r.end) buf) (m - (r.size_limit - r.end)) d2
    → byte_in d2.frames
        (if ltb (r.end + i) r.size_limit then r.end + i else r.end + i - r.size_limit)
      ≡ get_or buf i 0
unfolding set_pos
put_around r buf m d1 d2 i room fits k end_le a over1 over2 =
    elim (Bool-cases (ltb (r.end + i) r.size_limit)) [
      | inl low ↦
          let lt = ltb→lt (r.end + i) r.size_limit low in
          rw low
            (over2.kept (r.end + i) (omega arith) (inr (omega arith)) ∙ over1.put i (omega arith))
      | inr high ↦
          let le : r.size_limit ≤ r.end + i = ground arith in
          let n = r.size_limit - r.end in
          let at : r.end + i - r.size_limit ≡ 0 + (i - n) = omega arith in
          let behind : n + (i - n) ≡ i = omega arith in
          rw high (
            ap (byte_in d2.frames) at
            ∙ over2.put (i - n) (omega arith)
            ∙ get_or-drop n (i - n) buf 0
            ∙ ap (λ j. get_or buf j 0) behind)
    ]

pub write_around :
    (r : RingBuffer) (supply fresh1 rest1 fresh2 rest2 : List Frame) (buf : List ℕ) (m : ℕ)
    (d1 d2 : VirtFileInner)
    → IsValid r supply
    → m ≤ length buf
    → m ≤ r.size_limit - r.len
    → r.size_limit < r.end + m
    → supply ≡ fresh1 ++ rest1
    → rest1 ≡ fresh2 ++ rest2
    → IsWritten (set_pos r.end r.data') (take (r.size_limit - r.end) buf) fresh1 d1
    → IsWritten
        (set_pos 0 d1)
        (take (m - (r.size_limit - r.end)) (drop (r.size_limit - r.end) buf))
        fresh2
        d2
    → IsPushed r buf m rest2
        (record r { data' = d2; len = r.len + m; end = r.end + m - r.size_limit })
unfolding content set_pos
write_around r supply fresh1 rest1 fresh2 rest2 buf m d1 d2 v fits h k e1 e2 w1 w2 =
    let n = r.size_limit - r.end in
    let fits1 : n ≤ length buf = omega arith in
    let fits2 : m - n ≤ length (drop n buf) = omega (arith, length-drop n buf) in
    let over1 = IsWritten-IsOver (set_pos r.end r.data') d1 buf n fresh1 fits1 w1 in
    let over2 = IsWritten-IsOver (set_pos 0 d1) d2 (drop n buf) (m - n) fresh2 fits2 w2 in
    let len1 = length_of_take n buf fits1 in
    let len2 = length_of_take (m - n) (drop n buf) fits2 in
    let grown1 : r.size_limit ≤ d1.size = elim v.held [
      | inl straight ↦ ground (arith, straight, len1, w1.grown)
      | inr wrapped ↦ ground (arith, wrapped, len1, w1.grown)
    ] in
    let grown2 : d1.size ≤ d2.size = ground (arith, w2.grown) in
    record {
      valid = record {
        file = w2.valid;
        fresh =
            Full-rest fresh2 rest2 (subst Full e2 (Full-rest fresh1 rest1 (subst Full e1 v.fresh)));
        small = v.small;
        len_le = omega (arith, v.len_le);
        head_le = v.head_le;
        end_le = omega (arith, v.end_le);
        held = elim v.held [
          | inl straight ↦ inr (omega (arith, straight, v.end_le), omega (arith, grown1, grown2))
          | inr wrapped ↦ absurd (omega (arith, wrapped, v.head_le))
        ];
        room = omega (
          arith,
          v.room,
          same_room (set_pos r.end r.data') d1 (take n buf) fresh1 rest1 supply e1 w1,
          same_room (set_pos 0 d1) d2 (take (m - n) (drop n buf)) fresh2 rest2 rest1 e2 w2,
        );
      };
      queued =
          push_range (λ q. byte_in r.data'.frames (slot r.size_limit q))
            (λ q. byte_in d2.frames (slot r.size_limit q)) r.head r.len m buf fits
            (λ q a b.
              let (low, stored, apart) = slot_kept r supply m q v h a b in
              over2.kept (slot r.size_limit q) (omega (arith, stored, v.file.fits, w1.pushed))
                (ground (arith, apart))
              ∙ over1.kept (slot r.size_limit q) (omega (arith, stored, v.file.fits))
                  (ground (arith, apart)))
            (λ i a.
              ap (byte_in d2.frames) (slot_put r supply m i v h a)
              ∙ put_around r buf m d1 d2 i (omega (arith, grown1, w1.valid.fits)) (omega arith) k
                  v.end_le a over1 over2);
      more = refl;
      same_limit = refl;
    }
