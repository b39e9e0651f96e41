-- ===== src/File/Ring/Over.antt =====
-- The bytes in the file before and after a write behind the queue.
use maturin.Prelude.{
  ℕ, ◌+◌, ◌-◌, ◌*◌, ◌≤◌, ◌<◌, ◌≡◌, ◌⊎◌, inl, inr, ltb, if◌then◌else◌, length, get_or, take,
  length-take, get_or-take, List, [], ◌∷◌, ◌++◌, sym, ap, ap₂, ◌∙◌, arith,
}
use maturin.File.VirtFile.{page_size, Frame, VirtFileInner}
use maturin.File.VirtFile.Bytes.{
  Full, byte_in, range_of, range_of_add, range_of-ext, range_of_shift, take-drop_range,
}
use maturin.File.VirtFile.Write.{byte_in-append}
use maturin.File.VirtFile.Spec.{IsWritten}
use maturin.File.Ring.{RingBuffer}
use maturin.File.Ring.Valid.{slot, IsValid}

-- The bytes that the first `n` of a buffer are written over, and the others.
pub record IsOver (old : VirtFileInner) (buf : List ℕ) (n : ℕ) (f : VirtFileInner) : Type 0 where
  pub put : (i : ℕ) → i < n → byte_in f.frames (old.pos + i) ≡ get_or buf i 0
  pub kept :
      (q : ℕ)
      → q < page_size * length old.frames
      → (q < old.pos) ⊎ (old.pos + n ≤ q)
      → byte_in f.frames q ≡ byte_in old.frames q

pub length_of_take : (n : ℕ) (buf : List ℕ) → n ≤ length buf → length (take n buf) ≡ n
length_of_take n buf h = omega (arith, length-take n buf)

pub IsWritten-IsOver :
    (old f : VirtFileInner) (buf : List ℕ) (n : ℕ) (fresh : List Frame)
    → n ≤ length buf
    → IsWritten old (take n buf) fresh f
    → IsOver old buf n f
IsWritten-IsOver old f buf n fresh h w =
    let len = length_of_take n buf h in
    record {
      put = λ i a. ground (arith, len, w.bytes (old.pos + i), at i, get_or-take n i buf 0 a);
      kept = λ q a b. ground (arith, len, w.bytes q, b, byte_in-append old.frames fresh q a);
    }
  where
    at : (i : ℕ) → get_or (take n buf) (old.pos + i - old.pos) 0 ≡ get_or (take n buf) i 0
    at i = let e : old.pos + i - old.pos ≡ i = omega arith in ap (λ j. get_or (take n buf) j 0) e

-- A queue with bytes behind it.
pub push_range :
    (g g' : ℕ → ℕ) (head len m : ℕ) (buf : List ℕ)
    → m ≤ length buf
    → ((q : ℕ) → head ≤ q → q < head + len → g' q ≡ g q)
    → ((i : ℕ) → i < m → g' (head + len + i) ≡ get_or buf i 0)
    → range_of g' head (len + m) ≡ range_of g head len ++ take m buf
push_range g g' head len m buf h kept put =
    range_of_add g' head len m
    ∙ ap₂ ◌++◌ (range_of-ext g' g head len kept) (
        let start : head + len ≡ 0 + (head + len) = omega arith in
        ap (λ i. range_of g' i m) start
        ∙ sym (range_of_shift g' 0 (head + len) m)
        ∙ range_of-ext (λ q. g' (q + (head + len))) (λ q. get_or buf q 0) 0 m
            (λ q a b.
              let e : q + (head + len) ≡ head + len + q = omega arith in
              ap g' e ∙ put q (omega arith))
        ∙ sym (take-drop_range 0 0 m buf (omega arith)))

pub Full-rest : (xs ys : List Frame) → Full (xs ++ ys) → Full ys
Full-rest [] ys f = f
Full-rest (x ∷ xs) ys f = Full-rest xs ys f.1

-- Where the bytes that are queued stand, next to the `m` places behind them.
pub slot_kept :
    (r : RingBuffer) (supply : List Frame) (m q : ℕ)
    → IsValid r supply
    → m ≤ r.size_limit - r.len
    → r.head ≤ q
    → q < r.head + r.len
    → (slot r.size_limit q < r.size_limit)
      × (slot r.size_limit q < r.data'.size)
      × (((slot r.size_limit q < r.end) × (r.end + m ≤ slot r.size_limit q + r.size_limit))
          ⊎ (r.end + m ≤ slot r.size_limit q))
unfolding slot
slot_kept r supply m q v h a b = elim v.held [
  | inl straight ↦ (
    ground (arith, straight, v.end_le),
    ground (arith, straight, v.end_le),
    inl (
      ground (arith, straight, v.end_le, v.len_le),
      ground (arith, straight, v.end_le, v.len_le),
    ),
  )
  | inr wrapped ↦ ground (arith, wrapped, v.end_le, v.head_le, v.len_le)
]

pub slot_put :
    (r : RingBuffer) (supply : List Frame) (m i : ℕ)
    → IsValid r supply
    → m ≤ r.size_limit - r.len
    → i < m
    → slot r.size_limit (r.head + r.len + i)
      ≡ (if ltb (r.end + i) r.size_limit then r.end + i else r.end + i - r.size_limit)
unfolding slot
slot_put r supply m i v h a = elim v.held [
  | inl straight ↦ ground (arith, straight)
  | inr wrapped ↦ ground (arith, wrapped, v.end_le, v.head_le, v.len_le)
]
