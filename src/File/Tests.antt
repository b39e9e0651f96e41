-- ===== src/File/Tests.antt =====
-- A file, a ring buffer and a pipe at work on concrete values.
use maturin.Prelude.{
  ℕ, zero, suc, ◌≤◌, ◌≡◌, true, inl, length, take, replicate, some, List, [], ◌∷◌, ◌++◌, refl,
  arith,
}
use maturin.File.VirtFile.{
  page_size, Frame, VirtFileInner, write_inner, read_from_offset, write_to_offset,
}
use maturin.File.VirtFile.Bytes
use maturin.File.VirtFile.Bytes.{Full, byte_in, range_of}
use maturin.File.VirtFile.Spec.{IsWritten, write_inner_lem}
use maturin.File.VirtFile.Offset.{read_from_offset-write_to_offset}
use maturin.File.Ring
use maturin.File.Ring.{RingBuffer}
use maturin.File.Ring.Valid.{IsValid, content}
use maturin.File.Ring.Queue.{Call, run, queue_run, run-new}
use maturin.File.Pipe
use maturin.File.Pipe.{Shared, Others}
use maturin.File.Pipe.Refine.{queue_read, serve, read-queue_read}
use maturin.File.Ring.Queue.{Holds}

-- A frame that holds the bytes of another use.
seven : ℕ
seven = 7

length-replicate : (n : ℕ) → length (replicate n seven) ≡ n
length-replicate zero = refl
length-replicate (suc n) = omega (arith, length-replicate n)

abbrev page : Frame
page = replicate page_size 7

one_page : Full (page ∷ [])
one_page = (length-replicate page_size, tt)

-- Ten bytes in a page, with the position at the fourth.
abbrev ten_bytes : VirtFileInner
ten_bytes = record { frames = page ∷ []; size = 10; pos = 3; flags = 0 }

ten_bytes-IsValid : Bytes.IsValid ten_bytes
ten_bytes-IsValid = record { full = one_page; fits = omega arith; small = omega arith }

write_inner_lem_example :
    (fresh rest : List Frame) × (f' : VirtFileInner) × (page ∷ [] ≡ fresh ++ rest)
    × (write_inner ten_bytes (1 ∷ 2 ∷ []) (page ∷ []) ≡ some (2, f', rest))
    × IsWritten ten_bytes (1 ∷ 2 ∷ []) fresh f'
write_inner_lem_example =
    write_inner_lem ten_bytes (1 ∷ 2 ∷ []) (page ∷ []) ten_bytes-IsValid one_page (omega arith)
      (omega arith)

read_from_offset-write_to_offset_example :
    (f' : VirtFileInner) × (rest : List Frame) × (write_to_offset ten_bytes 4095
        (1 ∷ 2 ∷ [])
        (page ∷ [])
      ≡ some (2, f', rest))
    × (read_from_offset f' 4095 2 ≡ some (1 ∷ 2 ∷ [], f'))
    × (f'.pos ≡ 3)
    × Bytes.IsValid f'
read_from_offset-write_to_offset_example =
    read_from_offset-write_to_offset ten_bytes 4095 1 (2 ∷ []) (page ∷ []) ten_bytes-IsValid
      one_page (omega arith) (omega arith)

-- A ring buffer for ten bytes with three in it.
abbrev three_bytes : RingBuffer
three_bytes = record { data' = ten_bytes; head = 2; end = 5; len = 3; size_limit = 10 }

three_bytes-IsValid : IsValid three_bytes []
three_bytes-IsValid = record {
  file = ten_bytes-IsValid;
  fresh = tt;
  small = omega arith;
  len_le = omega arith;
  head_le = omega arith;
  end_le = omega arith;
  held = inl (omega arith, omega arith);
  room = omega arith;
}

abbrev calls : List Call
calls = Call.write (1 ∷ 2 ∷ 3 ∷ []) ∷ Call.read (0 ∷ 0 ∷ []) ∷ Call.write (4 ∷ 5 ∷ 6 ∷ []) ∷ []

run-new_example :
    (r' : RingBuffer) × (rest : List Frame) × (run (Ring.new 4) (page ∷ []) calls
      ≡ some ((queue_run 4 [] calls).0, r', rest))
    × (content r' ≡ (queue_run 4 [] calls).1)
    × IsValid r' rest
run-new_example = run-new 4 (page ∷ []) calls one_page (omega arith) (omega arith)

queue_run-calls :
    queue_run 4 [] calls
    ≡ ((3, 1 ∷ 2 ∷ 3 ∷ []) ∷ (2, 1 ∷ 2 ∷ []) ∷ (3, 4 ∷ 5 ∷ 6 ∷ []) ∷ [], 3 ∷ 4 ∷ 5 ∷ 6 ∷ [])
unfolding queue_run maturin.File.Ring.Queue.queue_call
queue_run-calls = refl

abbrev shared : Shared
shared = record { data' = three_bytes; supply = []; strong_count = 2 }

abbrev writers : Others
writers i = (Call.write (8 ∷ 9 ∷ []) ∷ [], 2)

shared-Holds : Holds 10 (content three_bytes) three_bytes []
shared-Holds = record { valid = three_bytes-IsValid; same = refl; same_limit = refl }

read-queue_read_example :
    (n : ℕ) × (buf' : List ℕ) × (shared' : Shared) × (Pipe.read true writers shared (replicate 8 0)
      ≡ some (some n, buf', shared'))
    × (length buf' ≡ 8)
    × (n ≤ 8)
    × ((take n buf', content shared'.data')
        ≡ queue_read 10 8 2 writers 2 (serve 8 ([], content three_bytes)))
    × Holds 10 (content shared'.data') shared'.data' shared'.supply
read-queue_read_example =
    read-queue_read 10 (content three_bytes) writers shared (replicate 8 0) shared-Holds

-- From a queue of three bytes, with two that are written in each wait, a read of eight takes seven.
queue_read-waits :
    queue_read 10 8 2 writers 2 (serve 8 ([], 1 ∷ 2 ∷ 3 ∷ []))
    ≡ (1 ∷ 2 ∷ 3 ∷ 8 ∷ 9 ∷ 8 ∷ 9 ∷ [], [])
unfolding queue_read serve queue_run maturin.File.Ring.Queue.queue_call
queue_read-waits = refl
