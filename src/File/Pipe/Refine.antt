-- ===== src/File/Pipe/Refine.antt =====
-- `read` on a pipe's reading end does what it does on a list, whatever the other tasks do.
use maturin.Prelude.{
  ℕ, zero, suc, ◌+◌, ◌-◌, ◌≤◌, ◌≡◌, min, true, ltb, ◌==◌, ◌&&◌, if◌then◌else◌, length, take, drop,
  length-append, length-take, length-drop, Bool-cases, inl, inr, some, List, [], ◌∷◌, ◌++◌, refl,
  sym, subst, ap, ap₂, ◌∙◌, arith,
}
use maturin.File.VirtFile.{write_at}
use maturin.File.VirtFile.Bytes.{length-write_at}
use maturin.File.Ring.Read.{read_lem}
use maturin.File.Ring.Queue.{queue_run, Holds, run-Holds, length-content}
use maturin.File.Ring.Valid.{content}
use maturin.File.Pipe.{Shared, Others, suspend_current_task, read_once, read_loop, read}

take_more {ℓ} :
    {A : Type ℓ} (a m : ℕ) (xs ys : List A)
    → a ≤ length xs
    → take (a + m) (take a xs ++ ys) ≡ take a xs ++ take m ys
take_more zero m xs ys h = let e : 0 + m ≡ m = omega arith in ap (λ i. take i ys) e
take_more (suc a) m [] ys h = absurd (omega arith)
take_more (suc a) m (x ∷ xs) ys h =
    let e : suc a + m ≡ suc (a + m) = omega arith in
    ap (λ i. take i (x ∷ (take a xs ++ ys))) e ∙ ap (λ r. x ∷ r) (take_more a m xs ys (omega arith))

take-write_at :
    (m : ℕ) (xs src : List ℕ) → length src ≡ m → m ≤ length xs → take m (write_at xs 0 src) ≡ src
take-write_at zero xs [] e h = refl
take-write_at zero xs (b ∷ src) e h = absurd (omega (arith, e))
take-write_at (suc m) [] src e h = absurd (omega arith)
take-write_at (suc m) (x ∷ xs) [] e h = absurd (omega (arith, e))
take-write_at (suc m) (x ∷ xs) (b ∷ src) e h =
    ap (λ r. b ∷ r) (take-write_at m xs src (omega (arith, e)) (omega arith))

-- The bytes that a call has so far, and the queue.
abbrev pub Progress : Type 0
Progress = List ℕ × List ℕ

-- The oldest bytes of the queue, as many as a buffer for `len` bytes still takes.
unfoldable pub serve : ℕ → Progress → Progress
serve len (got, queue) =
    let m = min (len - length got) (length queue) in (got ++ take m queue, drop m queue)

-- While bytes are missing and there are two ends, the others have their turn on the queue, which
-- holds at most `limit` bytes, and what they leave is served; at most `left` times.
unfoldable pub queue_read : ℕ → ℕ → ℕ → Others → ℕ → Progress → Progress
queue_read limit len zero others ends (got, queue) = (got, queue)
queue_read limit len (suc left) others ends (got, queue) =
    let (calls, ends') = others left in
    let rest =
      queue_read limit len left others ends' (serve len (got, (queue_run limit queue calls).1)) in
    if ltb (length got) len && ends == 2 then rest else (got, queue)

-- The call has read `n` bytes, the front of its buffer, and the ring buffer holds the queue.
record Reads (limit len : ℕ) (progress : Progress) (shared : Shared) (buf : List ℕ) (n : ℕ)
    : Type 0 where
  holds : Holds limit progress.1 shared.data' shared.supply
  bytes : take n buf ≡ progress.0
  total : n ≡ length progress.0
  fits : n ≤ length buf
  whole : length buf ≡ len

read_once-serve :
    (limit len : ℕ) (got queue : List ℕ) (shared : Shared) (buf : List ℕ) (n : ℕ)
    → Reads limit len (got, queue) shared buf n
    → (n' : ℕ) × (buf' : List ℕ) × (shared' : Shared) × (read_once shared buf n
        ≡ some (n', buf', shared'))
      × (shared'.strong_count ≡ shared.strong_count)
      × Reads limit len (serve len (got, queue)) shared' buf' n'
unfolding read_once serve
read_once-serve limit len got queue shared buf n h =
    let r = shared.data' in
    let (r', e, done) = read_lem r (drop n buf) shared.supply h.holds.valid in
    let m = min (length (drop n buf)) r.len in
    let bytes = take m (content r) in
    let room = length-drop n buf in
    let long : length queue ≡ r.len = ap length (sym h.holds.same) ∙ length-content r in
    let served : m ≡ min (len - length got) (length queue) =
      omega (arith, room, long, h.whole, h.total) in
    let sized : length bytes ≡ m = omega (arith, length-take m (content r), length-content r) in
    let front : length (take n buf) ≡ n = omega (arith, length-take n buf, h.fits) in
    let buf' = take n buf ++ write_at (drop n buf) 0 bytes in
    let same : length buf' ≡ length buf = omega (
      arith,
      front,
      room,
      h.fits,
      length-append (take n buf) (write_at (drop n buf) 0 bytes),
      length-write_at (drop n buf) 0 bytes,
    ) in
    let taken : take (n + m) buf' ≡ take n buf ++ bytes =
      take_more n m buf (write_at (drop n buf) 0 bytes) h.fits
      ∙ ap (λ q. take n buf ++ q) (take-write_at m (drop n buf) bytes sized (omega arith)) in
    let all : take n buf ++ bytes ≡ got ++ take (min (len - length got) (length queue)) queue =
      ap₂ ◌++◌ h.bytes (ap₂ take served h.holds.same) in
    (
      n + m,
      buf',
      record shared { data' = r' },
      rw (e, read_once) refl,
      refl,
      record {
        holds = record {
          valid = done.valid;
          same = done.left ∙ ap₂ drop served h.holds.same;
          same_limit = done.same_limit ∙ h.holds.same_limit;
        };
        bytes = taken ∙ all;
        total = omega (arith, sized, front, length-append (take n buf) bytes) ∙ ap length all;
        fits = omega (arith, same, room, h.fits);
        whole = same ∙ h.whole;
      },
    )

read_loop-queue_read :
    (limit len left : ℕ) (others : Others) (got queue : List ℕ) (shared : Shared) (buf : List ℕ)
    (n : ℕ)
    → Reads limit len (got, queue) shared buf n
    → (n' : ℕ) × (buf' : List ℕ) × (shared' : Shared) × (read_loop left others shared buf n
        ≡ some (n', buf', shared'))
      × Reads limit len
          (queue_read limit len left others shared.strong_count (got, queue))
          shared'
          buf'
          n'
unfolding read_loop queue_read suspend_current_task
read_loop-queue_read limit len zero others got queue shared buf n h = (n, buf, shared, refl, h)
read_loop-queue_read limit len (suc left) others got queue shared buf n h =
    let same : (ltb n (length buf) && shared.strong_count == 2)
        ≡ (ltb (length got) len && shared.strong_count == 2) =
      ap₂ (λ a b. ltb a b && shared.strong_count == 2) h.total h.whole in
    elim (Bool-cases (ltb (length got) len && shared.strong_count == 2)) [
      | inr done ↦ (n, buf, shared, rw (same, done) refl, rw done h)
      | inl again ↦
          let (data', supply, ran, held) =
            run-Holds limit queue shared.data' shared.supply (others left).0 h.holds in
          let shared1 : Shared = record {
            data' = data';
            supply = supply;
            strong_count = (others left).1;
          } in
          let waited : suspend_current_task others left shared ≡ some shared1 =
            rw (ran, suspend_current_task) refl in
          let (n1, buf1, shared2, once, ends, h1) =
            read_once-serve limit len got (queue_run limit queue (others left).0).1 shared1 buf n
              (record {
                holds = held;
                bytes = h.bytes;
                total = h.total;
                fits = h.fits;
                whole = h.whole;
              }) in
          let progress = serve len (got, (queue_run limit queue (others left).0).1) in
          let (n2, buf2, shared3, later, h2) =
            read_loop-queue_read limit len left others progress.0 progress.1 shared2 buf1 n1 h1 in
          (
            n2,
            buf2,
            shared3,
            rw (same, again, waited, once) later,
            rw again (
                subst
                  (λ c.
                    Reads limit len (queue_read limit len left others c progress) shared3 buf2 n2)
                  ends h2),
          )
    ]

-- `read` on the reading end of a pipe whose ring buffer holds the list `queue`, with a limit, does
-- not panic. What it returns and what it leaves queued are what the list gives: as many of its oldest
-- bytes as fit in the buffer, and then, for at most two waits, as many as fit of what the calls of
-- the other tasks, run on the list, leave in it. A wait begins only where bytes are missing and the
-- pipe has two ends. The other tasks may read and write as they like.
pub read-queue_read :
    (limit : ℕ) (queue : List ℕ) (others : Others) (shared : Shared) (buf : List ℕ)
    → Holds limit queue shared.data' shared.supply
    → (n : ℕ) × (buf' : List ℕ) × (shared' : Shared) × (read true others shared buf
        ≡ some (some n, buf', shared'))
      × (length buf' ≡ length buf)
      × (n ≤ length buf)
      × ((take n buf', content shared'.data')
          ≡ queue_read limit
              (length buf)
              2
              others
              shared.strong_count
              (serve (length buf) ([], queue)))
      × Holds limit (content shared'.data') shared'.data' shared'.supply
unfolding read
read-queue_read limit queue others shared buf h =
    let len = length buf in
    let (n1, buf1, shared1, once, ends, h1) =
      read_once-serve limit len [] queue shared buf 0
        (record { holds = h; bytes = refl; total = refl; fits = omega arith; whole = refl }) in
    let first = serve len ([], queue) in
    let (n2, buf2, shared2, later, h2) =
      read_loop-queue_read limit len 2 others first.0 first.1 shared1 buf1 n1 h1 in
    (
      n2,
      buf2,
      shared2,
      rw (once, later, read) refl,
      h2.whole,
      omega (arith, h2.fits, h2.whole),
      subst (λ c. (take n2 buf2, content shared2.data') ≡ queue_read limit len 2 others c first)
          ends (ap₂ (λ a b. (a, b)) h2.bytes h2.holds.same),
      record { valid = h2.holds.valid; same = refl; same_limit = h2.holds.same_limit },
    )
