-- ===== src/File/Ring/Queue.antt =====
-- A ring buffer is a queue of bytes with a limit: any sequence of reads and writes gives on it what
-- it gives on a list.
use maturin.Prelude.{
  ℕ, ◌-◌, ◌*◌, ◌≤◌, ◌<◌, ◌≡◌, min, usize_mod, length, take, drop, Option, none, some, List, [], ◌∷◌,
  ◌++◌, refl, ap, ap₂, ◌∙◌, sym,
}
use maturin.File.VirtFile.{page_size, Frame, write_at}
use maturin.File.VirtFile.Bytes.{Full, length-range_of}
use maturin.File.Ring
use maturin.File.Ring.{RingBuffer, new}
use maturin.File.Ring.Valid.{content, IsValid, new-IsValid}
use maturin.File.Ring.Read.{read_lem}
use maturin.File.Ring.Write.{write_lem}

-- A call of `read` or `write`, with its buffer.
pub data Call : Type 0 where
  read : List ℕ → Call
  write : List ℕ → Call

-- What a call returns, and the buffer as it leaves it.
abbrev pub Answer : Type 0
Answer = ℕ × List ℕ

unfoldable pub call : RingBuffer → List Frame → Call → Option (Answer × RingBuffer × List Frame)
call self supply (read buf) = elim (Ring.read self buf) [
  | none ↦ none
  | some (n, buf', self') ↦ some ((n, buf'), self', supply)
]
call self supply (write buf) = elim (Ring.write self buf supply) [
  | none ↦ none
  | some (n, self', supply') ↦ some ((n, buf), self', supply')
]

unfoldable pub run :
    RingBuffer → List Frame → List Call → Option (List Answer × RingBuffer × List Frame)
run self supply [] = some ([], self, supply)
run self supply (c ∷ cs) = elim (call self supply c) [
  | none ↦ none
  | some (answer, self', supply') ↦ elim (run self' supply' cs) [
    | none ↦ none
    | some (answers, self'', supply'') ↦ some (answer ∷ answers, self'', supply'')
  ]
]

-- The same calls on a list that holds at most `limit` bytes.
unfoldable pub queue_call : ℕ → List ℕ → Call → Answer × List ℕ
queue_call limit queue (read buf) =
    let n = min (length buf) (length queue) in ((n, write_at buf 0 (take n queue)), drop n queue)
queue_call limit queue (write buf) =
    let n = min (length buf) (limit - length queue) in ((n, buf), queue ++ take n buf)

unfoldable pub queue_run : ℕ → List ℕ → List Call → List Answer × List ℕ
queue_run limit queue [] = ([], queue)
queue_run limit queue (c ∷ cs) =
    let (answer, queue') = queue_call limit queue c in
    let (answers, queue'') = queue_run limit queue' cs in (answer ∷ answers, queue'')

pub length-content : (r : RingBuffer) → length (content r) ≡ r.len
unfolding content
length-content r = length-range_of _ r.head r.len

-- A ring buffer holds the list, and is well formed with the supply.
pub record Holds (limit : ℕ) (queue : List ℕ) (r : RingBuffer) (supply : List Frame) : Type 0 where
  pub valid : IsValid r supply
  pub same : content r ≡ queue
  pub same_limit : r.size_limit ≡ limit

call_lem :
    (limit : ℕ) (queue : List ℕ) (r : RingBuffer) (supply : List Frame) (c : Call)
    → Holds limit queue r supply
    → (r' : RingBuffer) × (rest : List Frame) × (call r supply c
        ≡ some ((queue_call limit queue c).0, r', rest))
      × Holds limit (queue_call limit queue c).1 r' rest
unfolding call queue_call
call_lem limit queue r supply (read buf) h =
    let (r', e, done) = read_lem r buf supply h.valid in
    let n : min (length buf) r.len ≡ min (length buf) (length queue) =
      ap (min (length buf)) (sym (length-content r) ∙ ap length h.same) in
    (
      r',
      supply,
      rw (e, call) (ap₂ (λ m q. some ((m, write_at buf 0 (take m q)), r', supply)) n h.same),
      record {
        valid = done.valid;
        same = done.left ∙ ap₂ drop n h.same;
        same_limit = done.same_limit ∙ h.same_limit;
      },
    )
call_lem limit queue r supply (write buf) h =
    let (r', rest, e, done) = write_lem r buf supply h.valid in
    let n : min (length buf) (r.size_limit - r.len) ≡ min (length buf) (limit - length queue) =
      ap (min (length buf)) (ap₂ ◌-◌ h.same_limit (sym (length-content r) ∙ ap length h.same)) in
    (
      r',
      rest,
      rw (e, call) (ap (λ m. some ((m, buf), r', rest)) n),
      record {
        valid = done.valid;
        same = done.queued ∙ ap₂ (λ m q. q ++ take m buf) n h.same;
        same_limit = done.same_limit ∙ h.same_limit;
      },
    )

pub run-Holds :
    (limit : ℕ) (queue : List ℕ) (r : RingBuffer) (supply : List Frame) (calls : List Call)
    → Holds limit queue r supply
    → (r' : RingBuffer) × (rest : List Frame) × (run r supply calls
        ≡ some ((queue_run limit queue calls).0, r', rest))
      × Holds limit (queue_run limit queue calls).1 r' rest
unfolding run queue_run
run-Holds limit queue r supply [] h = (r, supply, refl, h)
run-Holds limit queue r supply (c ∷ cs) h =
    let (r', rest, e, h') = call_lem limit queue r supply c h in
    let (r'', rest', e', h'') = run-Holds limit (queue_call limit queue c).1 r' rest cs h' in
    (r'', rest', rw (e, e', run) refl, h'')

-- Any sequence of reads and writes on a new ring buffer, with frames for its limit in the supply,
-- runs without a panic and returns the answers, and leaves the bytes, of the same sequence on an
-- empty list with that limit: first in, first out, and no byte lost or changed.
pub run-new :
    (limit : ℕ) (supply : List Frame) (calls : List Call)
    → Full supply
    → limit < usize_mod
    → limit ≤ page_size * length supply
    → (r' : RingBuffer) × (rest : List Frame) × (run (new limit) supply calls
        ≡ some ((queue_run limit [] calls).0, r', rest))
      × (content r' ≡ (queue_run limit [] calls).1)
      × IsValid r' rest
unfolding new content
run-new limit supply calls s h k =
    let (r', rest, e, held) =
      run-Holds limit [] (new limit) supply calls
        (record { valid = new-IsValid limit supply s h k; same = refl; same_limit = refl }) in
    (r', rest, e, held.same, held.valid)
