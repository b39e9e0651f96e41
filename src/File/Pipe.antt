-- ===== src/File/Pipe.antt =====
-- kernel/src/file/pipe.rs: `Pipe`, an end of a pipe. While a call waits, other tasks run: what they
-- do to the ring buffer before the task is switched back is given, for each wait, as the calls that
-- they make on it, with the number of ends that there are then (`Arc::strong_count`).
pub mod Refine
use maturin.Prelude.{
  ℕ, zero, suc, ◌+◌, ◌-◌, Bool, not, ltb, ◌==◌, ◌&&◌, if◌then◌else◌, length, take, drop, Option,
  none, some, List, ◌++◌,
}
use maturin.File.VirtFile.{Frame}
use maturin.File.Ring
use maturin.File.Ring.{RingBuffer, is_empty, is_full}
use maturin.File.Ring.Queue.{Call, run}

abbrev pub pipe_size_limit : ℕ
pipe_size_limit = 0x40000

-- The ring buffer that both ends share, the frames that are free, and the number of ends.
pub record Shared : Type 0 where
  pub data' : RingBuffer
  pub supply : List Frame
  pub strong_count : ℕ

-- What happens during the waits of a call, by the number of the waits that are still allowed.
abbrev pub Others : Type 0
Others = ℕ → List Call × ℕ

unfoldable pub suspend_current_task : Others → ℕ → Shared → Option Shared
suspend_current_task others i shared = elim (run shared.data' shared.supply (others i).0) [
  | none ↦ none
  | some (_, data', supply) ↦
      some (record { data' = data'; supply = supply; strong_count = (others i).1 })
]

-- `read_len += self.data.lock().read(&mut buf[read_len..])`
unfoldable pub read_once : Shared → List ℕ → ℕ → Option (ℕ × List ℕ × Shared)
read_once shared buf read_len = elim (Ring.read shared.data' (drop read_len buf)) [
  | none ↦ none
  | some (n, rest, data') ↦
      some (read_len + n, take read_len buf ++ rest, record shared { data' = data' })
]

-- The loop of `read`, which waits at most twice: `left` is `2 - cnt`.
unfoldable pub read_loop : ℕ → Others → Shared → List ℕ → ℕ → Option (ℕ × List ℕ × Shared)
read_loop zero others shared buf read_len = some (read_len, buf, shared)
read_loop (suc left) others shared buf read_len =
    if ltb read_len (length buf) && shared.strong_count == 2
    then (elim (suspend_current_task others left shared) [
      | none ↦ none
      | some shared' ↦ elim (read_once shared' buf read_len) [
        | none ↦ none
        | some (n, buf', shared'') ↦ read_loop left others shared'' buf' n
      ]
    ])
    else some (read_len, buf, shared)

-- The number of bytes read is `none` on the end that is not for reading.
unfoldable pub read : Bool → Others → Shared → List ℕ → Option (Option ℕ × List ℕ × Shared)
read is_read others shared buf =
    if is_read
    then (elim (read_once shared buf 0) [
      | none ↦ none
      | some (n, buf', shared') ↦ elim (read_loop 2 others shared' buf' n) [
        | none ↦ none
        | some (n', buf'', shared'') ↦ some (some n', buf'', shared'')
      ]
    ])
    else some (none, buf, shared)

unfoldable pub write_once : Shared → List ℕ → ℕ → Option (ℕ × Shared)
write_once shared buf write_len =
    elim (Ring.write shared.data' (drop write_len buf) shared.supply) [
      | none ↦ none
      | some (n, data', supply) ↦
          some (write_len + n, record shared { data' = data'; supply = supply })
    ]

unfoldable pub write_loop : ℕ → Others → Shared → List ℕ → ℕ → Option (ℕ × Shared)
write_loop zero others shared buf write_len = some (write_len, shared)
write_loop (suc left) others shared buf write_len =
    if ltb write_len (length buf) && shared.strong_count == 2
    then (elim (suspend_current_task others left shared) [
      | none ↦ none
      | some shared' ↦ elim (write_once shared' buf write_len) [
        | none ↦ none
        | some (n, shared'') ↦ write_loop left others shared'' buf n
      ]
    ])
    else some (write_len, shared)

unfoldable pub write : Bool → Others → Shared → List ℕ → Option (Option ℕ × Shared)
write is_read others shared buf =
    if is_read then some (none, shared) else (elim (write_once shared buf 0) [
      | none ↦ none
      | some (n, shared') ↦ elim (write_loop 2 others shared' buf n) [
        | none ↦ none
        | some (n', shared'') ↦ some (some n', shared'')
      ]
    ])

unfoldable pub ready_to_read : Bool → Shared → Bool
ready_to_read is_read shared = is_read && not (is_empty shared.data')

unfoldable pub ready_to_write : Bool → Shared → Bool
ready_to_write is_read shared = not is_read && not (is_full shared.data')

unfoldable pub is_hang_up : Bool → Shared → Bool
is_hang_up is_read shared =
    if is_read
    then is_empty shared.data' && ltb shared.strong_count 2
    else ltb shared.strong_count 2
