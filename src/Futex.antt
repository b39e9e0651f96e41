-- ===== src/Futex.antt =====
-- kernel/src/syscall/futex/waiting_board.rs and waiter.rs: the threads that wait to be woken. `now`
-- is `get_time_us()` at the call. The only waiter is `FutexWaiter`.
pub mod Board
pub mod Tests
use maturin.Prelude.{
  ℕ, ◌+◌, ◌-◌, Bool, true, false, leb, ◌||◌, if◌then◌else◌, usize_mod, length, set, Option, none,
  some, List,
}
use maturin.Fd.{file_at, resize}

pub record FutexWaiter : Type 0 where
  pub timed_out_us : ℕ
  pub woken : Bool

unfoldable pub new : Option ℕ → FutexWaiter
new none = record { timed_out_us = usize_mod - 1; woken = false }
new (some us) = record { timed_out_us = us; woken = false }

unfoldable pub wake : FutexWaiter → FutexWaiter
wake self = record self { woken = true }

unfoldable pub is_woken : ℕ → FutexWaiter → Bool
is_woken now self = self.woken || leb self.timed_out_us now

-- `WAITING_BOARD`, by thread.
abbrev pub Board : Type 0
Board = List (Option FutexWaiter)

unfoldable pub set_waiter_for_thread : Board → ℕ → FutexWaiter → Board
set_waiter_for_thread board tid waiter =
    set (if leb (length board) tid then resize board (tid + 1) else board) tid (some waiter)

-- Whether the thread is blocked; a waiter that is woken is taken off the board.
unfoldable pub check_thread_blocked : ℕ → Board → ℕ → Bool × Board
check_thread_blocked now board tid = elim (file_at board tid) [
  | none ↦ (false, board)
  | some waiter ↦ if is_woken now waiter then (false, set board tid none) else (true, board)
]

-- Whether the thread has a waiter.
unfoldable pub wake_thread : Board → ℕ → Bool × Board
wake_thread board tid = elim (file_at board tid) [
  | none ↦ (false, board)
  | some waiter ↦ (true, set board tid (some (wake waiter)))
]
