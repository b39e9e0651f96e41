-- ===== src/Futex/Tests.antt =====
-- A board on which the third thread waits.
use maturin.Prelude.{ℕ, ◌≡◌, true, false, ltb, ◌==◌, if◌then◌else◌, none, some, [], ◌∷◌}
use maturin.Fd.{file_at}
use maturin.Futex.{Board, new, wake, set_waiter_for_thread, check_thread_blocked, wake_thread}
use maturin.Futex.Board.{wake_thread-set_waiter_for_thread}

abbrev board : Board
board = none ∷ none ∷ some (record { timed_out_us = 900; woken = false }) ∷ []

wake_thread-set_waiter_for_thread_example :
    ((check_thread_blocked 950 (set_waiter_for_thread board 5 (new (some 1000))) 5).0
      ≡ ltb 950 1000)
    × ((wake_thread (set_waiter_for_thread board 5 (new (some 1000))) 5).0 ≡ true)
    × ((check_thread_blocked 950
          (wake_thread (set_waiter_for_thread board 5 (new (some 1000))) 5).1
          5).0
        ≡ false)
    × ((j : ℕ)
        → file_at (wake_thread (set_waiter_for_thread board 5 (new (some 1000))) 5).1 j
          ≡ (if j == 5 then some (wake (new (some 1000))) else file_at board j))
wake_thread-set_waiter_for_thread_example =
    wake_thread-set_waiter_for_thread 950 board 5 (some 1000)
