-- ===== src/Futex/Board.antt =====
-- Waiting, waking and timing out, thread by thread.
use maturin.Prelude.{
  ℕ, ◌-◌, ◌≡◌, Bool, true, false, not, ltb, ◌==◌, if◌then◌else◌, usize_mod, ap, ◌∙◌, Option, none,
  some, Option-cases, Bool-cases, inl, inr, arith,
}
use maturin.Fd.{file_at}
use maturin.Fd.Table.{file_at-put, file_at-set, file_at-length}
use maturin.Futex.{
  FutexWaiter, Board, new, wake, is_woken, set_waiter_for_thread, check_thread_blocked, wake_thread,
}

-- Whether a thread that has this on the board is blocked.
abbrev pub is_blocked : ℕ → Option FutexWaiter → Bool
is_blocked now none = false
is_blocked now (some waiter) = not (is_woken now waiter)

-- `check_thread_blocked` says whether the thread has a waiter that is neither woken nor past its
-- time; it takes the waiter off the board where it says that it is not blocked, and leaves every
-- other thread's.
pub check_thread_blocked_lem :
    (now : ℕ) (board : Board) (tid : ℕ)
    → ((check_thread_blocked now board tid).0 ≡ is_blocked now (file_at board tid))
      × ((j : ℕ)
          → file_at (check_thread_blocked now board tid).1 j ≡ (
              if j == tid
              then (if is_blocked now (file_at board tid) then file_at board tid else none)
              else file_at board j))
unfolding check_thread_blocked
check_thread_blocked_lem now board tid = elim (Option-cases (file_at board tid)) [
  | inl nothing ↦ (ground (arith, nothing), λ j. ground (arith, nothing))
  | inr (waiter, there) ↦
      let len = file_at-length board tid waiter there in
      elim (Bool-cases (is_woken now waiter)) [
        | inl up ↦ (
          ground (arith, there, up),
          λ j. ground (arith, there, up, file_at-set board tid none j len),
        )
        | inr waits ↦ (ground (arith, there, waits), λ j. ground (arith, there, waits))
      ]
]

-- After `set_waiter_for_thread` with a new waiter the thread is blocked until its time, which is
-- the last of a `usize` where none is given; a thread that is woken is not blocked at any time, and
-- neither call touches another thread.
pub wake_thread-set_waiter_for_thread :
    (now : ℕ) (board : Board) (tid : ℕ) (timed_out : Option ℕ)
    → ((check_thread_blocked now (set_waiter_for_thread board tid (new timed_out)) tid).0
        ≡ elim timed_out [ none ↦ ltb now (usize_mod - 1) | some us ↦ ltb now us ])
      × ((wake_thread (set_waiter_for_thread board tid (new timed_out)) tid).0 ≡ true)
      × ((check_thread_blocked now
            (wake_thread (set_waiter_for_thread board tid (new timed_out)) tid).1
            tid).0
          ≡ false)
      × ((j : ℕ)
          → file_at (wake_thread (set_waiter_for_thread board tid (new timed_out)) tid).1 j
            ≡ (if j == tid then some (wake (new timed_out)) else file_at board j))
unfolding set_waiter_for_thread wake_thread wake is_woken new
wake_thread-set_waiter_for_thread now board tid timed_out =
    let waiting = set_waiter_for_thread board tid (new timed_out) in
    let put = file_at-put board tid (some (new timed_out)) in
    let there : file_at waiting tid ≡ some (new timed_out) = ground (arith, put tid) in
    let len = file_at-length waiting tid (new timed_out) there in
    let woken = file_at-set waiting tid (some (wake (new timed_out))) in
    let after : file_at (wake_thread waiting tid).1 tid ≡ some (wake (new timed_out)) =
      ground (arith, there, woken tid len) in
    (
      (check_thread_blocked_lem now waiting tid).0
          ∙ ap (is_blocked now) there
          ∙ until now timed_out,
      ground (arith, there),
      (check_thread_blocked_lem now (wake_thread waiting tid).1 tid).0 ∙ ap (is_blocked now) after,
      λ j. ground (arith, there, woken j len, put j),
    )
  where
    until :
        (now : ℕ) (timed_out : Option ℕ)
        → is_blocked now (some (new timed_out))
          ≡ elim timed_out [ none ↦ ltb now (usize_mod - 1) | some us ↦ ltb now us ]
    until now none = ground arith
    until now (some us) = ground arith
