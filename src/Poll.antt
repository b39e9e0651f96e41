-- ===== src/Poll.antt =====
-- modules/poll, modules/select and modules/epoll: waiting for files. The calls look at their files
-- again and again, with the task suspended in between: what the files are and how they are ready at
-- the turn `i`, and the clock then, are arguments. `none` is fuel that has run out.
pub mod Loop
pub mod Epoll
pub mod Select
pub mod Waits
pub mod Tests
use maturin.Prelude.{
  ℕ, zero, suc, ◌+◌, ◌-◌, ◌%◌, ◌==◌, ◌&&◌, Bool, true, false, not, ltb, if◌then◌else◌, List, [],
  ◌∷◌, Option, none, some, usize_mod,
}
use maturin.Signal.Bitset.{contain_bit, add_bit}

-- What the trait `File` says of a file at one moment.
pub record Readiness : Type 0 where
  pub ready_to_read : Bool
  pub ready_to_write : Bool
  pub is_hang_up : Bool
  pub in_exceptional_conditions : Bool

-- The default methods of the trait.
unfoldable pub default_file : Readiness
default_file = record {
  ready_to_read = true;
  ready_to_write = true;
  is_hang_up = false;
  in_exceptional_conditions = false;
}

abbrev add_if : Bool → ℕ → ℕ → ℕ
add_if b k events = if b then add_bit events k else events

-- Events are the bits of a number: `IN` is the bit 0, `OUT` 2, `ERR` 3 and `HUP` 4, for `PollEvents` and
-- for `EpollEventType`.
unfoldable pub poll : Readiness → ℕ → ℕ
poll file events =
    let err = add_if file.in_exceptional_conditions 3 0 in
    let hup = add_if file.is_hang_up 4 err in
    let input = add_if (contain_bit events 0 && file.ready_to_read) 0 hup in
    add_if (contain_bit events 2 && file.ready_to_write) 2 input

-- `ERR` alone.
abbrev pub err : ℕ
err = 8

-- The loop of the three calls: a round looks at the files and counts what it finds.
module _ {S : Type 0} (round : ℕ → S → ℕ × S) (expired : ℕ → Bool) where
  unfoldable pub wait : ℕ → ℕ → S → Option (ℕ × S)
  wait zero i s = none
  wait (suc n) i s =
      let rest = wait n (i + 1) (round i s).1 in
      if ltb 0 (round i s).0
      then some (round i s)
      else if expired i
      then some (0, (round i s).1)
      else rest

-- `fd` is an `i32`, by its bits as a `usize`.
pub record PollFd : Type 0 where
  pub fd : ℕ
  pub events : ℕ
  pub revents : ℕ

-- What is at a descriptor, at a turn.
abbrev pub Files : Type 0
Files = ℕ → ℕ → Option Readiness

abbrev pub events_of : Option Readiness → ℕ → ℕ
events_of none events = err
events_of (some file) events = poll file events

abbrev pub one_if : Bool → ℕ
one_if b = if b then 1 else 0

abbrev counted : {A : Type 0} → ℕ → A → ℕ × List A → ℕ × List A
counted n a (set, rest) = (n + set, a ∷ rest)

-- The `for` loop of `ppoll`.
unfoldable pub poll_round : Files → ℕ → List PollFd → ℕ × List PollFd
poll_round files i [] = (0, [])
poll_round files i (req_fd ∷ fds) =
    let revents = events_of (files i req_fd.fd) req_fd.events in
    counted (one_if (not (revents == 0))) (record req_fd { revents = revents })
      (poll_round files i fds)

unfoldable pub ppoll : Files → (ℕ → ℕ) → ℕ → ℕ → List PollFd → Option (ℕ × List PollFd)
ppoll files clock expire_time fuel fds =
    wait (poll_round files) (λ i. ltb expire_time (clock i)) fuel 0 fds

-- The time when a call gives up: the ticks of the timeout from now on, or the last of a `usize`.
unfoldable pub expire_at : ℕ → Option ℕ → ℕ
expire_at now none = usize_mod - 1
expire_at now (some ticks) = (now + ticks) % usize_mod

-- `EFAULT`, `EINVAL`, `EBADF`, `EEXIST`, `ENOENT` and `EAGAIN`.
pub data ErrorNo : Type 0 where
  efault : ErrorNo
  einval : ErrorNo
  ebadf : ErrorNo
  eexist : ErrorNo
  enoent : ErrorNo
  eagain : ErrorNo

pub data Result (A : Type 0) : Type 0 where
  ok : A → Result A
  failed : ErrorNo → Result A

-- `requests` are what stands at `ufds`, where the user may read and write it; the list that is
-- returned is written back there.
abbrev pub fine : {A : Type 0} → Option A → Option (Result A)
fine none = none
fine (some a) = some (ok a)

-- The timeout is `none` where no address is given, and `some none` where the address is bad.
unfoldable pub sys_ppoll :
    Files
    → (ℕ → ℕ)
    → ℕ
    → ℕ
    → Option (List PollFd)
    → Option (Option ℕ)
    → Option (Result (ℕ × List PollFd))
sys_ppoll files clock now fuel none timeout = some (failed efault)
sys_ppoll files clock now fuel (some requests) (some none) = some (failed efault)
sys_ppoll files clock now fuel (some requests) (some (some ticks)) =
    fine (ppoll files clock (expire_at now (some ticks)) fuel requests)
sys_ppoll files clock now fuel (some requests) none =
    fine (ppoll files clock (expire_at now none) fuel requests)
