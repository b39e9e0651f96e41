-- ===== src/Poll/Tests.antt =====
-- Waiting for files, on concrete values: at the descriptor 3 a file that can be read from the turn 2 on.
use maturin.Prelude.{
  ℕ, ◌+◌, ◌≡◌, ◌==◌, inl, false, leb, if◌then◌else◌, List, [], ◌∷◌, none, some, refl, arith,
}
use maturin.Signal.Bitset.{contain_bit, add_bit}
use maturin.Poll.{Files, Readiness, PollFd, ppoll, poll}
use maturin.Poll.Loop.{answers, answered, ppoll-NoneYet}
use maturin.Poll.Epoll.{
  EpollEvent, Interest, add, get, epoll_ctl, epoll_ctl_lem, error_of, list_of, refused, intended,
  is_there, Sorted,
}
use maturin.Poll.Select.{Words, Watch, select, mark_all, is_valid}
use maturin.Poll.Waits.{select-NoneReady, total}

abbrev quiet_until_2 : ℕ → Readiness
quiet_until_2 i = record {
  ready_to_read = leb 2 i;
  ready_to_write = false;
  is_hang_up = false;
  in_exceptional_conditions = false;
}

abbrev files : Files
files i fd = if fd == 3 then some (quiet_until_2 i) else none

abbrev requests : List PollFd
requests = record { fd = 3; events = 1; revents = 0 } ∷ []

abbrev clock : ℕ → ℕ
clock i = i

ppoll-NoneYet_example :
    ppoll files clock 100 (2 + 1) requests
    ≡ some (answers files 2 requests, answered files 2 requests)
unfolding poll contain_bit add_bit
ppoll-NoneYet_example =
    ppoll-NoneYet files clock 100 2 0 requests (refl, refl, (refl, refl, tt)) (inl (omega arith))

abbrev event : EpollEvent
event = record { events = 1; data' = 77 }

abbrev interest : Interest
interest = (3, event) ∷ (5, event) ∷ []

epoll_ctl_lem_example :
    (error_of (epoll_ctl interest add 4 event) ≡ refused add (is_there (get interest 4)))
    × (get (list_of interest (epoll_ctl interest add 4 event)) 4
        ≡ intended add (is_there (get interest 4)) (get interest 4) event)
    × Sorted 0 (list_of interest (epoll_ctl interest add 4 event))
epoll_ctl_lem_example = epoll_ctl_lem interest add 4 4 event (omega arith, (omega arith, tt))

abbrev one_interest : Interest
one_interest = (3, event) ∷ []

abbrev state : ℕ → ℕ → Readiness
state i file = quiet_until_2 i

abbrev watches : List (Watch ℕ)
watches =
    record {
      bits = record { addr = 4096; len = 8 };
      files = (3, 0) ∷ (5, 1) ∷ [];
      ready = λ r. r.ready_to_read;
    }
    ∷ []

abbrev zeroes : Words
zeroes addr = 0

select-NoneReady_example :
    (select state clock 100 (2 + 1) watches zeroes ≡ some (mark_all state watches 2 zeroes))
    × ((mark_all state watches 2 zeroes).0 ≡ total state watches 2)
unfolding is_valid
select-NoneReady_example =
    select-NoneReady state clock 100 2 0 watches zeroes (refl, refl, (refl, refl, tt))
      (inl (omega arith))
