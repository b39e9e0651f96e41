-- ===== src/Poll/Epoll.antt =====
-- modules/epoll: the list of interests of an epoll file, and the wait for their events. A descriptor is
-- an `i32` that is not negative, the only ones with a file; the list is a `BTreeMap` by descriptor.
use maturin.Prelude.{
  ℕ, suc, ◌<◌, ◌≤◌, subst, ◌≡◌, ◌==◌, inl, inr, Bool, true, false, ltb, if◌then◌else◌, List, [],
  ◌∷◌, ◌++◌, length, Option, none, some, refl, arith, Bool-cases, Option-cases,
}
use maturin.Range.Tree.{BTreeMap, insert}
use maturin.Poll.{
  Files, ErrorNo, eexist, enoent, ebadf, einval, efault, Result, ok, failed, poll, events_of, wait,
}

pub record EpollEvent : Type 0 where
  pub events : ℕ
  pub data' : ℕ

abbrev pub Interest : Type 0
Interest = BTreeMap EpollEvent

pub data EpollCtl : Type 0 where
  add : EpollCtl
  delete : EpollCtl
  modify : EpollCtl

-- `EpollCtl::try_from`
unfoldable pub ctl_from : ℕ → Option EpollCtl
ctl_from op =
    if op == 1
    then some add
    else if op == 2
    then some delete
    else if op == 3
    then some modify
    else none

-- `BTreeMap::get`, and `BTreeMap::remove` of a key that is there.
unfoldable pub get : Interest → ℕ → Option EpollEvent
get [] fd = none
get ((k, e) ∷ list) fd = if fd == k then some e else get list fd

unfoldable pub remove : Interest → ℕ → Interest
remove [] fd = []
remove ((k, e) ∷ list) fd = let rest = remove list fd in if fd == k then list else (k, e) ∷ rest

abbrev pub is_there : Option EpollEvent → Bool
is_there none = false
is_there (some e) = true

unfoldable pub epoll_ctl : Interest → EpollCtl → ℕ → EpollEvent → Result Interest
epoll_ctl list add fd event =
    if is_there (get list fd) then failed eexist else ok (insert fd event list)
epoll_ctl list modify fd event =
    if is_there (get list fd) then ok (insert fd event list) else failed enoent
epoll_ctl list delete fd event =
    if is_there (get list fd) then ok (remove list fd) else failed enoent

-- `get_epoll_events`: the descriptor takes the place of the data.
unfoldable pub get_epoll_events : Interest → List EpollEvent
get_epoll_events [] = []
get_epoll_events ((fd, evt) ∷ list) = record evt { data' = fd } ∷ get_epoll_events list

abbrev returned_if : ℕ → ℕ → List EpollEvent → List EpollEvent
returned_if revents fd ret =
    if revents == 0 then ret else record { events = revents; data' = fd } ∷ ret

-- What the `for` loop of `epoll_wait` finds at the turn `i`.
unfoldable pub found : Files → ℕ → List EpollEvent → List EpollEvent
found files i [] = []
found files i (req_fd ∷ rest) =
    returned_if (events_of (files i req_fd.data') req_fd.events) req_fd.data' (found files i rest)

abbrev measured : List EpollEvent → ℕ × List EpollEvent
measured events = (length events, events)

unfoldable pub epoll_round : Files → List EpollEvent → ℕ → List EpollEvent → ℕ × List EpollEvent
epoll_round files epoll_events i ret_events = measured (ret_events ++ found files i epoll_events)

unfoldable pub epoll_wait : Files → (ℕ → ℕ) → ℕ → ℕ → Interest → Option (ℕ × List EpollEvent)
epoll_wait files clock expire_time fuel list =
    wait (epoll_round files (get_epoll_events list)) (λ i. ltb expire_time (clock i)) fuel 0 []

-- `ready_to_read` of an epoll file: a descriptor without a file does not count here.
unfoldable pub epoll_ready : Files → ℕ → List EpollEvent → Bool
epoll_ready files i [] = false
epoll_ready files i (req_fd ∷ rest) =
    let others = epoll_ready files i rest in
    elim (files i req_fd.data') [
      | none ↦ others
      | some file ↦ if poll file req_fd.events == 0 then others else true
    ]

-- `sys_epoll_ctl`, where `list` is that of `epfd`, if it is an epoll file, and `there` says whether
-- `fd` has a file; `event` is what stands at the address, if it can be read.
unfoldable pub sys_epoll_ctl : Option Interest → ℕ → ℕ → Bool → Option EpollEvent → Result Interest
sys_epoll_ctl epfd op fd there none = failed efault
sys_epoll_ctl epfd op fd there (some event) = elim (ctl_from op) [
  | none ↦ failed einval
  | some operator ↦ elim epfd [
    | none ↦ failed ebadf
    | some list ↦ if there then epoll_ctl list operator fd event else failed ebadf
  ]
]

-- The keys go up, from `lo` on.
abbrev pub Sorted : ℕ → Interest → Type 0
Sorted lo [] = Unit
Sorted lo ((k, e) ∷ list) = (lo < suc k) × Sorted (suc k) list

get-below : (list : Interest) (lo fd : ℕ) → Sorted lo list → fd < lo → get list fd ≡ none
unfolding get
get-below [] lo fd s h = refl
get-below ((k, e) ∷ list) lo fd (low, s) h =
    ground (arith, low, h, get-below list (suc k) fd s (omega (arith, low, h)))

Sorted-weaken : (list : Interest) (hi lo : ℕ) → lo ≤ hi → Sorted hi list → Sorted lo list
Sorted-weaken [] hi lo h s = tt
Sorted-weaken ((k, e) ∷ list) hi lo h (low, s) = (omega (arith, h, low), s)

insert-get :
    (list : Interest) (fd j : ℕ) (event : EpollEvent)
    → get (insert fd event list) j ≡ (if j == fd then some event else get list j)
unfolding get insert
insert-get [] fd j event = refl
insert-get ((k, e) ∷ list) fd j event = ground (arith, insert-get list fd j event)

insert-Sorted :
    (list : Interest) (lo fd : ℕ) (event : EpollEvent)
    → lo < suc fd
    → Sorted lo list
    → Sorted lo (insert fd event list)
unfolding insert
insert-Sorted [] lo fd event h s = (h, tt)
insert-Sorted ((k, e) ∷ list) lo fd event h (low, s) = elim (Bool-cases (ltb fd k)) [
  | inl before ↦ rw before (h, (ground (arith, before), s))
  | inr later ↦ elim (Bool-cases (fd == k)) [
    | inl same ↦ rw (later, same) (h, subst (λ j. Sorted (suc j) list) (ground (arith, same)) s)
    | inr after ↦
        rw (later, after)
          (low, insert-Sorted list (suc k) fd event (ground (arith, later, after)) s)
  ]
]

remove-Sorted : (list : Interest) (lo fd : ℕ) → Sorted lo list → Sorted lo (remove list fd)
unfolding remove
remove-Sorted [] lo fd s = tt
remove-Sorted ((k, e) ∷ list) lo fd (low, s) = elim (Bool-cases (fd == k)) [
  | inl same ↦ rw same (Sorted-weaken list (suc k) lo (omega (arith, low)) s)
  | inr other ↦ rw other (low, remove-Sorted list (suc k) fd s)
]

remove-get :
    (list : Interest) (lo fd j : ℕ)
    → Sorted lo list
    → get (remove list fd) j ≡ (if j == fd then none else get list j)
unfolding get remove
remove-get [] lo fd j s = ground arith
remove-get ((k, e) ∷ list) lo fd j (low, s) =
    ground (arith, remove-get list (suc k) fd j s, get-below list (suc k) fd s)

-- What `epoll_ctl` has to do to the map from descriptors to events, by the operation.
abbrev pub intended : EpollCtl → Bool → Option EpollEvent → EpollEvent → Option EpollEvent
intended add there old event = if there then old else some event
intended modify there old event = if there then some event else old
intended delete there old event = none

abbrev pub refused : EpollCtl → Bool → Option ErrorNo
refused add there = if there then some eexist else none
refused modify there = if there then none else some enoent
refused delete there = if there then none else some enoent

abbrev pub list_of : Interest → Result Interest → Interest
list_of list (ok list') = list'
list_of list (failed e) = list

abbrev pub error_of : Result Interest → Option ErrorNo
error_of (ok list) = none
error_of (failed e) = some e

there-get : (list : Interest) (fd : ℕ) → is_there (get list fd) ≡ false → get list fd ≡ none
there-get list fd h = elim (Option-cases (get list fd)) [
  | inl nothing ↦ nothing
  | inr (e, here) ↦ absurd (ground (arith, here, h))
]

-- `epoll_ctl` on a list in the order of its descriptors adds an event only where there is none, and
-- changes or deletes one only where there is one; otherwise it is refused, with `EEXIST` or
-- `ENOENT`, and the list stays. No other descriptor is affected, and the list stays in order.
pub epoll_ctl_lem :
    (list : Interest) (op : EpollCtl) (fd j : ℕ) (event : EpollEvent)
    → Sorted 0 list
    → (error_of (epoll_ctl list op fd event) ≡ refused op (is_there (get list fd)))
      × (get (list_of list (epoll_ctl list op fd event)) j ≡ (
          if j == fd then intended op (is_there (get list fd)) (get list fd) event else get list j))
      × Sorted 0 (list_of list (epoll_ctl list op fd event))
unfolding epoll_ctl
epoll_ctl_lem list add fd j event s = elim (Bool-cases (is_there (get list fd))) [
  | inl here ↦ rw here (refl, ground arith, s)
  | inr gone ↦
      rw gone (refl, insert-get list fd j event, insert-Sorted list 0 fd event (omega arith) s)
]
epoll_ctl_lem list modify fd j event s = elim (Bool-cases (is_there (get list fd))) [
  | inl here ↦
      rw here (refl, insert-get list fd j event, insert-Sorted list 0 fd event (omega arith) s)
  | inr gone ↦ rw gone (refl, ground arith, s)
]
epoll_ctl_lem list delete fd j event s = elim (Bool-cases (is_there (get list fd))) [
  | inl here ↦ rw here (refl, remove-get list 0 fd j s, remove-Sorted list 0 fd s)
  | inr gone ↦ rw gone (refl, ground (arith, there-get list fd gone), s)
]
