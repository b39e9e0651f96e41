-- ===== src/Poll/Loop.antt =====
-- When a wait for files ends, and with what.
use maturin.Prelude.{
  ℕ, zero, suc, ◌+◌, ◌<◌, ◌≡◌, ◌==◌, ◌⊎◌, inl, inr, Bool, true, false, not, ltb, if◌then◌else◌,
  List, [], ◌∷◌, some, refl, ap, ap₂, subst, sym, ◌∙◌, arith, Bool-cases,
}
use maturin.Poll.{wait, Files, PollFd, poll_round, ppoll, events_of, one_if}

-- A round that finds nothing does not change what a later round does.
abbrev pub Forgetful : {S : Type 0} → (ℕ → S → ℕ × S) → Type 0
Forgetful {S} round = (i j : ℕ) (s : S) → (round j s).0 ≡ 0 → round i (round j s).1 ≡ round i s

module _ {S : Type 0} (round : ℕ → S → ℕ × S) (expired : ℕ → Bool) where
  -- The rounds before the one that ends the wait find nothing and are in time.
  abbrev pub Idle : ℕ → ℕ → S → Type 0
  Idle zero i s = Unit
  Idle (suc n) i s = ((round i s).0 ≡ 0) × (expired i ≡ false) × Idle n (i + 1) (round i s).1

  -- What is kept from round to round.
  abbrev pub state_at : ℕ → ℕ → S → S
  state_at zero i s = s
  state_at (suc n) i s = state_at n (i + 1) (round i s).1

  wait_now :
      (m i : ℕ) (s : S)
      → (0 < (round i s).0) ⊎ (expired i ≡ true)
      → wait round expired (suc m) i s ≡ some (round i s)
  unfolding wait
  wait_now m i s ends = elim (Bool-cases (ltb 0 (round i s).0)) [
    | inl some_found ↦ rw some_found refl
    | inr nothing ↦ elim ends [
      | inl more ↦ absurd (ground (arith, nothing, more))
      | inr late ↦
          let zero_found : (round i s).0 ≡ 0 = ground (arith, nothing) in
          rw (nothing, late) (ap (λ n. some (n, (round i s).1)) (sym zero_found))
    ]
  ]

  wait_later :
      (k i : ℕ) (s : S)
      → (round i s).0 ≡ 0
      → expired i ≡ false
      → wait round expired (suc k) i s ≡ wait round expired k (i + 1) (round i s).1
  unfolding wait
  wait_later k i s nothing in_time =
      let no_more : ltb 0 (round i s).0 ≡ false = ground (arith, nothing) in
      rw (no_more, in_time) refl

  pub wait_lem :
      (n m i : ℕ) (s : S)
      → Idle n i s
      → (0 < (round (n + i) (state_at n i s)).0) ⊎ (expired (n + i) ≡ true)
      → wait round expired (n + suc m) i s ≡ some (round (n + i) (state_at n i s))
  wait_lem zero m i s idle ends =
      let at : 0 + i ≡ i = omega arith in
      let fuel : 0 + suc m ≡ suc m = omega arith in
      ap (λ k. wait round expired k i s) fuel
      ∙ wait_now m i s (subst (λ j. (0 < (round j s).0) ⊎ (expired j ≡ true)) at ends)
      ∙ ap (λ j. some (round j s)) (sym at)
  wait_lem (suc n) m i s (nothing, in_time, idle) ends =
      let at : suc n + i ≡ n + (i + 1) = omega arith in
      let fuel : suc n + suc m ≡ suc (n + suc m) = omega arith in
      let s' = (round i s).1 in
      ap (λ k. wait round expired k i s) fuel
      ∙ wait_later (n + suc m) i s nothing in_time
      ∙ wait_lem n m (i + 1) s' idle
          (subst (λ j. (0 < (round j (state_at n (i + 1) s')).0) ⊎ (expired j ≡ true)) at ends)
      ∙ ap (λ j. some (round j (state_at n (i + 1) s'))) (sym at)

  -- From the turn `i` on, `n` rounds find nothing in `s` and are in time.
  abbrev pub Quiet : ℕ → ℕ → S → Type 0
  Quiet zero i s = Unit
  Quiet (suc n) i s = ((round i s).0 ≡ 0) × (expired i ≡ false) × Quiet n (i + 1) s

  Quiet-after :
      (n i j : ℕ) (s : S)
      → Forgetful round
      → (round j s).0 ≡ 0
      → Quiet n i s
      → Quiet n i (round j s).1
  Quiet-after zero i j s forget nothing q = tt
  Quiet-after (suc n) i j s forget nothing (none_found, in_time, q) = (
    ap (λ r. r.0) (forget i j s nothing) ∙ none_found,
    in_time,
    Quiet-after n (i + 1) j s forget nothing q,
  )

  Quiet-Idle :
      (n i k : ℕ) (s : S)
      → Forgetful round
      → Quiet n i s
      → Idle n i s × (round k (state_at n i s) ≡ round k s)
  Quiet-Idle zero i k s forget q = (tt, refl)
  Quiet-Idle (suc n) i k s forget (nothing, in_time, q) =
      let (idle, same) =
        Quiet-Idle n (i + 1) k (round i s).1 forget (Quiet-after n (i + 1) i s forget nothing q) in
      ((nothing, in_time, idle), same ∙ forget k i s nothing)

  pub wait-Quiet :
      (n m : ℕ) (s : S)
      → Forgetful round
      → Quiet n 0 s
      → (0 < (round n s).0) ⊎ (expired n ≡ true)
      → wait round expired (n + suc m) 0 s ≡ some (round n s)
  wait-Quiet n m s forget q ends =
      let at : n ≡ n + 0 = omega arith in
      let (idle, same) = Quiet-Idle n 0 n s forget q in
      let here : round (n + 0) (state_at n 0 s) ≡ round n s =
        ap (λ j. round j (state_at n 0 s)) (sym at) ∙ same in
      wait_lem n m 0 s idle (
        subst (λ r. (0 < r.0) ⊎ (expired (n + 0) ≡ true)) (sym here)
          (subst (λ j. (0 < (round n s).0) ⊎ (expired j ≡ true)) at ends))
      ∙ ap some here

-- What a request finds, by the events that its descriptor then has, and how many find something.
abbrev pub answered : Files → ℕ → List PollFd → List PollFd
answered files i [] = []
answered files i (req_fd ∷ fds) =
    record req_fd { revents = events_of (files i req_fd.fd) req_fd.events } ∷ answered files i fds

abbrev pub answers : Files → ℕ → List PollFd → ℕ
answers files i [] = 0
answers files i (req_fd ∷ fds) =
    (if events_of (files i req_fd.fd) req_fd.events == 0 then 0 else 1) + answers files i fds

one_if-not : (b : Bool) → one_if (not b) ≡ (if b then 0 else 1)
one_if-not true = refl
one_if-not false = refl

poll_round_lem :
    (files : Files) (i : ℕ) (fds : List PollFd)
    → poll_round files i fds ≡ (answers files i fds, answered files i fds)
unfolding poll_round
poll_round_lem files i [] = refl
poll_round_lem files i (req_fd ∷ fds) =
    let revents = events_of (files i req_fd.fd) req_fd.events in
    rw (poll_round_lem files i fds) (
      ap
        (λ n. (n + answers files i fds, record req_fd { revents = revents } ∷ answered files i fds))
        (one_if-not (revents == 0)))

-- An answer does not change what is asked.
answered_again :
    (files : Files) (i j : ℕ) (fds : List PollFd)
    → (answers files i (answered files j fds) ≡ answers files i fds)
      × (answered files i (answered files j fds) ≡ answered files i fds)
answered_again files i j [] = (refl, refl)
answered_again files i j (req_fd ∷ fds) =
    let (count, list) = answered_again files i j fds in
    (
      ap (λ n. (if events_of (files i req_fd.fd) req_fd.events == 0 then 0 else 1) + n) count,
      ap (λ l. record req_fd { revents = events_of (files i req_fd.fd) req_fd.events } ∷ l) list,
    )

poll_round_again :
    (files : Files) (i j : ℕ) (fds : List PollFd)
    → poll_round files i (poll_round files j fds).1 ≡ poll_round files i fds
poll_round_again files i j fds =
    let (count, list) = answered_again files i j fds in
    ap (λ r. poll_round files i r.1) (poll_round_lem files j fds)
    ∙ poll_round_lem files i (answered files j fds)
    ∙ ap₂ (λ n l. (n, l)) count list
    ∙ sym (poll_round_lem files i fds)

-- The turns from `i` on, `n` of them, in which no request finds anything and the time is not over.
abbrev pub NoneYet : Files → (ℕ → ℕ) → ℕ → ℕ → ℕ → List PollFd → Type 0
NoneYet files clock expire_time zero i fds = Unit
NoneYet files clock expire_time (suc n) i fds =
    (answers files i fds ≡ 0)
    × (ltb expire_time (clock i) ≡ false)
    × NoneYet files clock expire_time n (i + 1) fds

NoneYet-Quiet :
    (files : Files) (clock : ℕ → ℕ) (expire_time n i : ℕ) (fds : List PollFd)
    → NoneYet files clock expire_time n i fds
    → Quiet (poll_round files) (λ j. ltb expire_time (clock j)) n i fds
NoneYet-Quiet files clock expire_time zero i fds q = tt
NoneYet-Quiet files clock expire_time (suc n) i fds (nothing, in_time, q) = (
  ap (λ r. r.0) (poll_round_lem files i fds) ∙ nothing,
  in_time,
  NoneYet-Quiet files clock expire_time n (i + 1) fds q,
)

-- `ppoll` ends at the first turn in which a request finds an event or the time is over, given fuel for
-- that turn, and returns what the requests find then: for each, the events of its file, or `ERR`
-- where the descriptor has no file, and the number of those that found something. The answers
-- of earlier turns do not matter.
pub ppoll-NoneYet :
    (files : Files) (clock : ℕ → ℕ) (expire_time n m : ℕ) (fds : List PollFd)
    → NoneYet files clock expire_time n 0 fds
    → (0 < answers files n fds) ⊎ (ltb expire_time (clock n) ≡ true)
    → ppoll files clock expire_time (n + suc m) fds
      ≡ some (answers files n fds, answered files n fds)
unfolding ppoll
ppoll-NoneYet files clock expire_time n m fds q ends =
    let here = poll_round_lem files n fds in
    wait-Quiet (poll_round files) (λ i. ltb expire_time (clock i)) n m fds
      (λ i j s nothing. poll_round_again files i j s)
      (NoneYet-Quiet files clock expire_time n 0 fds q)
      (subst (λ r. (0 < r.0) ⊎ (ltb expire_time (clock n) ≡ true)) (sym here) ends)
    ∙ ap some here
