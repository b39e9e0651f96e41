-- ===== src/Poll/Waits.antt =====
-- What `epoll_wait` and `pselect6` return, and when.
use maturin.Prelude.{
  ℕ, zero, suc, ◌+◌, ◌<◌, ◌≡◌, ◌⊎◌, inl, inr, Bool, true, false, ltb, if◌then◌else◌, List, [], ◌∷◌,
  length, some, refl, ap, ap₂, subst, sym, ◌∙◌, arith, Bool-cases,
}
use maturin.Poll.{Files, Readiness}
use maturin.Poll.Loop.{Forgetful, Quiet, wait-Quiet}
use maturin.Poll.Epoll.{EpollEvent, found}
use maturin.Poll.Select.{
  ShadowBitset, Words, Watch, plus, after, is_valid, set, mark, mark_all, select,
}

-- The turns from `i` on, `n` of them, in which no event is found and the time is not over.
abbrev pub NoEvent : Files → (ℕ → ℕ) → ℕ → ℕ → ℕ → List EpollEvent → Type 0
NoEvent files clock expire_time zero i events = Unit
NoEvent files clock expire_time (suc n) i events =
    (length (found files i events) ≡ 0)
    × (ltb expire_time (clock i) ≡ false)
    × NoEvent files clock expire_time n (i + 1) events

module _ {F : Type 0} (state : ℕ → F → Readiness) where
  -- How many of the files are ready at the turn `i`.
  abbrev pub ready_count : (Readiness → Bool) → ℕ → List (ℕ × F) → ℕ
  ready_count ready i [] = 0
  ready_count ready i ((fd, file) ∷ files) =
      (if ready (state i file) then 1 else 0) + ready_count ready i files

  -- How many files of all the sets are ready; a set without an address counts nothing.
  abbrev pub total : List (Watch F) → ℕ → ℕ
  total [] i = 0
  total (watch ∷ watches) i =
      (if is_valid watch.bits then ready_count watch.ready i watch.files else 0) + total watches i

  mark-count :
      (bits : ShadowBitset) (ready : Readiness → Bool) (i : ℕ) (files : List (ℕ × F))
      (words : Words)
      → (mark state bits ready i files words).0 ≡ ready_count ready i files
  unfolding mark
  mark-count bits ready i [] words = refl
  mark-count bits ready i ((fd, file) ∷ files) words = elim (Bool-cases (ready (state i file))) [
    | inl up ↦ rw (up, mark) (omega (arith, mark-count bits ready i files (set bits fd words)))
    | inr down ↦ rw (down, mark) (omega (arith, mark-count bits ready i files words))
  ]

  mark-quiet :
      (bits : ShadowBitset) (ready : Readiness → Bool) (i : ℕ) (files : List (ℕ × F))
      (words : Words)
      → ready_count ready i files ≡ 0
      → mark state bits ready i files words ≡ (0, words)
  unfolding mark
  mark-quiet bits ready i [] words h = refl
  mark-quiet bits ready i ((fd, file) ∷ files) words h = elim (Bool-cases (ready (state i file))) [
    | inl up ↦ absurd (ground (arith, up, h))
    | inr down ↦ rw (down, mark) (mark-quiet bits ready i files words (ground (arith, down, h)))
  ]

  marked : Watch F → ℕ → Words → ℕ × Words
  marked watch i words =
      if is_valid watch.bits
      then mark state watch.bits watch.ready i watch.files words
      else (0, words)

  marked-count :
      (watch : Watch F) (i : ℕ) (words : Words)
      → (marked watch i words).0
        ≡ (if is_valid watch.bits then ready_count watch.ready i watch.files else 0)
  unfolding marked
  marked-count watch i words = elim (Bool-cases (is_valid watch.bits)) [
    | inl given ↦ rw given (mark-count watch.bits watch.ready i watch.files words)
    | inr left_out ↦ rw left_out refl
  ]

  marked-quiet :
      (watch : Watch F) (i : ℕ) (words : Words)
      → (if is_valid watch.bits then ready_count watch.ready i watch.files else 0) ≡ 0
      → marked watch i words ≡ (0, words)
  unfolding marked
  marked-quiet watch i words h = elim (Bool-cases (is_valid watch.bits)) [
    | inl given ↦
        rw given (mark-quiet watch.bits watch.ready i watch.files words (ground (arith, given, h)))
    | inr left_out ↦ rw left_out refl
  ]

  mark_all-count :
      (watches : List (Watch F)) (i : ℕ) (words : Words)
      → (mark_all state watches i words).0 ≡ total watches i
  unfolding mark_all marked
  mark_all-count [] i words = refl
  mark_all-count (watch ∷ watches) i words =
      ap₂ (λ n m. n + m) (marked-count watch i words)
        (mark_all-count watches i (marked watch i words).1)

  mark_all-quiet :
      (watches : List (Watch F)) (i : ℕ) (words : Words)
      → total watches i ≡ 0
      → mark_all state watches i words ≡ (0, words)
  unfolding mark_all marked
  mark_all-quiet [] i words h = refl
  mark_all-quiet (watch ∷ watches) i words h =
      ap (λ p. after p (mark_all state watches i)) (marked-quiet watch i words (omega (arith, h)))
      ∙ ap (plus 0) (mark_all-quiet watches i words (omega (arith, h)))

  -- The turns from `i` on, `n` of them, in which no file is ready and the time is not over.
  abbrev pub NoneReady : (ℕ → ℕ) → ℕ → ℕ → ℕ → List (Watch F) → Type 0
  NoneReady clock expire_time zero i watches = Unit
  NoneReady clock expire_time (suc n) i watches =
      (total watches i ≡ 0)
      × (ltb expire_time (clock i) ≡ false)
      × NoneReady clock expire_time n (i + 1) watches

  NoneReady-Quiet :
      (clock : ℕ → ℕ) (expire_time n i : ℕ) (watches : List (Watch F)) (words : Words)
      → NoneReady clock expire_time n i watches
      → Quiet (mark_all state watches) (λ j. ltb expire_time (clock j)) n i words
  NoneReady-Quiet clock expire_time zero i watches words q = tt
  NoneReady-Quiet clock expire_time (suc n) i watches words (nothing, in_time, q) = (
    mark_all-count watches i words ∙ nothing,
    in_time,
    NoneReady-Quiet clock expire_time n (i + 1) watches words q,
  )

  mark_all-Forgetful : (watches : List (Watch F)) → Forgetful (mark_all state watches)
  mark_all-Forgetful watches i j words nothing =
      ap (λ r. mark_all state watches i r.1)
        (mark_all-quiet watches j words (sym (mark_all-count watches j words) ∙ nothing))

  -- The loop of `pselect6` ends at the first turn in which a file of a set is ready, or after which the
  -- time is over, given fuel for that turn. It returns how many files are ready then, counted for
  -- each set, and nothing else is written to the sets than at that turn.
  pub select-NoneReady :
      (clock : ℕ → ℕ) (expire_time n m : ℕ) (watches : List (Watch F)) (words : Words)
      → NoneReady clock expire_time n 0 watches
      → (0 < total watches n) ⊎ (ltb expire_time (clock n) ≡ true)
      → (select state clock expire_time (n + suc m) watches words
          ≡ some (mark_all state watches n words))
        × ((mark_all state watches n words).0 ≡ total watches n)
  unfolding select
  select-NoneReady clock expire_time n m watches words q ends = (
    wait-Quiet (mark_all state watches) (λ i. ltb expire_time (clock i)) n m words
        (mark_all-Forgetful watches) (NoneReady-Quiet clock expire_time n 0 watches words q)
        (subst (λ k. (0 < k) ⊎ (ltb expire_time (clock n) ≡ true))
          (sym (mark_all-count watches n words)) ends),
    mark_all-count watches n words,
  )
