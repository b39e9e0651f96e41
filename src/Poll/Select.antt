-- ===== src/Poll/Select.antt =====
-- modules/select, with `ShadowBitset` of modules/bitset: the sets of descriptors stand in the memory of
-- the user, which is a function from the address of a word of 64 bits to the word.
use maturin.Prelude.{
  ℕ, zero, suc, ◌+◌, ◌-◌, ◌*◌, ◌/◌, ◌%◌, ◌==◌, Bool, true, false, not, ltb, leb, if◌then◌else◌,
  List, [], ◌∷◌, Option, none, some, usize_mod,
}
use maturin.Signal.Bitset.{contain_bit, add_bit}
use maturin.Task.Handling.{put}
use maturin.Poll.{Readiness, efault, einval, ebadf, Result, ok, failed, wait, expire_at}

abbrev pub Words : Type 0
Words = ℕ → ℕ

pub record ShadowBitset : Type 0 where
  pub addr : ℕ
  pub len : ℕ

unfoldable pub is_valid : ShadowBitset → Bool
is_valid self = not (self.addr == 0)

-- The word of a position: 8 bytes for each 256 positions.
unfoldable pub word_of : ShadowBitset → ℕ → ℕ
word_of self pos = self.addr + 8 * (pos / 256)

unfoldable pub set : ShadowBitset → ℕ → Words → Words
set self pos words =
    if ltb pos self.len
    then put words (word_of self pos) (add_bit (words (word_of self pos)) (pos % 64))
    else words

unfoldable pub check : ShadowBitset → ℕ → Words → Bool
check self pos words = contain_bit (words (word_of self pos)) (pos % 64)

-- The words at an address are cleared, `n` of them.
abbrev clear_words : ℕ → ℕ → Words → Words
clear_words zero addr words = words
clear_words (suc n) addr words = clear_words n (addr + 8) (put words addr 0)

-- The loop goes to the word `(len - 1) / 64`, included, where `len - 1` wraps.
unfoldable pub clear : ShadowBitset → Words → Words
clear self words = clear_words (suc ((usize_mod + self.len - 1) % usize_mod / 64)) self.addr words

abbrev pub plus : ℕ → ℕ × Words → ℕ × Words
plus n (m, words) = (n + m, words)

abbrev pub after : ℕ × Words → (Words → ℕ × Words) → ℕ × Words
after (n, words) next = plus n (next words)

abbrev ended : Option (ℕ × Words) → Option (Result ℕ × Words)
ended none = none
ended (some (n, words)) = some (ok n, words)

module _ {F : Type 0} (get_file : ℕ → Option F) where
  -- The descriptors of a set with their files, `n` of them from `fd` on; `none` is one without file.
  unfoldable pub read_set : ShadowBitset → Words → ℕ → ℕ → Option (List (ℕ × F))
  read_set bits words zero fd = some []
  read_set bits words (suc n) fd =
      let rest = read_set bits words n (fd + 1) in
      if check bits fd words
      then elim (get_file fd) [
        | none ↦ none
        | some file ↦ elim rest [ none ↦ none | some files ↦ some ((fd, file) ∷ files) ]
      ]
      else rest

  -- `alloc` is whether the pages of a range of addresses can be allocated.
  unfoldable pub init_fd_sets : (ℕ → ℕ → Bool) → ℕ → ℕ → Words → Result (List (ℕ × F)) × Words
  init_fd_sets alloc addr len words =
      let bits : ShadowBitset = record { addr = addr; len = len } in
      if addr == 0
      then (ok [], words)
      else if not (alloc addr (addr + (len + 63) % 64))
      then (failed efault, words)
      else elim (read_set bits words len 0) [
        | none ↦ (failed ebadf, words)
        | some files ↦ (ok files, clear bits words)
      ]

-- A set, its files, and what it waits for.
pub record Watch (F : Type 0) : Type 0 where
  pub bits : ShadowBitset
  pub files : List (ℕ × F)
  pub ready : Readiness → Bool

module _ {F : Type 0} (state : ℕ → F → Readiness) where
  -- The `for` loop over one set: the ready ones are set and counted.
  unfoldable pub mark : ShadowBitset → (Readiness → Bool) → ℕ → List (ℕ × F) → Words → ℕ × Words
  mark bits ready i [] words = (0, words)
  mark bits ready i ((fd, file) ∷ files) words = elim (ready (state i file)) [
    | true ↦ plus 1 (mark bits ready i files (set bits fd words))
    | false ↦ mark bits ready i files words
  ]

  -- A set without an address is left out.
  unfoldable pub mark_all : List (Watch F) → ℕ → Words → ℕ × Words
  mark_all [] i words = (0, words)
  mark_all (watch ∷ watches) i words =
      after
        (if is_valid watch.bits
          then mark watch.bits watch.ready i watch.files words
          else (0, words))
        (mark_all watches i)

  unfoldable pub select : (ℕ → ℕ) → ℕ → ℕ → List (Watch F) → Words → Option (ℕ × Words)
  select clock expire_time fuel watches words =
      wait (mark_all watches) (λ i. ltb expire_time (clock i)) fuel 0 words

  unfoldable pub started :
      (ℕ → ℕ) → ℕ → ℕ → Option (Option ℕ) → List (Watch F) → Words → Option (Result ℕ × Words)
  started clock now fuel (some none) watches words = some (failed efault, words)
  started clock now fuel (some (some ticks)) watches words =
      ended (select clock (expire_at now (some ticks)) fuel watches words)
  started clock now fuel none watches words =
      ended (select clock (expire_at now none) fuel watches words)

module _ {F : Type 0} (get_file : ℕ → Option F) (state : ℕ → F → Readiness) where
  -- A set that is read, and what is done with the sets up to it.
  abbrev next_set :
      Result (List (ℕ × F)) × Words
      → (List (ℕ × F) → Words → Option (Result ℕ × Words))
      → Option (Result ℕ × Words)
  next_set (ok files, words) go = go files words
  next_set (failed e, words) go = some (failed e, words)

  abbrev watch_of : ℕ → ℕ → (Readiness → Bool) → List (ℕ × F) → Watch F
  watch_of addr len ready files = record {
    bits = record { addr = addr; len = len };
    files = files;
    ready = ready;
  }

  -- `clock i` is the time after the turn `i`. The timeout is `none` where no address is given, and
  -- `some none` where the address is bad.
  unfoldable pub sys_pselect6 :
      (ℕ → ℕ → Bool)
      → (ℕ → ℕ)
      → ℕ
      → ℕ
      → ℕ
      → ℕ
      → ℕ
      → ℕ
      → Option (Option ℕ)
      → Words
      → Option (Result ℕ × Words)
  sys_pselect6 alloc clock now fuel nfds readfds writefds exceptfds timeout words =
      if leb 256 nfds
      then some (failed einval, words)
      else next_set (init_fd_sets get_file alloc readfds nfds words) (λ rfiles words1.
        next_set (init_fd_sets get_file alloc writefds nfds words1) (λ wfiles words2.
          next_set (init_fd_sets get_file alloc exceptfds nfds words2) (λ efiles words3.
            started state clock now fuel timeout
              (watch_of readfds nfds (λ r. r.ready_to_read) rfiles
                ∷ watch_of writefds nfds (λ r. r.ready_to_write) wfiles
                ∷ watch_of exceptfds nfds (λ r. r.in_exceptional_conditions) efiles
                ∷ [])
              words3)))
