-- ===== src/Signal/Receive.antt =====
-- Which signal `get_one_signal` hands out.
use maturin.Prelude.{
  ℕ, zero, suc, ◌+◌, ◌^◌, ◌≤◌, ◌<◌, ◌≡◌, ◌⊎◌, inl, inr, Bool, true, false, not, ◌&&◌, ltb, ltb→lt,
  ◌==◌, if◌then◌else◌, refl, ap, ap₂, ◌∙◌, none, some, Bool-cases, List, [], ◌∷◌, arith,
}
use maturin.Prelude.Bits.{bit}
use maturin.Signal.{SignalReceivers, get_one_signal}
use maturin.Signal.Bitset.{remove_bit, wanted, find_first_one_lem, bit-remove_bit}

-- Whether the signal `k + 1` was received and is not masked.
abbrev pub ready : SignalReceivers → ℕ → Bool
ready self k = wanted self.sig_received self.mask k

-- `get_one_signal` returns `none` where no signal that was received is unmasked; otherwise the
-- lowest such signal, which it takes off, and no other, and it leaves the mask.
pub get_one_signal_lem :
    (self : SignalReceivers)
    → self.mask < 2 ^ 64
    → ((get_one_signal self ≡ none) × ((k : ℕ) → (ltb k 64 && ready self k) ≡ false))
      ⊎ ((pos : ℕ) × (self' : SignalReceivers) × (get_one_signal self ≡ some (pos + 1, self'))
          × (pos < 64)
          × (ready self pos ≡ true)
          × ((k : ℕ) → (ltb k pos && ready self k) ≡ false)
          × ((k : ℕ)
              → (ltb k 64 && bit self'.sig_received k)
                ≡ (ltb k 64 && bit self.sig_received k && not (k == pos)))
          × (self'.mask ≡ self.mask))
unfolding get_one_signal
get_one_signal_lem self h = elim (find_first_one_lem self.sig_received self.mask h) [
  | inl (e, nothing) ↦ inl (rw (e, get_one_signal) refl, nothing)
  | inr (pos, e, lt, is_ready, lowest) ↦ inr (
    pos,
    record self { sig_received = remove_bit self.sig_received pos },
    rw (e, get_one_signal) refl,
    lt,
    is_ready,
    lowest,
    (λ k. elim (Bool-cases (ltb k 64)) [
      | inl low ↦ ground (arith, low, bit-remove_bit self.sig_received pos k lt (ltb→lt k 64 low))
      | inr high ↦ rw high refl
    ]),
    refl,
  )
]

-- Calls of `get_one_signal` until it returns `none`, at most `n` of them.
abbrev pub deliver : ℕ → SignalReceivers → List ℕ
deliver zero self = []
deliver (suc n) self = elim (get_one_signal self) [
  | none ↦ []
  | some (signum, self') ↦ signum ∷ deliver n self'
]

-- The signals that are ready among the `n` from `k + 1` on.
abbrev pub ready_from : SignalReceivers → ℕ → ℕ → List ℕ
ready_from self k zero = []
ready_from self k (suc n) =
    let rest = ready_from self (suc k) n in if ready self k then (k + 1) ∷ rest else rest

ready_from-ext :
    (self self' : SignalReceivers) (k n : ℕ)
    → ((j : ℕ) → k ≤ j → j < k + n → ready self j ≡ ready self' j)
    → ready_from self k n ≡ ready_from self' k n
ready_from-ext self self' k zero h = refl
ready_from-ext self self' k (suc n) h =
    rw
      (
        h k (omega arith) (omega arith),
        ready_from-ext self self' (suc k) n (λ j a b. h j (omega arith) (omega arith)),
      )
      refl

-- What is ready after the signal `pos + 1` was taken off.
ready_after :
    (self self' : SignalReceivers) (pos j : ℕ)
    → self'.mask ≡ self.mask
    → (ltb j 64 && bit self'.sig_received j)
      ≡ (ltb j 64 && bit self.sig_received j && not (j == pos))
    → j < 64
    → ready self' j ≡ (ready self j && not (j == pos))
ready_after self self' pos j m e h = let same = ap (λ v. bit v j) m in ground (arith, e, same)

deliver_from :
    (self : SignalReceivers) (k n fuel : ℕ)
    → self.mask < 2 ^ 64
    → k + n ≡ 64
    → n ≤ fuel
    → ((j : ℕ) → (ltb j k && ready self j) ≡ false)
    → deliver fuel self ≡ ready_from self k n
deliver_from self k zero zero h e f below = refl
deliver_from self k zero (suc fuel) h e f below = elim (get_one_signal_lem self h) [
  | inl (nothing, _) ↦ rw (nothing, deliver) refl
  | inr (pos, self', e', lt, is_ready, _, _, _) ↦
      absurd (ground (arith, below pos, is_ready, lt, e))
]
deliver_from self k (suc n) zero h e f below = absurd (omega arith)
deliver_from self k (suc n) (suc fuel) h e f below = elim (Bool-cases (ready self k)) [
  | inl now ↦ elim (get_one_signal_lem self h) [
    | inl (_, nothing) ↦ absurd (ground (arith, nothing k, now, e))
    | inr (pos, self', e', lt, is_ready, lowest, taken, mask) ↦
        let here : pos ≡ k = ground (arith, below pos, lowest k, is_ready, now) in
        let after : (j : ℕ) → j < 64 → ready self' j ≡ (ready self j && not (j == pos)) =
          λ j l. ready_after self self' pos j mask (taken j) l in
        rw (e', now, deliver)
          (ap₂ ◌∷◌ (ap (λ p. p + 1) here) (
            deliver_from self' (suc k) n fuel (rw mask h) (omega arith) (omega arith)
              (λ j. none_below self self' k pos j (omega (arith, e)) here (below j) (after j))
            ∙ ready_from-ext self' self (suc k) n
                (λ j a b. after j (omega (arith, e)) ∙ past self k pos j here a)))
  ]
  | inr later ↦ rw later (
      deliver_from self (suc k) n (suc fuel) h (omega arith) (omega arith)
        (λ j. one_more self k j later (below j)))
]
  where
    one_more :
        (self : SignalReceivers) (k j : ℕ)
        → ready self k ≡ false
        → (ltb j k && ready self j) ≡ false
        → (ltb j (suc k) && ready self j) ≡ false
    one_more self k j later below = elim (Bool-cases (j == k)) [
      | inl is ↦ let eq : j ≡ k = ground (arith, is) in ground (arith, ap (ready self) eq, later)
      | inr other ↦ ground (arith, other, below)
    ]

    past :
        (self : SignalReceivers) (k pos j : ℕ)
        → pos ≡ k
        → suc k ≤ j
        → (ready self j && not (j == pos)) ≡ ready self j
    past self k pos j here a = ground (arith, here, a)

    none_below :
        (self self' : SignalReceivers) (k pos j : ℕ)
        → k < 64
        → pos ≡ k
        → (ltb j k && ready self j) ≡ false
        → (j < 64 → ready self' j ≡ (ready self j && not (j == pos)))
        → (ltb j (suc k) && ready self' j) ≡ false
    none_below self self' k pos j small here below after = elim (Bool-cases (ltb j (suc k))) [
      | inl low ↦
          let l : j < suc k = ltb→lt j (suc k) low in ground (arith, after (omega arith), below)
      | inr high ↦ rw high refl
    ]

-- With no signal coming in meanwhile, repeated calls of `get_one_signal` hand out every signal that
-- was received and is not masked, each once and in the order of their numbers, and then `none`: 64
-- calls are enough.
pub deliver_lem :
    (self : SignalReceivers) (more : ℕ)
    → self.mask < 2 ^ 64
    → deliver (64 + more) self ≡ ready_from self 0 64
deliver_lem self more h =
    deliver_from self 0 64 (64 + more) h refl (omega arith) (λ j. ground arith)
