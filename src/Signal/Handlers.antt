-- ===== src/Signal/Handlers.antt =====
-- Actions of signals, and signals that are sent to threads.
use maturin.Prelude.{
  ℕ, ◌+◌, ◌-◌, ◌≤◌, ◌≡◌, Bool, false, ◌&&◌, ◌||◌, ◌==◌, if◌then◌else◌, ◌%◌, usize_mod, length, set,
  Option, none, some, Option-cases, Bool-cases, inl, inr, ==_iff, refl, sym, ap, ◌∙◌, arith,
}
use maturin.Prelude.Index.{get_elem?-set}
use maturin.Prelude.Bits.{bit}
use maturin.Signal.{
  SigAction, SignalHandlers, sig_dfl, action_at, get_action_ref, set_action, SignalReceivers,
  Tid2Signals, send_signal, get_signals_from_tid, global_register_signals, try_add_bit,
}
use maturin.Signal.Bitset.{bit-add_bit}
use maturin.Fd.Manager.{is_some}

-- `set_action` for a signal from 1 to the number of the actions does not panic; `get_action_ref`
-- then returns the new action for that signal, or nothing where its handler is the default one, and
-- for every other number what it did before.
pub get_action_ref-set_action :
    (self : SignalHandlers) (signum : ℕ) (action : SigAction)
    → 1 ≤ signum
    → signum ≤ length self
    → (self' : SignalHandlers) × (set_action self signum action ≡ some self')
      × ((j : ℕ)
          → get_action_ref self' j ≡ (
              if j == signum
              then (if action.handler == sig_dfl then some none else some (some action))
              else get_action_ref self j))
unfolding get_action_ref set_action action_at
get_action_ref-set_action self signum action h k = (
  set self (signum - 1) (some action),
  ground arith,
  λ j. ground (arith, get_elem?-set self (signum - 1) (j - 1) (some action) (omega arith)),
)

-- Whether a thread is in the table and has received the signal `k + 1`, and its mask.
abbrev pub received : Tid2Signals → ℕ → ℕ → Bool
received table t k = elim (get_signals_from_tid table t) [
  | none ↦ false
  | some signals ↦ bit signals.sig_received k
]

abbrev pub mask_in : Option SignalReceivers → Option ℕ
mask_in none = none
mask_in (some signals) = some signals.mask

abbrev pub mask_of : Tid2Signals → ℕ → Option ℕ
mask_of table t = mask_in (get_signals_from_tid table t)

mask_registered :
    (table : Tid2Signals) (tid : ℕ) (signals signals' : SignalReceivers) (t : ℕ)
    → table tid ≡ some signals
    → signals'.mask ≡ signals.mask
    → mask_of (global_register_signals table tid signals') t ≡ mask_of table t
unfolding global_register_signals get_signals_from_tid
mask_registered table tid signals signals' t there same = elim (Bool-cases (t == tid)) [
  | inl is ↦
      let old : table t ≡ some signals = ap table ((==_iff t tid).0 is) ∙ there in
      let now : (if t == tid then some signals' else table t) ≡ some signals' = rw is refl in
      ap mask_in now ∙ ap (λ m. some m) same ∙ sym (ap mask_in old)
  | inr other ↦
      let now : (if t == tid then some signals' else table t) ≡ table t = rw other refl in
      ap mask_in now
]

-- `send_signal` of a signal from 1 to 64: the thread that it is sent to, where it is in the table,
-- has then received it, besides what it and every other thread had received before, and no mask
-- changes.
pub send_signal_lem :
    (table : Tid2Signals) (tid signum : ℕ)
    → 1 ≤ signum
    → signum ≤ 64
    → ((t k : ℕ)
        → received (send_signal table tid signum) t k
          ≡ (received table t k || (is_some (table tid) && (t == tid) && (k + 1 == signum))))
      × ((t : ℕ) → mask_of (send_signal table tid signum) t ≡ mask_of table t)
unfolding send_signal get_signals_from_tid global_register_signals try_add_bit
send_signal_lem table tid signum h l = elim (Option-cases (table tid)) [
  | inl absent ↦ ((λ t k. ground (arith, absent)), λ t. rw (absent, send_signal) refl)
  | inr (signals, there) ↦
      let small : (usize_mod + signum - 1) % usize_mod ≡ signum - 1 = omega arith in
      let sent : SignalReceivers = try_add_bit signals signum in
      (
        (λ t k. elim (Bool-cases (t == tid)) [
          | inl is ↦
              let same : table t ≡ some signals = ap table ((==_iff t tid).0 is) ∙ there in
              ground (
                arith,
                there,
                is,
                same,
                small,
                bit-add_bit signals.sig_received (signum - 1) k (omega arith),
              )
          | inr other ↦ ground (arith, there, other)
        ]),
        λ t. rw (there, send_signal) (mask_registered table tid signals sent t there refl),
      )
]
