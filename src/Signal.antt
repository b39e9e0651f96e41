-- ===== src/Signal.antt =====
-- modules/bitset/src/lib.rs: `Bitset`, 64 bits; kernel/src/signal: which signals a thread has
-- received, which it masks, and its handlers. `none` is a panic, for an action out of range.
pub mod Bitset
pub mod Receive
pub mod Handlers
pub mod Tests
use maturin.Prelude.{
  ℕ, ◌+◌, ◌-◌, ◌%◌, usize_mod, ltb, Bool, if◌then◌else◌, leb, ◌==◌, Option, none, some, List,
  get_elem?, set, replicate, length, map,
}
use maturin.Signal.Bitset.{contain_bit, add_bit, remove_bit, find_first_one}

pub record SignalReceivers : Type 0 where
  pub mask : ℕ
  pub sig_received : ℕ

unfoldable pub new : SignalReceivers
new = record { mask = 0; sig_received = 0 }

-- For the number 0, `signum - 1` wraps.
unfoldable pub try_add_bit : SignalReceivers → ℕ → SignalReceivers
try_add_bit self signum = record self {
  sig_received = add_bit self.sig_received ((usize_mod + signum - 1) % usize_mod);
}

unfoldable pub clear : SignalReceivers → SignalReceivers
clear self = new

unfoldable pub get_one_signal : SignalReceivers → Option (ℕ × SignalReceivers)
get_one_signal self = elim (find_first_one self.sig_received self.mask) [
  | none ↦ none
  | some pos ↦ some (pos + 1, record self { sig_received = remove_bit self.sig_received pos })
]

abbrev pub sigset_size_in_bit : ℕ
sigset_size_in_bit = 64

-- `handler`, `flags`, `restorer` and `mask`.
pub record SigAction : Type 0 where
  pub handler : ℕ
  pub flags : ℕ
  pub restorer : ℕ
  pub mask : ℕ

abbrev pub sig_dfl : ℕ
sig_dfl = 0

abbrev pub signal_return_trap : ℕ
signal_return_trap = 0xffff_0000_8080_0000

-- `SA_RESTORER` is the bit 26.
unfoldable pub get_restorer : SigAction → ℕ
get_restorer self = if contain_bit self.flags 26 then self.restorer else signal_return_trap

abbrev pub SignalHandlers : Type 0
SignalHandlers = List (Option SigAction)

unfoldable pub handlers_new : SignalHandlers
handlers_new = replicate sigset_size_in_bit none

unfoldable pub handlers_clear : SignalHandlers → SignalHandlers
handlers_clear self = map (λ _. none) self

-- `self.actions[signum - 1]`
unfoldable pub action_at : SignalHandlers → ℕ → Option (Option SigAction)
action_at self signum = if signum == 0 then none else get_elem? self (signum - 1)

-- What is written to `action_pos`: nothing where the signal has no action.
unfoldable pub get_action : SignalHandlers → ℕ → Option (Option SigAction)
get_action self signum = action_at self signum

unfoldable pub get_action_ref : SignalHandlers → ℕ → Option (Option SigAction)
get_action_ref self signum = elim (action_at self signum) [
  | none ↦ none
  | some none ↦ some none
  | some (some action) ↦ if action.handler == sig_dfl then some none else some (some action)
]

unfoldable pub set_action : SignalHandlers → ℕ → SigAction → Option SignalHandlers
set_action self signum action =
    if signum == 0
    then none
    else if ltb (signum - 1) (length self)
    then some (set self (signum - 1) (some action))
    else none

-- `TID2SIGNALS`: the receivers of a thread, shared with the thread.
abbrev pub Tid2Signals : Type 0
Tid2Signals = ℕ → Option SignalReceivers

unfoldable pub global_register_signals : Tid2Signals → ℕ → SignalReceivers → Tid2Signals
global_register_signals table tid signals t = if t == tid then some signals else table t

unfoldable pub global_logoff_signals : Tid2Signals → ℕ → Tid2Signals
global_logoff_signals table tid t = if t == tid then none else table t

unfoldable pub get_signals_from_tid : Tid2Signals → ℕ → Option SignalReceivers
get_signals_from_tid table tid = table tid

unfoldable pub send_signal : Tid2Signals → ℕ → ℕ → Tid2Signals
send_signal table tid signum = elim (get_signals_from_tid table tid) [
  | none ↦ table
  | some signals ↦ global_register_signals table tid (try_add_bit signals signum)
]
