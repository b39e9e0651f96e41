-- ===== src/Signal/Tests.antt =====
-- Signals on concrete values.
use maturin.Prelude.{ℕ, ◌+◌, ◌≡◌, ◌&&◌, ◌||◌, ◌==◌, if◌then◌else◌, none, some, [], ◌∷◌, refl, arith}
use maturin.Fd.Manager.{is_some}
use maturin.Signal.{SignalReceivers, Tid2Signals, send_signal}
use maturin.Signal.Receive.{deliver, ready_from, deliver_lem}
use maturin.Signal.Handlers.{received, mask_of, send_signal_lem}

-- The signals 3, 5 and 9 were received, and 3 is masked.
abbrev three_signals : SignalReceivers
three_signals = record { mask = 4; sig_received = 276 }

deliver_lem_example : deliver (64 + 1) three_signals ≡ ready_from three_signals 0 64
deliver_lem_example = deliver_lem three_signals 1 (omega arith)

ready_from_run : ready_from three_signals 0 64 ≡ 5 ∷ 9 ∷ []
ready_from_run = refl

abbrev table : Tid2Signals
table t = if t == 7 then some three_signals else none

send_signal_lem_example :
    ((t k : ℕ)
      → received (send_signal table 7 11) t k
        ≡ (received table t k || (is_some (table 7) && (t == 7) && (k + 1 == 11))))
    × ((t : ℕ) → mask_of (send_signal table 7 11) t ≡ mask_of table t)
send_signal_lem_example = send_signal_lem table 7 11 (omega arith) (omega arith)
