-- ===== src/Task/Trapped.antt =====
-- A task that gets signals, on concrete values.
use maturin.Prelude.Bits.{complement}
use maturin.Prelude.{◌-◌, ◌^◌, ◌≡◌, if◌then◌else◌, some, replicate, set, refl}
use maturin.Signal.{
  SignalReceivers, SignalHandlers, SigAction, handlers_new, get_one_signal, get_action_ref,
  action_at,
}
use maturin.Signal.Bitset.{find_first_one, remove_bit}
use maturin.Task.{TaskControlBlock, TrapContext, get_a0}
use maturin.Task.Handling.{
  UserStack, Handled, Outcome, handle_signals, signal_return, handler_cx, context_sp, pcs, is_fault,
  has_siginfo,
}
use maturin.Task.Delivery.{handle_signals-signal_return, handle_signals-ignored, returned}
use maturin.Task.Tests.{no_task}

-- The signal 10 has a handler that is given a context, 12 is ignored, and both were received.
abbrev handling : SigAction
handling = record { handler = 0x5000; flags = 4; restorer = 0; mask = 0 }

abbrev ignoring : SigAction
ignoring = record { handler = 1; flags = 0; restorer = 0; mask = 0 }

abbrev handlers : SignalHandlers
handlers = set (set handlers_new 9 (some handling)) 11 (some ignoring)

abbrev received_10 : SignalReceivers
received_10 = record { mask = 0; sig_received = 2 ^ 9 }

abbrev received_12 : SignalReceivers
received_12 = record { mask = 0; sig_received = 2 ^ 11 }

abbrev none_received : SignalReceivers
none_received = record { mask = 0; sig_received = 0 }

abbrev in_user : TrapContext
in_user = record {
  x = set (replicate 32 0) 2 0x3fff_0000;
  sstatus = 0;
  sepc = 0x1234;
  cpu_id = 0;
  fs = (0, 0);
}

abbrev task : TaskControlBlock
task = record no_task { trap_cx = in_user }

-- Every context on the stack has the pc 0x7777, which the user has put there.
abbrev stack : UserStack
stack = record {
  infos = λ sp. record { si_signo = 0; si_errno = 0; si_code = 0 };
  contexts = λ sp. record { sig_mask = 0; pc = 0x7777 };
}

handle_signals-signal_return_example :
    (h : Handled) × (handle_signals handlers received_10 task stack ≡ some h)
    × (h.outcome ≡ Outcome.back)
    × (h.task.trap_cx ≡ handler_cx in_user handling 10)
    × (signal_return stack (record h.task { trap_cx = handler_cx in_user handling 10 })
        ≡ (get_a0 in_user, returned (has_siginfo handling) task (pcs stack (context_sp in_user))))
unfolding get_one_signal find_first_one get_action_ref action_at complement remove_bit handlers_new
handle_signals-signal_return_example =
    handle_signals-signal_return handlers received_10 task stack stack 10 none_received handling
      (handler_cx in_user handling 10) refl refl refl refl refl refl

handle_signals-ignored_example :
    (h : Handled) × (handle_signals handlers received_12 task stack ≡ some h)
    × (h.outcome ≡ Outcome.back)
    × (h.task.trap_cx ≡ in_user)
    × (handle_signals handlers received_10 h.task stack
        ≡ some (record {
          receivers = none_received;
          task = h.task;
          stack = stack;
          outcome = if is_fault 10 then Outcome.exit (2 ^ 32 - 1) else Outcome.back;
        }))
unfolding get_one_signal find_first_one get_action_ref action_at complement remove_bit handlers_new
handle_signals-ignored_example =
    handle_signals-ignored handlers handlers received_12 received_10 task stack stack 12 10
      none_received none_received ignoring refl refl refl refl refl
