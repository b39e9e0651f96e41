-- ===== src/Task/Handling.antt =====
-- kernel/src/task/cpu_local.rs, `handle_signals` and `signal_return`, with signal/sig_info.rs and
-- signal/ucontext.rs. The user's stack holds the two structures by their addresses; a context has
-- its mask and its pc, the other fields are constant. `none` is a panic.
use maturin.Prelude.{
  ℕ, ◌-◌, ◌%◌, ◌^◌, ◌==◌, ◌||◌, Bool, true, false, if◌then◌else◌, usize_mod, Option, none, some,
}
use maturin.Time.{wrapping_sub}
use maturin.Signal.Bitset.{contain_bit}
use maturin.Signal.{
  SignalReceivers, SignalHandlers, SigAction, get_one_signal, get_action_ref, get_restorer,
}
use maturin.Task.{
  TaskControlBlock, TrapContext, set_ra, set_sp, get_sp, set_a0, get_a0, set_a1, set_a2, set_sepc,
  save_trap_cx_if_not_handling_signals, save_if_set_siginfo, load_trap_cx_if_handling_signals,
}

pub record SigInfo : Type 0 where
  pub si_signo : ℕ
  pub si_errno : ℕ
  pub si_code : ℕ

pub record SignalUserContext : Type 0 where
  pub sig_mask : ℕ
  pub pc : ℕ

pub record UserStack : Type 0 where
  pub infos : ℕ → SigInfo
  pub contexts : ℕ → SignalUserContext

abbrev pub put {ℓ} : {A : Type ℓ} → (ℕ → A) → ℕ → A → ℕ → A
put f i v j = if j == i then v else f j

-- `SIG_IGN`
abbrev pub sig_ign : ℕ
sig_ign = 1

-- `USER_STACK_RED_ZONE`, and the sizes of the two structures.
abbrev user_stack_red_zone : ℕ
user_stack_red_zone = 0x200

abbrev size_of_info : ℕ
size_of_info = 12

abbrev size_of_context : ℕ
size_of_context = 848

-- `& !0xf`
abbrev align_16 : ℕ → ℕ
align_16 n = n - n % 16

-- `exit_current_task` with a code, or a return to the task.
pub data Outcome : Type 0 where
  back : Outcome
  exit : ℕ → Outcome

pub record Handled : Type 0 where
  pub receivers : SignalReceivers
  pub task : TaskControlBlock
  pub stack : UserStack
  pub outcome : Outcome

-- The default of `SIGCHLD` and `SIGURG` is to be ignored.
unfoldable pub is_ignored : ℕ → Bool
is_ignored signal = (signal == 17) || (signal == 23)

-- `SIGSEGV` and `SIGBUS`.
unfoldable pub is_fault : ℕ → Bool
is_fault signal = (signal == 11) || (signal == 7)

unfoldable pub info_sp : TrapContext → ℕ
info_sp trap_cx =
    align_16 (wrapping_sub (wrapping_sub (get_sp trap_cx) user_stack_red_zone) size_of_info)

unfoldable pub context_sp : TrapContext → ℕ
context_sp trap_cx = align_16 (wrapping_sub (info_sp trap_cx) size_of_context)

unfoldable pub info_for : ℕ → SigInfo
info_for signum = record { si_signo = signum % 2 ^ 32; si_errno = 0; si_code = 2 ^ 32 - 6 }

-- `SA_SIGINFO` is the bit 2.
unfoldable pub has_siginfo : SigAction → Bool
has_siginfo action = contain_bit action.flags 2

-- The registers with which the user's handler starts.
unfoldable pub handler_cx : TrapContext → SigAction → ℕ → TrapContext
handler_cx trap_cx action signum =
    let cx = set_a0 (set_sepc (set_ra trap_cx (get_restorer action)) action.handler) signum in
    if has_siginfo action
    then set_sp (set_a2 (set_a1 cx (info_sp trap_cx)) (context_sp trap_cx)) (context_sp trap_cx)
    else set_sp cx (wrapping_sub (get_sp trap_cx) user_stack_red_zone)

-- The structures that the handler finds on the user's stack.
unfoldable pub handler_stack : UserStack → TrapContext → SigAction → ℕ → ℕ → UserStack
handler_stack stack trap_cx action signum mask =
    if has_siginfo action
    then record {
      infos = put stack.infos (info_sp trap_cx) (info_for signum);
      contexts =
          put stack.contexts (context_sp trap_cx) (record { sig_mask = mask; pc = trap_cx.sepc });
    }
    else stack

abbrev pub with_siginfo : Bool → TaskControlBlock → TaskControlBlock
with_siginfo true task = save_if_set_siginfo task true
with_siginfo false task = task

-- The task that has saved its context, sent into the handler.
unfoldable pub enter_handler : TaskControlBlock → SigAction → ℕ → TaskControlBlock
enter_handler task action signum = record (with_siginfo (has_siginfo action) task) {
  trap_cx = handler_cx task.trap_cx action signum;
}

abbrev pub pcs : UserStack → ℕ → ℕ
pcs stack sp = (stack.contexts sp).pc

-- What the first match of `handle_signals` does for a signal, once the context has been saved.
unfoldable pub act : ℕ → Option SigAction → SignalReceivers → TaskControlBlock → UserStack → Handled
act signum none receivers task stack =
    if is_ignored signum
    then record {
      receivers = receivers;
      task = (load_trap_cx_if_handling_signals (pcs stack) task).1;
      stack = stack;
      outcome = Outcome.back;
    }
    else record { receivers = receivers; task = task; stack = stack; outcome = Outcome.exit 0 }
act signum (some action) receivers task stack =
    if action.handler == sig_ign
    then record { receivers = receivers; task = task; stack = stack; outcome = Outcome.back }
    else record {
      receivers = receivers;
      task = enter_handler task action signum;
      stack = handler_stack stack task.trap_cx action signum receivers.mask;
      outcome = Outcome.back;
    }

-- The signal, after the attempt to save the context.
unfoldable pub handle_one :
    SignalHandlers → ℕ → SignalReceivers → Bool × TaskControlBlock → UserStack → Option Handled
handle_one handlers signum receivers (true, task) stack = elim (get_action_ref handlers signum) [
  | none ↦ none
  | some action ↦ some (act signum action receivers task stack)
]
handle_one handlers signum receivers (false, task) stack = some (record {
  receivers = receivers;
  task = task;
  stack = stack;
  outcome = if is_fault signum then Outcome.exit (2 ^ 32 - 1) else Outcome.back;
})

unfoldable pub handle_signals :
    SignalHandlers → SignalReceivers → TaskControlBlock → UserStack → Option Handled
handle_signals handlers receivers task stack = elim (get_one_signal receivers) [
  | none ↦
      some (record { receivers = receivers; task = task; stack = stack; outcome = Outcome.back })
  | some (signum, receivers') ↦
      handle_one handlers signum receivers' (save_trap_cx_if_not_handling_signals task) stack
]

-- The `isize` that the call returns, by its bits.
unfoldable pub signal_return : UserStack → TaskControlBlock → ℕ × TaskControlBlock
signal_return stack task =
    let (loaded, task') = load_trap_cx_if_handling_signals (pcs stack) task in
    if loaded then (get_a0 task'.trap_cx, task') else (usize_mod - 1, task')
