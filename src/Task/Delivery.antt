-- ===== src/Task/Delivery.antt =====
-- kernel/src/task/cpu_local.rs: a signal from its delivery to the return of its handler.
use maturin.Prelude.{
  ℕ, ◌<◌, ◌≡◌, ◌==◌, inl, inr, Bool, true, false, if◌then◌else◌, length, get_or, set, some, none,
  refl, ap₂, arith, Bool-cases, suc, zero, [], ◌∷◌, List, ◌^◌, ◌-◌,
}
use maturin.Signal.{
  SignalReceivers, SignalHandlers, SigAction, get_one_signal, get_action_ref, get_restorer,
}
use maturin.Prelude.Index.{length-set}
use maturin.Task.{
  TaskControlBlock, TrapContext, set_ra, set_sp, get_sp, set_a0, get_a0, set_a1, set_a2, set_sepc,
  save_trap_cx_if_not_handling_signals, save_if_set_siginfo, load_trap_cx_if_handling_signals,
}
use maturin.Task.Handling.{
  UserStack, Handled, Outcome, sig_ign, has_siginfo, handler_cx, handler_stack, enter_handler,
  with_siginfo, act, handle_one, handle_signals, signal_return, context_sp, pcs, is_fault, info_sp,
}

get_or-set {ℓ} :
    {A : Type ℓ} (xs : List A) (i : ℕ) (v d : A) → i < length xs → get_or (set xs i v) i d ≡ v
get_or-set [] i v d h = absurd (omega arith)
get_or-set (x ∷ xs) zero v d h = refl
get_or-set (x ∷ xs) (suc i) v d h = get_or-set xs i v d (omega arith)

-- `get_sp` after `set_sp`, for a context with its 32 registers.
handler_cx-get_sp :
    (cx : TrapContext) (action : SigAction) (signum : ℕ)
    → length cx.x ≡ 32
    → has_siginfo action ≡ true
    → get_sp (handler_cx cx action signum) ≡ context_sp cx
unfolding handler_cx get_sp set_sp set_a2 set_a1 set_a0 set_sepc set_ra
handler_cx-get_sp cx action signum n info = rw info (
    get_or-set _ 2 (context_sp cx) 0 (
      omega (
        arith,
        n,
        length-set cx.x 1 (get_restorer action),
        length-set (set cx.x 1 (get_restorer action)) 10 signum,
        length-set (set (set cx.x 1 (get_restorer action)) 10 signum) 11 (info_sp cx),
        length-set (set (set (set cx.x 1 (get_restorer action)) 10 signum) 11 (info_sp cx)) 12
            (context_sp cx),
      )))

-- The task after its handler has returned: as it was, but for the pc, which is `pc` where the
-- handler was given a context.
abbrev pub returned : Bool → TaskControlBlock → ℕ → TaskControlBlock
returned siginfo task pc = record task {
  trap_cx = if siginfo then set_sepc task.trap_cx pc else task.trap_cx;
  inner = record task.inner { trap_cx_before_signal = none; signal_set_siginfo = siginfo };
}

-- The task that has saved its context.
abbrev pub saved : TaskControlBlock → TaskControlBlock
saved task = record task {
  inner = record task.inner {
    trap_cx_before_signal = some task.trap_cx;
    signal_set_siginfo = false;
  };
}

load-with_siginfo :
    (siginfo : Bool) (task : TaskControlBlock) (seen : TrapContext) (pc_at : ℕ → ℕ)
    → load_trap_cx_if_handling_signals pc_at
        (record (with_siginfo siginfo (saved task)) { trap_cx = seen })
      ≡ (true, returned siginfo task (pc_at (get_sp seen)))
unfolding load_trap_cx_if_handling_signals save_if_set_siginfo
load-with_siginfo true task seen pc_at = refl
load-with_siginfo false task seen pc_at = refl

-- What the registers are when the handler returns does not matter, but for the stack pointer.
returned-sp :
    (task : TaskControlBlock) (action : SigAction) (signum : ℕ) (seen : TrapContext) (pc_at : ℕ → ℕ)
    → length task.trap_cx.x ≡ 32
    → get_sp seen ≡ get_sp (handler_cx task.trap_cx action signum)
    → returned (has_siginfo action) task (pc_at (get_sp seen))
      ≡ returned (has_siginfo action) task (pc_at (context_sp task.trap_cx))
returned-sp task action signum seen pc_at n sp = elim (Bool-cases (has_siginfo action)) [
  | inl info ↦ rw (sp, handler_cx-get_sp task.trap_cx action signum n info) refl
  | inr plain ↦ rw plain refl
]

returned-get_a0 :
    (siginfo : Bool) (task : TaskControlBlock) (pc : ℕ)
    → get_a0 (returned siginfo task pc).trap_cx ≡ get_a0 task.trap_cx
unfolding get_a0 set_sepc
returned-get_a0 true task pc = refl
returned-get_a0 false task pc = refl

save_lem :
    (task : TaskControlBlock)
    → task.inner.trap_cx_before_signal ≡ none
    → save_trap_cx_if_not_handling_signals task ≡ (true, saved task)
unfolding save_trap_cx_if_not_handling_signals
save_lem task quiet = rw (quiet, save_trap_cx_if_not_handling_signals) refl

-- A signal with a handler of the user, for a task that handles none: the task enters the handler,
-- and `sigreturn`, called with the stack pointer with which the handler started and any other
-- registers, gives the task its registers back, with the pc that the user's context then holds where
-- the handler was given one. The call returns the old `a0`.
pub handle_signals-signal_return :
    (handlers : SignalHandlers) (receivers : SignalReceivers) (task : TaskControlBlock)
    (stack left : UserStack) (signum : ℕ) (receivers' : SignalReceivers) (action : SigAction)
    (seen : TrapContext)
    → get_one_signal receivers ≡ some (signum, receivers')
    → get_action_ref handlers signum ≡ some (some action)
    → (action.handler == sig_ign) ≡ false
    → task.inner.trap_cx_before_signal ≡ none
    → length task.trap_cx.x ≡ 32
    → get_sp seen ≡ get_sp (handler_cx task.trap_cx action signum)
    → (h : Handled) × (handle_signals handlers receivers task stack ≡ some h)
      × (h.outcome ≡ Outcome.back)
      × (h.task.trap_cx ≡ handler_cx task.trap_cx action signum)
      × (signal_return left (record h.task { trap_cx = seen }) ≡ (
        get_a0 task.trap_cx,
        returned (has_siginfo action) task (pcs left (context_sp task.trap_cx)),
      ))
unfolding handle_signals handle_one act signal_return enter_handler
handle_signals-signal_return handlers receivers task stack left signum receivers' action seen taken
      found handled quiet n sp =
    (
      record {
        receivers = receivers';
        task = enter_handler (saved task) action signum;
        stack = handler_stack stack task.trap_cx action signum receivers'.mask;
        outcome = Outcome.back;
      },
      rw (taken, handle_signals)
          (rw (save_lem task quiet, handle_one) (rw (found, handle_one) (rw (handled, act) refl))),
      refl,
      refl,
      rw (load-with_siginfo (has_siginfo action) task seen (pcs left), signal_return)
          (ap₂ (λ a t. (a, t)) (returned-get_a0 (has_siginfo action) task (pcs left (get_sp seen)))
            (returned-sp task action signum seen (pcs left) n sp)),
    )

-- A signal that the action of the user says to ignore, for a task that handles none, changes no
-- register, but the task counts as handling it from then on: the next signal, whatever its action,
-- is taken off and does not enter its handler; where it is `SIGSEGV` or `SIGBUS` the task exits.
pub handle_signals-ignored :
    (handlers next_handlers : SignalHandlers) (receivers next : SignalReceivers)
    (task : TaskControlBlock) (stack left : UserStack) (signum next_signum : ℕ)
    (receivers' next' : SignalReceivers) (action : SigAction)
    → get_one_signal receivers ≡ some (signum, receivers')
    → get_action_ref handlers signum ≡ some (some action)
    → (action.handler == sig_ign) ≡ true
    → task.inner.trap_cx_before_signal ≡ none
    → get_one_signal next ≡ some (next_signum, next')
    → (h : Handled) × (handle_signals handlers receivers task stack ≡ some h)
      × (h.outcome ≡ Outcome.back)
      × (h.task.trap_cx ≡ task.trap_cx)
      × (handle_signals next_handlers next h.task left
          ≡ some (record {
            receivers = next';
            task = h.task;
            stack = left;
            outcome = if is_fault next_signum then Outcome.exit (2 ^ 32 - 1) else Outcome.back;
          }))
unfolding handle_signals handle_one act save_trap_cx_if_not_handling_signals
handle_signals-ignored handlers next_handlers receivers next task stack left signum next_signum
      receivers' next' action taken found ignored quiet taken' =
    (
      record { receivers = receivers'; task = saved task; stack = stack; outcome = Outcome.back },
      rw (taken, handle_signals)
          (rw (save_lem task quiet, handle_one) (rw (found, handle_one) (rw (ignored, act) refl))),
      refl,
      refl,
      rw (taken', handle_signals) refl,
    )
