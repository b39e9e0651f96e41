-- ===== src/Task/Reach.antt =====
-- kernel/src/task: the kernel from its start, with its cpus and their tasks interleaved in any order.
use maturin.Prelude.{
  ℕ, ◌+◌, ◌≡◌, ◌≢◌, inl, inr, Bool, List, [], ◌∷◌, ◌++◌, Option, none, some, refl, sym, subst, ap,
  ◌∙◌, arith, Bool-cases,
}
use maturin.Task.{running, no_parent}
use maturin.Task.Kernel.{
  Kernel, Env, Program, start_scheduler, push_task_to_scheduler, pushed, unwrap, loaded, found,
  load_next_testcase, from_app_name, first_task,
}
use maturin.Task.Cpu.{enter, suspend_current_task, exit_current_task, leave}
use maturin.Task.Clone.{sys_clone}
use maturin.Task.Wait.{Turn, after, sys_wait4}
use maturin.Task.Moves.{Inv, Moves, add, next, stop, occurs}
use maturin.Task.Held.{Moves-Inv}
use maturin.Task.Refine.{view, status_of, status_of-put, enter-Moves, some_injective}
use maturin.Task.Steps.{suspend_current_task-Moves, exit_current_task-Moves, leave-Moves}
use maturin.Task.Calls.{sys_clone-Moves, sys_wait4-Moves}

module _ {Vm Fds : Type 0} (env : Env Vm Fds) where
  -- The task of the cpu runs.
  abbrev Runs : Kernel Vm Fds → ℕ → ℕ → Type 0
  Runs k cpu t = (k.current cpu ≡ some t) × (status_of k.tasks t ≡ running)

  -- A step of one cpu. `works` is anything else that a task does: who holds which task stays.
  pub data Step (k : Kernel Vm Fds) : Kernel Vm Fds → Type 0 where
    enters :
        (cpu now : ℕ) {k' : Kernel Vm Fds}
        → k.current cpu ≡ none
        → enter env cpu now k ≡ some k'
        → Step k k'
    suspends :
        (cpu t : ℕ) {k' : Kernel Vm Fds}
        → Runs k cpu t
        → suspend_current_task env cpu k ≡ some k'
        → Step k k'
    exits :
        (cpu t exit_code : ℕ) {k' : Kernel Vm Fds}
        → Runs k cpu t
        → exit_current_task env cpu exit_code k ≡ some k'
        → Step k k'
    clones :
        (cpu t now flags user_stack ptid tls ctid : ℕ) {r : Option ℕ} {k' : Kernel Vm Fds}
        → Runs k cpu t
        → sys_clone env cpu now flags user_stack ptid tls ctid k ≡ some (r, k')
        → Step k k'
    waits :
        (cpu t pid exit_code_ptr : ℕ) (wnohang : Bool) {turn : Turn Vm Fds}
        → Runs k cpu t
        → sys_wait4 env cpu pid exit_code_ptr wnohang k ≡ some turn
        → Step k (after turn)
    works : {k' : Kernel Vm Fds} → view env k' ≡ view env k → Step k k'
    leaves :
        (cpu t now : ℕ) {k' : Kernel Vm Fds}
        → k.current cpu ≡ some t
        → status_of k.tasks t ≢ running
        → leave env cpu now k ≡ some k'
        → Step k k'

  -- Before the start there is no task.
  pub record Empty (k : Kernel Vm Fds) : Type 0 where
    pub none_allocated : k.allocated ≡ 0
    pub none_queued : k.ready_queue ≡ []
    pub none_current : (cpu : ℕ) → k.current cpu ≡ none

  pub data Reach : Kernel Vm Fds → Type 0 where
    start :
        (now : ℕ) (program : Program Vm) {k k' : Kernel Vm Fds}
        → Empty k
        → start_scheduler env now program k ≡ some k'
        → Reach k'
    later : {k k' : Kernel Vm Fds} → Reach k → Step k k' → Reach k'

  Empty-Inv : (k : Kernel Vm Fds) → Empty k → Inv (view env k)
  Empty-Inv k empty =
      let nobody : (t cpu : ℕ) → ¬ (k.current cpu ≡ some t) =
        λ t cpu h. ground (arith, empty.none_current cpu, h) in
      let nothing : (t : ℕ) → occurs t k.ready_queue ≡ 0 = λ t. ap (occurs t) empty.none_queued in
      record {
        once = λ t. omega (arith, nothing t);
        queued = λ t h. absurd (omega (arith, nothing t, h));
        not_both = λ t cpu h. nothing t;
        on_cpu = λ t cpu h. absurd (nobody t cpu h);
        one_cpu = λ t cpu other h h'. absurd (nobody t cpu h);
        placed = λ t h. absurd (omega (arith, empty.none_allocated, h));
      }

  loaded-Moves :
      (now ppid : ℕ) (program : Program Vm) (k k' : Kernel Vm Fds) (tid : Option ℕ)
      → pushed env (loaded env now ppid program k tid) ≡ some k'
      → Moves (view env k) (view env k')
  unfolding loaded first_task push_task_to_scheduler
  loaded-Moves now ppid program k k' none e = absurd (ground (arith, e))
  loaded-Moves now ppid program k k' (some tid) e =
      subst (λ x. Moves (view env k) (view env x)) (some_injective e)
        (subst
          (λ s. Moves (view env k) (record (view env k) {
            allocated = k.allocated + 1;
            queue = k.ready_queue ++ k.allocated ∷ [];
            status = s;
          }))
          (sym (status_of-put k.tasks k.allocated _)) (next add stop))

  unwrap-found : (made : Option (ℕ × Kernel Vm Fds)) → unwrap env (found env made) ≡ made
  unwrap-found none = refl
  unwrap-found (some m) = refl

  load_next_testcase-Moves :
      (now : ℕ) (tests : List (Program Vm)) (k k' : Kernel Vm Fds)
      → pushed env (unwrap env (load_next_testcase env now tests k)) ≡ some k'
      → Moves (view env k) (view env k')
  unfolding load_next_testcase from_app_name
  load_next_testcase-Moves now [] k k' e = absurd (ground (arith, e))
  load_next_testcase-Moves now (program ∷ rest) k k' e =
      let k1 = record k { testcases = rest } in
      loaded-Moves now no_parent program k1 k' (env.new_tid k1) (
        ap (pushed env) (sym (unwrap-found (loaded env now no_parent program k1 (env.new_tid k1))))
        ∙ e)

  start_scheduler-Moves :
      (now : ℕ) (program : Program Vm) (k k' : Kernel Vm Fds)
      → start_scheduler env now program k ≡ some k'
      → Moves (view env k) (view env k')
  unfolding start_scheduler from_app_name
  start_scheduler-Moves now program k k' e = elim (Bool-cases env.is_test_env) [
    | inl test ↦
        let begun : start_scheduler env now program k
            ≡ pushed env (unwrap env (load_next_testcase env now k.testcases k)) =
          simp test in
        load_next_testcase-Moves now k.testcases k k' (sym begun ∙ e)
    | inr usual ↦
        let begun : start_scheduler env now program k
            ≡ pushed env (from_app_name env now 0 program k) =
          simp usual in
        loaded-Moves now 0 program k k' (env.new_tid k) (sym begun ∙ e)
  ]

  -- Each step of a cpu is a run of moves, in a state that satisfies the invariant.
  pub Step-Moves :
      {k k' : Kernel Vm Fds} → Inv (view env k) → Step k k' → Moves (view env k) (view env k')
  Step-Moves {k} {k'} inv (enters cpu now free e) = enter-Moves env cpu now k k' free e
  Step-Moves {k} {k'} inv (suspends cpu t (c, _) e) = suspend_current_task-Moves env cpu t k k' c e
  Step-Moves {k} {k'} inv (exits cpu t exit_code (c, _) e) =
      exit_current_task-Moves env cpu t exit_code k k' c e
  Step-Moves {k} {k'} inv (clones cpu t now flags user_stack ptid tls ctid {r} (c, _) e) =
      sys_clone-Moves env cpu now flags user_stack ptid tls ctid k r k'
        (λ t' c'. (inv.on_cpu t' cpu c').0) e
  Step-Moves {k} inv (waits cpu t pid exit_code_ptr wnohang {turn} (c, _) e) =
      sys_wait4-Moves env cpu t pid exit_code_ptr wnohang k turn c e
  Step-Moves {k} {k'} inv (works same) = subst (Moves (view env k)) (sym same) stop
  Step-Moves {k} {k'} inv (leaves cpu t now c _ e) = leave-Moves env cpu t now k k' c e

  -- In every state that the kernel reaches, by its cpus in any order, no task is twice in the queue; a
  -- task of the queue is ready and no cpu has it; the task of a cpu runs, is paused or ends, and no
  -- other cpu has it; and every other task is a zombie: none is lost.
  pub Reach-Inv : {k : Kernel Vm Fds} → Reach k → Inv (view env k)
  Reach-Inv (start now program {k} {k'} empty e) =
      Moves-Inv (start_scheduler-Moves now program k k' e) (Empty-Inv k empty)
  Reach-Inv (later r s) = let inv = Reach-Inv r in Moves-Inv (Step-Moves inv s) inv
