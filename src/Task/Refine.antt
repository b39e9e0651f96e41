-- ===== src/Task/Refine.antt =====
-- kernel/src/task: each operation of the kernel on its tasks is a run of moves of a task between the
-- queue, the cpus and nobody.
use maturin.Prelude.{
  ℕ, ◌+◌, ◌≡◌, ◌==◌, Bool, true, false, if◌then◌else◌, List, [], ◌∷◌, ◌++◌, Option, none, some,
  refl, sym, subst, ap, ◌∙◌, arith, inl, inr,
}
use std.Path.{fun_ext}
use maturin.Futex.{Board, check_thread_blocked}
use maturin.Task.{TaskControlBlock, TaskStatus, ready, no_parent, set_status}
use maturin.Task.Handling.{put}
use maturin.Task.Kernel.{
  Kernel, Env, Program, push_task_to_scheduler, pop, first_task, from_app_name, found,
  load_next_testcase, loaded, popped, or_testcase, fetch_task_from_scheduler,
}
use maturin.Task.Cpu.{entered, enter_with, enter}
use maturin.Task.Moves.{View, Move, rotate, take, add, Moves, stop, next}
use maturin.Task.Held.{put_cases}

abbrev pub status_of : (ℕ → TaskControlBlock) → ℕ → TaskStatus
status_of tasks t = (tasks t).inner.task_status

if-status :
    (b : Bool) (x y : TaskControlBlock)
    → (if b then x else y).inner.task_status
      ≡ (if b then x.inner.task_status else y.inner.task_status)
if-status true x y = refl
if-status false x y = refl

pub status_of-put :
    (tasks : ℕ → TaskControlBlock) (t : ℕ) (task : TaskControlBlock)
    → status_of (put tasks t task) ≡ put (status_of tasks) t task.inner.task_status
status_of-put tasks t task = fun_ext (λ j. if-status (j == t) task (tasks j))

-- A write that keeps the status.
pub status_of-kept :
    (tasks : ℕ → TaskControlBlock) (t : ℕ) (task : TaskControlBlock)
    → task.inner.task_status ≡ status_of tasks t
    → status_of (put tasks t task) ≡ status_of tasks
status_of-kept tasks t task kept = fun_ext (λ j. elim (put_cases tasks t task j) [
  | inl (same, e) ↦ ap (λ x. x.inner.task_status) e ∙ kept ∙ ap (status_of tasks) (sym same)
  | inr (_, e) ↦ ap (λ x. x.inner.task_status) e
])

pub some_injective {ℓ} : {A : Type ℓ} {x y : A} → some x ≡ some y → x ≡ y
some_injective {x} e = ap (λ o. elim o [ none ↦ x | some z ↦ z ]) e

pub Moves-append : {u v w : View} → Moves u v → Moves v w → Moves u w
Moves-append stop ms = ms
Moves-append (next m ns) ms = next m (Moves-append ns ms)

module _ {Vm Fds : Type 0} (env : Env Vm Fds) where
  abbrev pub view : Kernel Vm Fds → View
  view k = record {
    allocated = k.allocated;
    queue = k.ready_queue;
    current = k.current;
    status = status_of k.tasks;
  }

  -- A task that is taken off the queue, while it is still seen there.
  abbrev seen_queued : ℕ → Kernel Vm Fds → View
  seen_queued t k = record (view k) { queue = t ∷ k.ready_queue }

  entered-Move :
      (cpu now t : ℕ) (checked : Bool × Board) (k : Kernel Vm Fds)
      → k.current cpu ≡ none
      → Move (seen_queued t k) (view (entered env cpu now t checked k))
  unfolding entered push_task_to_scheduler set_status
  entered-Move cpu now t (true, board) k free = rotate refl
  entered-Move cpu now t (false, board) k free =
      subst
        (λ s.
          Move (seen_queued t k)
            (record (view k) { current = put k.current cpu (some t); status = s }))
        (sym (status_of-put k.tasks t _)) (take cpu free refl)

  -- What was fetched: a task that is still seen in the queue, on the same cpus.
  abbrev Fetched : Kernel Vm Fds → Option (Option (ℕ × Kernel Vm Fds)) → Type 0
  Fetched k none = Unit
  Fetched k (some none) = Unit
  Fetched k (some (some (t, k'))) = Moves (view k) (seen_queued t k') × (k'.current ≡ k.current)

  loaded-Fetched :
      (now ppid : ℕ) (program : Program Vm) (k : Kernel Vm Fds) (tid : Option ℕ)
      → k.ready_queue ≡ []
      → Fetched k (found env (loaded env now ppid program k tid))
  unfolding loaded first_task
  loaded-Fetched now ppid program k none empty = tt
  loaded-Fetched now ppid program k (some tid) empty = (
    subst
        (λ s. Moves (view k) (record (view k) {
          allocated = k.allocated + 1;
          queue = k.allocated ∷ k.ready_queue;
          status = s;
        }))
        (sym (status_of-put k.tasks k.allocated _))
        (subst
          (λ q. Moves (view k) (record (view k) {
            allocated = k.allocated + 1;
            queue = q;
            status = put (status_of k.tasks) k.allocated ready;
          }))
          (ap (λ q. q ++ k.allocated ∷ []) empty ∙ ap (λ q. k.allocated ∷ q) (sym empty))
          (next add stop)),
    refl,
  )

  load_next_testcase-Fetched :
      (now : ℕ) (tests : List (Program Vm)) (k : Kernel Vm Fds)
      → k.ready_queue ≡ []
      → Fetched k (load_next_testcase env now tests k)
  unfolding load_next_testcase from_app_name
  load_next_testcase-Fetched now [] k empty = tt
  load_next_testcase-Fetched now (program ∷ rest) k empty =
      loaded-Fetched now no_parent program (record k { testcases = rest })
        (env.new_tid (record k { testcases = rest })) empty

  or_testcase-Fetched :
      (now : ℕ) (queue : List ℕ) (is_test : Bool) (k : Kernel Vm Fds)
      → k.ready_queue ≡ queue
      → Fetched k (or_testcase env now k is_test (popped env k queue))
  or_testcase-Fetched now [] true k e = load_next_testcase-Fetched now k.testcases k e
  or_testcase-Fetched now [] false k e = tt
  or_testcase-Fetched now (t ∷ rest) is_test k e =
      (subst (λ q. Moves (view k) (record (view k) { queue = q })) e stop, refl)

  fetch_task-Fetched :
      (now : ℕ) (k : Kernel Vm Fds) → Fetched k (fetch_task_from_scheduler env now k)
  unfolding fetch_task_from_scheduler pop
  fetch_task-Fetched now k = or_testcase-Fetched now k.ready_queue env.is_test_env k refl

  enter-Fetched :
      (cpu now : ℕ) (k k' : Kernel Vm Fds) (fetched : Option (Option (ℕ × Kernel Vm Fds)))
      → k.current cpu ≡ none
      → Fetched k fetched
      → enter_with env cpu now k fetched ≡ some k'
      → Moves (view k) (view k')
  enter-Fetched cpu now k k' none free f e = absurd (ground (arith, e))
  enter-Fetched cpu now k k' (some none) free f e =
      subst (λ x. Moves (view k) (view x)) (some_injective e) stop
  enter-Fetched cpu now k k' (some (some (t, k1))) free (ms, same) e =
      subst (λ x. Moves (view k) (view x)) (some_injective e)
        (Moves-append ms (
          next
            (entered-Move cpu now t (check_thread_blocked now k1.board (k1.tasks t).tid) k1
              (ap (λ c. c cpu) same ∙ free))
            stop))

  -- A cpu without a task that looks for one.
  pub enter-Moves :
      (cpu now : ℕ) (k k' : Kernel Vm Fds)
      → k.current cpu ≡ none
      → enter env cpu now k ≡ some k'
      → Moves (view k) (view k')
  unfolding enter
  enter-Moves cpu now k k' free e =
      enter-Fetched cpu now k k' (fetch_task_from_scheduler env now k) free
        (fetch_task-Fetched now k) e
