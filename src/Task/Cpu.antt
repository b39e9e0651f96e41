-- ===== src/Task/Cpu.antt =====
-- kernel/src/task/cpu_local.rs and syscall/loops.rs: a cpu takes a task from the queue, runs it, and
-- takes it back. `run_tasks` is two functions, before and after the switch to the task. A lock that
-- `try_lock` waits for is taken to be free in the end. `none` is a panic.
use maturin.Prelude.{
  ℕ, zero, suc, ◌+◌, ◌==◌, ◌&&◌, ◌||◌, Bool, true, false, not, leb, if◌then◌else◌, List, [], ◌∷◌,
  ◌++◌, Option, none, some,
}
use maturin.Time.Stat.{TimeStat, Sent, switch_into_task, switch_out_task}
use maturin.Futex.{Board, check_thread_blocked}
use maturin.Signal.{Tid2Signals, send_signal, global_logoff_signals}
use maturin.Task.{
  TaskControlBlock, TaskStatus, ready, running, dying, zombie, no_parent, set_status, set_exit_code,
  get_status,
}
use maturin.Task.Handling.{put}
use maturin.Task.Kernel.{Kernel, Env, with_task, push_task_to_scheduler, fetch_task_from_scheduler}

-- `LOOP_LIMIT`
abbrev loop_limit : ℕ
loop_limit = 100

-- `LoopCounter::count`: whether the process has to be ended, and the counter.
unfoldable pub count : ℕ → Bool × ℕ
count cnt = (leb loop_limit (cnt + 1), cnt + 1)

-- `ORIGIN_USER_PROC`, the first task where there are no tests.
abbrev pub origin : ℕ
origin = 0

abbrev pub mem : ℕ → List ℕ → Bool
mem t [] = false
mem t (x ∷ xs) = (t == x) || mem t xs

abbrev pub is_at : ℕ → Option ℕ → Bool
is_at t none = false
is_at t (some x) = t == x

-- Whether some number below `n` passes the test, and how many do.
abbrev pub any_below : (ℕ → Bool) → ℕ → Bool
any_below p zero = false
any_below p (suc n) = p n || any_below p n

abbrev pub count_below : (ℕ → Bool) → ℕ → ℕ
count_below p zero = 0
count_below p (suc n) = (if p n then 1 else 0) + count_below p n

-- The signals that a change of the times of a task sends.
unfoldable pub send_all : Tid2Signals → Sent → Tid2Signals
send_all table [] = table
send_all table ((tid, signum) ∷ sent) = send_all (send_signal table tid signum) sent

module _ {Vm Fds : Type 0} (env : Env Vm Fds) where
  -- A task that is blocked goes back to the queue.
  unfoldable pub entered : ℕ → ℕ → ℕ → Bool × Board → Kernel Vm Fds → Kernel Vm Fds
  entered cpu now t (true, board) k = push_task_to_scheduler env (record k { board = board }) t
  entered cpu now t (false, board) k =
      let task = k.tasks t in
      record k {
        board = board;
        tasks =
            put k.tasks t
              (record (set_status task running) { time = switch_into_task now task.time });
        current = put k.current cpu (some t);
        dead_loop_cnt = 0;
      }

  -- With the task that was fetched.
  abbrev pub enter_with :
      ℕ → ℕ → Kernel Vm Fds → Option (Option (ℕ × Kernel Vm Fds)) → Option (Kernel Vm Fds)
  enter_with cpu now k none = none
  enter_with cpu now k (some none) = some k
  enter_with cpu now k (some (some (t, k'))) =
      some (entered cpu now t (check_thread_blocked now k'.board (k'.tasks t).tid) k')

  unfoldable pub enter : ℕ → ℕ → Kernel Vm Fds → Option (Kernel Vm Fds)
  enter cpu now k = enter_with cpu now k (fetch_task_from_scheduler env now k)

  unfoldable pub suspend_current_task : ℕ → Kernel Vm Fds → Option (Kernel Vm Fds)
  suspend_current_task cpu k = elim (k.current cpu) [
    | none ↦ none
    | some t ↦ some (with_task env k t (set_status (k.tasks t) ready))
  ]

  -- A write to the memory of a user, where the page could be allocated.
  unfoldable pub written : ℕ → ℕ → Bool × Vm → Vm
  written addr value (true, vm) = env.write_i32 vm addr value
  written addr value (false, vm) = vm

  -- The task `t`, ended with a code.
  unfoldable pub exited_with : Kernel Vm Fds → ℕ → TaskControlBlock → Kernel Vm Fds
  exited_with k t task =
      let addr = task.inner.clear_child_tid in
      record k {
        tasks = put k.tasks t task;
        vms =
            if addr == 0
            then k.vms
            else put k.vms task.vm (written addr 0 (env.manually_alloc_page (k.vms task.vm) addr));
      }

  unfoldable pub exit_current_task : ℕ → ℕ → Kernel Vm Fds → Option (Kernel Vm Fds)
  exit_current_task cpu exit_code k = elim (k.current cpu) [
    | none ↦ none
    | some t ↦ some (exited_with k t (set_exit_code (set_status (k.tasks t) dying) exit_code))
  ]

  abbrev with_parent : TaskControlBlock → Option ℕ → ℕ → TaskControlBlock
  with_parent task parent ppid = record task {
    inner = record task.inner { parent = parent; ppid = ppid };
  }

  abbrev with_child : TaskControlBlock → ℕ → TaskControlBlock
  with_child task child = record task {
    inner = record task.inner { children = task.inner.children ++ child ∷ [] };
  }

  -- One child of a task that exits, whose own parent is `ppid`.
  unfoldable pub reparented : ℕ → Kernel Vm Fds → ℕ → Kernel Vm Fds
  reparented ppid k child =
      if (ppid == no_parent) || env.is_test_env
      then with_task env k child
          (record (k.tasks child) { inner = record (k.tasks child).inner { ppid = no_parent } })
      else let tasks = put k.tasks child (with_parent (k.tasks child) (some origin) 0) in
        record k { tasks = put tasks origin (with_child (tasks origin) child) }

  unfoldable pub reparent_all : ℕ → List ℕ → Kernel Vm Fds → Kernel Vm Fds
  reparent_all ppid [] k = k
  reparent_all ppid (child ∷ children) k = reparent_all ppid children (reparented ppid k child)

  -- Whether an `Arc` of the task is held: by the queue, a cpu, a task, or as the first task,
  -- which is kept where there are no tests.
  unfoldable pub is_referenced : Kernel Vm Fds → ℕ → Bool
  is_referenced k t =
      (not env.is_test_env && (t == origin))
      || mem t k.ready_queue
      || any_below (λ cpu. is_at t (k.current cpu)) env.cpu_id_limit
      || any_below (λ parent. mem t (k.tasks parent).inner.children) k.allocated

  -- `Arc::strong_count` of the memory of a task, while `task` is held.
  unfoldable pub strong_count : Kernel Vm Fds → ℕ → ℕ → ℕ
  strong_count k task v =
      count_below (λ t. ((k.tasks t).vm == v) && ((t == task) || is_referenced k t)) k.allocated

  -- The children are gone and the status is set.
  abbrev ended : TaskControlBlock → TaskControlBlock
  ended task = record task { inner = record task.inner { children = []; task_status = zombie } }

  unfoldable pub end_task : Kernel Vm Fds → ℕ → Kernel Vm Fds
  end_task k t =
      let task = k.tasks t in
      let signals =
        if task.send_sigchld_when_exit || (task.pid == task.tid)
        then send_signal k.signals task.inner.ppid 17
        else k.signals in
      record k {
        tasks = put k.tasks t (ended task);
        signals = global_logoff_signals signals task.tid;
      }

  unfoldable pub release_vm : Kernel Vm Fds → ℕ → ℕ → Kernel Vm Fds
  release_vm k t v =
      if strong_count k t v == 1
      then record k { vms = put k.vms v (env.clear_user_pages (k.vms v)) }
      else k

  unfoldable pub handle_zombie_task : Kernel Vm Fds → ℕ → Kernel Vm Fds
  handle_zombie_task k t =
      let inner = (k.tasks t).inner in
      release_vm (end_task (reparent_all inner.ppid inner.children k) t) t (k.tasks t).vm

  -- What becomes of the task that has left the cpu, by its status.
  unfoldable pub put_down : ℕ → TaskStatus → Kernel Vm Fds → Option (Kernel Vm Fds)
  put_down t ready k = some (push_task_to_scheduler env k t)
  put_down t dying k =
      if not env.is_test_env && ((k.tasks t).pid == 0) then none else some (handle_zombie_task k t)
  put_down t _ k = none

  -- The times of the task that has left the cpu.
  unfoldable pub switched_out : Kernel Vm Fds → ℕ → TimeStat × Sent → Kernel Vm Fds
  switched_out k t (time, sent) = record k {
    tasks = put k.tasks t (record (k.tasks t) { time = time });
    signals = send_all k.signals sent;
  }

  unfoldable pub leave : ℕ → ℕ → Kernel Vm Fds → Option (Kernel Vm Fds)
  leave cpu now k = elim (k.current cpu) [
    | none ↦ none
    | some t ↦
        let k' = switched_out k t (switch_out_task now (k.tasks t).time) in
        put_down t (get_status (k'.tasks t)) (record k' { current = put k.current cpu none })
  ]
