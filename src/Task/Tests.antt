-- ===== src/Task/Tests.antt =====
-- Tasks on concrete values: a first program that forks, a child that exits, and a wait at an address.
use maturin.Prelude.{
  ℕ, ◌+◌, ◌^◌, ◌≡◌, ◌⊎◌, ◌==◌, ltb, true, false, if◌then◌else◌, List, [], ◌∷◌, Option, none, some,
  refl, arith, replicate,
}
use maturin.Signal
use maturin.Signal.{
  SignalReceivers, SignalHandlers, SigAction, handlers_new, get_one_signal, get_action_ref,
}
use maturin.Time.Stat
use maturin.Futex.{check_thread_blocked}
use maturin.Signal.Bitset.{contain_bit}
use maturin.Task.{TaskControlBlock, TaskStatus, ready, running, zombie, set_status, set_exit_code}
use maturin.Task.Kernel.{
  Kernel, Env, Program, start_scheduler, from_app_name, first_task, loaded, push_task_to_scheduler,
  fetch_task_from_scheduler, pop,
}
use maturin.Task.Cpu.{enter, entered, exit_current_task, exited_with, leave, handle_zombie_task}
use maturin.Task.Clone.{
  CloneArgs, from_clone, sys_clone, contains, clone_for, cloned, cloned_with, cloned_task,
  resolve_clone_flags_and_signal,
}
use maturin.Task.Moves.{Inv}
use maturin.Task.Refine.{view, status_of}
use maturin.Task.Reach.{Reach, Empty, start, later, enters, clones, exits, Reach-Inv}
use maturin.Task.Queue.{turns, Panics, turns-Found, Reach-leave}
use maturin.Task.Family.{handle_zombie_task-children}
use maturin.Poll.{ok}
use maturin.Task.Futex.{sys_futex, operation, deadline, sys_futex-blocked}
use maturin.Time.{TimeSpec}

-- A memory is the list of the writes to it, and descriptors are a number.
abbrev Writes : Type 0
Writes = List (ℕ × ℕ)

abbrev env : Env Writes ℕ
env = record {
  copy_as_fork = λ vm. vm;
  manually_alloc_page = λ vm addr. (true, vm);
  query = λ vm addr. true;
  write_i32 = λ vm addr value. (addr, value) ∷ vm;
  clear_user_pages = λ vm. [];
  copy_all = λ fds. fds + 100;
  new_fds = 3;
  new_tid = λ k. some k.allocated;
  user_sstatus = 0;
  cpu_id_limit = 4;
  is_test_env = false;
}

abbrev program : Program Writes
program = record { user_entry = 0x1000; user_stack = 0x3fff_0000; vm = [] }

abbrev pub no_task : TaskControlBlock
no_task = record {
  trap_cx = record { x = replicate 32 0; sstatus = 0; sepc = 0; cpu_id = 0; fs = (0, 0) };
  pid = 0;
  tid = 0;
  send_sigchld_when_exit = false;
  signal_handlers = 0;
  vm = 0;
  fd_manager = 0;
  time = Stat.new 0 0;
  inner = record {
    ppid = 0;
    user_heap_top = 0;
    task_status = TaskStatus.un_init;
    parent = none;
    children = [];
    exit_code = 0;
    set_child_tid = 0;
    clear_child_tid = 0;
    trap_cx_before_signal = none;
    signal_set_siginfo = false;
  };
}

abbrev no_kernel : Kernel Writes ℕ
no_kernel = record {
  tasks = λ t. no_task;
  allocated = 0;
  vms = λ v. [];
  fds = λ f. 0;
  handlers = λ h. handlers_new;
  signals = λ t. none;
  board = [];
  ready_queue = [];
  current = λ cpu. none;
  dead_loop_cnt = 0;
  testcases = [];
}

abbrev forced : Option (Kernel Writes ℕ) → Kernel Writes ℕ
forced none = no_kernel
forced (some k) = k

abbrev forked : Option (Option ℕ × Kernel Writes ℕ) → Kernel Writes ℕ
forked none = no_kernel
forked (some (r, k)) = k

-- The first program starts, and runs on cpu 0.
abbrev booted : Kernel Writes ℕ
booted = forced (start_scheduler env 5 program no_kernel)

abbrev first_runs : Kernel Writes ℕ
first_runs = forced (enter env 0 10 booted)

-- It forks, with SIGCHLD; the child runs on cpu 1, exits with 7 and leaves.
abbrev two_tasks : Kernel Writes ℕ
two_tasks = forked (sys_clone env 0 20 17 0 0 0 0 first_runs)

abbrev child_runs : Kernel Writes ℕ
child_runs = forced (enter env 1 30 two_tasks)

abbrev child_exited : Kernel Writes ℕ
child_exited = forced (exit_current_task env 1 7 child_runs)

abbrev child_left : Kernel Writes ℕ
child_left = forced (leave env 1 40 child_exited)

no_kernel-Empty : Empty env no_kernel
no_kernel-Empty = record { none_allocated = refl; none_queued = refl; none_current = λ cpu. refl }

booted-Reach : Reach env booted
unfolding start_scheduler from_app_name loaded push_task_to_scheduler
booted-Reach = start 5 program {k = no_kernel} {k' = booted} no_kernel-Empty refl

first_runs-Reach : Reach env first_runs
unfolding start_scheduler from_app_name loaded push_task_to_scheduler enter
    fetch_task_from_scheduler pop entered check_thread_blocked set_status
first_runs-Reach = later {k = booted} {k' = first_runs} booted-Reach (enters 0 10 refl refl)

two_tasks-Reach : Reach env two_tasks
unfolding start_scheduler from_app_name loaded push_task_to_scheduler enter
    fetch_task_from_scheduler pop entered check_thread_blocked set_status sys_clone clone_for cloned
    from_clone cloned_with cloned_task
two_tasks-Reach =
    later {k = first_runs} {k' = two_tasks} first_runs-Reach
      (clones 0 0 20 17 0 0 0 0 {r = some 1} (refl, refl) refl)

child_runs-Reach : Reach env child_runs
unfolding start_scheduler from_app_name loaded push_task_to_scheduler enter
    fetch_task_from_scheduler pop entered check_thread_blocked set_status sys_clone clone_for cloned
    from_clone cloned_with cloned_task
child_runs-Reach = later {k = two_tasks} {k' = child_runs} two_tasks-Reach (enters 1 30 refl refl)

child_exited-Reach : Reach env child_exited
unfolding start_scheduler from_app_name loaded push_task_to_scheduler enter
    fetch_task_from_scheduler pop entered check_thread_blocked set_status sys_clone clone_for cloned
    from_clone cloned_with cloned_task exit_current_task exited_with set_exit_code
child_exited-Reach =
    later {k = child_runs} {k' = child_exited} child_runs-Reach (exits 1 1 7 (refl, refl) refl)

Reach-Inv_example : Inv (view env child_exited)
Reach-Inv_example = Reach-Inv env child_exited-Reach

Reach-leave_example :
    ((k' : Kernel Writes ℕ) × (leave env 1 40 child_exited ≡ some k'))
    ⊎ ((leave env 1 40 child_exited ≡ none) × Panics env 1 child_exited)
unfolding start_scheduler from_app_name loaded push_task_to_scheduler enter
    fetch_task_from_scheduler pop entered check_thread_blocked set_status sys_clone clone_for cloned
    from_clone cloned_with cloned_task exit_current_task exited_with set_exit_code contains
    resolve_clone_flags_and_signal contain_bit
Reach-leave_example =
    Reach-leave env 1 1 40 child_exited child_exited-Reach refl (λ e. ground (arith, e))

turns-Found_example :
    (k' : Kernel Writes ℕ) × (turns env 1 1 30 two_tasks ≡ some k')
    × (k'.current 1 ≡ some 1)
    × (k'.ready_queue ≡ [])
    × (status_of k'.tasks 1 ≡ running)
unfolding start_scheduler from_app_name loaded push_task_to_scheduler enter
    fetch_task_from_scheduler pop entered check_thread_blocked set_status sys_clone clone_for cloned
    from_clone cloned_with cloned_task
turns-Found_example = turns-Found env 1 30 1 [] [] two_tasks refl tt refl

-- The task 1 has the children 2 and 3, and the first task has the child 1.
abbrev with_children : ℕ → List ℕ → TaskControlBlock
with_children ppid children = record no_task {
  inner = record no_task.inner { ppid = ppid; children = children };
}

abbrev family : Kernel Writes ℕ
family = record no_kernel {
  tasks = λ t.
      if t == 0
      then with_children 0 (1 ∷ [])
      else if t == 1
      then with_children 0 (2 ∷ 3 ∷ [])
      else no_task;
  allocated = 5;
}

handle_zombie_task-children_example :
    let after = (handle_zombie_task env family 1).tasks in
    ((after 1).inner.task_status ≡ zombie)
    × ((after 1).inner.children ≡ [])
    × ((after 3).inner.ppid ≡ 0)
    × ((after 3).inner.parent ≡ some 0)
    × ((after 0).inner.children ≡ 1 ∷ 2 ∷ 3 ∷ [])
    × (after 4 ≡ no_task)
handle_zombie_task-children_example =
    handle_zombie_task-children env 1 3 4 family refl refl (omega arith) (λ e. omega (arith, e))
      (λ e. omega (arith, e)) refl

-- A thread of the first task: it shares memory, descriptors and handlers.
abbrev thread_args : CloneArgs
thread_args = record {
  user_stack = some 0x3000_0000;
  send_sigchld_when_exit = false;
  flags = 2 ^ 8 + 2 ^ 10 + 2 ^ 11 + 2 ^ 16;
  tls = 0;
  ptid = 0;
  ctid = 0;
}

abbrev half_second : Writes → ℕ → TimeSpec
half_second vm a = record { tv_sec = 0; tv_nsec = 500000000 }

-- The first task waits for 0 at an address that holds 0, until half a second of the clock.
sys_futex-blocked_example :
    (k' : Kernel Writes ℕ) × (sys_futex env (λ vm a. 0) half_second 0 0x2000 0 0 0x2008 first_runs
      ≡ some (ok 0, k'))
    × (status_of k'.tasks 0 ≡ ready)
    × ((check_thread_blocked 40 k'.board 0).0 ≡ (
        if 0x2008 == 0
        then false
        else ltb 40 (deadline env (λ vm a. 0) half_second 0x2008 (true, []))))
unfolding start_scheduler from_app_name loaded push_task_to_scheduler enter
    fetch_task_from_scheduler pop entered check_thread_blocked set_status operation first_task
sys_futex-blocked_example =
    sys_futex-blocked env (λ vm a. 0) half_second 0 0 0x2000 0 0 0x2008 40 first_runs [] refl refl
      refl refl
