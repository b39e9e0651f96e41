-- ===== src/Task/Kernel.antt =====
-- kernel/src/task/scheduler.rs, and the state that the tasks share: an `Arc` of a task is the number
-- of the task, and the objects that a task owns or shares are named by the number of the task that
-- they were made for. The receivers of a task are the entry of the table of signals.
use maturin.Prelude.{
  ℕ, ◌+◌, Bool, true, false, if◌then◌else◌, List, [], ◌∷◌, ◌++◌, replicate, length, Option, none,
  some,
}
use maturin.Time.Stat
use maturin.Futex.{Board}
use maturin.Signal.{SignalHandlers, Tid2Signals, global_register_signals, handlers_new}
use maturin.Signal
use maturin.Task.{
  TaskControlBlock, TrapContext, ready, set_sp, set_gp, set_a0, user_stack_offset, no_parent,
}
use maturin.Task.Handling.{put}

-- What the loader makes of a program: the entry, the stack pointer and the memory.
pub record Program (Vm : Type 0) : Type 0 where
  pub user_entry : ℕ
  pub user_stack : ℕ
  pub vm : Vm

-- `GLOBAL_TASK_SCHEDULER` is `ready_queue`, and `CPU_CONTEXTS` is `current`, by cpu.
pub record Kernel (Vm Fds : Type 0) : Type 0 where
  pub tasks : ℕ → TaskControlBlock
  pub allocated : ℕ
  pub vms : ℕ → Vm
  pub fds : ℕ → Fds
  pub handlers : ℕ → SignalHandlers
  pub signals : Tid2Signals
  pub board : Board
  pub ready_queue : List ℕ
  pub current : ℕ → Option ℕ
  pub dead_loop_cnt : ℕ
  pub testcases : List (Program Vm)

-- What the tasks use: the memory of a task, its descriptors, the ids of threads (`none` where no id is
-- left), `sstatus` with the mode of the user, and two constants of the build.
pub record Env (Vm Fds : Type 0) : Type 0 where
  pub copy_as_fork : Vm → Vm
  pub manually_alloc_page : Vm → ℕ → Bool × Vm
  pub query : Vm → ℕ → Bool
  pub write_i32 : Vm → ℕ → ℕ → Vm
  pub clear_user_pages : Vm → Vm
  pub copy_all : Fds → Fds
  pub new_fds : Fds
  pub new_tid : Kernel Vm Fds → Option ℕ
  pub user_sstatus : ℕ
  pub cpu_id_limit : ℕ
  pub is_test_env : Bool

-- `TrapContext::app_init_context`
unfoldable pub app_init_context : ℕ → ℕ → ℕ → TrapContext
app_init_context sstatus entry sp =
    set_a0
      (set_gp
        (set_sp
          (record {
            x = replicate 32 0;
            sstatus = sstatus;
            sepc = entry;
            cpu_id = no_parent;
            fs = (0, 0);
          })
          sp)
        0x17908)
      sp

module _ {Vm Fds : Type 0} (env : Env Vm Fds) where
  unfoldable pub with_task : Kernel Vm Fds → ℕ → TaskControlBlock → Kernel Vm Fds
  with_task k t task = record k { tasks = put k.tasks t task }

  unfoldable pub push_task_to_scheduler : Kernel Vm Fds → ℕ → Kernel Vm Fds
  push_task_to_scheduler k t = record k { ready_queue = k.ready_queue ++ t ∷ [] }

  abbrev pub popped : Kernel Vm Fds → List ℕ → Option (ℕ × Kernel Vm Fds)
  popped k [] = none
  popped k (t ∷ rest) = some (t, record k { ready_queue = rest })

  unfoldable pub pop : Kernel Vm Fds → Option (ℕ × Kernel Vm Fds)
  pop k = popped k k.ready_queue

  unfoldable pub size : Kernel Vm Fds → ℕ
  size k = length k.ready_queue

  -- The task of a program that was loaded, with the id `tid`.
  unfoldable pub first_task : ℕ → ℕ → ℕ → ℕ → Program Vm → TaskControlBlock
  first_task now t tid ppid program = record {
    trap_cx = app_init_context env.user_sstatus program.user_entry program.user_stack;
    pid = tid;
    tid = tid;
    send_sigchld_when_exit = true;
    signal_handlers = t;
    vm = t;
    fd_manager = t;
    time = Stat.new now tid;
    inner = record {
      ppid = ppid;
      user_heap_top = user_stack_offset;
      task_status = ready;
      parent = none;
      children = [];
      exit_code = 0;
      set_child_tid = 0;
      clear_child_tid = 0;
      trap_cx_before_signal = none;
      signal_set_siginfo = false;
    };
  }

  -- With the result of `Tid::new`.
  unfoldable pub loaded : ℕ → ℕ → Program Vm → Kernel Vm Fds → Option ℕ → Option (ℕ × Kernel Vm Fds)
  loaded now ppid program k none = none
  loaded now ppid program k (some tid) = some (
    k.allocated,
    record k {
      tasks = put k.tasks k.allocated (first_task now k.allocated tid ppid program);
      allocated = k.allocated + 1;
      vms = put k.vms k.allocated program.vm;
      fds = put k.fds k.allocated env.new_fds;
      handlers = put k.handlers k.allocated handlers_new;
      signals = global_register_signals k.signals tid Signal.new;
    },
  )

  -- `from_app_name`, for a file that exists and that the loader accepts. `none` is a panic.
  unfoldable pub from_app_name : ℕ → ℕ → Program Vm → Kernel Vm Fds → Option (ℕ × Kernel Vm Fds)
  from_app_name now ppid program k = loaded now ppid program k (env.new_tid k)

  abbrev pub found : Option (ℕ × Kernel Vm Fds) → Option (Option (ℕ × Kernel Vm Fds))
  found none = none
  found (some loaded) = some (some loaded)

  -- `some none` is the end of the tests.
  unfoldable pub load_next_testcase :
      ℕ → List (Program Vm) → Kernel Vm Fds → Option (Option (ℕ × Kernel Vm Fds))
  load_next_testcase now [] k = some none
  load_next_testcase now (program ∷ rest) k =
      found (from_app_name now no_parent program (record k { testcases = rest }))

  abbrev pub or_testcase :
      ℕ → Kernel Vm Fds → Bool → Option (ℕ × Kernel Vm Fds) → Option (Option (ℕ × Kernel Vm Fds))
  or_testcase now k is_test (some fetched) = some (some fetched)
  or_testcase now k true none = load_next_testcase now k.testcases k
  or_testcase now k false none = some none

  -- `some none` is that there is no task; where the tests have ended the cpu is idle from then on.
  unfoldable pub fetch_task_from_scheduler : ℕ → Kernel Vm Fds → Option (Option (ℕ × Kernel Vm Fds))
  fetch_task_from_scheduler now k = or_testcase now k env.is_test_env (pop k)

  abbrev pub pushed : Option (ℕ × Kernel Vm Fds) → Option (Kernel Vm Fds)
  pushed none = none
  pushed (some (t, k)) = some (push_task_to_scheduler k t)

  abbrev pub unwrap : Option (Option (ℕ × Kernel Vm Fds)) → Option (ℕ × Kernel Vm Fds)
  unwrap none = none
  unwrap (some loaded) = loaded

  -- The start of `GLOBAL_TASK_SCHEDULER`: the first test, or the first user program.
  unfoldable pub start_scheduler : ℕ → Program Vm → Kernel Vm Fds → Option (Kernel Vm Fds)
  start_scheduler now program k =
      if env.is_test_env
      then pushed (unwrap (load_next_testcase now k.testcases k))
      else pushed (from_app_name now 0 program k)
