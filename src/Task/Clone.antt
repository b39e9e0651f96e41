-- ===== src/Task/Clone.antt =====
-- kernel/src/task/task.rs, `from_clone`, clone_flags.rs, and `sys_clone`. The flags are a number; a
-- flag is the place of its bit. `none` is a panic.
use maturin.Prelude.{
  ℕ, ◌+◌, ◌*◌, ◌/◌, ◌%◌, ◌^◌, ◌==◌, ◌||◌, Bool, true, false, leb, if◌then◌else◌, [], ◌∷◌, ◌++◌,
  Option, none, some,
}
use maturin.Signal
use maturin.Signal.{global_register_signals}
use maturin.Signal.Bitset.{contain_bit}
use maturin.Time.Stat
use maturin.Task.{TaskControlBlock, TrapContext, ready, user_stack_offset, set_a0, set_tp, set_sp}
use maturin.Task.Handling.{put}
use maturin.Task.Kernel.{Kernel, Env, push_task_to_scheduler}
use maturin.Task.Cpu.{written}

abbrev pub clone_vm : ℕ
clone_vm = 8

abbrev pub clone_files : ℕ
clone_files = 10

abbrev pub clone_sighand : ℕ
clone_sighand = 11

abbrev pub clone_parent : ℕ
clone_parent = 15

abbrev pub clone_thread : ℕ
clone_thread = 16

abbrev pub clone_settls : ℕ
clone_settls = 19

abbrev pub clone_parent_settid : ℕ
clone_parent_settid = 20

abbrev pub clone_child_cleartid : ℕ
clone_child_cleartid = 21

abbrev pub clone_child_settid : ℕ
clone_child_settid = 24

-- The bits from 7 to 24 are the flags, and the low 6 bits the signal.
unfoldable pub resolve_clone_flags_and_signal : ℕ → ℕ × ℕ
resolve_clone_flags_and_signal flag = (flag % 2 ^ 25 / 2 ^ 7 * 2 ^ 7, flag % 2 ^ 6)

-- The arguments of the call, with the flags resolved.
pub record CloneArgs : Type 0 where
  pub user_stack : Option ℕ
  pub send_sigchld_when_exit : Bool
  pub flags : ℕ
  pub tls : ℕ
  pub ptid : ℕ
  pub ctid : ℕ

unfoldable pub contains : CloneArgs → ℕ → Bool
contains args flag = contain_bit args.flags flag

abbrev stack_for : Option ℕ → TrapContext → TrapContext
stack_for none cx = cx
stack_for (some sp) cx = set_sp cx sp

unfoldable pub cloned_cx : CloneArgs → TrapContext → TrapContext
cloned_cx args cx =
    let cx' = set_a0 cx 0 in
    stack_for args.user_stack (if contains args clone_settls then set_tp cx' args.tls else cx')

-- The task `n` with the id `tid`, made by the task `t`.
unfoldable pub cloned_task : CloneArgs → ℕ → ℕ → ℕ → ℕ → TaskControlBlock → TaskControlBlock
cloned_task args now t n tid self = record {
  trap_cx = cloned_cx args self.trap_cx;
  pid = if contains args clone_thread then self.pid else tid;
  tid = tid;
  send_sigchld_when_exit = args.send_sigchld_when_exit;
  signal_handlers = if contains args clone_sighand then self.signal_handlers else n;
  vm = if contains args clone_vm then self.vm else n;
  fd_manager = if contains args clone_files then self.fd_manager else n;
  time = Stat.new now tid;
  inner = record {
    ppid = if contains args clone_parent then self.inner.ppid else self.tid;
    user_heap_top = user_stack_offset;
    task_status = ready;
    parent = some t;
    children = [];
    exit_code = 0;
    set_child_tid = if contains args clone_child_settid then args.ctid else 0;
    clear_child_tid = if contains args clone_child_cleartid then args.ctid else 0;
    trap_cx_before_signal = none;
    signal_set_siginfo = false;
  };
}

-- What is written to the address of the child.
unfoldable pub child_tid : CloneArgs → ℕ → ℕ
child_tid args tid = if contains args clone_child_settid then tid % 2 ^ 32 else 0

-- The task that clones, with its new child.
unfoldable pub with_clone : CloneArgs → ℕ → TaskControlBlock → TaskControlBlock
with_clone args n self =
    if contains args clone_parent
    then self
    else record self { inner = record self.inner { children = self.inner.children ++ n ∷ [] } }

module _ {Vm Fds : Type 0} (env : Env Vm Fds) where
  abbrev write_at : (ℕ → Vm) → ℕ → ℕ → ℕ → ℕ → Vm
  write_at vms v addr value =
      put vms v (written env addr value (env.manually_alloc_page (vms v) addr))

  -- The write to a memory that is not the current one goes by way of the page table.
  unfoldable pub written_to_copy : ℕ → ℕ → Bool × Vm → Vm
  written_to_copy addr value (true, vm) =
      if env.query vm addr then env.write_i32 vm addr value else vm
  written_to_copy addr value (false, vm) = vm

  unfoldable pub cloned_vms : CloneArgs → ℕ → ℕ → ℕ → (ℕ → Vm) → ℕ → Vm
  cloned_vms args n tid v vms =
      let vms1 = if contains args clone_vm then vms else put vms n (env.copy_as_fork (vms v)) in
      let vms2 =
        if contains args clone_parent_settid
        then write_at vms1 v args.ptid (tid % 2 ^ 32)
        else vms1 in
      if contains args clone_child_settid || contains args clone_child_cleartid
      then if contains args clone_vm
        then write_at vms2 v args.ctid (child_tid args tid)
        else put vms2 n (
            written_to_copy args.ctid (child_tid args tid)
              (env.manually_alloc_page (vms2 n) args.ctid))
      else vms2

  -- With the result of `Tid::new`.
  unfoldable pub cloned_with :
      CloneArgs → ℕ → ℕ → Kernel Vm Fds → Option ℕ → Option (ℕ × Kernel Vm Fds)
  cloned_with args now t k none = none
  cloned_with args now t k (some tid) =
      let self = k.tasks t in
      let n = k.allocated in
      some (
        n,
        record k {
          tasks =
              put (put k.tasks n (cloned_task args now t n tid self)) t (with_clone args n self);
          allocated = n + 1;
          vms = cloned_vms args n tid self.vm k.vms;
          fds =
              if contains args clone_files
              then k.fds
              else put k.fds n (env.copy_all (k.fds self.fd_manager));
          handlers =
              if contains args clone_sighand
              then k.handlers
              else put k.handlers n (k.handlers self.signal_handlers);
          signals = global_register_signals k.signals tid Signal.new;
        },
      )

  unfoldable pub from_clone : CloneArgs → ℕ → ℕ → Kernel Vm Fds → Option (ℕ × Kernel Vm Fds)
  from_clone args now t k = cloned_with args now t k (env.new_tid k)

  -- The id of the new task, and the new task in the queue.
  unfoldable pub cloned : Option (ℕ × Kernel Vm Fds) → Option (Option ℕ × Kernel Vm Fds)
  cloned none = none
  cloned (some (n, k)) = some (some (k.tasks n).tid, push_task_to_scheduler env k n)

  -- The call of the task that runs.
  unfoldable pub clone_for :
      ℕ → ℕ × ℕ → ℕ → ℕ → ℕ → ℕ → Kernel Vm Fds → Option ℕ → Option (Option ℕ × Kernel Vm Fds)
  clone_for now (flags, signal) user_stack ptid tls ctid k none = none
  clone_for now (flags, signal) user_stack ptid tls ctid k (some t) = cloned (
      from_clone
        (record {
          user_stack = if user_stack == 0 then none else some user_stack;
          send_sigchld_when_exit = signal == 17;
          flags = flags;
          tls = tls;
          ptid = ptid;
          ctid = ctid;
        })
        now t k)

  -- `user_stack` is an `isize`, by its bits; the other arguments are as they are given. The result
  -- `none` is `EINVAL`.
  unfoldable pub sys_clone :
      ℕ → ℕ → ℕ → ℕ → ℕ → ℕ → ℕ → Kernel Vm Fds → Option (Option ℕ × Kernel Vm Fds)
  sys_clone cpu now flags user_stack ptid tls ctid k =
      if leb (2 ^ 63) user_stack
      then some (none, k)
      else clone_for now (resolve_clone_flags_and_signal flags) user_stack ptid tls ctid k
          (k.current cpu)
