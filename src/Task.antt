-- ===== src/Task.antt =====
-- kernel/src/task/task.rs and trap/context.rs: a task, and the operations on one task. The objects
-- that tasks share through an `Arc` (signal handlers, memory, descriptors, other tasks) are named by
-- numbers. The kernel stack is its first context. The directory and the context of a switch, which
-- no operation here reads, are left out.
pub mod Handling
pub mod Delivery
pub mod Kernel
pub mod Cpu
pub mod Clone
pub mod Wait
pub mod Moves
pub mod Held
pub mod Refine
pub mod Steps
pub mod Calls
pub mod Reach
pub mod Queue
pub mod Family
pub mod Reap
pub mod Fork
pub mod Futex
pub mod Tests
pub mod Trapped
use maturin.Prelude.{
  ℕ, ◌-◌, ◌==◌, ◌&&◌, Bool, true, false, if◌then◌else◌, ltb, leb, usize_mod, List, get_or, set,
  Option, none, some,
}
use maturin.Time.Stat.{TimeStat}

pub data TaskStatus : Type 0 where
  un_init : TaskStatus
  ready : TaskStatus
  running : TaskStatus
  dying : TaskStatus
  zombie : TaskStatus
  exited : TaskStatus

abbrev pub is_zombie : TaskStatus → Bool
is_zombie zombie = true
is_zombie _ = false

-- `x` holds the 32 registers.
pub record TrapContext : Type 0 where
  pub x : List ℕ
  pub sstatus : ℕ
  pub sepc : ℕ
  pub cpu_id : ℕ
  pub fs : ℕ × ℕ

unfoldable pub set_ra : TrapContext → ℕ → TrapContext
set_ra self ra = record self { x = set self.x 1 ra }

unfoldable pub set_sp : TrapContext → ℕ → TrapContext
set_sp self sp = record self { x = set self.x 2 sp }

unfoldable pub get_sp : TrapContext → ℕ
get_sp self = get_or self.x 2 0

unfoldable pub set_gp : TrapContext → ℕ → TrapContext
set_gp self gp = record self { x = set self.x 3 gp }

unfoldable pub set_tp : TrapContext → ℕ → TrapContext
set_tp self tp = record self { x = set self.x 4 tp }

unfoldable pub set_a0 : TrapContext → ℕ → TrapContext
set_a0 self a0 = record self { x = set self.x 10 a0 }

unfoldable pub get_a0 : TrapContext → ℕ
get_a0 self = get_or self.x 10 0

unfoldable pub set_a1 : TrapContext → ℕ → TrapContext
set_a1 self a1 = record self { x = set self.x 11 a1 }

unfoldable pub set_a2 : TrapContext → ℕ → TrapContext
set_a2 self a2 = record self { x = set self.x 12 a2 }

unfoldable pub set_sepc : TrapContext → ℕ → TrapContext
set_sepc self sepc = record self { sepc = sepc }

-- `exit_code` is an `i32`, by its 32 bits.
pub record TaskControlBlockInner : Type 0 where
  pub ppid : ℕ
  pub user_heap_top : ℕ
  pub task_status : TaskStatus
  pub parent : Option ℕ
  pub children : List ℕ
  pub exit_code : ℕ
  pub set_child_tid : ℕ
  pub clear_child_tid : ℕ
  pub trap_cx_before_signal : Option TrapContext
  pub signal_set_siginfo : Bool

pub record TaskControlBlock : Type 0 where
  pub trap_cx : TrapContext
  pub pid : ℕ
  pub tid : ℕ
  pub send_sigchld_when_exit : Bool
  pub signal_handlers : ℕ
  pub vm : ℕ
  pub fd_manager : ℕ
  pub time : TimeStat
  pub inner : TaskControlBlockInner

-- `USER_STACK_OFFSET`
abbrev pub user_stack_offset : ℕ
user_stack_offset = 0x4000_0000 - 0x20_0000

-- `NO_PARENT`
abbrev pub no_parent : ℕ
no_parent = usize_mod - 1

unfoldable pub set_status : TaskControlBlock → TaskStatus → TaskControlBlock
set_status self new_status = record self { inner = record self.inner { task_status = new_status } }

unfoldable pub set_exit_code : TaskControlBlock → ℕ → TaskControlBlock
set_exit_code self exit_code = record self { inner = record self.inner { exit_code = exit_code } }

unfoldable pub get_status : TaskControlBlock → TaskStatus
get_status self = self.inner.task_status

unfoldable pub get_ppid : TaskControlBlock → ℕ
get_ppid self = if self.inner.ppid == no_parent then 1 else self.inner.ppid

unfoldable pub get_user_heap_top : TaskControlBlock → ℕ
get_user_heap_top self = self.inner.user_heap_top

-- The address, and the task.
unfoldable pub set_user_heap_top : TaskControlBlock → ℕ → ℕ × TaskControlBlock
set_user_heap_top self new_top =
    if leb user_stack_offset new_top && ltb new_top (get_sp self.trap_cx)
    then (new_top, record self { inner = record self.inner { user_heap_top = new_top } })
    else (self.inner.user_heap_top, self)

-- With the lock of the task free.
unfoldable pub get_code_if_exit : TaskControlBlock → Option ℕ
get_code_if_exit self = if is_zombie self.inner.task_status then some self.inner.exit_code else none

unfoldable pub set_tid_address : TaskControlBlock → ℕ → TaskControlBlock
set_tid_address self addr = record self { inner = record self.inner { clear_child_tid = addr } }

unfoldable pub save_trap_cx_if_not_handling_signals : TaskControlBlock → Bool × TaskControlBlock
save_trap_cx_if_not_handling_signals self = elim self.inner.trap_cx_before_signal [
  | some _ ↦ (false, self)
  | none ↦ (
    true,
    record self {
      inner = record self.inner {
        trap_cx_before_signal = some self.trap_cx;
        signal_set_siginfo = false;
      };
    },
  )
]

unfoldable pub save_if_set_siginfo : TaskControlBlock → Bool → TaskControlBlock
save_if_set_siginfo self signal_set_siginfo = record self {
  inner = record self.inner { signal_set_siginfo = signal_set_siginfo };
}

-- `pc_at sp` is the pc of the `SignalUserContext` at the address `sp` of the user's memory.
unfoldable pub load_trap_cx_if_handling_signals :
    (ℕ → ℕ) → TaskControlBlock → Bool × TaskControlBlock
load_trap_cx_if_handling_signals pc_at self = elim self.inner.trap_cx_before_signal [
  | none ↦ (false, self)
  | some trap_cx_old ↦ (
    true,
    record self {
      trap_cx =
          if self.inner.signal_set_siginfo
          then set_sepc trap_cx_old (pc_at (get_sp self.trap_cx))
          else trap_cx_old;
      inner = record self.inner { trap_cx_before_signal = none };
    },
  )
]

-- `sys_brk`, for the task that runs.
unfoldable pub sys_brk : TaskControlBlock → ℕ → ℕ × TaskControlBlock
sys_brk self brk = if brk == 0 then (get_user_heap_top self, self) else set_user_heap_top self brk
