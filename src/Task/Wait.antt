-- ===== src/Task/Wait.antt =====
-- kernel/src/syscall/process.rs, `waitpid` and `sys_wait4`. An `isize` is its 64 bits. The lock of a
-- child is taken to be free. `none` is a panic.
use maturin.Prelude.{
  ℕ, ◌+◌, ◌-◌, ◌*◌, ◌%◌, ◌^◌, ◌==◌, Bool, if◌then◌else◌, usize_mod, List, [], ◌∷◌, zero, suc,
  Option, none, some,
}
use maturin.Task.{TaskControlBlock, get_code_if_exit}
use maturin.Task.Handling.{put}
use maturin.Task.Kernel.{Kernel, Env}
use maturin.Task.Cpu.{suspend_current_task}

abbrev pub minus_one : ℕ
minus_one = usize_mod - 1

abbrev pub minus_two : ℕ
minus_two = usize_mod - 2

-- `flag`: -1, -2, or the place of the child, with its exit code and `pid_found`.
pub data Flag : Type 0 where
  missing : Flag
  pending : Flag
  at : ℕ → ℕ → ℕ → Flag

-- The loop over the children, from the place `idx`.
unfoldable pub search : (ℕ → TaskControlBlock) → ℕ → ℕ → List ℕ → Flag → Flag
search tasks pid idx [] flag = flag
search tasks pid idx (child ∷ children) flag =
    let any = search tasks pid (idx + 1) children pending in
    let rest = search tasks pid (idx + 1) children flag in
    if pid == minus_one
    then elim (get_code_if_exit (tasks child)) [
      | some code ↦ at idx code (tasks child).pid
      | none ↦ any
    ]
    else if (tasks child).pid == pid
    then elim (get_code_if_exit (tasks child)) [ some code ↦ at idx code pid | none ↦ pending ]
    else rest

-- `Vec::remove`
abbrev pub remove_at {ℓ} : {A : Type ℓ} → ℕ → List A → List A
remove_at i [] = []
remove_at zero (x ∷ xs) = xs
remove_at (suc i) (x ∷ xs) = x ∷ remove_at i xs

abbrev pub without_child : ℕ → TaskControlBlock → TaskControlBlock
without_child idx task = record task {
  inner = record task.inner { children = remove_at idx task.inner.children };
}

-- One turn of the loop of `sys_wait4`: `done` ends it with the result, where `none` is `EINVAL`;
-- after `suspended`, the loop goes on when the task runs again.
pub data Turn (Vm Fds : Type 0) : Type 0 where
  done : Option ℕ → Kernel Vm Fds → Turn Vm Fds
  suspended : Kernel Vm Fds → Turn Vm Fds

-- The kernel after the turn.
abbrev pub after : {Vm Fds : Type 0} → Turn Vm Fds → Kernel Vm Fds
after (done result k) = k
after (suspended k) = k

module _ {Vm Fds : Type 0} (env : Env Vm Fds) where
  -- `exit_code << 8` is written where the pointer is not null.
  unfoldable pub reaped : ℕ → ℕ → Flag → Kernel Vm Fds → ℕ × Kernel Vm Fds
  reaped t exit_code_ptr missing k = (minus_one, k)
  reaped t exit_code_ptr pending k = (minus_two, k)
  reaped t exit_code_ptr (at idx code pid_found) k = (
    pid_found,
    record k {
      tasks = put k.tasks t (without_child idx (k.tasks t));
      vms =
          if exit_code_ptr == 0
          then k.vms
          else put k.vms (k.tasks t).vm
              (env.write_i32 (k.vms (k.tasks t).vm) exit_code_ptr (code * 2 ^ 8 % 2 ^ 32));
    },
  )

  abbrev pub wait_for : ℕ → ℕ → Kernel Vm Fds → Option ℕ → Option (ℕ × Kernel Vm Fds)
  wait_for pid exit_code_ptr k none = none
  wait_for pid exit_code_ptr k (some t) =
      some (reaped t exit_code_ptr (search k.tasks pid 0 (k.tasks t).inner.children missing) k)

  unfoldable pub waitpid : ℕ → ℕ → ℕ → Kernel Vm Fds → Option (ℕ × Kernel Vm Fds)
  waitpid cpu pid exit_code_ptr k = wait_for pid exit_code_ptr k (k.current cpu)

  abbrev pub to_suspended : Option (Kernel Vm Fds) → Option (Turn Vm Fds)
  to_suspended none = none
  to_suspended (some k) = some (suspended k)

  unfoldable pub waited : ℕ → Bool → ℕ × Kernel Vm Fds → Option (Turn Vm Fds)
  waited cpu wnohang (child_pid, k) =
      if child_pid == minus_one
      then some (done none k)
      else if child_pid == minus_two
      then if wnohang then some (done (some 0) k) else to_suspended (suspend_current_task env cpu k)
      else some (done (some child_pid) k)

  abbrev pub waited_with : ℕ → Bool → Option (ℕ × Kernel Vm Fds) → Option (Turn Vm Fds)
  waited_with cpu wnohang none = none
  waited_with cpu wnohang (some found) = waited cpu wnohang found

  unfoldable pub sys_wait4 : ℕ → ℕ → ℕ → Bool → Kernel Vm Fds → Option (Turn Vm Fds)
  sys_wait4 cpu pid exit_code_ptr wnohang k =
      waited_with cpu wnohang (waitpid cpu pid exit_code_ptr k)
