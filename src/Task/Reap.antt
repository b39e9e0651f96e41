-- ===== src/Task/Reap.antt =====
-- kernel/src/task and syscall/process.rs: from the exit of a task to the `waitpid` that reaps it.
use maturin.Prelude.{ℕ, ◌*◌, ◌%◌, ◌^◌, ◌≡◌, ◌==◌, false, if◌then◌else◌, List, [], ◌∷◌}
use maturin.Task.{TaskControlBlock}
use maturin.Task.Handling.{put}
use maturin.Task.Kernel.{Kernel, Env}

module _ {Vm Fds : Type 0} (env : Env Vm Fds) where
  -- What a task has from its exit on.
  abbrev Kept : (ℕ → TaskControlBlock) → (ℕ → TaskControlBlock) → ℕ → Type 0
  Kept before after t =
      ((after t).inner.exit_code ≡ (before t).inner.exit_code) × ((after t).pid ≡ (before t).pid)

  -- No task of the list has the pid.
  abbrev NonePid : (ℕ → TaskControlBlock) → ℕ → List ℕ → Type 0
  NonePid tasks pid [] = Unit
  NonePid tasks pid (c ∷ cs) = (((tasks c).pid == pid) ≡ false) × NonePid tasks pid cs

  -- The task `p` with other children, and the memories.
  abbrev pub reaped_by : Kernel Vm Fds → ℕ → List ℕ → (ℕ → Vm) → Kernel Vm Fds
  reaped_by k p children vms = record k {
    tasks =
        put k.tasks p
          (record (k.tasks p) { inner = record (k.tasks p).inner { children = children } });
    vms = vms;
  }

  -- The memories, with a code written to that of the caller.
  abbrev pub code_written : Kernel Vm Fds → ℕ → ℕ → ℕ → ℕ → Vm
  code_written k v exit_code_ptr code =
      if exit_code_ptr == 0
      then k.vms
      else put k.vms v (env.write_i32 (k.vms v) exit_code_ptr (code * 2 ^ 8 % 2 ^ 32))
