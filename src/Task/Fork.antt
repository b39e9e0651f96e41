-- ===== src/Task/Fork.antt =====
-- kernel/src/task/task.rs, `from_clone`: what a new task shares, and what stays as it was.
use maturin.Prelude.{ℕ, ◌||◌, if◌then◌else◌}
use maturin.Signal
use maturin.Task.Kernel.{Kernel, Env}
use maturin.Task.Clone.{
  CloneArgs, clone_child_settid, clone_child_cleartid, child_tid, written_to_copy, contains,
}

module _ {Vm Fds : Type 0} (env : Env Vm Fds) where
  -- The copy of a memory for a new task, with what is written to it.
  abbrev pub child_memory : CloneArgs → ℕ → Vm → Vm
  child_memory args tid vm =
      if contains args clone_child_settid || contains args clone_child_cleartid
      then written_to_copy env args.ctid (child_tid args tid)
          (env.manually_alloc_page (env.copy_as_fork vm) args.ctid)
      else env.copy_as_fork vm
