-- ===== src/Task/Futex.antt =====
-- kernel/src/syscall/futex/mod.rs and flags.rs: the call that waits at an address, and the one that
-- wakes. `read` is the `u32` at an address of a memory, and `spec_at` the `TimeSpec`
-- there. `none` is a panic.
use maturin.Prelude.{
  ℕ, ◌+◌, ◌*◌, ◌/◌, ◌%◌, usize_mod, ◌≡◌, ◌==◌, Bool, true, false, not, ltb, if◌then◌else◌, Option,
  none, some, refl, ap, ◌∙◌, arith, Bool-cases, inl, inr,
}
use maturin.Futex.{Board, FutexWaiter, set_waiter_for_thread, check_thread_blocked}
use maturin.Futex
use maturin.Futex.Board.{wake_thread-set_waiter_for_thread}
use maturin.Time.{TimeSpec, val_from_spec, val_into_usec}
use maturin.Poll.{efault, einval, eagain, Result, ok, failed}
use maturin.Task.{ready, set_status}
use maturin.Task.Handling.{put}
use maturin.Task.Kernel.{Kernel, Env, with_task}
use maturin.Task.Cpu.{suspend_current_task}
use maturin.Task.Refine.{status_of}

pub data Flags : Type 0 where
  wait : Flags
  wake : Flags
  requeue : Flags
  unsupported : Flags

unfoldable pub is_private : ℕ → Bool
is_private flag = not (flag % 256 == flag % 128)

unfoldable pub operation : ℕ → Flags
operation flag =
    let op = flag % 128 in
    if op == 0
    then Flags.wait
    else if op == 1
    then Flags.wake
    else if op == 3
    then Flags.requeue
    else Flags.unsupported

module _ {Vm Fds : Type 0} (env : Env Vm Fds) (read : Vm → ℕ → ℕ)
    (spec_at : Vm → ℕ → TimeSpec) where
  abbrev given : Result ℕ → Option (Kernel Vm Fds) → Option (Result ℕ × Kernel Vm Fds)
  given result none = none
  given result (some k) = some (result, k)

  -- The time of the waiter, with the result of the allocation at its address.
  unfoldable pub timed_out : ℕ → Bool × Vm → ℕ
  timed_out val2 (true, vm) = val_into_usec (val_from_spec (spec_at vm val2))
  timed_out val2 (false, vm) = 0

  abbrev with_vm : Kernel Vm Fds → ℕ → Vm → Kernel Vm Fds
  with_vm k v vm = record k { vms = put k.vms v vm }

  abbrev with_waiter : Kernel Vm Fds → ℕ → ℕ → Kernel Vm Fds
  with_waiter k tid us = record k {
    board = set_waiter_for_thread k.board tid (Futex.new (some us));
  }

  -- The time that the waiter is given: 0 where no address is given.
  unfoldable pub wait_time : ℕ → Vm → ℕ
  wait_time val2 vm = if val2 == 0 then 0 else timed_out val2 (env.manually_alloc_page vm val2)

  abbrev waited_vm : ℕ → Vm → Vm
  waited_vm val2 vm = if val2 == 0 then vm else (env.manually_alloc_page vm val2).1

  -- The wait, where the value is right; `vm` is the memory of the task, named `v`.
  unfoldable pub wait_from : ℕ → ℕ → ℕ → Vm → Kernel Vm Fds → Kernel Vm Fds
  wait_from tid val2 v vm k = with_waiter (with_vm k v (waited_vm val2 vm)) tid (wait_time val2 vm)

  unfoldable pub wait_at :
      ℕ → ℕ → ℕ → ℕ → ℕ → ℕ → Kernel Vm Fds → Bool × Vm → Option (Result ℕ × Kernel Vm Fds)
  wait_at cpu tid uaddr val val2 v k (false, vm) = some (failed efault, with_vm k v vm)
  wait_at cpu tid uaddr val val2 v k (true, vm) =
      if read vm uaddr == val
      then given (ok 0) (suspend_current_task env cpu (wait_from tid val2 v vm k))
      else some (failed eagain, with_vm k v vm)

  abbrev called : Flags → ℕ → ℕ → ℕ → ℕ → ℕ → Kernel Vm Fds → Option (Result ℕ × Kernel Vm Fds)
  called Flags.wait cpu t uaddr val val2 k =
      let task = k.tasks t in
      wait_at cpu task.tid uaddr val val2 task.vm k (env.manually_alloc_page (k.vms task.vm) uaddr)
  called Flags.wake cpu t uaddr val val2 k = given (ok val) (suspend_current_task env cpu k)
  called Flags.requeue cpu t uaddr val val2 k = some (failed einval, k)
  called Flags.unsupported cpu t uaddr val val2 k = some (failed einval, k)

  abbrev for_task : Option ℕ → ℕ → ℕ → ℕ → ℕ → ℕ → Kernel Vm Fds → Option (Result ℕ × Kernel Vm Fds)
  for_task none cpu uaddr futex_op val val2 k = none
  for_task (some t) cpu uaddr futex_op val val2 k =
      called (operation futex_op) cpu t uaddr val val2 k

  unfoldable pub sys_futex : ℕ → ℕ → ℕ → ℕ → ℕ → Kernel Vm Fds → Option (Result ℕ × Kernel Vm Fds)
  sys_futex cpu uaddr futex_op val val2 k = for_task (k.current cpu) cpu uaddr futex_op val val2 k

  -- The sum that the code makes of the `TimeSpec`, or 0 where its address is bad.
  abbrev pub deadline : ℕ → Bool × Vm → ℕ
  deadline val2 (true, vm) =
      let spec = spec_at vm val2 in (spec.tv_sec * 1000000 + spec.tv_nsec / 1000000) % usize_mod
  deadline val2 (false, vm) = 0

  timed_out-deadline : (val2 : ℕ) (found : Bool × Vm) → timed_out val2 found ≡ deadline val2 found
  unfolding timed_out val_into_usec val_from_spec
  timed_out-deadline val2 (true, vm) = refl
  timed_out-deadline val2 (false, vm) = refl

  suspend-board :
      (cpu t : ℕ) (k : Kernel Vm Fds)
      → k.current cpu ≡ some t
      → suspend_current_task env cpu k ≡ some (with_task env k t (set_status (k.tasks t) ready))
  unfolding suspend_current_task
  suspend-board cpu t k c = rw (c, suspend_current_task) refl

  -- With the operation WAIT, `sys_futex` for the value that stands at an address which is mapped or
  -- can be allocated returns `Ok(0)` and leaves the task ready, suspended. After it the
  -- thread is blocked until the clock, from its start, shows as many microseconds as the seconds of
  -- the `TimeSpec` make with its nanoseconds divided by 1000000, taken modulo 2 ^ 64. Without an
  -- address of a `TimeSpec`, or with a bad one, it is not blocked at any time.
  pub sys_futex-blocked :
      (cpu t uaddr futex_op val val2 now : ℕ) (k : Kernel Vm Fds) (vm : Vm)
      → k.current cpu ≡ some t
      → operation futex_op ≡ Flags.wait
      → env.manually_alloc_page (k.vms (k.tasks t).vm) uaddr ≡ (true, vm)
      → (read vm uaddr == val) ≡ true
      → (k' : Kernel Vm Fds) × (sys_futex cpu uaddr futex_op val val2 k ≡ some (ok 0, k'))
        × (status_of k'.tasks t ≡ ready)
        × ((check_thread_blocked now k'.board (k.tasks t).tid).0 ≡ (
            if val2 == 0 then false else ltb now (deadline val2 (env.manually_alloc_page vm val2))))
  unfolding sys_futex wait_at wait_from with_task set_status wait_time
  sys_futex-blocked cpu t uaddr futex_op val val2 now k vm c op alloc same =
      let task = k.tasks t in
      let k1 = wait_from task.tid val2 task.vm vm k in
      let time = wait_time val2 vm in
      let blocked : (check_thread_blocked now k1.board task.tid).0 ≡ ltb now time =
        (wake_thread-set_waiter_for_thread now k.board task.tid (some time)).0 in
      (
        with_task env k1 t (set_status (k1.tasks t) ready),
        ap (λ o. for_task o cpu uaddr futex_op val val2 k) c
            ∙ ap (λ f. called f cpu t uaddr val val2 k) op
            ∙ ap (wait_at cpu task.tid uaddr val val2 task.vm k) alloc
            ∙ rw same (ap (given (ok 0)) (suspend-board cpu t k1 c)),
        ground arith,
        blocked ∙ elim (Bool-cases (val2 == 0)) [
          | inl untimed ↦ rw (untimed, wait_time) (ground arith)
          | inr timed ↦
              rw (timed, wait_time)
                (ap (ltb now) (timed_out-deadline val2 (env.manually_alloc_page vm val2)))
        ],
      )
