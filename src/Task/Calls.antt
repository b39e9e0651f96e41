-- ===== src/Task/Calls.antt =====
-- kernel/src/syscall/process.rs: the calls that make a task and that wait for one, as moves.
use maturin.Prelude.{
  ℕ, ◌+◌, ◌<◌, ◌≡◌, ◌==◌, ◌^◌, Bool, leb, [], ◌∷◌, ◌++◌, Option, none, some, refl, sym, subst, ap,
  ◌∙◌, arith, Bool-cases, ◌⊎◌, inl, inr,
}
use maturin.Task.{TaskControlBlock, ready}
use maturin.Task.Handling.{put}
use maturin.Task.Kernel.{Kernel, Env, push_task_to_scheduler}
use maturin.Task.Cpu.{suspend_current_task}
use maturin.Task.Clone.{
  CloneArgs, clone_parent, contains, cloned_task, with_clone, cloned_with, from_clone, cloned,
  clone_for, sys_clone, resolve_clone_flags_and_signal,
}
use maturin.Task.Wait.{
  Flag, missing, pending, at, search, reaped, waitpid, waited, to_suspended, Turn, done, sys_wait4,
  after, minus_one, minus_two, without_child,
}
use maturin.Task.Moves.{View, add, Moves, stop, next}
use maturin.Task.Held.{put_cases}
use maturin.Task.Refine.{view, status_of, status_of-put, status_of-kept, some_injective}
use maturin.Task.Steps.{suspend_current_task-Moves}

with_clone-status :
    (args : CloneArgs) (n : ℕ) (self : TaskControlBlock)
    → (with_clone args n self).inner.task_status ≡ self.inner.task_status
unfolding with_clone
with_clone-status args n self = elim (Bool-cases (contains args clone_parent)) [
  | inl sibling ↦ rw sibling refl
  | inr child ↦ rw child refl
]

module _ {Vm Fds : Type 0} (env : Env Vm Fds) where
  cloned_with-Moves :
      (args : CloneArgs) (now t : ℕ) (k : Kernel Vm Fds) (tid : Option ℕ) (r : Option ℕ)
      (k' : Kernel Vm Fds)
      → t < k.allocated
      → cloned env (cloned_with env args now t k tid) ≡ some (r, k')
      → Moves (view env k) (view env k')
  unfolding cloned_with cloned cloned_task push_task_to_scheduler
  cloned_with-Moves args now t k none r k' lt e = absurd (ground (arith, e))
  cloned_with-Moves args now t k (some tid) r k' lt e =
      let self = k.tasks t in
      let n = k.allocated in
      let made : TaskControlBlock = cloned_task args now t n tid self in
      let before : status_of (put k.tasks n made) t ≡ status_of k.tasks t =
        elim (put_cases k.tasks n made t) [
          | inl (same, _) ↦ absurd (omega (arith, lt, same))
          | inr (_, e') ↦ ap (λ x. x.inner.task_status) e'
        ] in
      let statuses : status_of (put (put k.tasks n made) t (with_clone args n self))
          ≡ put (status_of k.tasks) n ready =
        status_of-kept (put k.tasks n made) t (with_clone args n self)
          (with_clone-status args n self ∙ sym before)
        ∙ status_of-put k.tasks n made in
      subst (λ x. Moves (view env k) (view env x)) (ap (λ p. p.1) (some_injective e))
        (subst
          (λ s. Moves (view env k) (record (view env k) {
            allocated = n + 1;
            queue = k.ready_queue ++ n ∷ [];
            status = s;
          }))
          (sym statuses) (next add stop))

  clone_for-Moves :
      (now : ℕ) (resolved : ℕ × ℕ) (user_stack ptid tls ctid : ℕ) (k : Kernel Vm Fds)
      (at : Option ℕ) (r : Option ℕ) (k' : Kernel Vm Fds)
      → ((t : ℕ) → at ≡ some t → t < k.allocated)
      → clone_for env now resolved user_stack ptid tls ctid k at ≡ some (r, k')
      → Moves (view env k) (view env k')
  unfolding clone_for from_clone
  clone_for-Moves now (flags, signal) user_stack ptid tls ctid k none r k' lt e =
      absurd (ground (arith, e))
  clone_for-Moves now (flags, signal) user_stack ptid tls ctid k (some t) r k' lt e =
      cloned_with-Moves _ now t k (env.new_tid k) r k' (lt t refl) e

  pub sys_clone-Moves :
      (cpu now flags user_stack ptid tls ctid : ℕ) (k : Kernel Vm Fds) (r : Option ℕ)
      (k' : Kernel Vm Fds)
      → ((t : ℕ) → k.current cpu ≡ some t → t < k.allocated)
      → sys_clone env cpu now flags user_stack ptid tls ctid k ≡ some (r, k')
      → Moves (view env k) (view env k')
  unfolding sys_clone
  sys_clone-Moves cpu now flags user_stack ptid tls ctid k r k' lt e =
      elim (Bool-cases (leb (2 ^ 63) user_stack)) [
        | inl negative ↦
            let found : sys_clone env cpu now flags user_stack ptid tls ctid k ≡ some (none, k) =
              rw negative refl in
            subst (λ x. Moves (view env k) (view env x))
              (ap (λ p. p.1) (some_injective (sym found ∙ e))) stop
        | inr fine ↦
            let found : sys_clone env cpu now flags user_stack ptid tls ctid k
                ≡ clone_for env now (resolve_clone_flags_and_signal flags) user_stack ptid tls ctid
                    k (k.current cpu) =
              rw fine refl in
            clone_for-Moves now (resolve_clone_flags_and_signal flags) user_stack ptid tls ctid k
              (k.current cpu) r k' lt (sym found ∙ e)
      ]

  reaped-view :
      (t exit_code_ptr : ℕ) (flag : Flag) (k : Kernel Vm Fds)
      → view env (reaped env t exit_code_ptr flag k).1 ≡ view env k
  unfolding reaped
  reaped-view t exit_code_ptr missing k = refl
  reaped-view t exit_code_ptr pending k = refl
  reaped-view t exit_code_ptr (at idx code pid_found) k =
      ap (λ s. record (view env k) { status = s })
        (status_of-kept k.tasks t (without_child idx (k.tasks t)) refl)

  -- A turn ends the loop and changes nothing, or suspends the task.
  waited_cases :
      (cpu : ℕ) (wnohang : Bool) (child_pid : ℕ) (k : Kernel Vm Fds)
      → ((r : Option ℕ) × (waited env cpu wnohang (child_pid, k) ≡ some (done r k)))
        ⊎ (waited env cpu wnohang (child_pid, k)
            ≡ to_suspended env (suspend_current_task env cpu k))
  unfolding waited
  waited_cases cpu wnohang child_pid k = elim (Bool-cases (child_pid == minus_one)) [
    | inl nobody ↦ inl (none, rw nobody refl)
    | inr somebody ↦ elim (Bool-cases (child_pid == minus_two)) [
      | inl later ↦ elim (Bool-cases wnohang) [
        | inl nohang ↦ inl (some 0, rw (somebody, later, nohang) refl)
        | inr hang ↦ inr (rw (somebody, later, hang) refl)
      ]
      | inr ended ↦ inl (some child_pid, rw (somebody, ended) refl)
    ]
  ]

  to_suspended-Moves :
      (k : Kernel Vm Fds) (after_suspend : Option (Kernel Vm Fds)) (turn : Turn Vm Fds)
      → ((k' : Kernel Vm Fds) → after_suspend ≡ some k' → Moves (view env k) (view env k'))
      → to_suspended env after_suspend ≡ some turn
      → Moves (view env k) (view env (after turn))
  to_suspended-Moves k none turn moves e = absurd (ground (arith, e))
  to_suspended-Moves k (some k') turn moves e =
      subst (λ x. Moves (view env k) (view env (after x))) (some_injective e) (moves k' refl)

  waited-Moves :
      (cpu t : ℕ) (wnohang : Bool) (child_pid : ℕ) (k : Kernel Vm Fds) (turn : Turn Vm Fds)
      → k.current cpu ≡ some t
      → waited env cpu wnohang (child_pid, k) ≡ some turn
      → Moves (view env k) (view env (after turn))
  waited-Moves cpu t wnohang child_pid k turn c e = elim (waited_cases cpu wnohang child_pid k) [
    | inl (r, ends) ↦
        subst (λ x. Moves (view env k) (view env (after x))) (some_injective (sym ends ∙ e)) stop
    | inr pauses ↦
        to_suspended-Moves k (suspend_current_task env cpu k) turn
          (λ k' e'. suspend_current_task-Moves env cpu t k k' c e') (sym pauses ∙ e)
  ]

  pub sys_wait4-Moves :
      (cpu t pid exit_code_ptr : ℕ) (wnohang : Bool) (k : Kernel Vm Fds) (turn : Turn Vm Fds)
      → k.current cpu ≡ some t
      → sys_wait4 env cpu pid exit_code_ptr wnohang k ≡ some turn
      → Moves (view env k) (view env (after turn))
  unfolding sys_wait4 waitpid
  sys_wait4-Moves cpu t pid exit_code_ptr wnohang k turn c e =
      let flag = search k.tasks pid 0 (k.tasks t).inner.children missing in
      let (child_pid, k1) = reaped env t exit_code_ptr flag k in
      let same : view env k1 ≡ view env k = reaped-view t exit_code_ptr flag k in
      let found : sys_wait4 env cpu pid exit_code_ptr wnohang k
          ≡ waited env cpu wnohang (child_pid, k1) =
        rw c refl in
      subst (λ v. Moves v (view env (after turn))) same
        (waited-Moves cpu t wnohang child_pid k1 turn (ap (λ (v : View). v.current cpu) same ∙ c)
          (sym found ∙ e))
