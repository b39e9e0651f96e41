-- ===== src/Task/Steps.antt =====
-- kernel/src/task: the other operations on the task of a cpu, as moves.
use maturin.Prelude.{
  ℕ, ◌≡◌, ◌==◌, ◌&&◌, ◌||◌, true, false, not, List, [], ◌∷◌, none, some, refl, sym, subst, ap, ◌∙◌,
  arith, Bool-cases, inl, inr,
}
use maturin.Time.Stat.{TimeStat, Sent, switch_out_task}
use maturin.Task.{
  TaskStatus, ready, running, dying, zombie, no_parent, un_init, exited, set_status, set_exit_code,
  get_status,
}
use maturin.Task.Handling.{put}
use maturin.Task.Kernel.{Kernel, Env, with_task, push_task_to_scheduler}
use maturin.Task.Cpu.{
  suspend_current_task, exited_with, exit_current_task, reparented, reparent_all, end_task,
  release_vm, handle_zombie_task, put_down, switched_out, leave, strong_count,
}
use maturin.Task.Moves.{View, paused, ends, Move, mark, put_back, bury, Moves, stop, next}
use maturin.Task.Refine.{view, status_of, status_of-put, status_of-kept, some_injective}

module _ {Vm Fds : Type 0} (env : Env Vm Fds) where
  -- A change of the tasks that keeps every status.
  abbrev with_status : Kernel Vm Fds → (ℕ → TaskStatus) → View
  with_status k s = record (view env k) { status = s }

  pub suspend_current_task-Moves :
      (cpu t : ℕ) (k k' : Kernel Vm Fds)
      → k.current cpu ≡ some t
      → suspend_current_task env cpu k ≡ some k'
      → Moves (view env k) (view env k')
  unfolding suspend_current_task with_task set_status
  suspend_current_task-Moves cpu t k k' c e =
      let found : suspend_current_task env cpu k
          ≡ some (with_task env k t (set_status (k.tasks t) ready)) =
        rw (c, suspend_current_task) refl in
      subst (λ x. Moves (view env k) (view env x)) (some_injective (sym found ∙ e))
        (subst (λ s. Moves (view env k) (with_status k s)) (sym (status_of-put k.tasks t _))
          (next (mark c paused) stop))

  pub exit_current_task-Moves :
      (cpu t exit_code : ℕ) (k k' : Kernel Vm Fds)
      → k.current cpu ≡ some t
      → exit_current_task env cpu exit_code k ≡ some k'
      → Moves (view env k) (view env k')
  unfolding exit_current_task exited_with set_status set_exit_code
  exit_current_task-Moves cpu t exit_code k k' c e =
      let found : exit_current_task env cpu exit_code k
          ≡ some (exited_with env k t (set_exit_code (set_status (k.tasks t) dying) exit_code)) =
        rw (c, exit_current_task) refl in
      subst (λ x. Moves (view env k) (view env x)) (some_injective (sym found ∙ e))
        (subst (λ s. Moves (view env k) (with_status k s)) (sym (status_of-put k.tasks t _))
          (next (mark c ends) stop))

  reparented-view :
      (ppid child : ℕ) (k : Kernel Vm Fds) → view env (reparented env ppid k child) ≡ view env k
  unfolding reparented with_task
  reparented-view ppid child k = elim (Bool-cases ((ppid == no_parent) || env.is_test_env)) [
    | inl alone ↦ rw alone (ap (with_status k) (status_of-kept k.tasks child _ refl))
    | inr given ↦
        rw given
          (ap (with_status k) (status_of-kept _ 0 _ refl ∙ status_of-kept k.tasks child _ refl))
  ]

  reparent_all-view :
      (ppid : ℕ) (children : List ℕ) (k : Kernel Vm Fds)
      → view env (reparent_all env ppid children k) ≡ view env k
  unfolding reparent_all
  reparent_all-view ppid [] k = refl
  reparent_all-view ppid (child ∷ children) k =
      reparent_all-view ppid children (reparented env ppid k child) ∙ reparented-view ppid child k

  release_vm-view : (t v : ℕ) (k : Kernel Vm Fds) → view env (release_vm env k t v) ≡ view env k
  unfolding release_vm
  release_vm-view t v k = elim (Bool-cases (strong_count env k t v == 1)) [
    | inl last ↦ rw last refl
    | inr shared ↦ rw shared refl
  ]

  end_task-view :
      (t : ℕ) (k : Kernel Vm Fds)
      → view env (end_task env k t) ≡ with_status k (put (status_of k.tasks) t zombie)
  unfolding end_task
  end_task-view t k = ap (with_status k) (status_of-put k.tasks t _)

  handle_zombie_task-view :
      (t : ℕ) (k : Kernel Vm Fds)
      → view env (handle_zombie_task env k t) ≡ with_status k (put (status_of k.tasks) t zombie)
  unfolding handle_zombie_task
  handle_zombie_task-view t k =
      let inner = (k.tasks t).inner in
      let k1 = reparent_all env inner.ppid inner.children k in
      release_vm-view t (k.tasks t).vm (end_task env k1 t)
      ∙ end_task-view t k1
      ∙ ap (λ (v : View). record v { status = put v.status t zombie })
          (reparent_all-view inner.ppid inner.children k)

  abbrev pub let_off : ℕ → Kernel Vm Fds → Kernel Vm Fds
  let_off cpu k = record k { current = put k.current cpu none }

  -- The end of the first task is a panic, of another its burial.
  pub dying_first :
      (t : ℕ) (k k' : Kernel Vm Fds) (cpu : ℕ)
      → (not env.is_test_env && ((k.tasks t).pid == 0)) ≡ true
      → ¬ (put_down env t dying (let_off cpu k) ≡ some k')
  unfolding put_down
  dying_first t k k' cpu first e =
      let found : put_down env t dying (let_off cpu k) ≡ none = rw first refl in
      ground (arith, found, e)

  pub dying_other :
      (t : ℕ) (k k' : Kernel Vm Fds) (cpu : ℕ)
      → (not env.is_test_env && ((k.tasks t).pid == 0)) ≡ false
      → put_down env t dying (let_off cpu k) ≡ some k'
      → handle_zombie_task env (let_off cpu k) t ≡ k'
  unfolding put_down
  dying_other t k k' cpu other e =
      let found : put_down env t dying (let_off cpu k)
          ≡ some (handle_zombie_task env (let_off cpu k) t) =
        rw other refl in
      some_injective (sym found ∙ e)

  -- The status with which a task leaves its cpu decides where it goes.
  put_down-Move :
      (cpu t : ℕ) (s : TaskStatus) (k k' : Kernel Vm Fds)
      → k.current cpu ≡ some t
      → status_of k.tasks t ≡ s
      → put_down env t s (record k { current = put k.current cpu none }) ≡ some k'
      → Move (view env k) (view env k')
  unfolding put_down push_task_to_scheduler
  put_down-Move cpu t un_init k k' c r e = absurd (ground (arith, e))
  put_down-Move cpu t ready k k' c r e =
      subst (λ x. Move (view env k) (view env x)) (some_injective e) (put_back cpu c r)
  put_down-Move cpu t running k k' c r e = absurd (ground (arith, e))
  put_down-Move cpu t dying k k' c r e =
      elim (Bool-cases (not env.is_test_env && ((k.tasks t).pid == 0))) [
        | inl first ↦ absurd (dying_first t k k' cpu first e)
        | inr other ↦
            subst (λ x. Move (view env k) (view env x)) (dying_other t k k' cpu other e)
              (subst (λ x. Move (view env k) x)
                (sym (handle_zombie_task-view t (record k { current = put k.current cpu none })))
                (bury cpu c))
      ]
  put_down-Move cpu t zombie k k' c r e = absurd (ground (arith, e))
  put_down-Move cpu t exited k k' c r e = absurd (ground (arith, e))

  pub switched_out-view :
      (k : Kernel Vm Fds) (t : ℕ) (timed : TimeStat × Sent)
      → view env (switched_out env k t timed) ≡ view env k
  unfolding switched_out
  switched_out-view k t (time, sent) = ap (with_status k) (status_of-kept k.tasks t _ refl)

  pub leave-Moves :
      (cpu t now : ℕ) (k k' : Kernel Vm Fds)
      → k.current cpu ≡ some t
      → leave env cpu now k ≡ some k'
      → Moves (view env k) (view env k')
  unfolding get_status leave put_down switched_out
  leave-Moves cpu t now k k' c e =
      let k1 = switched_out env k t (switch_out_task now (k.tasks t).time) in
      let out : view env k1 ≡ view env k =
        switched_out-view k t (switch_out_task now (k.tasks t).time) in
      let found : leave env cpu now k
          ≡ put_down env t (get_status (k1.tasks t))
              (record k1 { current = put k1.current cpu none }) =
        rw (c, leave) refl in
      subst (λ v. Moves v (view env k')) out
        (next
          (put_down-Move cpu t (get_status (k1.tasks t)) k1 k'
            (ap (λ (v : View). v.current cpu) out ∙ c) refl (sym found ∙ e))
          stop)
