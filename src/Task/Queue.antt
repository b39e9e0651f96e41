-- ===== src/Task/Queue.antt =====
-- kernel/src/task/scheduler.rs and cpu_local.rs: what a cpu finds in the queue, and that a task that
-- leaves its cpu causes no panic.
use maturin.Prelude.{
  append_nil, append_assoc, ℕ, zero, suc, ◌≡◌, ◌≢◌, ◌⊎◌, ◌==◌, inl, inr, ◌&&◌, Bool, true, false,
  not, List, [], ◌∷◌, ◌++◌, length, Option, none, some, refl, sym, subst, ap, ◌∙◌, arith,
  Bool-cases, Option-cases,
}
use maturin.Futex.{Board, check_thread_blocked, is_woken}
use maturin.Fd.{file_at}
use maturin.Time.Stat.{switch_out_task}
use maturin.Task.{
  TaskStatus, un_init, ready, running, dying, zombie, exited, get_status, set_status,
}
use maturin.Task.Handling.{put}
use maturin.Task.Kernel.{
  Kernel, Env, push_task_to_scheduler, fetch_task_from_scheduler, pop, popped, or_testcase,
}
use maturin.Task.Cpu.{enter, enter_with, entered, leave, put_down, switched_out, handle_zombie_task}
use maturin.Task.Moves.{View, OnCpu, runs, paused, ends}
use maturin.Task.Refine.{status_of}
use maturin.Task.Steps.{switched_out-view}
use maturin.Task.Reach.{Reach, Reach-Inv}

module _ {Vm Fds : Type 0} (env : Env Vm Fds) where
  -- `enter` by a cpu, `n` times.
  abbrev pub turns : ℕ → ℕ → ℕ → Kernel Vm Fds → Option (Kernel Vm Fds)
  turns zero cpu now k = some k
  turns (suc n) cpu now k = elim (enter env cpu now k) [
    | none ↦ none
    | some k' ↦ turns n cpu now k'
  ]

  -- Whether the task waits for something.
  abbrev pub is_blocked : ℕ → Kernel Vm Fds → ℕ → Bool
  is_blocked now k t = (check_thread_blocked now k.board (k.tasks t).tid).0

  abbrev pub AllBlocked : ℕ → Kernel Vm Fds → List ℕ → Type 0
  AllBlocked now k [] = Unit
  AllBlocked now k (t ∷ ts) = (is_blocked now k t ≡ true) × AllBlocked now k ts

  enter-queued :
      (cpu now t : ℕ) (rest : List ℕ) (k : Kernel Vm Fds)
      → k.ready_queue ≡ t ∷ rest
      → enter env cpu now k
        ≡ some (
            entered env cpu now t
              (check_thread_blocked now k.board (k.tasks t).tid)
              (record k { ready_queue = rest }))
  unfolding enter fetch_task_from_scheduler pop
  enter-queued cpu now t rest k e =
      ap (λ q. enter_with env cpu now k (or_testcase env now k env.is_test_env (popped env k q))) e

  -- A thread that is blocked leaves the board as it is.
  blocked-board :
      (now : ℕ) (board : Board) (tid : ℕ)
      → (check_thread_blocked now board tid).0 ≡ true
      → check_thread_blocked now board tid ≡ (true, board)
  unfolding check_thread_blocked
  blocked-board now board tid h = elim (Option-cases (file_at board tid)) [
    | inl nothing ↦ absurd (ground (arith, nothing, h))
    | inr (waiter, there) ↦ elim (Bool-cases (is_woken now waiter)) [
      | inl up ↦ absurd (ground (arith, there, up, h))
      | inr waits ↦ ground (arith, there, waits)
    ]
  ]

  enter-blocked :
      (cpu now t : ℕ) (rest : List ℕ) (k : Kernel Vm Fds)
      → k.ready_queue ≡ t ∷ rest
      → is_blocked now k t ≡ true
      → enter env cpu now k ≡ some (record k { ready_queue = rest ++ t ∷ [] })
  unfolding entered push_task_to_scheduler
  enter-blocked cpu now t rest k e blocked =
      enter-queued cpu now t rest k e
      ∙ ap (λ c. some (entered env cpu now t c (record k { ready_queue = rest })))
          (blocked-board now k.board (k.tasks t).tid blocked)

  -- What the cpu then has.
  abbrev Found : ℕ → ℕ → List ℕ → Kernel Vm Fds → Type 0
  Found cpu t queue k =
      (k.current cpu ≡ some t) × (k.ready_queue ≡ queue) × (status_of k.tasks t ≡ running)

  enter-ready :
      (cpu now t : ℕ) (rest : List ℕ) (k : Kernel Vm Fds)
      → k.ready_queue ≡ t ∷ rest
      → is_blocked now k t ≡ false
      → (k' : Kernel Vm Fds) × (enter env cpu now k ≡ some k') × Found cpu t rest k'
  unfolding entered set_status
  enter-ready cpu now t rest k e free =
      let k1 = record k { ready_queue = rest } in
      let checked = check_thread_blocked now k.board (k.tasks t).tid in
      let as_pair : checked ≡ (false, checked.1) = ap (λ b. (b, checked.1)) free in
      (
        entered env cpu now t (false, checked.1) k1,
        enter-queued cpu now t rest k e ∙ ap (λ c. some (entered env cpu now t c k1)) as_pair,
        (ground arith, refl, ground arith),
      )

  -- However many blocked tasks stand before a task of the queue that is not blocked, a cpu that
  -- turns once for each of them and once more runs that task; the blocked tasks are then at the end
  -- of the queue, in their order. The clock stands still meanwhile.
  pub turns-Found :
      (cpu now t : ℕ) (waiting rest : List ℕ) (k : Kernel Vm Fds)
      → k.ready_queue ≡ waiting ++ t ∷ rest
      → AllBlocked now k waiting
      → is_blocked now k t ≡ false
      → (k' : Kernel Vm Fds) × (turns (suc (length waiting)) cpu now k ≡ some k')
        × (k'.current cpu ≡ some t)
        × (k'.ready_queue ≡ rest ++ waiting)
        × (status_of k'.tasks t ≡ running)
  turns-Found cpu now t [] rest k e all free =
      let (k', entered', (c, q, s)) = enter-ready cpu now t rest k e free in
      (k', rw (entered', turns) refl, c, q ∙ sym (append_nil rest), s)
  turns-Found cpu now t (w ∷ waiting) rest k e (blocked, all) free =
      let k1 = record k { ready_queue = (waiting ++ t ∷ rest) ++ w ∷ [] } in
      let (k', run, c, q, s) =
        turns-Found cpu now t waiting (rest ++ w ∷ []) k1 (append_assoc waiting (t ∷ rest) (w ∷ []))
          all free in
      (
        k',
        rw (enter-blocked cpu now w (waiting ++ t ∷ rest) k e blocked, turns) run,
        c,
        q ∙ append_assoc rest (w ∷ []) waiting,
        s,
      )

  -- The panic for the end of the first process, which its pid tells.
  abbrev pub Panics : ℕ → Kernel Vm Fds → Type 0
  Panics t k =
      (status_of k.tasks t ≡ dying) × ((not env.is_test_env && ((k.tasks t).pid == 0)) ≡ true)

  put_down_goes :
      (t : ℕ) (s : TaskStatus) (k : Kernel Vm Fds)
      → OnCpu s
      → s ≢ running
      → ((k' : Kernel Vm Fds) × (put_down env t s k ≡ some k'))
        ⊎ ((put_down env t s k ≡ none)
            × (s ≡ dying)
            × ((not env.is_test_env && ((k.tasks t).pid == 0)) ≡ true))
  unfolding put_down
  put_down_goes t un_init k on ne = elim on [ ]
  put_down_goes t zombie k on ne = elim on [ ]
  put_down_goes t exited k on ne = elim on [ ]
  put_down_goes t running k runs ne = absurd (ne refl)
  put_down_goes t ready k paused ne = inl (push_task_to_scheduler env k t, refl)
  put_down_goes t dying k ends ne =
      elim (Bool-cases (not env.is_test_env && ((k.tasks t).pid == 0))) [
        | inl first ↦ inr (rw first refl, refl, first)
        | inr other ↦ inl (handle_zombie_task env k t, rw other refl)
      ]

  -- In a state that the kernel reaches, a task that no longer runs leaves its cpu without a panic, but
  -- for one: outside the test environment `leave` panics for a task that exits with the pid 0, which
  -- the first task and its threads have.
  pub Reach-leave :
      (cpu t now : ℕ) (k : Kernel Vm Fds)
      → Reach env k
      → k.current cpu ≡ some t
      → status_of k.tasks t ≢ running
      → ((k' : Kernel Vm Fds) × (leave env cpu now k ≡ some k'))
        ⊎ ((leave env cpu now k ≡ none) × Panics t k)
  unfolding leave get_status switched_out
  Reach-leave cpu t now k r c ne =
      let timed = switch_out_task now (k.tasks t).time in
      let k1 = switched_out env k t timed in
      let same : status_of k1.tasks t ≡ status_of k.tasks t =
        ap (λ (v : View). v.status t) (switched_out-view env k t timed) in
      let kept : (k1.tasks t).pid ≡ (k.tasks t).pid = ground arith in
      elim (put_down_goes t (status_of k1.tasks t) (record k1 { current = put k.current cpu none })
        (subst OnCpu (sym same) ((Reach-Inv env r).on_cpu t cpu c).1) (λ e. ne (sym same ∙ e))) [
          | inl (k', e) ↦ inl (k', rw (c, leave) e)
          | inr (e, d, p) ↦ inr (
            rw (c, leave) e,
            (sym same ∙ d, ap (λ i. not env.is_test_env && (i == 0)) (sym kept) ∙ p),
          )
        ]
