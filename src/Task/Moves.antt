-- ===== src/Task/Moves.antt =====
-- Who holds a task, after kernel/src/task/scheduler.rs and cpu_local.rs: the queue, a cpu, or nobody,
-- and the moves of a task between them.
use maturin.Prelude.{
  ℕ, ◌+◌, ◌≤◌, ◌<◌, ◌≡◌, ◌==◌, ◌⊎◌, if◌then◌else◌, List, [], ◌∷◌, ◌++◌, Option, none, some, arith,
}
use maturin.Task.{TaskStatus, ready, running, dying, zombie}
use maturin.Task.Handling.{put}

pub record View : Type 0 where
  pub allocated : ℕ
  pub queue : List ℕ
  pub current : ℕ → Option ℕ
  pub status : ℕ → TaskStatus

-- How often a task is in a list.
abbrev pub occurs : ℕ → List ℕ → ℕ
occurs t [] = 0
occurs t (x ∷ xs) = (if t == x then 1 else 0) + occurs t xs

pub occurs-append : (t : ℕ) (xs ys : List ℕ) → occurs t (xs ++ ys) ≡ occurs t xs + occurs t ys
occurs-append t [] ys = omega arith
occurs-append t (x ∷ xs) ys = omega (arith, occurs-append t xs ys)

-- The statuses that the task of a cpu can have.
pub data OnCpu : TaskStatus → Type 0 where
  runs : OnCpu running
  paused : OnCpu ready
  ends : OnCpu dying

-- Between two steps: no task is twice in the queue; a task in the queue is ready and no cpu has it;
-- the task of a cpu runs, is paused or ends, and no other cpu has it; every other task is a zombie.
pub record Inv (v : View) : Type 0 where
  pub once : (t : ℕ) → occurs t v.queue ≤ 1
  pub queued : (t : ℕ) → 0 < occurs t v.queue → (t < v.allocated) × (v.status t ≡ ready)
  pub not_both : (t cpu : ℕ) → v.current cpu ≡ some t → occurs t v.queue ≡ 0
  pub on_cpu : (t cpu : ℕ) → v.current cpu ≡ some t → (t < v.allocated) × OnCpu (v.status t)
  pub one_cpu : (t cpu other : ℕ) → v.current cpu ≡ some t → v.current other ≡ some t → cpu ≡ other
  pub placed :
      (t : ℕ)
      → t < v.allocated
      → (0 < occurs t v.queue) ⊎ ((cpu : ℕ) × (v.current cpu ≡ some t)) ⊎ (v.status t ≡ zombie)

pub data Move (v : View) : View → Type 0 where
  rotate :
      {t : ℕ} {rest : List ℕ} → v.queue ≡ t ∷ rest → Move v (record v { queue = rest ++ t ∷ [] })
  take :
      (cpu : ℕ) {t : ℕ} {rest : List ℕ}
      → v.current cpu ≡ none
      → v.queue ≡ t ∷ rest
      → Move v (record v {
        queue = rest;
        current = put v.current cpu (some t);
        status = put v.status t running;
      })
  mark :
      {cpu t : ℕ} {s : TaskStatus}
      → v.current cpu ≡ some t
      → OnCpu s
      → Move v (record v { status = put v.status t s })
  add : Move v (record v {
    allocated = v.allocated + 1;
    queue = v.queue ++ v.allocated ∷ [];
    status = put v.status v.allocated ready;
  })
  put_back :
      (cpu : ℕ) {t : ℕ}
      → v.current cpu ≡ some t
      → v.status t ≡ ready
      → Move v (record v { queue = v.queue ++ t ∷ []; current = put v.current cpu none })
  bury :
      (cpu : ℕ) {t : ℕ}
      → v.current cpu ≡ some t
      → Move v (record v { current = put v.current cpu none; status = put v.status t zombie })

-- A run of moves.
pub data Moves : View → View → Type 0 where
  stop : {v : View} → Moves v v
  next : {v u w : View} → Move v u → Moves u w → Moves v w
