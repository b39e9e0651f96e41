-- ===== src/Task/Family.antt =====
-- kernel/src/task/cpu_local.rs, `handle_zombie_task`: who gets the children of a task that ends.
use maturin.Prelude.{
  ℕ, zero, suc, ◌<◌, ◌≡◌, ◌≢◌, ◌==◌, ◌⊎◌, inl, inr, ◌||◌, Bool, if◌then◌else◌, List, [], ◌∷◌, ◌++◌,
  some, refl, sym, ap, ◌∙◌, arith, Bool-cases, append_nil, append_assoc,
}
use maturin.Task.{zombie, no_parent}
use maturin.Task.Kernel.{Kernel, Env, with_task}
use maturin.Task.Cpu.{
  origin, reparented, reparent_all, end_task, release_vm, handle_zombie_task, strong_count,
}
use maturin.Task.Moves.{occurs}

zero-or : (n : ℕ) → (n ≡ 0) ⊎ (0 < n)
zero-or zero = inl refl
zero-or (suc n) = inr (omega arith)

module _ {Vm Fds : Type 0} (env : Env Vm Fds) where
  -- Whether the children get no parent.
  abbrev pub orphaned : ℕ → Bool
  orphaned ppid = (ppid == no_parent) || env.is_test_env

  -- What became of the tasks, from `k` to `k'`, when `children` changed their parent.
  pub record Moved (ppid : ℕ) (children : List ℕ) (k k' : Kernel Vm Fds) : Type 0 where
    pub new_ppid :
        (c : ℕ)
        → 0 < occurs c children
        → (k'.tasks c).inner.ppid ≡ (if orphaned ppid then no_parent else 0)
    pub new_parent :
        (c : ℕ)
        → 0 < occurs c children
        → (k'.tasks c).inner.parent
          ≡ (if orphaned ppid then (k.tasks c).inner.parent else some origin)
    pub adopted :
        (k'.tasks origin).inner.children
        ≡ (k.tasks origin).inner.children ++ (if orphaned ppid then [] else children)
    pub others : (j : ℕ) → j ≢ origin → occurs j children ≡ 0 → k'.tasks j ≡ k.tasks j

  reparented-Moved :
      (ppid c : ℕ) (k : Kernel Vm Fds)
      → c ≢ origin
      → Moved ppid (c ∷ []) k (reparented env ppid k c)
  unfolding reparented with_task
  reparented-Moved ppid c k ne = elim (Bool-cases (orphaned ppid)) [
    | inl alone ↦ record {
      new_ppid = λ d h. ground (arith, alone, h);
      new_parent = λ d h. ground (arith, alone, h);
      adopted = ground (arith, alone, append_nil (k.tasks origin).inner.children, ne);
      others = λ j out h. ground (arith, alone, h);
    }
    | inr given ↦ record {
      new_ppid = λ d h. ground (arith, given, h, ne);
      new_parent = λ d h. ground (arith, given, h, ne);
      adopted = ground (arith, given, ne);
      others = λ j out h. ground (arith, given, h, out);
    }
  ]

  -- One child, and then the others.
  Moved-cons :
      (ppid c : ℕ) (children : List ℕ) (k k1 k' : Kernel Vm Fds)
      → c ≢ origin
      → occurs origin children ≡ 0
      → Moved ppid (c ∷ []) k k1
      → Moved ppid children k1 k'
      → Moved ppid (c ∷ children) k k'
  Moved-cons ppid c children k k1 k' ne out one more = record {
    new_ppid = λ d h. elim (zero-or (occurs d children)) [
      | inl last ↦
          ap (λ x. x.inner.ppid) (more.others d (ground (arith, h, last, ne)) last)
          ∙ one.new_ppid d (ground (arith, h, last))
      | inr again ↦ more.new_ppid d again
    ];
    new_parent = λ d h. elim (zero-or (occurs d children)) [
      | inl last ↦
          ap (λ x. x.inner.parent) (more.others d (ground (arith, h, last, ne)) last)
          ∙ one.new_parent d (ground (arith, h, last))
      | inr again ↦ more.new_parent d again ∙ kept_parent d again
    ];
    adopted =
        more.adopted
        ∙ ap (λ cs. cs ++ (if orphaned ppid then [] else children)) one.adopted
        ∙ joined;
    others =
        λ j away h. more.others j away (ground (arith, h)) ∙ one.others j away (ground (arith, h));
  }
    where
      kept_parent :
          (d : ℕ)
          → 0 < occurs d children
          → (if orphaned ppid then (k1.tasks d).inner.parent else some origin)
            ≡ (if orphaned ppid then (k.tasks d).inner.parent else some origin)
      kept_parent d again = elim (Bool-cases (d == c)) [
        | inl same ↦ ground (arith, one.new_parent d (ground (arith, same)))
        | inr other ↦
            ap (λ x. if orphaned ppid then x.inner.parent else some origin)
              (one.others d (λ e. absurd (ground (arith, e, out, again))) (ground (arith, other)))
      ]

      joined :
          ((k.tasks origin).inner.children ++ (if orphaned ppid then [] else c ∷ []))
            ++ (if orphaned ppid then [] else children)
          ≡ (k.tasks origin).inner.children ++ (if orphaned ppid then [] else c ∷ children)
      joined = elim (Bool-cases (orphaned ppid)) [
        | inl alone ↦ rw (alone) (append_nil ((k.tasks origin).inner.children ++ []))
        | inr given ↦ rw given (append_assoc (k.tasks origin).inner.children (c ∷ []) children)
      ]

  reparent_all-Moved :
      (ppid : ℕ) (children : List ℕ) (k : Kernel Vm Fds)
      → occurs origin children ≡ 0
      → Moved ppid children k (reparent_all env ppid children k)
  unfolding reparent_all
  reparent_all-Moved ppid [] k out = record {
    new_ppid = λ c h. absurd (omega (arith, h));
    new_parent = λ c h. absurd (omega (arith, h));
    adopted = elim (Bool-cases (orphaned ppid)) [
      | inl alone ↦ rw alone (sym (append_nil (k.tasks origin).inner.children))
      | inr given ↦ rw given (sym (append_nil (k.tasks origin).inner.children))
    ];
    others = λ j away h. refl;
  }
  reparent_all-Moved ppid (c ∷ children) k out =
      let k1 = reparented env ppid k c in
      let ne : c ≢ origin = λ e. absurd (ground (arith, out, e)) in
      Moved-cons ppid c children k k1 (reparent_all env ppid children k1) ne (ground (arith, out))
        (reparented-Moved ppid c k ne) (reparent_all-Moved ppid children k1 (ground (arith, out)))

  pub release_vm-tasks : (t v : ℕ) (k : Kernel Vm Fds) → (release_vm env k t v).tasks ≡ k.tasks
  unfolding release_vm
  release_vm-tasks t v k = elim (Bool-cases (strong_count env k t v == 1)) [
    | inl last ↦ rw last refl
    | inr shared ↦ rw shared refl
  ]

  -- A task `t` that ends is a zombie without children. Each child `c` has no parent where tests run or
  -- where `t` has no parent, and then keeps its pointer to the task; otherwise its parent is the
  -- first task, which has its old children and after them those of `t`. A task that is none of
  -- these, `j`, is as it was. Neither the first task nor `t` is a child of `t`.
  pub handle_zombie_task-children :
      (t c j : ℕ) (k : Kernel Vm Fds)
      → occurs origin (k.tasks t).inner.children ≡ 0
      → occurs t (k.tasks t).inner.children ≡ 0
      → 0 < occurs c (k.tasks t).inner.children
      → j ≢ origin
      → j ≢ t
      → occurs j (k.tasks t).inner.children ≡ 0
      → let alone = orphaned (k.tasks t).inner.ppid in
        let after = (handle_zombie_task env k t).tasks in
        ((after t).inner.task_status ≡ zombie)
        × ((after t).inner.children ≡ [])
        × ((after c).inner.ppid ≡ (if alone then no_parent else 0))
        × ((after c).inner.parent ≡ (if alone then (k.tasks c).inner.parent else some origin))
        × ((after origin).inner.children ≡ (
            if origin == t
            then []
            else (k.tasks origin).inner.children
              ++ (if alone then [] else (k.tasks t).inner.children)))
        × (after j ≡ k.tasks j)
  unfolding handle_zombie_task end_task
  handle_zombie_task-children t c j k out not_own is_child away other stranger =
      let inner = (k.tasks t).inner in
      let k1 = reparent_all env inner.ppid inner.children k in
      let moved : Moved inner.ppid inner.children k k1 =
        reparent_all-Moved inner.ppid inner.children k out in
      let same = release_vm-tasks t (k.tasks t).vm (end_task env k1 t) in
      let c_ne : c ≢ t = λ e. absurd (ground (arith, e, not_own, is_child)) in
      rw same (
        ground arith,
        ground arith,
        ground (arith, moved.new_ppid c is_child, c_ne),
        ground (arith, moved.new_parent c is_child, c_ne),
        elim (Bool-cases (origin == t)) [
          | inl first ↦ ground (arith, first)
          | inr later ↦ rw later moved.adopted
        ],
        ground (arith, moved.others j away stranger, other),
      )
