-- ===== src/Task/Held.antt =====
-- Every move of a task between the queue and the cpus keeps the invariant.
use maturin.Prelude.{
  ℕ, ◌+◌, ◌<◌, ◌≡◌, ◌≢◌, ◌==◌, ◌⊎◌, inl, inr, if◌then◌else◌, List, [], ◌∷◌, ◌++◌, Option, none,
  some, refl, sym, subst, ◌∙◌, ap, arith, Bool-cases,
}
use maturin.Task.{TaskStatus, ready, running, zombie}
use maturin.Task.Handling.{put}
use maturin.Task.Moves.{
  View, Inv, OnCpu, runs, Move, rotate, take, mark, add, put_back, bury, Moves, stop, next, occurs,
  occurs-append,
}

-- A place after a write at `i`.
pub put_cases {ℓ} :
    {A : Type ℓ} (f : ℕ → A) (i : ℕ) (a : A) (j : ℕ)
    → ((j ≡ i) × (put f i a j ≡ a)) ⊎ ((j ≢ i) × (put f i a j ≡ f j))
put_cases f i a j = elim (Bool-cases (j == i)) [
  | inl same ↦ inl (ground (arith, same), rw same refl)
  | inr other ↦ inr ((λ e. ground (arith, other, e)), rw other refl)
]

-- What a cpu has, after `cpu` has let go of its task.
let_go :
    (current : ℕ → Option ℕ) (cpu held j : ℕ)
    → put current cpu none held ≡ some j
    → (held ≢ cpu) × (current held ≡ some j)
let_go current cpu held j h = elim (put_cases current cpu none held) [
  | inl (_, e) ↦ absurd (ground (arith, e, h))
  | inr (ne, e) ↦ (ne, sym e ∙ h)
]

-- What a cpu has, after `cpu` has got the task `t`.
got :
    (current : ℕ → Option ℕ) (cpu t held j : ℕ)
    → put current cpu (some t) held ≡ some j
    → ((held ≡ cpu) × (j ≡ t)) ⊎ ((held ≢ cpu) × (current held ≡ some j))
got current cpu t held j h = elim (put_cases current cpu (some t) held) [
  | inl (same, e) ↦ inl (same, ground (arith, e, h))
  | inr (ne, e) ↦ inr (ne, sym e ∙ h)
]

module _ (v : View) (inv : Inv v) where
  open inv use {once, queued, not_both, on_cpu, one_cpu, placed}

  rotate-Inv :
      (t : ℕ) (rest : List ℕ) → v.queue ≡ t ∷ rest → Inv (record v { queue = rest ++ t ∷ [] })
  rotate-Inv t rest e =
      let same : (j : ℕ) → occurs j (rest ++ t ∷ []) ≡ occurs j v.queue =
        λ j. rw e (omega (arith, occurs-append j rest (t ∷ []))) in
      record {
        once = λ j. omega (arith, same j, once j);
        queued = λ j h. queued j (omega (arith, same j, h));
        not_both = λ j cpu h. omega (arith, same j, not_both j cpu h);
        on_cpu = on_cpu;
        one_cpu = one_cpu;
        placed = λ j h. elim (placed j h) [
          | inl q ↦ inl (omega (arith, same j, q))
          | inr other ↦ inr other
        ];
      }

  mark-Inv :
      (cpu t : ℕ) (s : TaskStatus)
      → v.current cpu ≡ some t
      → OnCpu s
      → Inv (record v { status = put v.status t s })
  mark-Inv cpu t s c on = record {
    once = once;
    queued = λ j h. elim (put_cases v.status t s j) [
      | inl (e, _) ↦ absurd (ground (arith, not_both t cpu c, h, e))
      | inr (_, e) ↦ let (lt, r) = queued j h in (lt, e ∙ r)
    ];
    not_both = not_both;
    on_cpu = λ j other h. elim (put_cases v.status t s j) [
      | inl (_, e) ↦ ((on_cpu j other h).0, subst OnCpu (sym e) on)
      | inr (_, e) ↦ let (lt, r) = on_cpu j other h in (lt, subst OnCpu (sym e) r)
    ];
    one_cpu = one_cpu;
    placed = λ j h. elim (put_cases v.status t s j) [
      | inl (e, _) ↦ inr (inl (cpu, c ∙ ap some (sym e)))
      | inr (_, e) ↦ elim (placed j h) [
        | inl q ↦ inl q
        | inr (inl held) ↦ inr (inl held)
        | inr (inr z) ↦ inr (inr (e ∙ z))
      ]
    ];
  }

  add-Inv : Inv (record v {
    allocated = v.allocated + 1;
    queue = v.queue ++ v.allocated ∷ [];
    status = put v.status v.allocated ready;
  })
  add-Inv =
      let n = v.allocated in
      let counted : (j : ℕ)
          → occurs j (v.queue ++ v.allocated ∷ [])
            ≡ occurs j v.queue + (if j == v.allocated then 1 else 0) =
        λ j. omega (arith, occurs-append j v.queue (v.allocated ∷ [])) in
      record {
        once = λ j. ground (arith, counted j, once j, queued j);
        queued = λ j h. elim (put_cases v.status n ready j) [
          | inl (e, s) ↦ (omega (arith, e), s)
          | inr (ne, s) ↦
              let (lt, r) = queued j (ground (arith, counted j, ne, h)) in
              (omega (arith, lt), s ∙ r)
        ];
        not_both = λ j cpu h. ground (arith, counted j, not_both j cpu h, (on_cpu j cpu h).0);
        on_cpu = λ j cpu h. elim (put_cases v.status n ready j) [
          | inl (e, _) ↦ absurd (omega (arith, (on_cpu j cpu h).0, e))
          | inr (_, s) ↦ let (lt, r) = on_cpu j cpu h in (omega (arith, lt), subst OnCpu (sym s) r)
        ];
        one_cpu = one_cpu;
        placed = λ j h. elim (put_cases v.status n ready j) [
          | inl (e, _) ↦ inl (ground (arith, counted j, e))
          | inr (ne, s) ↦ elim (placed j (ground (arith, ne, h))) [
            | inl q ↦ inl (omega (arith, counted j, q))
            | inr (inl held) ↦ inr (inl held)
            | inr (inr z) ↦ inr (inr (s ∙ z))
          ]
        ];
      }

  put_back-Inv :
      (cpu t : ℕ)
      → v.current cpu ≡ some t
      → v.status t ≡ ready
      → Inv (record v { queue = v.queue ++ t ∷ []; current = put v.current cpu none })
  put_back-Inv cpu t c r =
      let counted : (j : ℕ)
          → occurs j (v.queue ++ t ∷ []) ≡ occurs j v.queue + (if j == t then 1 else 0) =
        λ j. omega (arith, occurs-append j v.queue (t ∷ [])) in
      record {
        once = λ j. ground (arith, counted j, once j, not_both t cpu c);
        queued = λ j h. elim (Bool-cases (j == t)) [
          | inl same ↦
              let e : j ≡ t = ground (arith, same) in
              (omega (arith, e, (on_cpu t cpu c).0), ap v.status e ∙ r)
          | inr other ↦ queued j (ground (arith, counted j, other, h))
        ];
        not_both = λ j held h.
            let (ne, h') = let_go v.current cpu held j h in
            ground (arith, counted j, not_both j held h', ne, one_cpu t held cpu, h', c);
        on_cpu = λ j held h. on_cpu j held (let_go v.current cpu held j h).1;
        one_cpu = λ j held other h h'.
            one_cpu j held other (let_go v.current cpu held j h).1
              (let_go v.current cpu other j h').1;
        placed = λ j h. elim (placed j h) [
          | inl q ↦ inl (omega (arith, counted j, q))
          | inr (inl (held, e)) ↦ elim (put_cases v.current cpu none held) [
            | inl (same, _) ↦ inl (ground (arith, counted j, e, same, c))
            | inr (_, e') ↦ inr (inl (held, e' ∙ e))
          ]
          | inr (inr z) ↦ inr (inr z)
        ];
      }

  bury-Inv :
      (cpu t : ℕ)
      → v.current cpu ≡ some t
      → Inv (record v { current = put v.current cpu none; status = put v.status t zombie })
  bury-Inv cpu t c = record {
    once = once;
    queued = λ j h. elim (put_cases v.status t zombie j) [
      | inl (e, _) ↦ absurd (ground (arith, not_both t cpu c, h, e))
      | inr (_, e) ↦ let (lt, r) = queued j h in (lt, e ∙ r)
    ];
    not_both = λ j held h. not_both j held (let_go v.current cpu held j h).1;
    on_cpu = λ j held h.
        let (ne, h') = let_go v.current cpu held j h in
        elim (put_cases v.status t zombie j) [
          | inl (e, _) ↦ absurd (ne (one_cpu t held cpu (h' ∙ ap some e) c))
          | inr (_, e) ↦ let (lt, r) = on_cpu j held h' in (lt, subst OnCpu (sym e) r)
        ];
    one_cpu = λ j held other h h'.
        one_cpu j held other (let_go v.current cpu held j h).1 (let_go v.current cpu other j h').1;
    placed = λ j h. elim (put_cases v.status t zombie j) [
      | inl (_, e) ↦ inr (inr e)
      | inr (ne, e) ↦ elim (placed j h) [
        | inl q ↦ inl q
        | inr (inl (held, e')) ↦ elim (put_cases v.current cpu none held) [
          | inl (same, _) ↦ absurd (ground (arith, e', same, c, ne))
          | inr (_, e'') ↦ inr (inl (held, e'' ∙ e'))
        ]
        | inr (inr z) ↦ inr (inr (e ∙ z))
      ]
    ];
  }

  take-Inv :
      (cpu t : ℕ) (rest : List ℕ)
      → v.current cpu ≡ none
      → v.queue ≡ t ∷ rest
      → Inv (record v {
        queue = rest;
        current = put v.current cpu (some t);
        status = put v.status t running;
      })
  take-Inv cpu t rest free e =
      let counted : (j : ℕ) → occurs j v.queue ≡ (if j == t then 1 else 0) + occurs j rest =
        λ j. rw e refl in
      let first : 0 < occurs t v.queue = ground (arith, counted t) in
      record {
        once = λ j. ground (arith, counted j, once j);
        queued = λ j h. elim (put_cases v.status t running j) [
          | inl (same, _) ↦ absurd (ground (arith, counted j, once j, same, h))
          | inr (_, s) ↦ let (lt, r) = queued j (omega (arith, counted j, h)) in (lt, s ∙ r)
        ];
        not_both = λ j held h. elim (got v.current cpu t held j h) [
          | inl (_, same) ↦ ground (arith, counted j, once j, same)
          | inr (_, h') ↦ omega (arith, counted j, not_both j held h')
        ];
        on_cpu = λ j held h. elim (put_cases v.status t running j) [
          | inl (same, s) ↦ (omega (arith, (queued t first).0, same), subst OnCpu (sym s) runs)
          | inr (ne, s) ↦ elim (got v.current cpu t held j h) [
            | inl (_, same) ↦ absurd (ne same)
            | inr (_, h') ↦ let (lt, r) = on_cpu j held h' in (lt, subst OnCpu (sym s) r)
          ]
        ];
        one_cpu = λ j held other h h'. elim (got v.current cpu t held j h) [
          | inl (at, same) ↦ elim (got v.current cpu t other j h') [
            | inl (at', _) ↦ at ∙ sym at'
            | inr (_, o) ↦ absurd (ground (arith, not_both j other o, first, same))
          ]
          | inr (_, o) ↦ elim (got v.current cpu t other j h') [
            | inl (_, same) ↦ absurd (ground (arith, not_both j held o, first, same))
            | inr (_, o') ↦ one_cpu j held other o o'
          ]
        ];
        placed = λ j h. elim (put_cases v.status t running j) [
          | inl (same, _) ↦ inr (inl (cpu, ground (arith, same)))
          | inr (ne, s) ↦ elim (placed j h) [
            | inl q ↦ inl (ground (arith, counted j, ne, q))
            | inr (inl (held, e')) ↦ elim (put_cases v.current cpu (some t) held) [
              | inl (same, _) ↦ absurd (ground (arith, e', same, free))
              | inr (_, e'') ↦ inr (inl (held, e'' ∙ e'))
            ]
            | inr (inr z) ↦ inr (inr (s ∙ z))
          ]
        ];
      }

-- Every move keeps the invariant.
pub Move-Inv : {v v' : View} → Move v v' → Inv v → Inv v'
Move-Inv {v} (rotate e) inv = rotate-Inv v inv _ _ e
Move-Inv {v} (take cpu free e) inv = take-Inv v inv cpu _ _ free e
Move-Inv {v} (mark c on) inv = mark-Inv v inv _ _ _ c on
Move-Inv {v} add inv = add-Inv v inv
Move-Inv {v} (put_back cpu c r) inv = put_back-Inv v inv cpu _ c r
Move-Inv {v} (bury cpu c) inv = bury-Inv v inv cpu _ c

pub Moves-Inv : {v v' : View} → Moves v v' → Inv v → Inv v'
Moves-Inv stop inv = inv
Moves-Inv (next m ms) inv = Moves-Inv ms (Move-Inv m inv)
