-- ===== src/Scheduler/Ticks.antt =====
-- What a tick runs, and when a task is due again.
use civiclens.Scheduler.{
  TaskSpec, TaskOutcome, LockProvider, State, due, run_task, run_of, tick, tick_from, ttl, raises,
  returns, is_due, lock_name,
}
use civiclens.Prelude.{
  ℕ, String, ◌≡◌, refl, ◌⊎◌, inl, true, some, List, [], ◌∷◌, map, Bool-cases, All, inr, ap, str_eq,
  ◌∙◌, ◌<◌, arith, ◌+◌, eq_iff, false,
}

-- A lock that nobody else holds.
abbrev pub Grants : {L : Type 0} → LockProvider L → Type 0
Grants {L} p = (name : String) (seconds : ℕ) (l : L) → (p.acquire name seconds l).0 ≡ true

name-run_of : (name : String) (o : TaskOutcome) → (run_of name o).name ≡ name
name-run_of name (raises message) = refl
name-run_of name (returns summary) = refl

module _ {L W : Type 0} (p : LockProvider L) where
  names-tick_from :
      (now : ℕ) (ts : List (TaskSpec W)) (s : State L W)
      → Grants p
      → map (λ r. r.name) (tick_from p now ts s).0 ≡ map (λ t. t.name) ts
  unfolding tick_from run_task
  names-tick_from now [] s g = refl
  names-tick_from now (t ∷ ts) s g =
      rw (g (lock_name t.name) (ttl t.interval) s.lock, tick_from, map)
        (rw (name-run_of t.name (t.fn now s.world).0) (
          ap (λ ns. t.name ∷ ns)
            (names-tick_from now ts
              (run_task p now t
                (record s { lock = (p.acquire (lock_name t.name) (ttl t.interval) s.lock).1 })).1
              g)))

  -- When the lock is free, a tick runs exactly the tasks that are due, each once and in order,
  -- however many of them fail.
  pub tick_runs_due :
      (tasks : List (TaskSpec W)) (now : ℕ) (s : State L W)
      → Grants p
      → map (λ r. r.name) (tick p tasks now s).0 ≡ map (λ t. t.name) (due tasks s now)
  unfolding tick
  tick_runs_due tasks now s g = names-tick_from now (due tasks s now) s g

  after_run :
      (now : ℕ) (t : TaskSpec W) (s : State L W) (name : String) (s' : State L W)
      → (s'.last_run name ≡ (run_task p now t s).1.last_run name) ⊎ (s'.last_run name ≡ some now)
      → (s'.last_run name ≡ s.last_run name) ⊎ (s'.last_run name ≡ some now)
  unfolding run_task
  after_run now t s name s' (inr h) = inr h
  after_run now t s name s' (inl h) = elim (Bool-cases (str_eq name t.name)) [
    | inl e ↦ inr (h ∙ (rw e))
    | inr e ↦ inl (h ∙ (rw e))
  ]

  -- A last run in a tick at `now` is kept or becomes `now`.
  last_run-tick_from :
      (now : ℕ) (ts : List (TaskSpec W)) (s : State L W) (name : String)
      → ((tick_from p now ts s).1.last_run name ≡ s.last_run name)
        ⊎ ((tick_from p now ts s).1.last_run name ≡ some now)
  unfolding tick_from run_task
  last_run-tick_from now [] s name = inl refl
  last_run-tick_from now (t ∷ ts) s name =
      let l = (p.acquire (lock_name t.name) (ttl t.interval) s.lock).1 in
      elim (Bool-cases (p.acquire (lock_name t.name) (ttl t.interval) s.lock).0) [
        | inr e ↦ rw (e, tick_from) (last_run-tick_from now ts (record s { lock = l }) name)
        | inl e ↦
            rw (e, tick_from)
              (after_run now t (record s { lock = l }) name
                (tick_from p now ts (run_task p now t (record s { lock = l })).1).1
                (last_run-tick_from now ts (run_task p now t (record s { lock = l })).1 name))
      ]

  own_run :
      (now : ℕ) (t : TaskSpec W) (s : State L W) → (run_task p now t s).1.last_run t.name ≡ some now
  unfolding run_task
  own_run now t s = ground (arith, eq_iff t.name t.name)

  head_recorded :
      (now : ℕ) (t : TaskSpec W) (ts : List (TaskSpec W)) (s : State L W)
      → s.last_run t.name ≡ some now
      → (tick_from p now ts s).1.last_run t.name ≡ some now
  head_recorded now t ts s h = elim (last_run-tick_from now ts s t.name) [
    | inl k ↦ k ∙ h
    | inr k ↦ k
  ]

  tick_from-granted :
      (now : ℕ) (t : TaskSpec W) (ts : List (TaskSpec W)) (s : State L W)
      → Grants p
      → (tick_from p now (t ∷ ts) s).1
        ≡ (tick_from p now ts
            (run_task p now t
              (record s { lock = (p.acquire (lock_name t.name) (ttl t.interval) s.lock).1 })).1).1
  unfolding tick_from
  tick_from-granted now t ts s g = rw (g (lock_name t.name) (ttl t.interval) s.lock, tick_from)

  All-along :
      (now : ℕ) (ts : List (TaskSpec W)) (s s' : State L W)
      → s ≡ s'
      → All (λ t. s'.last_run t.name ≡ some now) ts
      → All (λ t. s.last_run t.name ≡ some now) ts
  All-along now [] s s' e h = tt
  All-along now (t ∷ ts) s s' e h =
      (ap (λ x. x.last_run t.name) e ∙ h.0, All-along now ts s s' e h.1)

  recorded :
      (now : ℕ) (ts : List (TaskSpec W)) (s : State L W)
      → Grants p
      → All (λ t. (tick_from p now ts s).1.last_run t.name ≡ some now) ts
  recorded now [] s g = tt
  recorded now (t ∷ ts) s g =
      let l = (p.acquire (lock_name t.name) (ttl t.interval) s.lock).1 in
      let s' = (run_task p now t (record s { lock = l })).1 in
      All-along now (t ∷ ts) (tick_from p now (t ∷ ts) s).1 (tick_from p now ts s').1
        (tick_from-granted now t ts s g)
        (head_recorded now t ts s' (own_run now t (record s { lock = l })), recorded now ts s' g)

  not_due :
      (now later : ℕ) (s : State L W) (ts : List (TaskSpec W))
      → All (λ t. s.last_run t.name ≡ some now) ts
      → All (λ t. later < now + t.interval → is_due (s.last_run t.name) t.interval later ≡ false) ts
  not_due now later s [] h = tt
  not_due now later s (t ∷ ts) h = ((λ soon. rw h.0 (ground arith)), not_due now later s ts h.1)

  -- When the lock is free, a task that was due and ran, or failed, in a tick is not due again
  -- before its interval has passed.
  pub tick_rests :
      (tasks : List (TaskSpec W)) (now later : ℕ) (s : State L W)
      → Grants p
      → All
          (λ t.
            later < now + t.interval
            → is_due ((tick p tasks now s).1.last_run t.name) t.interval later ≡ false)
          (due tasks s now)
  unfolding tick
  tick_rests tasks now later s g =
      not_due now later (tick_from p now (due tasks s now) s).1 (due tasks s now)
        (recorded now (due tasks s now) s g)
