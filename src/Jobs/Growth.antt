-- ===== src/Jobs/Growth.antt =====
-- The operations of the queue keep every job and lower no count of attempts, but for `retry_dead`:
-- app/workers/queue.py.
use civiclens.Jobs.Rows.{get_id, get-append, get-update_same, get-update_other}
use civiclens.Jobs.Table.{
  queued, JobRecord, Table, get, update, overwrite, add_if_absent, has_key, has_id, list_orphans,
}
use civiclens.Jobs.Lifecycle.{enqueue, mark_queued, is_pending, is_waiting, is_retrying, second}
use civiclens.Jobs.Service.{Backend, Queue, dispatch, dispatch_one, redispatch, requeue_orphans}
use civiclens.Prelude.{
  ℕ, ◌-◌, ◌*◌, ◌≤◌, String, ◌≡◌, sym, ap, ◌∙◌, inl, inr, Option, none, some, List, [], ◌∷◌, ◌++◌,
  arith, eq_iff, if◌then◌else◌, Bool-cases, Option-cases, or_else, find?, str_eq, some_injective,
}

-- A row with at least as many attempts
abbrev pub HasGrown : String → ℕ → Table → Type 0
HasGrown id n t = (row : JobRecord) × (get id t ≡ some row) × (n ≤ row.attempts)

abbrev pub Grows : Table → Table → Type 0
Grows t t' = (id : String) (row : JobRecord) → get id t ≡ some row → HasGrown id row.attempts t'

pub Grows-refl : (t : Table) → Grows t t
Grows-refl t id row h = (row, h, omega arith)

pub Grows-trans : (t u v : Table) → Grows t u → Grows u v → Grows t v
Grows-trans t u v g k id row h =
    let a = g id row h in let b = k id a.0 a.1 in (b.0, b.1, omega (arith, a.2, b.2))

pub update-Grows :
    (j : JobRecord) (t : Table)
    → ((row : JobRecord) → get j.id t ≡ some row → row.attempts ≤ (overwrite j row).attempts)
    → Grows t (update j t)
update-Grows j t f id row h = elim (Bool-cases (str_eq j.id id)) [
  | inr e ↦ (row, get-update_other id j t e ∙ h, omega arith)
  | inl e ↦
      let same : j.id ≡ id = (eq_iff j.id id).0 e in
      let here : get j.id t ≡ some row = ap (λ i. get i t) same ∙ h in
      (
        overwrite j row,
        ap (λ i. get i (update j t)) (sym same) ∙ get-update_same j t row here,
        f row here,
      )
]

append-Grows : (t : Table) (j : JobRecord) → Grows t (t ++ j ∷ [])
append-Grows t j id row h = (
  row,
  get-append id t j ∙ ap (λ o. or_else o (if has_id id j then some j else none)) h,
  omega arith,
)

pub enqueue-Grows :
    (id kind payload key : String) (run_at : Option ℕ) (max_attempts now : ℕ) (t : Table)
    → Grows t (enqueue id kind payload key run_at max_attempts now t).1
unfolding enqueue add_if_absent
enqueue-Grows id kind payload key run_at max_attempts now t =
    elim (Option-cases (find? (has_key key) t)) [
      | inr e ↦ rw e.1 (Grows-refl t)
      | inl e ↦ rw e (append-Grows t _)
    ]

mark_queued-Grows : (id : String) (now : ℕ) (t : Table) → Grows t (mark_queued (get id t) now t)
unfolding mark_queued
mark_queued-Grows id now t = elim (Option-cases (get id t)) [
  | inl e ↦ rw e (Grows-refl t)
  | inr f ↦ elim (Bool-cases (is_pending f.0.status)) [
    | inr p ↦ rw (f.1, p) (Grows-refl t)
    | inl p ↦
        rw (f.1, p)
          (update-Grows (record f.0 { status = queued; updated_at = now }) t
            (λ row h.
              let here : get f.0.id t ≡ some f.0 = ap (λ i. get i t) (get_id id t f.0 f.1) ∙ f.1 in
              let same : row ≡ f.0 = some_injective (sym h ∙ here) in
              omega (arith, ap (λ r. r.attempts) same)))
  ]
]

module _ {Q W : Type 0} (b : Backend Q) where
  pub dispatch-Grows :
      (jobs : List JobRecord) (now : ℕ) (s : Queue Q W)
      → Grows s.jobs (dispatch b jobs now s).1.jobs
  unfolding dispatch dispatch_one
  dispatch-Grows [] now s = Grows-refl s.jobs
  dispatch-Grows (job ∷ jobs) now s = elim (Bool-cases (is_waiting job.status)) [
    | inr e ↦ rw (e, dispatch) (dispatch-Grows jobs now s)
    | inl e ↦
        rw (e, dispatch)
          (elim (Option-cases (b.push job.id job.run_at s.backend)) [
            | inl down ↦ rw (down, dispatch_one) (Grows-refl s.jobs)
            | inr (q, up) ↦
                rw (up, dispatch_one)
                  (Grows-trans s.jobs (mark_queued (get job.id s.jobs) now s.jobs) _
                    (mark_queued-Grows job.id now s.jobs)
                    (dispatch-Grows jobs now (record s {
                      backend = q;
                      jobs = mark_queued (get job.id s.jobs) now s.jobs;
                    })))
          ])
  ]

  pub redispatch-Grows :
      (job : JobRecord) (now : ℕ) (s : Queue Q W) → Grows s.jobs (redispatch b job now s).jobs
  unfolding redispatch
  redispatch-Grows job now s = elim (Bool-cases (is_retrying job.status)) [
    | inl e ↦ rw (e, redispatch) (dispatch-Grows (job ∷ []) now s)
    | inr e ↦ rw (e, redispatch) (Grows-refl s.jobs)
  ]

  pub requeue_orphans-Grows :
      (older now : ℕ) (s : Queue Q W) → Grows s.jobs (requeue_orphans b older now s).1.jobs
  unfolding requeue_orphans
  requeue_orphans-Grows older now s =
      dispatch-Grows (list_orphans (now - older * second) s.jobs) now s
