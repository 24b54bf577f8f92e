-- ===== src/Jobs/Delivery.antt =====
-- What dispatching does to the table, and how a delivered job ends.
use civiclens.Jobs.Rows.{get-update_same, get_id, get-update_other}
use civiclens.Jobs.Table.{
  JobRecord, Table, get, pending, queued, JobStatus, update, running, retrying, succeeded, dead,
  overwrite, raised,
}
use civiclens.Jobs.Lifecycle.{
  mark_queued, is_pending, is_waiting, Outcome, settle, begin, Verdict, returns, verdict_of,
  gives_up, fails, backoff, second, is_retrying, is_handled,
}
use civiclens.Jobs.Service.{
  Backend, dispatch, dispatch_one, Queue, conclude, run_popped, redispatch, call_handler, Handlers,
  Handler,
}
use civiclens.Prelude.{
  ℕ, String, ◌≡◌, inl, inr, some, Option-cases, Bool-cases, true, str_eq, arith, eq_iff, refl, sym,
  ◌∙◌, List, ◌∷◌, false, [], ap, ◌||◌, value_or, leb, none, ◌+◌, ◌≤◌, ◌⊎◌, ◌<◌, ◌*◌,
}

-- A row after dispatching: as it was, or marked as queued if it was pending.
pub data Queued (now : ℕ) (row : JobRecord) : JobRecord → Type 0 where
  unchanged : Queued now row row
  marked : row.status ≡ pending → Queued now row (record row { status = queued; updated_at = now })

abbrev pub KeepsRows : ℕ → Table → Table → Type 0
KeepsRows now t t' =
    (id : String) (row : JobRecord)
    → get id t ≡ some row
    → (row' : JobRecord) × (get id t' ≡ some row') × Queued now row row'

is_pending-eq : (st : JobStatus) → is_pending st ≡ true → st ≡ pending
is_pending-eq pending h = refl
is_pending-eq queued h = absurd (cc)
is_pending-eq running h = absurd (cc)
is_pending-eq retrying h = absurd (cc)
is_pending-eq succeeded h = absurd (cc)
is_pending-eq dead h = absurd (cc)

abbrev as_queued : ℕ → JobRecord → JobRecord
as_queued now j = record j { status = queued; updated_at = now }

update_queued-KeepsRows :
    (now : ℕ) (t : Table) (fresh : JobRecord)
    → get fresh.id t ≡ some fresh
    → is_pending fresh.status ≡ true
    → KeepsRows now t (update (as_queued now fresh) t)
update_queued-KeepsRows now t fresh here p id row h = elim (Bool-cases (str_eq fresh.id id)) [
  | inl e ↦
      let same_id : fresh.id ≡ id = ground (arith, eq_iff fresh.id id) in
      let k : some fresh ≡ some row = sym here ∙ (rw same_id h) in
      let same : fresh ≡ row = cc k in
      (
        as_queued now row,
        rw (sym same) (rw (sym same_id) (get-update_same (as_queued now fresh) t fresh here)),
        marked (rw (sym same) (is_pending-eq fresh.status p)),
      )
  | inr e ↦ (row, get-update_other id (as_queued now fresh) t e ∙ h, unchanged)
]

mark_queued-KeepsRows :
    (now : ℕ) (id : String) (t : Table) → KeepsRows now t (mark_queued (get id t) now t)
unfolding mark_queued
mark_queued-KeepsRows now id t id' row h = elim (Option-cases (get id t)) [
  | inl e ↦ rw e (row, h, unchanged)
  | inr (fresh, e) ↦ rw e (elim (Bool-cases (is_pending fresh.status)) [
    | inl p ↦ rw p (
        update_queued-KeepsRows now t fresh (ap (λ i. get i t) (get_id id t fresh e) ∙ e) p id' row
          h)
    | inr p ↦ rw p (row, h, unchanged)
  ])
]

Queued-trans :
    (now : ℕ) (r r' r'' : JobRecord) → Queued now r r' → Queued now r' r'' → Queued now r r''
Queued-trans now r r' r'' unchanged k = k
Queued-trans now r r' r'' (marked p) unchanged = marked p
Queued-trans now r r' r'' (marked p) (marked q) = absurd (cc q)

KeepsRows-trans :
    (now : ℕ) (t t' t'' : Table) → KeepsRows now t t' → KeepsRows now t' t'' → KeepsRows now t t''
KeepsRows-trans now t t' t'' h k id row e =
    let (row', e', q) = h id row e in
    let (row'', e'', q') = k id row' e' in (row'', e'', Queued-trans now row row' row'' q q')

module _ {Q W : Type 0} (b : Backend Q) where
  -- Dispatching loses no job, whether the backend is available or not: each row of the table is as
  -- before, except that pending ones may be marked as queued.
  pub dispatch_keeps :
      (jobs : List JobRecord) (now : ℕ) (s : Queue Q W)
      → KeepsRows now s.jobs (dispatch b jobs now s).1.jobs
  unfolding dispatch dispatch_one
  dispatch_keeps [] now s = λ id row h. (row, h, unchanged)
  dispatch_keeps (job ∷ jobs) now s = elim (Bool-cases (is_waiting job.status)) [
    | inr e ↦ rw (e, dispatch) (dispatch_keeps jobs now s)
    | inl e ↦
        rw (e, dispatch)
          (elim (Option-cases (b.push job.id job.run_at s.backend)) [
            | inl down ↦ rw (down, dispatch_one) (λ id row h. (row, h, unchanged))
            | inr (q, up) ↦ rw up (
                KeepsRows-trans now s.jobs (mark_queued (get job.id s.jobs) now s.jobs)
                  (dispatch b jobs now (record s {
                    backend = q;
                    jobs = mark_queued (get job.id s.jobs) now s.jobs;
                  })).1.jobs
                  (mark_queued-KeepsRows now job.id s.jobs)
                  (dispatch_keeps jobs now
                    (record s { backend = q; jobs = mark_queued (get job.id s.jobs) now s.jobs })))
          ])
  ]

-- What `run_once` leaves of a job, by what its handler did.
abbrev pub EndsAs : Outcome → ℕ → JobRecord → JobRecord → Type 0
EndsAs (returns result) finished row final =
    (final.status ≡ succeeded) × (final.result ≡ some (value_or "{}" result)) × (final.error ≡ none)
EndsAs (gives_up message) finished row final =
    (final.status ≡ dead) × (final.error ≡ some (raised message))
EndsAs (fails message) finished row final =
    (final.error ≡ some (raised message))
    × (((row.max_attempts ≤ row.attempts + 1) × (final.status ≡ dead))
        ⊎ ((row.attempts + 1 < row.max_attempts)
            × (final.status ≡ retrying)
            × (final.run_at ≡ finished + backoff (row.attempts + 1) * second)))

settle-EndsAs :
    (worker_id : String) (now finished : ℕ) (row : JobRecord) (outcome : Outcome)
    → EndsAs outcome finished row (settle (verdict_of outcome) finished (begin worker_id now row))
unfolding settle begin
settle-EndsAs worker_id now finished row (returns result) = (refl, refl, refl)
settle-EndsAs worker_id now finished row (gives_up message) = (refl, refl)
settle-EndsAs worker_id now finished row (fails message) =
    elim (Bool-cases (leb row.max_attempts (row.attempts + 1))) [
      | inl e ↦ rw e (refl, inl (ground arith, refl))
      | inr e ↦ rw e (refl, inr (ground arith, refl, refl))
    ]

-- What a settled job has of the job that the worker took up, and that it is not pending.
record HasSettled (job final : JobRecord) : Type 0 where
  same_id : final.id ≡ job.id
  same_row : overwrite final job ≡ final
  same_attempts : final.attempts ≡ job.attempts
  not_pending : is_pending final.status ≡ false

settle-HasSettled :
    (v : Verdict) (finished : ℕ) (job : JobRecord) → HasSettled job (settle v finished job)
unfolding settle
settle-HasSettled v finished job = elim (Option-cases v.error) [
  | inl e ↦
      rw e (record { same_id = refl; same_row = refl; same_attempts = refl; not_pending = refl })
  | inr (x, e) ↦ rw e (elim (Bool-cases (v.permanent || leb job.max_attempts job.attempts)) [
    | inl k ↦
        rw k (record { same_id = refl; same_row = refl; same_attempts = refl; not_pending = refl })
    | inr k ↦
        rw k (record { same_id = refl; same_row = refl; same_attempts = refl; not_pending = refl })
  ])
]

Queued-same :
    (now : ℕ) (row row' : JobRecord)
    → is_pending row.status ≡ false
    → Queued now row row'
    → row' ≡ row
Queued-same now row row' h unchanged = refl
Queued-same now row row' h (marked p) = absurd (let k = rw p at h in cc k)

module _ {Q W : Type 0} (b : Backend Q) where
  redispatch_keeps :
      (job row : JobRecord) (id : String) (now : ℕ) (s : Queue Q W)
      → get id s.jobs ≡ some row
      → is_pending row.status ≡ false
      → get id (redispatch b job now s).jobs ≡ some row
  unfolding redispatch
  redispatch_keeps job row id now s h p = elim (Bool-cases (is_retrying job.status)) [
    | inl e ↦
        rw (e, redispatch)
          (let (row', e', q) = dispatch_keeps b (job ∷ []) now s id row h in
            e' ∙ ap some (Queued-same now row row' p q))
    | inr e ↦ rw (e, redispatch) h
  ]

  conclude_settles :
      (v : Verdict) (id : String) (job : JobRecord) (finished : ℕ) (s : Queue Q W)
      → job.id ≡ id
      → get id s.jobs ≡ some job
      → get id (conclude b v id job finished s).1.jobs ≡ some (settle v finished job)
  unfolding conclude
  conclude_settles v id job finished s same h =
      let f = settle-HasSettled v finished job in
      let e : (settle v finished job).id ≡ id = f.same_id ∙ same in
      rw h (
        redispatch_keeps (settle v finished job) (settle v finished job) id finished
          (record s { jobs = update (settle v finished job) s.jobs })
          (ap (λ i. get i (update (settle v finished job) s.jobs)) (sym e)
            ∙ get-update_same (settle v finished job) s.jobs job (ap (λ i. get i s.jobs) e ∙ h)
            ∙ ap some f.same_row)
          f.not_pending)

  -- A job that a worker takes up, whose handler is registered and leaves the job's row alone, ends
  -- as the handler says: succeeded with the result, dead when the handler gives up for good or the
  -- attempts are used up, and otherwise waiting for another attempt after the back-off; one attempt
  -- more is counted.
  pub run_popped_settles :
      (handlers : Handlers Q W) (worker_id id : String) (now finished : ℕ) (s s' : Queue Q W)
      (row : JobRecord) (handler : Handler Q W) (outcome : Outcome)
      → get id s.jobs ≡ some row
      → is_handled row.status ≡ false
      → handlers row.kind ≡ some handler
      → handler row.payload
          (begin worker_id now row)
          (record s { jobs = update (begin worker_id now row) s.jobs })
        ≡ (outcome, s')
      → get id s'.jobs ≡ some (begin worker_id now row)
      → (final : JobRecord) × (get id (run_popped b handlers worker_id id now finished s).1.jobs
          ≡ some final)
        × (final.attempts ≡ row.attempts + 1)
        × EndsAs outcome finished row final
  unfolding run_popped call_handler begin
  run_popped_settles handlers worker_id id now finished s s' row handler outcome h waits known ran
        left =
      (
        settle (verdict_of outcome) finished (begin worker_id now row),
        rw (h, run_popped)
            (rw (waits, run_popped)
              (rw (known, call_handler)
                (rw ran (
                  conclude_settles (verdict_of outcome) id (begin worker_id now row) finished s'
                    (get_id id s.jobs row h) left)))),
        (settle-HasSettled (verdict_of outcome) finished (begin worker_id now row)).same_attempts,
        settle-EndsAs worker_id now finished row outcome,
      )
