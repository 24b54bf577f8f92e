-- ===== src/Jobs/Service.antt =====
-- `JobService` of app/workers/queue.py. The backend, Redis, is a parameter: its operations act on
-- a state `Q` of its own and return nothing when it is unavailable. So are the handlers, which may
-- change everything. What `self._clock()` returns is an argument, one for each reading.
use civiclens.Jobs.Table.{no_handler, JobRecord, Table, get, update, list_orphans}
use civiclens.Jobs.Lifecycle.{
  second, Outcome, Verdict, RunResult, RetryError, not_dead, is_waiting, is_handled, is_dead,
  is_retrying, mark_queued, verdict_of, settle, begin, revived,
}
use civiclens.Prelude.{
  ℕ, suc, ◌-◌, ◌*◌, String, true, false, Option, none, some, List, [], ◌∷◌, if◌then◌else◌, value_or,
  Result, ok, err,
}

-- `QueueBackend`: `none` stands for `DependencyUnavailable`.
pub record Backend (Q : Type 0) : Type 0 where
  pub push : String → ℕ → Q → Option Q
  pub pop_due : ℕ → Q → Option (Option String × Q)
  pub heartbeat : String → ℕ → Q → Option Q

pub record Queue (Q W : Type 0) : Type 0 where
  pub jobs : Table
  pub backend : Q
  pub world : W

abbrev pub Handler : Type 0 → Type 0 → Type 0
Handler Q W = String → JobRecord → Queue Q W → Outcome × Queue Q W

abbrev pub Handlers : Type 0 → Type 0 → Type 0
Handlers Q W = String → Option (Handler Q W)

module _ {Q W : Type 0} (b : Backend Q) where
  -- Whether the loop goes on after a job, with what.
  unfoldable pub dispatch_one : JobRecord → ℕ → Queue Q W → Option (Queue Q W)
  unfolding mark_queued
  dispatch_one job now s = elim (b.push job.id job.run_at s.backend) [
    | none ↦ none
    | some q ↦ some (record s { backend = q; jobs = mark_queued (get job.id s.jobs) now s.jobs })
  ]

  unfoldable pub dispatch : List JobRecord → ℕ → Queue Q W → ℕ × Queue Q W
  unfolding dispatch_one is_waiting
  dispatch [] now s = (0, s)
  dispatch (job ∷ jobs) now s = elim (is_waiting job.status) [
    | false ↦ dispatch jobs now s
    | true ↦ elim (dispatch_one job now s) [
      | none ↦ (0, s)
      | some s' ↦ let (pushed, s'') = dispatch jobs now s' in (suc pushed, s'')
    ]
  ]

  unfoldable pub requeue_orphans : ℕ → ℕ → Queue Q W → ℕ × Queue Q W
  unfolding dispatch
  requeue_orphans older_than_seconds now s =
      dispatch (list_orphans (now - older_than_seconds * second) s.jobs) now s

  unfoldable pub call_handler : Option (Handler Q W) → JobRecord → Queue Q W → Verdict × Queue Q W
  call_handler none job s =
      (record { error = some (no_handler job.kind); permanent = true; result = "{}" }, s)
  call_handler (some handler) job s =
      let (outcome, s') = handler job.payload job s in (verdict_of outcome, s')

  unfoldable pub redispatch : JobRecord → ℕ → Queue Q W → Queue Q W
  unfolding dispatch
  redispatch job now s =
      let (_, s') = dispatch (job ∷ []) now s in if is_retrying job.status then s' else s

  -- From the second transaction of `run_once` on.
  unfoldable pub conclude : Verdict → String → JobRecord → ℕ → Queue Q W → RunResult × Queue Q W
  unfolding settle redispatch
  conclude v job_id job finished s =
      let job' = settle v finished (value_or job (get job_id s.jobs)) in
      (
        record {
          job_id = job'.id;
          kind = job'.kind;
          status = job'.status;
          attempts = job'.attempts;
          error = v.error;
        },
        redispatch job' finished (record s { jobs = update job' s.jobs }),
      )

  -- `run_once` on a popped id.
  unfoldable pub run_popped :
      Handlers Q W → String → String → ℕ → ℕ → Queue Q W → Option RunResult × Queue Q W
  unfolding conclude call_handler begin
  run_popped handlers worker_id job_id now finished s = elim (get job_id s.jobs) [
    | none ↦ (none, s)
    | some row ↦ elim (is_handled row.status) [
      | true ↦ (none, s)
      | false ↦
          let job = begin worker_id now row in
          let (v, s') =
            call_handler (handlers job.kind) job (record s { jobs = update job s.jobs }) in
          let (r, s'') = conclude v job_id job finished s' in (some r, s'')
    ]
  ]

  unfoldable pub run_once : Handlers Q W → String → ℕ → ℕ → Queue Q W → Option RunResult × Queue Q W
  unfolding run_popped
  run_once handlers worker_id now finished s = elim (b.heartbeat worker_id now s.backend) [
    | none ↦ (none, s)
    | some q ↦ elim (b.pop_due now q) [
      | none ↦ (none, record s { backend = q })
      | some (none, q') ↦ (none, record s { backend = q' })
      | some (some job_id, q') ↦
          run_popped handlers worker_id job_id now finished (record s { backend = q' })
    ]
  ]

  -- The readings of the clock in the rounds of `drain`: for each, the first and the second one.
  unfoldable pub drain :
      Handlers Q W → String → List (ℕ × ℕ) → Queue Q W → List RunResult × Queue Q W
  unfolding run_once
  drain handlers worker_id [] s = ([], s)
  drain handlers worker_id ((now, finished) ∷ clock) s =
      let (r, s') = run_once handlers worker_id now finished s in
      elim r [
        | none ↦ ([], s')
        | some result ↦
            let (results, s'') = drain handlers worker_id clock s' in (result ∷ results, s'')
      ]

  unfoldable pub retry_dead : String → ℕ → Queue Q W → Result RetryError JobRecord × Queue Q W
  unfolding dispatch
  retry_dead job_id now s = elim (get job_id s.jobs) [
    | none ↦ (err not_dead, s)
    | some job ↦ elim (is_dead job.status) [
      | false ↦ (err not_dead, s)
      | true ↦
          let (_, s') =
            dispatch (revived now job ∷ []) now
              (record s { jobs = update (revived now job) s.jobs }) in
          (ok (revived now job), s')
    ]
  ]
