-- ===== src/Jobs/Lifecycle.antt =====
-- What happens to one job: the records and decisions of `JobService`, app/workers/queue.py, that do
-- not touch the queue's transport. What `self._clock()` returns is an argument.
use Prim.Native.Nat.{zero}
use civiclens.Jobs.Table.{
  JobStatus, pending, queued, running, retrying, succeeded, dead, JobError, raised, JobRecord,
  Table, add_if_absent, update,
}
use civiclens.Prelude.{
  ℕ, zero, suc, ◌+◌, ◌*◌, String, Bool, true, false, ◌||◌, Option, none, some, leb, if◌then◌else◌,
  value_or,
}

abbrev pub second : ℕ
second = 1000000

-- What a handler does: it raises a `PermanentJobError`, another exception, or returns.
pub data Outcome : Type 0 where
  gives_up : String → Outcome
  fails : String → Outcome
  returns : Option String → Outcome

-- `error`, `permanent` and `result` after the `try` statement.
pub record Verdict : Type 0 where
  pub error : Option JobError
  pub permanent : Bool
  pub result : String

pub record RunResult : Type 0 where
  pub job_id : String
  pub kind : String
  pub status : JobStatus
  pub attempts : ℕ
  pub error : Option JobError

-- The `ValidationFailed` of `retry_dead`.
pub data RetryError : Type 0 where
  not_dead : RetryError

-- `status in ("pending", "retrying", "queued")`
unfoldable pub is_waiting : JobStatus → Bool
is_waiting pending = true
is_waiting retrying = true
is_waiting queued = true
is_waiting _ = false

-- `status in ("succeeded", "dead", "running")`
unfoldable pub is_handled : JobStatus → Bool
is_handled succeeded = true
is_handled dead = true
is_handled running = true
is_handled _ = false

abbrev pub is_pending : JobStatus → Bool
is_pending pending = true
is_pending _ = false

abbrev pub is_dead : JobStatus → Bool
is_dead dead = true
is_dead _ = false

abbrev pub is_retrying : JobStatus → Bool
is_retrying retrying = true
is_retrying _ = false

-- `BACKOFF_SECONDS[min(attempts - 1, len(BACKOFF_SECONDS) - 1)]`; the index -1 is the last one.
unfoldable pub backoff : ℕ → ℕ
backoff (suc zero) = 5
backoff (suc (suc zero)) = 30
backoff (suc (suc (suc zero))) = 120
backoff _ = 600

abbrev pub new_job : String → String → String → String → Option ℕ → ℕ → ℕ → JobRecord
new_job id kind payload idempotency_key run_at max_attempts now = record {
  id = id;
  kind = kind;
  payload = payload;
  idempotency_key = idempotency_key;
  status = pending;
  attempts = 0;
  max_attempts = max_attempts;
  run_at = value_or now run_at;
  created_at = now;
  updated_at = now;
  error = none;
  result = none;
  worker_id = none;
  started_at = none;
  finished_at = none;
}

unfoldable pub enqueue :
    String → String → String → String → Option ℕ → ℕ → ℕ → Table → (JobRecord × Bool) × Table
enqueue id kind payload idempotency_key run_at max_attempts now t =
    add_if_absent (new_job id kind payload idempotency_key run_at max_attempts now) t

-- `if fresh and fresh.status == "pending"`
unfoldable pub mark_queued : Option JobRecord → ℕ → Table → Table
mark_queued none now t = t
mark_queued (some fresh) now t =
    if is_pending fresh.status
    then update (record fresh { status = queued; updated_at = now }) t
    else t

abbrev pub verdict_of : Outcome → Verdict
verdict_of (gives_up message) = record {
  error = some (raised message);
  permanent = true;
  result = "{}";
}
verdict_of (fails message) = record {
  error = some (raised message);
  permanent = false;
  result = "{}";
}
verdict_of (returns result) = record {
  error = none;
  permanent = false;
  result = value_or "{}" result;
}

-- The job after the `if error is None` statement.
unfoldable pub settle : Verdict → ℕ → JobRecord → JobRecord
unfolding backoff
settle v finished job = elim v.error [
  | none ↦ record job {
    updated_at = finished;
    status = succeeded;
    result = some v.result;
    error = none;
    finished_at = some finished;
  }
  | some e ↦
      if v.permanent || leb job.max_attempts job.attempts
      then record job {
        updated_at = finished;
        status = dead;
        error = some e;
        finished_at = some finished;
      }
      else record job {
        updated_at = finished;
        status = retrying;
        error = some e;
        run_at = finished + backoff job.attempts * second;
        finished_at = none;
      }
]

-- The job as `run_once` takes it up.
unfoldable pub begin : String → ℕ → JobRecord → JobRecord
begin worker_id now job = record job {
  status = running;
  attempts = job.attempts + 1;
  worker_id = some worker_id;
  updated_at = now;
  started_at = some now;
}

-- A job that an administrator retries.
abbrev pub revived : ℕ → JobRecord → JobRecord
revived now job = record job {
  status = pending;
  attempts = 0;
  error = none;
  run_at = now;
  finished_at = none;
  updated_at = now;
}
