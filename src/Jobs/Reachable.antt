-- ===== src/Jobs/Reachable.antt =====
-- The queues that the operations lead to, in any order, with the jobs whose handlers were called, and
-- what holds in all of them.
use civiclens.Jobs.Table.{JobRecord, get}
use civiclens.Jobs.Lifecycle.{enqueue, is_waiting}
use civiclens.Jobs.Service.{
  Backend, Queue, Handlers, dispatch, run_once, requeue_orphans, retry_dead,
}
use civiclens.Jobs.Attempts.{Counted}
use civiclens.Jobs.Growth.{enqueue-Grows, dispatch-Grows, requeue_orphans-Grows}
use civiclens.Jobs.Runs.{run_once-HasRun}
use civiclens.Jobs.Backed.{
  count_runs, ran, retried, Backed, Backed-Grows, ran-Backed, retry_dead-Backed,
}
use civiclens.Jobs.Counts.{enqueue-Counted, KeepsCounts}
use civiclens.Jobs.Preserved.{
  dispatch-Counted, retry_dead-Counted, requeue_orphans-Counted, run_once-Counted,
}
use civiclens.Prelude.{
  ℕ, ◌≤◌, ◌<◌, String, ◌≡◌, refl, sym, ap, ◌∙◌, inl, inr, true, Option, some, List, [], arith,
  some_injective,
}

module _ {Q W : Type 0} (b : Backend Q) where
  -- What the operations make of an empty table, in any order and with any readings of the clock, and
  -- the jobs that were run meanwhile; a retry by hand begins the runs of its job anew.
  pub data Reachable (handlers : Handlers Q W) : Queue Q W → List String → Type 0 where
    start : (q : Q) (w : W) → Reachable handlers (record { jobs = []; backend = q; world = w }) []
    enqueues :
        {s : Queue Q W} {log : List String} (id kind payload key : String) (run_at : Option ℕ)
        (max_attempts now : ℕ)
        → 0 < max_attempts
        → Reachable handlers s log
        → Reachable handlers
            (record s { jobs = (enqueue id kind payload key run_at max_attempts now s.jobs).1 })
            log
    dispatches :
        {s : Queue Q W} {log : List String} (jobs : List JobRecord) (now : ℕ)
        → Reachable handlers s log
        → Reachable handlers (dispatch b jobs now s).1 log
    requeues :
        {s : Queue Q W} {log : List String} (older_than_seconds now : ℕ)
        → Reachable handlers s log
        → Reachable handlers (requeue_orphans b older_than_seconds now s).1 log
    runs :
        {s : Queue Q W} {log : List String} (worker_id : String) (now finished : ℕ)
        → Reachable handlers s log
        → Reachable handlers
            (run_once b handlers worker_id now finished s).1
            (ran (run_once b handlers worker_id now finished s).0 log)
    retries :
        {s : Queue Q W} {log : List String} (id : String) (now : ℕ)
        → Reachable handlers s log
        → Reachable handlers (retry_dead b id now s).1 (retried (retry_dead b id now s).0 id log)

  Reachable-Counted :
      (handlers : Handlers Q W) (s : Queue Q W) (log : List String)
      → KeepsCounts handlers
      → Reachable handlers s log
      → Counted s.jobs
  unfolding get
  Reachable-Counted handlers s log keeps (start q w) = λ id row h. absurd (cc h)
  Reachable-Counted handlers s log keeps (enqueues id kind payload key run_at max now pos r) =
      enqueue-Counted id kind payload key run_at max now _ pos
        (Reachable-Counted handlers _ _ keeps r)
  Reachable-Counted handlers s log keeps (dispatches jobs now r) =
      dispatch-Counted b jobs now _ (Reachable-Counted handlers _ _ keeps r)
  Reachable-Counted handlers s log keeps (requeues older now r) =
      requeue_orphans-Counted b older now _ (Reachable-Counted handlers _ _ keeps r)
  Reachable-Counted handlers s log keeps (runs worker now finished r) =
      run_once-Counted b handlers worker now finished _ keeps
        (Reachable-Counted handlers _ _ keeps r)
  Reachable-Counted handlers s log keeps (retries id now r) =
      retry_dead-Counted b id now _ (Reachable-Counted handlers _ _ keeps r)

  Reachable-Backed :
      (handlers : Handlers Q W) (s : Queue Q W) (log : List String)
      → KeepsCounts handlers
      → Reachable handlers s log
      → Backed log s.jobs
  Reachable-Backed handlers s log keeps (start q w) = λ id. inl refl
  Reachable-Backed handlers s log keeps (enqueues id kind payload key run_at max now pos r) =
      Backed-Grows log _ _ (Reachable-Backed handlers _ _ keeps r)
        (enqueue-Grows id kind payload key run_at max now _)
  Reachable-Backed handlers s log keeps (dispatches jobs now r) =
      Backed-Grows log _ _ (Reachable-Backed handlers _ _ keeps r) (dispatch-Grows b jobs now _)
  Reachable-Backed handlers s log keeps (requeues older now r) =
      Backed-Grows log _ _ (Reachable-Backed handlers _ _ keeps r)
        (requeue_orphans-Grows b older now _)
  Reachable-Backed handlers s log keeps (runs worker now finished r) =
      ran-Backed _ _ _ _ (Reachable-Backed handlers _ _ keeps r) (
        run_once-HasRun b handlers worker now finished _ keeps
          (Reachable-Counted handlers _ _ keeps r))
  Reachable-Backed handlers s log keeps (retries id now r) =
      retry_dead-Backed b id now _ _ (Reachable-Backed handlers _ _ keeps r)

  -- In every queue that enqueuing, dispatching, running and retrying lead to, in any order, the
  -- runs of a job since it was last retried by hand are no more than the attempts that it counts,
  -- these are no more than it may have, and a job that waits to be run has an attempt left. The
  -- handlers may do anything to the queue that keeps this, loses no job and lowers no count.
  pub attempts_bounded :
      (handlers : Handlers Q W) (s : Queue Q W) (log : List String) (id : String) (row : JobRecord)
      → KeepsCounts handlers
      → Reachable handlers s log
      → get id s.jobs ≡ some row
      → (count_runs id log ≤ row.attempts)
        × (row.attempts ≤ row.max_attempts)
        × (is_waiting row.status ≡ true → row.attempts < row.max_attempts)
  attempts_bounded handlers s log id row keeps r h =
      let w = Reachable-Counted handlers s log keeps r id row h in
      let counted : count_runs id log ≤ row.attempts =
        elim (Reachable-Backed handlers s log keeps r id) [
          | inl z ↦ omega arith
          | inr m ↦
              let same : m.0 ≡ row = some_injective (sym m.1 ∙ h) in
              omega (arith, m.2, ap (λ x. x.attempts) same)
        ] in
      (counted, w.within, w.left)
