-- ===== src/Jobs/Runs.antt =====
-- How often a job was run: each run of a handler by `run_once` of app/workers/queue.py is counted in
-- the attempts of its job.
use civiclens.Jobs.Preserved.{taken_up-Counted}
use civiclens.Jobs.Attempts.{Counted}
use civiclens.Jobs.Rows.{get_id, get-update_same}
use civiclens.Jobs.Table.{JobRecord, Table, get, update, overwrite}
use civiclens.Jobs.Lifecycle.{Verdict, RunResult, settle, begin, is_handled}
use civiclens.Jobs.Service.{
  Backend, Queue, conclude, call_handler, run_popped, Handlers, Handler, run_once,
}
use civiclens.Jobs.Counts.{max_attempts-settle, KeepsCounts}
use civiclens.Jobs.Growth.{HasGrown, Grows, Grows-refl, Grows-trans, update-Grows, redispatch-Grows}
use civiclens.Prelude.{
  ℕ, suc, String, ◌≡◌, refl, sym, ap, ◌∙◌, inl, inr, ◌||◌, Option, none, some, arith, leb,
  Bool-cases, Option-cases, some_injective,
}

-- What a run does: no job is lost, no count falls, and the job that was run counts one attempt more.
pub record HasRun (t t' : Table) (o : Option RunResult) : Type 0 where
  pub grown : Grows t t'
  pub counted :
      (r : RunResult)
      → o ≡ some r
      → (row : JobRecord) × (get r.job_id t ≡ some row) × HasGrown r.job_id (suc row.attempts) t'

nothing_run : (t : Table) → HasRun t t none
nothing_run t = record { grown = Grows-refl t; counted = λ r e. absurd (cc e) }

attempts-settle :
    (v : Verdict) (finished : ℕ) (row : JobRecord) → (settle v finished row).attempts ≡ row.attempts
unfolding settle
attempts-settle v finished row = elim (Option-cases v.error) [
  | inl e ↦ rw e refl
  | inr x ↦ elim (Bool-cases (v.permanent || leb row.max_attempts row.attempts)) [
    | inl k ↦ rw (x.1, k) refl
    | inr k ↦ rw (x.1, k) refl
  ]
]

module _ {Q W : Type 0} (b : Backend Q) where
  -- The end of a run, when the job has a row
  conclude-Grows :
      (v : Verdict) (id : String) (job row : JobRecord) (finished : ℕ) (s : Queue Q W)
      → get id s.jobs ≡ some row
      → ((conclude b v id job finished s).0.job_id ≡ id)
        × Grows s.jobs (conclude b v id job finished s).1.jobs
  unfolding conclude
  conclude-Grows v id job row finished s h =
      let j = settle v finished row in
      let own : row.id ≡ id = get_id id s.jobs row h in
      let named : j.id ≡ id = (max_attempts-settle v finished row).1 ∙ own in
      rw h (
        named,
        Grows-trans s.jobs (update j s.jobs) _
            (update-Grows j s.jobs (λ old k.
              let same : old ≡ row = some_injective (sym k ∙ ap (λ x. get x s.jobs) named ∙ h) in
              omega (arith, ap (λ r. r.attempts) same, attempts-settle v finished row)))
            (redispatch-Grows b j finished (record s { jobs = update j s.jobs })),
      )

  call_handler-Grows :
      (handlers : Handlers Q W) (job : JobRecord) (s : Queue Q W)
      → KeepsCounts handlers
      → Counted s.jobs
      → (o : Option (Handler Q W)) → handlers job.kind ≡ o
      → Grows s.jobs (call_handler b o job s).1.jobs
  unfolding call_handler KeepsCounts
  call_handler-Grows handlers job s keeps c none e = Grows-refl s.jobs
  call_handler-Grows handlers job s keeps c (some handler) e =
      (keeps job.kind handler e job.payload job s c).1

  run_popped-HasRun :
      (handlers : Handlers Q W) (worker_id id : String) (now finished : ℕ) (s : Queue Q W)
      → KeepsCounts handlers
      → Counted s.jobs
      → HasRun s.jobs
          (run_popped b handlers worker_id id now finished s).1.jobs
          (run_popped b handlers worker_id id now finished s).0
  unfolding run_popped begin
  run_popped-HasRun handlers worker_id id now finished s keeps c =
      elim (Option-cases (get id s.jobs)) [
        | inl e ↦ rw (e, run_popped) (nothing_run s.jobs)
        | inr (row, e) ↦ elim (Bool-cases (is_handled row.status)) [
          | inl k ↦ rw (e, run_popped) (rw (k, run_popped) (nothing_run s.jobs))
          | inr k ↦
              let job = begin worker_id now row in
              let start = record s { jobs = update job s.jobs } in
              let after = call_handler b (handlers job.kind) job start in
              let own : row.id ≡ id = get_id id s.jobs row e in
              let taken : Grows s.jobs (update job s.jobs) = update-Grows job s.jobs (λ old h.
                let same : old ≡ row = some_injective (sym h ∙ ap (λ x. get x s.jobs) own ∙ e) in
                omega (arith, ap (λ r. r.attempts) same)) in
              let begun : get id (update job s.jobs) ≡ some (overwrite job row) =
                ap (λ x. get x (update job s.jobs)) (sym own)
                ∙ get-update_same job s.jobs row (ap (λ x. get x s.jobs) own ∙ e) in
              let handled : Grows (update job s.jobs) after.1.jobs =
                call_handler-Grows handlers job start keeps
                  (taken_up-Counted worker_id id now s.jobs row c e k) (handlers job.kind) refl in
              let held = handled id (overwrite job row) begun in
              let done = conclude-Grows after.0 id job held.0 finished after.1 held.1 in
              let last = done.1 id held.0 held.1 in
              rw (e, run_popped)
                (rw (k, run_popped)
                  (record {
                    grown =
                        Grows-trans s.jobs (update job s.jobs) _ taken
                          (Grows-trans (update job s.jobs) after.1.jobs _ handled done.1);
                    counted = λ r eq.
                        let named : id ≡ r.job_id =
                          sym done.0 ∙ ap (λ x. x.job_id) (some_injective eq) in
                        (
                          row,
                          ap (λ x. get x s.jobs) (sym named) ∙ e,
                          (
                            last.0,
                            ap (λ x. get x (conclude b after.0 id job finished after.1).1.jobs)
                                  (sym named)
                                ∙ last.1,
                            omega (arith, last.2, held.2),
                          ),
                        );
                  }))
        ]
      ]

  pub run_once-HasRun :
      (handlers : Handlers Q W) (worker_id : String) (now finished : ℕ) (s : Queue Q W)
      → KeepsCounts handlers
      → Counted s.jobs
      → HasRun s.jobs
          (run_once b handlers worker_id now finished s).1.jobs
          (run_once b handlers worker_id now finished s).0
  unfolding run_once
  run_once-HasRun handlers worker_id now finished s keeps c =
      elim (Option-cases (b.heartbeat worker_id now s.backend)) [
        | inl e ↦ rw (e, run_once) (nothing_run s.jobs)
        | inr (q, e) ↦
            rw (e, run_once)
              (elim (Option-cases (b.pop_due now q)) [
                | inl k ↦ rw (k, run_once) (nothing_run s.jobs)
                | inr ((none, q'), k) ↦ rw (k, run_once) (nothing_run s.jobs)
                | inr ((some id, q'), k) ↦
                    rw (k, run_once)
                      (run_popped-HasRun handlers worker_id id now finished
                        (record s { backend = q' }) keeps c)
              ])
      ]
