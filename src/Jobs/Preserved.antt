-- ===== src/Jobs/Preserved.antt =====
-- The count of attempts through each operation of the queue.
use civiclens.Jobs.Rows.{get_id}
use civiclens.Jobs.Table.{Table, JobRecord, get, update, list_orphans}
use civiclens.Jobs.Lifecycle.{
  Verdict, mark_queued, is_waiting, is_retrying, settle, is_handled, begin, is_dead, revived,
  second,
}
use civiclens.Jobs.Service.{
  Backend, Queue, Handlers, Handler, dispatch, dispatch_one, conclude, redispatch, run_popped,
  run_once, requeue_orphans, retry_dead, call_handler,
}
use civiclens.Jobs.Attempts.{
  WellCounted, Counted, mark_queued-Counted, update-Counted, overwrite-WellCounted,
  begin-WellCounted,
}
use civiclens.Jobs.Counts.{update_settled-Counted, KeepsCounts}
use civiclens.Prelude.{
  ℕ, ◌-◌, ◌*◌, String, ◌≡◌, refl, sym, ap, ◌∙◌, inl, inr, false, Option, none, some, List, [], ◌∷◌,
  arith, Bool-cases, Option-cases, value_or, some_injective,
}

pub taken_up-Counted :
    (worker_id id : String) (now : ℕ) (t : Table) (row : JobRecord)
    → Counted t
    → get id t ≡ some row
    → is_handled row.status ≡ false
    → Counted (update (begin worker_id now row) t)
unfolding begin
taken_up-Counted worker_id id now t row c e k =
    update-Counted (begin worker_id now row) t c (λ old h.
      let n : some row ≡ some old = sym e ∙ ap (λ x. get x t) (sym (get_id id t row e)) ∙ h in
      overwrite-WellCounted (begin worker_id now row) old
        (begin-WellCounted worker_id now row (c id row e) k)
        (ap (λ r. r.max_attempts) (some_injective n)))

module _ {Q W : Type 0} (b : Backend Q) where
  pub dispatch-Counted :
      (jobs : List JobRecord) (now : ℕ) (s : Queue Q W)
      → Counted s.jobs
      → Counted (dispatch b jobs now s).1.jobs
  unfolding dispatch dispatch_one
  dispatch-Counted [] now s c = c
  dispatch-Counted (job ∷ jobs) now s c = elim (Bool-cases (is_waiting job.status)) [
    | inr e ↦ rw (e, dispatch) (dispatch-Counted jobs now s c)
    | inl e ↦
        rw (e, dispatch)
          (elim (Option-cases (b.push job.id job.run_at s.backend)) [
            | inl down ↦ rw (down, dispatch_one) c
            | inr (q, up) ↦
                rw (up, dispatch_one)
                  (dispatch-Counted jobs now
                    (record s { backend = q; jobs = mark_queued (get job.id s.jobs) now s.jobs })
                    (mark_queued-Counted job.id now s.jobs c))
          ])
  ]

  pub redispatch-Counted :
      (job : JobRecord) (now : ℕ) (s : Queue Q W)
      → Counted s.jobs
      → Counted (redispatch b job now s).jobs
  unfolding redispatch
  redispatch-Counted job now s c = elim (Bool-cases (is_retrying job.status)) [
    | inl e ↦ rw (e, redispatch) (dispatch-Counted (job ∷ []) now s c)
    | inr e ↦ rw (e, redispatch) c
  ]

  pub conclude-Counted :
      (v : Verdict) (id : String) (job : JobRecord) (finished : ℕ) (s : Queue Q W)
      → WellCounted job
      → job.id ≡ id
      → Counted s.jobs
      → Counted (conclude b v id job finished s).1.jobs
  unfolding conclude
  conclude-Counted v id job finished s w same c =
      redispatch-Counted (settle v finished (value_or job (get id s.jobs))) finished
        (record s { jobs = update (settle v finished (value_or job (get id s.jobs))) s.jobs })
        (elim (Option-cases (get id s.jobs)) [
          | inl e ↦ rw e (
              update_settled-Counted v finished job s.jobs c w (λ old h.
                let n : none ≡ some old = sym e ∙ ap (λ x. get x s.jobs) (sym same) ∙ h in
                absurd (cc n)))
          | inr (row, e) ↦ rw e (
              update_settled-Counted v finished row s.jobs c (c id row e) (λ old h.
                let n : some row ≡ some old =
                  sym e ∙ ap (λ x. get x s.jobs) (sym (get_id id s.jobs row e)) ∙ h in
                let same_row : row ≡ old = cc n in ap (λ r. r.max_attempts) same_row))
        ])

  pub call_handler-Counted :
      (handlers : Handlers Q W) (o : Option (Handler Q W)) (job : JobRecord) (s : Queue Q W)
      → KeepsCounts handlers
      → handlers job.kind ≡ o
      → Counted s.jobs
      → Counted (call_handler b o job s).1.jobs
  unfolding call_handler KeepsCounts
  call_handler-Counted handlers none job s keeps e c = c
  call_handler-Counted handlers (some handler) job s keeps e c =
      (keeps job.kind handler e job.payload job s c).0

  pub run_popped-Counted :
      (handlers : Handlers Q W) (worker_id id : String) (now finished : ℕ) (s : Queue Q W)
      → KeepsCounts handlers
      → Counted s.jobs
      → Counted (run_popped b handlers worker_id id now finished s).1.jobs
  unfolding run_popped begin
  run_popped-Counted handlers worker_id id now finished s keeps c =
      elim (Option-cases (get id s.jobs)) [
        | inl e ↦ rw (e, run_popped) c
        | inr (row, e) ↦
            rw (e, run_popped)
              (elim (Bool-cases (is_handled row.status)) [
                | inl k ↦ rw (k, run_popped) c
                | inr k ↦
                    rw (k, run_popped)
                      (let job = begin worker_id now row in
                        let w = begin-WellCounted worker_id now row (c id row e) k in
                        let c' = taken_up-Counted worker_id id now s.jobs row c e k in
                        let start = record s { jobs = update job s.jobs } in
                        let after = call_handler b (handlers job.kind) job start in
                        conclude-Counted after.0 id job finished after.1 w (get_id id s.jobs row e)
                          (call_handler-Counted handlers (handlers job.kind) job start keeps refl
                            c'))
              ])
      ]

  pub run_once-Counted :
      (handlers : Handlers Q W) (worker_id : String) (now finished : ℕ) (s : Queue Q W)
      → KeepsCounts handlers
      → Counted s.jobs
      → Counted (run_once b handlers worker_id now finished s).1.jobs
  unfolding run_once
  run_once-Counted handlers worker_id now finished s keeps c =
      elim (Option-cases (b.heartbeat worker_id now s.backend)) [
        | inl e ↦ rw (e, run_once) c
        | inr (q, e) ↦
            rw (e, run_once)
              (elim (Option-cases (b.pop_due now q)) [
                | inl k ↦ rw (k, run_once) c
                | inr ((none, q'), k) ↦ rw (k, run_once) c
                | inr ((some id, q'), k) ↦
                    rw (k, run_once)
                      (run_popped-Counted handlers worker_id id now finished
                        (record s { backend = q' }) keeps c)
              ])
      ]

  pub retry_dead-Counted :
      (id : String) (now : ℕ) (s : Queue Q W)
      → Counted s.jobs
      → Counted (retry_dead b id now s).1.jobs
  unfolding retry_dead
  retry_dead-Counted id now s c = elim (Option-cases (get id s.jobs)) [
    | inl e ↦ rw (e, retry_dead) c
    | inr (row, e) ↦
        rw (e, retry_dead)
          (elim (Bool-cases (is_dead row.status)) [
            | inr k ↦ rw (k, retry_dead) c
            | inl k ↦
                rw (k, retry_dead)
                  (let job = revived now row in
                    let w = c id row e in
                    dispatch-Counted (job ∷ []) now (record s { jobs = update job s.jobs })
                      (update-Counted job s.jobs c (λ old h.
                        let n : some row ≡ some old =
                          sym e ∙ ap (λ x. get x s.jobs) (sym (get_id id s.jobs row e)) ∙ h in
                        let same : row ≡ old = cc n in
                        overwrite-WellCounted job old
                          (record {
                            positive = w.positive;
                            within = omega arith;
                            left = λ _. w.positive;
                          })
                          (ap (λ r. r.max_attempts) same))))
          ])
  ]

  pub requeue_orphans-Counted :
      (older now : ℕ) (s : Queue Q W)
      → Counted s.jobs
      → Counted (requeue_orphans b older now s).1.jobs
  unfolding requeue_orphans
  requeue_orphans-Counted older now s c =
      dispatch-Counted (list_orphans (now - older * second) s.jobs) now s c
