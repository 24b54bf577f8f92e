-- ===== src/Jobs/Tests.antt =====
-- Concrete jobs, with a list of identifiers as the backend.
use civiclens.Jobs.Table.{JobRecord, get, update, retrying, raised, add_if_absent}
use civiclens.Jobs.Lifecycle.{enqueue, begin, new_job, fails, is_handled, is_waiting, second}
use civiclens.Jobs.Service.{Backend, Queue, Handlers, Handler, dispatch, run_popped, run_once}
use civiclens.Jobs.Idempotency.{enqueue_again, count_key}
use civiclens.Jobs.Delivery.{dispatch_keeps, KeepsRows, run_popped_settles, EndsAs}
use civiclens.Jobs.Counts.{KeepsCounts}
use civiclens.Jobs.Growth.{Grows-refl}
use civiclens.Jobs.Backed.{count_runs}
use civiclens.Jobs.Reachable.{attempts_bounded, runs, dispatches, enqueues}
use civiclens.Prelude.{
  ◌+◌, ◌*◌, ◌≤◌, ◌<◌, String, ◌≡◌, refl, sym, true, false, Option, none, some, List, [], ◌∷◌, ◌++◌,
  arith,
}

abbrev pop_first : List String → Option String × List String
pop_first [] = (none, [])
pop_first (id ∷ ids) = (some id, ids)

abbrev ids : Backend (List String)
ids = record {
  push = λ id run_at q. some (q ++ id ∷ []);
  pop_due = λ now q. some (pop_first q);
  heartbeat = λ worker_id now q. some q;
}

abbrev email : JobRecord
email = new_job "j1" "notification.email" "{}" "email:n1" none 3 100

abbrev smtp_down : Handler (List String) (Unit {0})
smtp_down payload job s = (fails "OSError", s)

-- Every kind of job has the same handler.
handlers : Handlers (List String) (Unit {0})
handlers kind = some smtp_down

abbrev before : Queue (List String) (Unit {0})
before = record { jobs = email ∷ []; backend = []; world = tt }

abbrev enqueued : Queue (List String) (Unit {0})
enqueued = record {
  jobs = (enqueue "j1" "notification.email" "{}" "email:n1" none 3 100 []).1;
  backend = [];
  world = tt;
}

enqueue_again_example :
    enqueue "j2" "other" "{}" "email:n1" none 5 200
      (enqueue "j1" "notification.email" "{}" "email:n1" none 3 100 []).1
    ≡ (
      ((enqueue "j1" "notification.email" "{}" "email:n1" none 3 100 []).0.0, false),
      (enqueue "j1" "notification.email" "{}" "email:n1" none 3 100 []).1,
    )
enqueue_again_example =
    enqueue_again "j1" "j2" "notification.email" "other" "{}" "{}" "email:n1" none none 3 5 100 200
      []

no_rows : (k : String) → count_key k [] ≤ 1
unfolding count_key
no_rows k = omega arith

dispatch_keeps_example : KeepsRows 100 (email ∷ []) (dispatch ids (email ∷ []) 100 before).1.jobs
dispatch_keeps_example = dispatch_keeps ids (email ∷ []) 100 before

run_popped_settles_example :
    (final : JobRecord) × (get "j1" (run_popped ids handlers "w" "j1" 200 300 before).1.jobs
      ≡ some final)
    × (final.attempts ≡ 1)
    × EndsAs (fails "OSError") 300 email final
unfolding get begin update is_handled handlers
run_popped_settles_example =
    run_popped_settles ids handlers "w" "j1" 200 300 before
      (record before { jobs = update (begin "w" 200 email) (email ∷ []) }) email smtp_down
      (fails "OSError") refl refl refl refl refl

handlers-KeepsCounts : KeepsCounts handlers
unfolding KeepsCounts handlers
handlers-KeepsCounts kind handler e payload job s c =
    let same : smtp_down ≡ handler = cc e in rw (sym same) (c, Grows-refl s.jobs)

abbrev failed : JobRecord
failed = record email {
  status = retrying;
  attempts = 1;
  run_at = 300 + 5 * second;
  updated_at = 300;
  error = some (raised "OSError");
  worker_id = some "w";
  started_at = some 200;
}

abbrev after : Queue (List String) (Unit {0})
after = (run_once ids handlers "w" 200 300 (dispatch ids (email ∷ []) 100 enqueued).1).1

failed-after : get "j1" after.jobs ≡ some failed
unfolding get run_once enqueue add_if_absent update is_handled handlers
failed-after = refl

attempts_bounded_example :
    (count_runs "j1" ("j1" ∷ []) ≤ failed.attempts)
    × (failed.attempts ≤ failed.max_attempts)
    × (is_waiting failed.status ≡ true → failed.attempts < failed.max_attempts)
unfolding get run_once enqueue add_if_absent update is_handled handlers
attempts_bounded_example =
    attempts_bounded ids handlers after ("j1" ∷ []) "j1" failed handlers-KeepsCounts
      (runs "w" 200 300 (
        dispatches (email ∷ []) 100 (
          enqueues "j1" "notification.email" "{}" "email:n1" none 3 100 (omega arith)
            (civiclens.Jobs.Reachable.start [] tt))))
      failed-after
