-- ===== src/Jobs/Table.antt =====
-- The table of jobs: JobRecord of app/services/ports.py and SqlJobRepository of
-- app/db/repositories/ops.py. A table is the list of its rows; a transaction that commits is a
-- function from table to table. JSON values are texts; times are in microseconds.
use civiclens.Prelude.{
  ℕ, List, Bool, ◌&&◌, String, none, find?, Option, ◌∷◌, take, false, filter, if◌then◌else◌, [],
  str_eq, some, true, leb, ◌++◌,
}

pub data JobStatus : Type 0 where
  pending queued running retrying succeeded dead : JobStatus

-- What the column `error` says.
pub data JobError : Type 0 where
  no_handler : String → JobError
  raised : String → JobError

pub record JobRecord : Type 0 where
  pub id : String
  pub kind : String
  pub payload : String
  pub idempotency_key : String
  pub status : JobStatus
  pub attempts : ℕ
  pub max_attempts : ℕ
  pub run_at : ℕ
  pub created_at : ℕ
  pub updated_at : ℕ
  pub error : Option JobError
  pub result : Option String
  pub worker_id : Option String
  pub started_at : Option ℕ
  pub finished_at : Option ℕ

abbrev pub Table : Type 0
Table = List JobRecord

abbrev pub has_key : String → JobRecord → Bool
has_key key j = str_eq j.idempotency_key key

abbrev pub has_id : String → JobRecord → Bool
has_id id j = str_eq j.id id

-- The columns that the insertion names; the others are empty.
abbrev pub inserted : JobRecord → JobRecord
inserted j = record j {
  error = none;
  result = none;
  worker_id = none;
  started_at = none;
  finished_at = none;
}

abbrev found_or_new : JobRecord → Option JobRecord → Table → (JobRecord × Bool) × Table
found_or_new j (some row) t = ((row, false), t)
found_or_new j none t = ((inserted j, true), t ++ inserted j ∷ [])

-- Insert unless the key is there, then read the row with the key.
unfoldable pub add_if_absent : JobRecord → Table → (JobRecord × Bool) × Table
add_if_absent j t = found_or_new j (find? (has_key j.idempotency_key) t) t

unfoldable pub get : String → Table → Option JobRecord
get id t = find? (has_id id) t

-- The columns that `update` writes into a row.
abbrev pub overwrite : JobRecord → JobRecord → JobRecord
overwrite j row = record row {
  status = j.status;
  attempts = j.attempts;
  run_at = j.run_at;
  updated_at = j.updated_at;
  error = j.error;
  result = j.result;
  worker_id = j.worker_id;
  started_at = j.started_at;
  finished_at = j.finished_at;
}

unfoldable pub update : JobRecord → Table → Table
update j [] = []
update j (row ∷ t) = (if has_id j.id row then overwrite j row else row) ∷ update j t

-- The condition of `list_orphans`.
unfoldable pub is_stuck : ℕ → JobRecord → Bool
is_stuck older_than j = stuck_by j.status (leb j.run_at older_than) (leb j.updated_at older_than)
  where
    stuck_by : JobStatus → Bool → Bool → Bool
    stuck_by pending due old = old
    stuck_by queued due old = due && old
    stuck_by retrying due old = due && old
    stuck_by _ due old = false

insert_by_run_at : JobRecord → List JobRecord → List JobRecord
insert_by_run_at j [] = j ∷ []
insert_by_run_at j (k ∷ ks) =
    let rest = insert_by_run_at j ks in if leb j.run_at k.run_at then j ∷ k ∷ ks else k ∷ rest

order_by_run_at : List JobRecord → List JobRecord
unfolding insert_by_run_at
order_by_run_at [] = []
order_by_run_at (j ∷ js) = insert_by_run_at j (order_by_run_at js)

unfoldable pub list_orphans : ℕ → Table → List JobRecord
unfolding is_stuck order_by_run_at
list_orphans older_than t = take 100 (order_by_run_at (filter (is_stuck older_than) t))
