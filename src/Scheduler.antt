-- ===== src/Scheduler.antt =====
-- `SchedulerService` of app/workers/scheduler.py: periodic tasks with a lock and the times of their
-- last runs. The lock is a parameter that acts on a state `L`; a task acts on the world `W`, and
-- raises or returns a summary. Times are in microseconds.
pub mod Ticks
mod Tests
use Prim.Native.String.{◌++◌ as append}
use civiclens.RateLimit.Sliding.{update}
use civiclens.Prelude.{
  ℕ, ◌+◌, ◌/◌, String, Bool, true, false, ◌||◌, Option, none, some, List, [], ◌∷◌, map, leb,
  if◌then◌else◌, value_or, any, filter, str_eq, Result, ok, err, max,
}

-- What a task does: it raises, or it returns its summary or `None`.
pub data TaskOutcome : Type 0 where
  raises : String → TaskOutcome
  returns : Option String → TaskOutcome

pub record TaskSpec (W : Type 0) : Type 0 where
  pub name : String
  pub interval : ℕ
  pub fn : ℕ → W → TaskOutcome × W

pub record TaskRun : Type 0 where
  pub name : String
  pub ok : Bool
  pub summary : String
  pub error : Option String

-- `LockProvider`: `acquire(name, ttl_seconds)` and `release(name)`.
pub record LockProvider (L : Type 0) : Type 0 where
  pub acquire : String → ℕ → L → Bool × L
  pub release : String → L → L

pub record State (L W : Type 0) : Type 0 where
  pub last_run : String → Option ℕ
  pub lock : L
  pub world : W

pub data BadTasks : Type 0 where
  duplicate_names : BadTasks

-- `len(set(names)) != len(names)`
unfoldable pub has_duplicates : List String → Bool
has_duplicates [] = false
has_duplicates (n ∷ ns) = let rest = has_duplicates ns in any (λ m. str_eq m n) ns || rest

-- The test of the constructor.
unfoldable pub new : {W : Type 0} → List (TaskSpec W) → Result BadTasks (List (TaskSpec W))
unfolding has_duplicates
new tasks = if has_duplicates (map (λ t. t.name) tasks) then err duplicate_names else ok tasks

-- `last is None or now - last >= t.interval`
abbrev pub is_due : Option ℕ → ℕ → ℕ → Bool
is_due none interval now = true
is_due (some last) interval now = leb (last + interval) now

abbrev second : ℕ
second = 1000000

-- `max(int(t.interval.total_seconds()), 30)`
abbrev pub ttl : ℕ → ℕ
ttl interval = max (interval / second) 30

abbrev pub lock_name : String → String
lock_name name = append "scheduler:" name

abbrev pub run_of : String → TaskOutcome → TaskRun
run_of name (raises message) = record {
  name = name;
  ok = false;
  summary = "{}";
  error = some message;
}
run_of name (returns summary) = record {
  name = name;
  ok = true;
  summary = value_or "{}" summary;
  error = none;
}

module _ {L W : Type 0} where
  unfoldable pub due : List (TaskSpec W) → State L W → ℕ → List (TaskSpec W)
  due tasks s now = filter (λ t. is_due (s.last_run t.name) t.interval now) tasks

  -- The body of the loop for a task whose lock is held.
  unfoldable pub run_task : LockProvider L → ℕ → TaskSpec W → State L W → TaskRun × State L W
  run_task p now t s =
      let (outcome, w) = t.fn now s.world in
      (
        run_of t.name outcome,
        record s {
          last_run = update s.last_run t.name (some now);
          lock = p.release (lock_name t.name) s.lock;
          world = w;
        },
      )

  unfoldable pub tick_from :
      LockProvider L → ℕ → List (TaskSpec W) → State L W → List TaskRun × State L W
  unfolding run_task
  tick_from p now [] s = ([], s)
  tick_from p now (t ∷ ts) s =
      let (held, l) = p.acquire (lock_name t.name) (ttl t.interval) s.lock in
      elim held [
        | false ↦ tick_from p now ts (record s { lock = l })
        | true ↦
            let (run, s') = run_task p now t (record s { lock = l }) in
            let (runs, s'') = tick_from p now ts s' in (run ∷ runs, s'')
      ]

  unfoldable pub tick :
      LockProvider L → List (TaskSpec W) → ℕ → State L W → List TaskRun × State L W
  unfolding tick_from due
  tick p tasks now s = tick_from p now (due tasks s now) s
