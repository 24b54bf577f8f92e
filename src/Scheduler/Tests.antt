-- ===== src/Scheduler/Tests.antt =====
-- Two tasks, one of which fails.
use civiclens.Scheduler.{TaskSpec, LockProvider, State, due, raises, returns}
use civiclens.Scheduler.Ticks.{Grants}
use civiclens.Prelude.{
  ℕ, String, ◌≡◌, refl, true, Option, none, some, List, [], ◌∷◌, map, if◌then◌else◌, str_eq,
}

abbrev free : LockProvider (Unit {0})
free = record { acquire = λ name seconds l. (true, l); release = λ name l. l }

free-Grants : Grants free
free-Grants name seconds l = refl

abbrev tasks : List (TaskSpec (Unit {0}))
tasks =
    record { name = "sla"; interval = 60; fn = λ now w. (raises "OSError", w) }
    ∷ record { name = "sweep"; interval = 600; fn = λ now w. (returns none, w) }
    ∷ record { name = "orphans"; interval = 30; fn = λ now w. (returns none, w) }
    ∷ []

abbrev last : String → Option ℕ
last name = if str_eq name "sweep" then some 500 else none

abbrev idle : State (Unit {0}) (Unit {0})
idle = record { last_run = last; lock = tt; world = tt }

due_run : map (λ t. t.name) (due tasks idle 1000) ≡ "sla" ∷ "orphans" ∷ []
unfolding due
due_run = refl
