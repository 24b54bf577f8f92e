-- ===== src/Complaint/Timeline/Laws.antt =====
-- The tracker shows, for each stage, the earliest recorded time, and no other time.
use civiclens.Complaint.Status.{is_finished}
use civiclens.Prelude.{
  ℕ, ◌≡◌, arith, All, List, [], ◌∷◌, Option, none, some, ◌∙◌, min, ◌≤◌, if◌then◌else◌, refl, ◌==◌,
  ◌&&◌, map,
}
use civiclens.Complaint.Timeline.{
  TimelineEvent, Stage, reaches, insert_event, sort_events, fill, reached, Status, build_timeline,
  TimelineStep, label, in_stage, ltb, upcoming, submitted_stage, ai_routed_stage, assigned_stage,
  not, under_review_stage, current, in_progress_stage, done, is_some, resolved_stage, skipped, true,
  timeline_stages,
}

-- The least time of the events that reach a stage.
abbrev pub least : ℕ → Option ℕ → Option ℕ
least t none = some t
least t (some u) = some (min t u)

unfoldable pub earliest : List TimelineEvent → Stage → Option ℕ
earliest [] stage = none
earliest (e ∷ es) stage =
    let rest = earliest es stage in if reaches e stage then least e.at rest else rest

abbrev IsFrom : ℕ → List TimelineEvent → Type 0
IsFrom t es = All (λ e. t ≤ e.at) es

abbrev IsSorted : List TimelineEvent → Type 0
IsSorted [] = Unit
IsSorted (e ∷ es) = IsFrom e.at es × IsSorted es

IsFrom-mono : (t u : ℕ) (es : List TimelineEvent) → t ≤ u → IsFrom u es → IsFrom t es
IsFrom-mono t u [] h k = tt
IsFrom-mono t u (e ∷ es) h k = (omega arith, IsFrom-mono t u es h k.1)

IsFrom-insert_event :
    (t : ℕ) (e : TimelineEvent) (es : List TimelineEvent)
    → t ≤ e.at
    → IsFrom t es
    → IsFrom t (insert_event e es)
unfolding insert_event
IsFrom-insert_event t e [] h k = (h, tt)
IsFrom-insert_event t e (x ∷ es) h k = ground (arith, IsFrom-insert_event t e es h k.1)

insert_event-IsSorted :
    (e : TimelineEvent) (es : List TimelineEvent) → IsSorted es → IsSorted (insert_event e es)
unfolding insert_event
insert_event-IsSorted e [] s = (tt, tt)
insert_event-IsSorted e (x ∷ es) s =
    ground (
      arith,
      IsFrom-mono e.at x.at es,
      IsFrom-insert_event x.at e es,
      insert_event-IsSorted e es s.1,
    )

sort_events-IsSorted : (es : List TimelineEvent) → IsSorted (sort_events es)
unfolding sort_events
sort_events-IsSorted [] = tt
sort_events-IsSorted (e ∷ es) = insert_event-IsSorted e (sort_events es) (sort_events-IsSorted es)

abbrev IsAbove : ℕ → Option ℕ → Type 0
IsAbove t none = Unit
IsAbove t (some u) = t ≤ u

earliest-IsAbove :
    (t : ℕ) (es : List TimelineEvent) (stage : Stage) → IsFrom t es → IsAbove t (earliest es stage)
unfolding earliest
earliest-IsAbove t [] stage h = tt
earliest-IsAbove t (e ∷ es) stage h = ground (arith, earliest-IsAbove t es stage h.1)

fill-some : (stage : Stage) (t : ℕ) (es : List TimelineEvent) → fill stage (some t) es ≡ some t
unfolding fill
fill-some stage t [] = refl
fill-some stage t (e ∷ es) = ground (arith, fill-some stage t es)

earliest-insert_event :
    (e : TimelineEvent) (es : List TimelineEvent) (stage : Stage)
    → earliest (insert_event e es) stage ≡ earliest (e ∷ es) stage
unfolding earliest insert_event
earliest-insert_event e [] stage = refl
earliest-insert_event e (x ∷ es) stage = ground (arith, earliest-insert_event e es stage)

fill-eq-earliest :
    (stage : Stage) (es : List TimelineEvent) → IsSorted es → fill stage none es ≡ earliest es stage
unfolding fill earliest
fill-eq-earliest stage [] s = refl
fill-eq-earliest stage (e ∷ es) s = ground (
  arith,
  fill-eq-earliest stage es s.1,
  fill-some stage e.at es,
  earliest-IsAbove e.at es stage s.0,
)

earliest-sort_events :
    (es : List TimelineEvent) (stage : Stage) → earliest (sort_events es) stage ≡ earliest es stage
unfolding sort_events earliest
earliest-sort_events [] stage = refl
earliest-sort_events (e ∷ es) stage =
    ground (arith, earliest-insert_event e (sort_events es) stage, earliest-sort_events es stage)

-- The time of a stage is the least time among the events that reach it, in whatever order the
-- events are given.
pub reached-eq-earliest :
    (events : List TimelineEvent) (stage : Stage) → reached events stage ≡ earliest events stage
unfolding reached
reached-eq-earliest events stage =
    fill-eq-earliest stage (sort_events events) (sort_events-IsSorted events)
    ∙ earliest-sort_events events stage

-- `label` of the stage that the tracker shows for a status; `rank` is its place.
abbrev pub rank : Stage → ℕ
rank submitted_stage = 0
rank ai_routed_stage = 1
rank assigned_stage = 2
rank under_review_stage = 3
rank in_progress_stage = 4
rank resolved_stage = 5

-- The step that a reader expects: the recorded time up to the current stage, and none after it.
pub expected_step : List TimelineEvent → Status → Stage → Stage → TimelineStep
expected_step events s now stage = record {
  label = label stage;
  state =
      if ltb (rank now) (rank stage)
      then upcoming
      else if rank now == rank stage && not (is_finished s)
      then current
      else if rank now == rank stage
      then done
      else if is_some (earliest events stage)
      then done
      else skipped;
  at = if ltb (rank now) (rank stage) then none else earliest events stage;
}

-- For a complaint that is not rejected the tracker has one step for each of the six stages, in
-- order: those after the stage of its status are upcoming and have no time; that stage itself is
-- current, or done when the complaint is resolved or closed; those before it are done if some event
-- reached them and skipped otherwise; and each time up to the current stage is the earliest
-- recorded one.
pub build_timeline_steps :
    (s : Status) (now : Stage) (events : List TimelineEvent)
    → in_stage s now ≡ true
    → build_timeline s events ≡ some (map (expected_step events s now) timeline_stages)
unfolding build_timeline expected_step is_finished in_stage
build_timeline_steps Status.submitted submitted_stage events h =
    simp reached-eq-earliest (ground arith)
build_timeline_steps _ _ events h = ground (
  arith,
  reached-eq-earliest events submitted_stage,
  reached-eq-earliest events ai_routed_stage,
  reached-eq-earliest events assigned_stage,
  reached-eq-earliest events under_review_stage,
  reached-eq-earliest events in_progress_stage,
  reached-eq-earliest events resolved_stage,
)
