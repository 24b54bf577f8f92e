-- ===== src/Rti/Reminders.antt =====
-- `countdown` and `due_reminders` of app/services/rti_service.py, and the scheduled run of
-- app/services/rti_workflow.py. What `NotificationService.notify` does is a parameter.
use civiclens.Rti.{
  RtiStatus, responded, closed, RtiRules, RtiApplication, Applications, update, day_length,
}
use civiclens.Rti.Service.{is_filed}
use civiclens.Prelude.{
  ℕ, zero, suc, ◌+◌, ◌-◌, ◌/◌, String, Bool, true, false, not, ◌&&◌, Option, none, some, List, [],
  ◌∷◌, ◌++◌, ltb, leb, ◌==◌, if◌then◌else◌, take, any, filter,
}

-- Whole numbers of days, which may be negative
pub data ℤ : Type 0 where
  pos negsuc : ℕ → ℤ

abbrev pub negated : ℕ → ℤ
negated zero = pos 0
negated (suc n) = negsuc n

pub data CountdownState : Type 0 where
  not_started running due_today overdue answered : CountdownState

-- The hours, a fraction, are left out.
pub record Countdown : Type 0 where
  pub state : CountdownState
  pub days_remaining : Option ℤ
  pub due_at : Option ℕ
  pub is_estimate : Bool

abbrev pub is_answered : RtiStatus → Bool
is_answered responded = true
is_answered closed = true
is_answered _ = false

unfoldable pub until_due : Bool → ℕ → ℕ → Countdown
until_due estimate due now =
    if ltb due now
    then record {
      state = overdue;
      days_remaining = some (negated ((now - due) / day_length));
      due_at = some due;
      is_estimate = estimate;
    }
    else record {
      state = if (due - now) / day_length == 0 then due_today else running;
      days_remaining = some (pos ((due - now) / day_length));
      due_at = some due;
      is_estimate = estimate;
    }

abbrev pub unanswered : RtiApplication → ℕ → Option ℕ → Countdown
unanswered a now none = record {
  state = not_started;
  days_remaining = none;
  due_at = none;
  is_estimate = false;
}
unanswered a now (some due) = until_due a.deadline_is_estimate due now

unfoldable pub countdown : RtiApplication → ℕ → Countdown
unfolding until_due
countdown a now =
    if is_answered a.status
    then record {
      state = answered;
      days_remaining = none;
      due_at = a.due_at;
      is_estimate = a.deadline_is_estimate;
    }
    else unanswered a now a.due_at

-- `sorted(…, reverse=True)`
unfoldable pub insert_down : ℕ → List ℕ → List ℕ
insert_down x [] = x ∷ []
insert_down x (y ∷ ys) = let rest = insert_down x ys in if ltb x y then y ∷ rest else x ∷ y ∷ ys

unfoldable pub sort_down : List ℕ → List ℕ
unfolding insert_down
sort_down [] = []
sort_down (x ∷ xs) = insert_down x (sort_down xs)

abbrev pub was_sent : ℕ → List ℕ → Bool
was_sent t sent = any (λ s. s == t) sent

abbrev pub is_due : List ℕ → ℕ → ℕ → Bool
is_due sent days_left t = leb days_left t && not (was_sent t sent)

abbrev pub reached : RtiRules → List ℕ → ℕ → ℕ → List ℕ
reached rules sent due now =
    if ltb due now
    then []
    else take 1 (sort_down (filter (is_due sent ((due - now) / day_length)) rules.reminder_days))

abbrev pub reminders_until : RtiRules → RtiApplication → ℕ → Option ℕ → List ℕ
reminders_until rules a now none = []
reminders_until rules a now (some due) = reached rules a.reminders_sent due now

unfoldable pub due_reminders : RtiRules → RtiApplication → ℕ → List ℕ
unfolding sort_down
due_reminders rules a now = if is_filed a.status then reminders_until rules a now a.due_at else []

pub record Reminder : Type 0 where
  pub owner_id : String
  pub application_id : String
  pub threshold : ℕ

abbrev pub reminded : ℕ → RtiApplication → RtiApplication
reminded t a = record a { reminders_sent = a.reminders_sent ++ t ∷ [] }

module _ {N : Type 0} (notify : Reminder → N → Bool × N) where
  -- The inner loop; the number counts the events.
  unfoldable pub remind : List ℕ → RtiApplication → Applications × N × ℕ → Applications × N × ℕ
  unfolding update
  remind [] a (t, n, sent) = (t, n, sent)
  remind (k ∷ ks) a (t, n, sent) =
      let (event, n') =
        notify (record { owner_id = a.owner_id; application_id = a.id; threshold = k }) n in
      remind ks (reminded k a) (update (reminded k a) t, n', if event then sent + 1 else sent)

  unfoldable pub remind_each :
      RtiRules → ℕ → Applications → Applications × N × ℕ → Applications × N × ℕ
  unfolding remind due_reminders
  remind_each rules now [] s = s
  remind_each rules now (a ∷ rest) s =
      remind_each rules now rest (remind (due_reminders rules a now) a s)

  -- `RtiReminderService.run`, over what `list_filed` returns
  unfoldable pub run : RtiRules → ℕ → Applications × N → Applications × N × ℕ
  unfolding remind_each
  run rules now (t, n) = remind_each rules now (filter (λ a. is_filed a.status) t) (t, n, 0)
