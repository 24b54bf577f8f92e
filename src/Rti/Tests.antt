-- ===== src/Rti/Tests.antt =====
-- Runs of app/services/rti_service.py and app/services/rti_workflow.py on concrete data.
use civiclens.Access.{AuthContext, citizen, role_has}
use civiclens.Reference.{chars}
use civiclens.Rti.{RtiDraft, RtiRules, RtiApplication, filed, get, Applications}
use civiclens.Rti.Service.{RtiCall, do_create, do_generate, do_mark_filed, serve}
use civiclens.Rti.Told.{Noted, noting, told, sent_of}
use civiclens.Rti.Sound.{NoRepeats, IsSound}
use civiclens.Rti.Reminders.{Reminder, countdown, due_reminders, was_sent, is_due, pos}
use civiclens.Rti.Due.{reminder_fits_countdown}
use civiclens.Rti.Owners.{foreign_applications_stay}
use civiclens.Rti.Always.{RtiStep, by_request, by_reminders, after, applications_in_order}
use civiclens.Prelude.{
  ℕ, ◌+◌, ◌≤◌, String, ◌≡◌, refl, Bool, true, false, none, some, List, [], ◌∷◌, All, Mem,
}

abbrev request : RtiDraft
request = record {
  subject = " Road repair records ";
  public_authority = "City Works";
  questions = "Which roads?" ∷ "  " ∷ [];
  applicant_name = "Asha Rao";
  applicant_address = "12 Lake Road, Pune";
  language = "en";
  purpose = none;
  life_or_liberty = false;
  below_poverty_line = false;
  attachments = [];
}

abbrev rules : RtiRules
rules = record { response_days = 30; life_liberty_hours = 48; reminder_days = 7 ∷ 3 ∷ 1 ∷ 0 ∷ [] }

abbrev by_user : String → AuthContext
by_user u = record { user_id = u; role = citizen; department_id = none; mfa_verified = false }

abbrev at_time : ℕ → RtiCall
at_time now = record { now = now; id = "r1"; day = chars "20260919"; draws = [] }

abbrev count_up : Reminder → ℕ → Bool × ℕ
count_up r n = (true, n + 1)

abbrev wording : RtiDraft → String → String
wording d r = "Please provide the information."

abbrev steps : List RtiStep
steps =
    by_request (at_time 100) (by_user "u1") (do_create request)
    ∷ by_request (at_time 200) (by_user "u1") (do_generate "r1")
    ∷ by_request (at_time 300) (by_user "u1") (do_mark_filed "r1" none)
    ∷ by_reminders 2160000000000
    ∷ by_reminders 2160000000000
    ∷ []

-- 25 days later one reminder is due, and the second run sends none.
reminders_counted : (after count_up wording rules steps ([], 0)).1 ≡ 1
unfolding after role_has
reminders_counted = refl

abbrev left_over : Applications × Noted ℕ
left_over = after (noting count_up) wording rules steps ([], record { log = []; world = 0 })

-- The reminder of that run is the one that the application records.
reminder_told : told "r1" left_over.1.log ≡ 7 ∷ []
unfolding after role_has told
reminder_told = refl

applications_in_order_example :
    All (IsSound rules) left_over.0
    × ((i : String)
        → (told i left_over.1.log ≡ sent_of (get i left_over.0))
          × NoRepeats (told i left_over.1.log))
applications_in_order_example = applications_in_order count_up wording rules steps 0

abbrev filed_application : RtiApplication
filed_application = record {
  id = "r1";
  owner_id = "u1";
  content = request;
  status = filed;
  reference = some "RTI-20260919-2222222A";
  generated_text = some "Please provide the information.";
  created_at = 100;
  filed_at = some 300;
  received_at = some 300;
  due_at = some 2592000000300;
  deadline_is_estimate = true;
  reminders_sent = 7 ∷ [];
}

reminder_fits_countdown_example :
    (days : ℕ) × ((countdown filed_application 2419200000000).days_remaining ≡ some (pos days))
    × (days ≤ 3)
    × Mem {A = ℕ} 3 (7 ∷ 3 ∷ 1 ∷ 0 ∷ [])
    × (was_sent 3 (7 ∷ []) ≡ false)
    × All (λ j. is_due (7 ∷ []) days j ≡ true → j ≤ 3) (7 ∷ 3 ∷ 1 ∷ 0 ∷ [])
unfolding due_reminders
reminder_fits_countdown_example =
    reminder_fits_countdown rules filed_application 2419200000000 3 refl

foreign_applications_stay_example :
    get "r1"
      (serve wording rules (at_time 400) (by_user "u2") (do_generate "r1") (filed_application ∷ []))
    ≡ some filed_application
unfolding get
foreign_applications_stay_example =
    foreign_applications_stay wording rules (at_time 400) (by_user "u2") (do_generate "r1") "r1"
      (filed_application ∷ []) filed_application refl refl
