-- ===== src/Rti.antt =====
-- RTI applications: app/services/rti_service.py, app/services/rti_workflow.py and SqlRtiRepository
-- of app/db/repositories/content.py. Times are in microseconds. The wording of an application, its
-- PDF and the suggested questions are left out.
pub mod Service
pub mod Reminders
pub mod Sound
pub mod Filing
pub mod Order
pub mod Due
pub mod Always
pub mod Owners
pub mod Told
pub mod Sending
mod Tests
use Prim.Native.String.{count}
use civiclens.Prelude.{
  ℕ, ◌+◌, ◌*◌, String, Bool, true, false, ◌&&◌, Option, List, [], ◌∷◌, leb, if◌then◌else◌, length,
  all, find?, str_eq, is_empty, Result, ok, err, strip,
}

pub data RtiStatus : Type 0 where
  draft generated filed responded closed : RtiStatus

pub record RtiRules : Type 0 where
  pub response_days : ℕ
  pub life_liberty_hours : ℕ
  pub reminder_days : List ℕ

abbrev pub hour : ℕ
hour = 3600000000

abbrev pub day_length : ℕ
day_length = 86400000000

unfoldable pub deadline : RtiRules → ℕ → Bool → ℕ
deadline rules received_at life_or_liberty =
    if life_or_liberty
    then received_at + rules.life_liberty_hours * hour
    else received_at + rules.response_days * day_length

pub record RtiDraft : Type 0 where
  pub subject : String
  pub public_authority : String
  pub questions : List String
  pub applicant_name : String
  pub applicant_address : String
  pub language : String
  pub purpose : Option String
  pub life_or_liberty : Bool
  pub below_poverty_line : Bool
  pub attachments : List String

pub record RtiApplication : Type 0 where
  pub id : String
  pub owner_id : String
  pub content : RtiDraft
  pub status : RtiStatus
  pub reference : Option String
  pub generated_text : Option String
  pub created_at : ℕ
  pub filed_at : Option ℕ
  pub received_at : Option ℕ
  pub due_at : Option ℕ
  pub deadline_is_estimate : Bool
  pub reminders_sent : List ℕ

-- The keys of the dictionary of errors
pub data DraftField : Type 0 where
  for_subject for_public_authority for_questions for_name for_address : DraftField

-- `low <= len(s.strip()) <= high`
unfoldable pub long_enough : ℕ → ℕ → String → Bool
unfolding strip
long_enough low high s = leb low (count (strip s)) && leb (count (strip s)) high

-- `tuple(q.strip() for q in questions if q and q.strip())`
unfoldable pub asked : List String → List String
unfolding strip
asked [] = []
asked (q ∷ qs) = let rest = asked qs in if is_empty (strip q) then rest else strip q ∷ rest

unfoldable pub questions_fit : List String → Bool
questions_fit [] = false
questions_fit (q ∷ qs) = leb (length (q ∷ qs)) 20 && all (λ s. leb (count s) 1000) (q ∷ qs)

abbrev pub unless : Bool → DraftField → List DraftField → List DraftField
unless true f fs = fs
unless false f fs = f ∷ fs

unfoldable pub draft_errors : RtiDraft → List DraftField
unfolding long_enough asked questions_fit
draft_errors d = unless (long_enough 5 200 d.subject) for_subject (
    unless (long_enough 3 200 d.public_authority) for_public_authority (
      unless (questions_fit (asked d.questions)) for_questions (
        unless (long_enough 2 120 d.applicant_name) for_name
          (unless (long_enough 10 400 d.applicant_address) for_address []))))

pub data RtiError : Type 0 where
  denied rti_not_found already_filed not_generated receipt_in_future not_filed : RtiError
  integrity_error : RtiError
  draft_invalid : List DraftField → RtiError

abbrev pub cleaned : RtiDraft → RtiDraft
cleaned d = record d {
  subject = strip d.subject;
  public_authority = strip d.public_authority;
  questions = asked d.questions;
  applicant_name = strip d.applicant_name;
  applicant_address = strip d.applicant_address;
}

abbrev pub checked : RtiDraft → List DraftField → Result RtiError RtiDraft
checked d [] = ok (cleaned d)
checked d (f ∷ fs) = err (draft_invalid (f ∷ fs))

unfoldable pub validate_draft : RtiDraft → Result RtiError RtiDraft
unfolding draft_errors
validate_draft d = checked d (draft_errors d)

abbrev pub Applications : Type 0
Applications = List RtiApplication

abbrev pub has_id : String → RtiApplication → Bool
has_id id a = str_eq a.id id

unfoldable pub get : String → Applications → Option RtiApplication
get id t = find? (has_id id) t

unfoldable pub update : RtiApplication → Applications → Applications
update a [] = []
update a (row ∷ t) = let rest = update a t in if has_id a.id row then a ∷ t else row ∷ rest
