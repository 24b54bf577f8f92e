-- ===== src/Rti/Service.antt =====
-- The operations of `RtiService` in app/services/rti_service.py that change an application. The
-- identifier, the clock, the day in India as eight digits and the characters drawn for a reference
-- number are arguments; `wording` makes the text of an application.
use civiclens.Access.{AuthContext, rti_manage_own, has}
use civiclens.Reference.{chars, generate_reference}
use civiclens.Rti.{
  RtiStatus, draft, generated, filed, responded, RtiRules, deadline, RtiDraft, RtiApplication,
  RtiError, denied, rti_not_found, already_filed, not_generated, receipt_in_future, not_filed,
  integrity_error, validate_draft, Applications, get, update,
}
use Prim.Native.Char.{Char}
use civiclens.Prelude.{
  ℕ, String, Bool, true, false, not, Option, none, some, List, [], ◌∷◌, ◌++◌, ltb, if◌then◌else◌,
  is_none, is_some, value_or, str_eq, is_empty, Result, ok, err, ◌>>=◌, ◌>>◌, raise_if,
}

pub record RtiCall : Type 0 where
  pub now : ℕ
  pub id : String
  pub day : List Char
  pub draws : List ℕ

abbrev pub permitted : AuthContext → Result RtiError (Unit {0})
permitted ctx = raise_if (not (has ctx rti_manage_own)) denied

abbrev pub owned_by : String → Option RtiApplication → Result RtiError RtiApplication
owned_by user none = err rti_not_found
owned_by user (some a) = if str_eq a.owner_id user then ok a else err rti_not_found

-- `_owned`
unfoldable pub owned : AuthContext → String → Applications → Result RtiError RtiApplication
unfolding get
owned ctx id t = permitted ctx >> owned_by ctx.user_id (get id t)

abbrev pub is_open : RtiStatus → Bool
is_open draft = true
is_open generated = true
is_open _ = false

abbrev pub is_generated : RtiStatus → Bool
is_generated generated = true
is_generated _ = false

abbrev pub is_filed : RtiStatus → Bool
is_filed filed = true
is_filed _ = false

abbrev pub new_application : RtiCall → String → RtiDraft → RtiApplication
new_application call user d = record {
  id = call.id;
  owner_id = user;
  content = d;
  status = draft;
  reference = none;
  generated_text = none;
  created_at = call.now;
  filed_at = none;
  received_at = none;
  due_at = none;
  deadline_is_estimate = false;
  reminders_sent = [];
}

-- The primary key refuses an identifier that a row has.
unfoldable pub create :
    RtiCall → AuthContext → RtiDraft → Applications → Result RtiError Applications
unfolding validate_draft get
create call ctx d t = permitted ctx >> validate_draft d >>= λ d'.
    raise_if (is_some (get call.id t)) integrity_error
    >> ok (t ++ new_application call ctx.user_id d' ∷ [])

abbrev pub redrafted : RtiDraft → RtiApplication → RtiApplication
redrafted d a = record a { content = d; status = draft; generated_text = none }

unfoldable pub update_draft :
    AuthContext → String → RtiDraft → Applications → Result RtiError Applications
unfolding owned update validate_draft
update_draft ctx id d t = owned ctx id t >>= λ a.
    raise_if (not (is_open a.status)) already_filed >> validate_draft d >>= λ d'.
    ok (update (redrafted d' a) t)

-- `app.reference or generate_reference("RTI", display_date)`
unfoldable pub reference_of : RtiCall → Option String → String
unfolding chars generate_reference
reference_of call none = generate_reference (chars "RTI") call.day call.draws
reference_of call (some r) =
    if is_empty r then generate_reference (chars "RTI") call.day call.draws else r

abbrev pub written : (RtiDraft → String → String) → String → RtiApplication → RtiApplication
written wording r a = record a {
  reference = some r;
  generated_text = some (wording a.content r);
  status = generated;
}

unfoldable pub generate :
    (RtiDraft → String → String)
    → RtiCall
    → AuthContext
    → String
    → Applications
    → Result RtiError Applications
unfolding owned update reference_of
generate wording call ctx id t = owned ctx id t >>= λ a.
    raise_if (not (is_open a.status)) already_filed
    >> ok (update (written wording (reference_of call a.reference) a) t)

-- `received_at and received_at > now`
abbrev pub in_future : Option ℕ → ℕ → Bool
in_future none now = false
in_future (some r) now = ltb now r

abbrev pub submitted : RtiRules → ℕ → Option ℕ → RtiApplication → RtiApplication
submitted rules now received a = record a {
  filed_at = some now;
  received_at = some (value_or now received);
  deadline_is_estimate = is_none received;
  due_at = some (deadline rules (value_or now received) a.content.life_or_liberty);
  status = filed;
}

unfoldable pub mark_filed :
    RtiRules
    → RtiCall
    → AuthContext
    → String
    → Option ℕ
    → Applications
    → Result RtiError Applications
unfolding owned update deadline
mark_filed rules call ctx id received t = owned ctx id t >>= λ a.
    raise_if (not (is_generated a.status)) not_generated
    >> raise_if (in_future received call.now) receipt_in_future
    >> ok (update (submitted rules call.now received a) t)

abbrev pub answered : RtiApplication → RtiApplication
answered a = record a { status = responded }

unfoldable pub mark_responded : AuthContext → String → Applications → Result RtiError Applications
unfolding owned update
mark_responded ctx id t = owned ctx id t >>= λ a.
    raise_if (not (is_filed a.status)) not_filed >> ok (update (answered a) t)

pub data RtiRequest : Type 0 where
  do_create : RtiDraft → RtiRequest
  do_update_draft : String → RtiDraft → RtiRequest
  do_generate do_mark_responded : String → RtiRequest
  do_mark_filed : String → Option ℕ → RtiRequest

unfoldable pub handle :
    (RtiDraft → String → String)
    → RtiRules
    → RtiCall
    → AuthContext
    → RtiRequest
    → Applications
    → Result RtiError Applications
unfolding create update_draft generate mark_filed mark_responded
handle wording rules call ctx (do_create d) t = create call ctx d t
handle wording rules call ctx (do_update_draft id d) t = update_draft ctx id d t
handle wording rules call ctx (do_generate id) t = generate wording call ctx id t
handle wording rules call ctx (do_mark_responded id) t = mark_responded ctx id t
handle wording rules call ctx (do_mark_filed id received) t =
    mark_filed rules call ctx id received t

-- After an error nothing is changed.
unfoldable pub serve :
    (RtiDraft → String → String)
    → RtiRules
    → RtiCall
    → AuthContext
    → RtiRequest
    → Applications
    → Applications
unfolding handle
serve wording rules call ctx r t = kept (handle wording rules call ctx r t)
  where
    kept : Result RtiError Applications → Applications
    kept (ok t') = t'
    kept (err x) = t
