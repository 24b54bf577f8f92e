-- ===== src/Auth/Tests.antt =====
-- Runs of app/services/auth_service.py and app/services/mfa_service.py on small data.
mod Answers
mod SecondFactor
use civiclens.Auth.Roles.Privilege.{
  privilege_needs_super_admin, Trace, Unprivileged, then_request, no_request,
}
use civiclens.Auth.Endings.Forever.{ended_session_refused}
use civiclens.Auth.Accounts.{change_role}
use civiclens.Auth.Answers.Identity.{StandsFor, authenticate_iff}
use civiclens.Auth.Roles.{role_of}
use civiclens.Auth.Requests.{
  Request, perform, perform_all, do_authenticate, do_change_role, do_login,
}
use civiclens.RateLimit.Throttle.{Throttle, default_policy}
use civiclens.Auth.State.{Setup, State, Call, session_expired}
use civiclens.Auth.Session.{SessionRecord, default_session_policy}
use civiclens.Auth.Endings.{Revoked, FindsSession}
use civiclens.Auth.Keys.{Keyed}
use civiclens.Access.{Role, is_privileged_role, AuthContext, citizen, admin, officer}
use civiclens.Auth.Tables.{ResetTokenRecord, get_by_id, UserRecord}
use civiclens.Auth.Sessions.{authenticate}
use civiclens.Prelude.{
  lower, ℕ, String, ◌≡◌, refl, ◌↔◌, true, false, Option, none, some, List, [], ◌∷◌, str_eq,
  is_empty, ok, err, str_append, str_ne,
}

abbrev pub setup : Setup
setup = record {
  hash = λ salt p. str_append "h:" p;
  verify = λ h p. str_eq h (str_append "h:" p);
  needs_rehash = λ h. false;
  hash_token = λ t. str_append "#" t;
  lower = lower;
  policy = default_session_policy;
}

abbrev pub call_at : ℕ → String → Call
call_at now id = record {
  now = now;
  monotonic = now;
  uuid = id;
  token = str_append "t-" id;
  salt = "s";
}

abbrev pub user : String → String → Role → UserRecord
user id email role = record {
  id = id;
  email = email;
  password_hash = "h:correct horse";
  full_name = "Asha Rao";
  role = role;
  department_id = none;
  is_active = true;
}

abbrev pub session : String → String → Option ℕ → SessionRecord
session id owner revoked = record {
  id = id;
  user_id = owner;
  token_hash = str_append "#t-" id;
  created_at = 0;
  last_seen_at = 0;
  mfa_verified = true;
  revoked_at = revoked;
  kind = "web";
}

abbrev pub reset_row : ResetTokenRecord
reset_row = record { token_hash = "#r1"; user_id = "u1"; expires_at = 100; used_at = none }

abbrev pub quiet : Throttle
quiet = record { policy = default_policy; failures = λ _. []; locked_until = λ _. none }

abbrev pub start : State
start = record {
  users = user "u1" "asha@example.org" citizen ∷ user "u2" "bo@example.org" admin ∷ [];
  sessions = session "s1" "u1" none ∷ session "s2" "u2" (some 5) ∷ [];
  resets = reset_row ∷ [];
  throttle = quiet;
  audit = [];
}

abbrev pub empty : State
empty = record start { users = []; sessions = [] }

abbrev pub actor : String → Role → AuthContext
actor id role = record { user_id = id; role = role; department_id = none; mfa_verified = true }

pub start-Keyed : Keyed start.users
unfolding Keyed get_by_id
start-Keyed = (refl, (refl, tt))

-- An officer is made an officer of a department by an admin, and nobody becomes privileged.
promotion : Trace Unprivileged setup start (
    perform setup
      (call_at 9 "u9")
      (do_change_role (actor "u2" admin) "u1" officer (some "water"))
      start)
unfolding get_by_id
promotion =
    then_request (call_at 9 "u9") (do_change_role (actor "u2" admin) "u1" officer (some "water"))
      no_request (λ e. absurd (cc e)) refl

privilege_needs_super_admin_example : (role_of "u2" start.users ≡ some admin) ↔ (
    role_of "u2"
      (perform setup
        (call_at 9 "u9")
        (do_change_role (actor "u2" admin) "u1" officer (some "water"))
        start).users
    ≡ some admin)
unfolding is_privileged_role
privilege_needs_super_admin_example =
    privilege_needs_super_admin setup start _ "u2" admin start-Keyed promotion refl

made_officer :
    role_of "u1"
      (perform setup
        (call_at 9 "u9")
        (do_change_role (actor "u2" admin) "u1" officer (some "water"))
        start).users
    ≡ some officer
unfolding perform role_of change_role
made_officer = refl

abbrev pub requests : List (Call × Request)
requests =
    (call_at 6 "c1", do_authenticate "t-s2")
    ∷ (call_at 7 "c2", do_login "bo@example.org" "correct horse" "" "web")
    ∷ []

s2-Revoked : Revoked "s2" start.sessions
s2-Revoked = (λ e. absurd (str_ne "s1" "s2" refl e), (λ e. refl, tt))

ended_session_refused_example :
    authenticate setup (call_at 8 "c3") "t-s2" (perform_all setup requests start)
    ≡ (err session_expired, perform_all setup requests start)
unfolding FindsSession
ended_session_refused_example =
    ended_session_refused setup "t-s2" "s2" requests (call_at 8 "c3") start s2-Revoked
      (session "s2" "u2" (some 5), refl, refl) (str_ne "c1" "s2" refl, (str_ne "c2" "s2" refl, tt))
      refl

authenticate_iff_example :
    ((st' : State) × (authenticate setup (call_at 8 "c3") "t-s1" start
        ≡ (ok (actor "u1" citizen), st')))
    ↔ ((is_empty "t-s1" ≡ false) × StandsFor setup 8 start "t-s1" (actor "u1" citizen))
authenticate_iff_example = authenticate_iff setup (call_at 8 "c3") "t-s1" start (actor "u1" citizen)

s1_authenticates : (authenticate setup (call_at 8 "c3") "t-s1" start).0 ≡ ok (actor "u1" citizen)
unfolding authenticate
s1_authenticates = refl
