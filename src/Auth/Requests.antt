-- ===== src/Auth/Requests.antt =====
-- The calls of an `AuthService` (app/services/auth_service.py) that may change its state, as values.
use civiclens.Auth.Passwords.{
  change_password, issue_reset_for_user, request_password_reset, reset_password,
}
use civiclens.Auth.Sessions.{login, authenticate, mark_session_mfa_verified, logout}
use civiclens.Auth.State.{Setup, State, Call}
use civiclens.Auth.Accounts.{register, bootstrap_first_admin, create_staff, change_role, set_active}
use civiclens.Access.{AuthContext, Role}
use civiclens.Prelude.{String, Bool, Option, List, [], ◌∷◌}

pub data Request : Type 0 where
  do_register : (email password full_name : String) → Request
  do_bootstrap : (email password full_name provided expected : String) → Request
  do_create_staff :
      (actor : AuthContext) (email password full_name : String) (role : Role)
      (department : Option String)
      → Request
  do_change_role :
      (actor : AuthContext) (user_id : String) (role : Role) (department : Option String) → Request
  do_set_active : (actor : AuthContext) (user_id : String) (active : Bool) → Request
  do_login : (email password client_key client : String) → Request
  do_authenticate : (raw_token : String) → Request
  do_verify_mfa : (raw_token : String) → Request
  do_logout : (raw_token : String) → Request
  do_change_password : (ctx : AuthContext) (current new : String) → Request
  do_issue_reset : (user_id : String) → Request
  do_request_reset : (email : String) → Request
  do_reset_password : (raw_token new : String) → Request

abbrev pub state_of : {A : Type 0} → A × State → State
state_of (a, st) = st

unfoldable pub perform : Setup → Call → Request → State → State
unfolding register bootstrap_first_admin create_staff change_role set_active login authenticate
    mark_session_mfa_verified logout change_password issue_reset_for_user request_password_reset
    reset_password
perform setup call (do_register e p n) st = state_of (register setup call e p n st)
perform setup call (do_bootstrap e p n provided expected) st =
    state_of (bootstrap_first_admin setup call e p n provided expected st)
perform setup call (do_create_staff actor e p n role d) st =
    state_of (create_staff setup call actor e p n role d st)
perform setup call (do_change_role actor id role d) st =
    state_of (change_role call actor id role d st)
perform setup call (do_set_active actor id active) st =
    state_of (set_active call actor id active st)
perform setup call (do_login e p key client) st = state_of (login setup call e p key client st)
perform setup call (do_authenticate raw) st = state_of (authenticate setup call raw st)
perform setup call (do_verify_mfa raw) st = mark_session_mfa_verified setup raw st
perform setup call (do_logout raw) st = logout setup call raw st
perform setup call (do_change_password ctx current new) st =
    state_of (change_password setup call ctx current new st)
perform setup call (do_issue_reset id) st = state_of (issue_reset_for_user setup call id st)
perform setup call (do_request_reset e) st = state_of (request_password_reset setup call e st)
perform setup call (do_reset_password raw new) st = state_of (reset_password setup call raw new st)

unfoldable pub perform_all : Setup → List (Call × Request) → State → State
unfolding perform
perform_all setup [] st = st
perform_all setup ((call, r) ∷ rs) st = perform_all setup rs (perform setup call r st)
