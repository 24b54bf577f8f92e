-- ===== src/Auth/Tests/Answers.antt =====
-- Runs that sign in, set up and reset: app/services/auth_service.py.
use civiclens.Auth.Answers.RoundTrips.{register-login-authenticate}
use civiclens.Auth.Requests.{state_of}
use civiclens.Access.{citizen, AuthContext, super_admin}
use civiclens.Auth.Answers.Resets.{reset_ends_sessions, reset_once}
use civiclens.Auth.Answers.{IsGeneric, bootstrap_once, login_errors}
use civiclens.Auth.State.{AuthError, State, bad_credentials, bad_reset_link, check_keys}
use civiclens.Auth.Tests.{setup, call_at, user, start, empty, start-Keyed, quiet}
use civiclens.RateLimit.Throttle.{check}
use civiclens.Auth.Password.{password_problems}
use civiclens.Auth.Passwords.{reset_password}
use civiclens.Auth.Sessions.{login, authenticate}
use civiclens.Auth.Accounts.{bootstrap_first_admin, register}
use civiclens.Auth.Tables.{UserRecord, get_by_id, get_by_token_hash, ResetTokenRecord, get_reset}
use civiclens.Prelude.{lower, ◌≡◌, refl, true, some, arith, is_some, All, ok, err}

abbrev refused : State
refused = state_of (login setup (call_at 8 "c3") "asha@example.org" "guess" "" "web" start)

login_errors_example :
    IsGeneric bad_credentials × (refused.users ≡ start.users) × (refused.sessions ≡ start.sessions)
unfolding login check lower
login_errors_example =
    login_errors setup (call_at 8 "c3") "asha@example.org" "guess" "" "web" start refused
      bad_credentials start-Keyed refl

abbrev renewed : State
renewed = state_of (reset_password setup (call_at 8 "c1") "r1" "a new long one" start)

reset_once_example :
    reset_password setup (call_at 9 "c2") "r1" "another long one" renewed
    ≡ (err bad_reset_link, renewed)
unfolding reset_password password_problems lower
reset_once_example =
    reset_once setup (call_at 8 "c1") (call_at 9 "c2") "r1" "a new long one" "another long one"
      start renewed refl

reset_ends_sessions_example :
    (row : ResetTokenRecord) × (u : UserRecord) × (get_reset (setup.hash_token "r1") start.resets
      ≡ some row)
    × (get_by_id row.user_id renewed.users ≡ some u)
    × (u.password_hash ≡ "h:a new long one")
    × All (λ s. s.user_id ≡ row.user_id → is_some s.revoked_at ≡ true) renewed.sessions
unfolding reset_password password_problems lower
reset_ends_sessions_example =
    reset_ends_sessions setup (call_at 8 "c1") "r1" "a new long one" start renewed refl

abbrev first_admin : State
first_admin = state_of (
    bootstrap_first_admin setup (call_at 1 "root") "root@example.org" "a long secret" "Root" "setup"
      "setup" empty)

bootstrap_once_example :
    (x : AuthError) × (st'' : State) × (bootstrap_first_admin setup
        (call_at 2 "eve")
        "eve@example.org"
        "a longer secret"
        "Eve"
        "setup"
        "setup"
        first_admin
      ≡ (err x, st''))
    × (st''.users ≡ first_admin.users)
unfolding bootstrap_first_admin password_problems lower
bootstrap_once_example =
    bootstrap_once setup (call_at 1 "root") (call_at 2 "eve") "root@example.org" "a long secret"
      "Root" "setup" "setup" "eve@example.org" "a longer secret" "Eve" "setup" "setup" empty
      first_admin
      (record (user "root" "root@example.org" super_admin) {
        full_name = "Root";
        password_hash = "h:a long secret";
      })
      refl

abbrev asha : UserRecord
asha = record (user "u1" "asha@example.org" citizen) { password_hash = "h:a long secret" }

abbrev joined : State
joined =
    state_of (register setup (call_at 1 "u1") " Asha@example.org " "a long secret" "Asha Rao" empty)

register-login-authenticate_example :
    (st1 : State) × (st2 : State) × (ctx : AuthContext) × (login setup
        (call_at 2 "c1")
        " Asha@example.org "
        "a long secret"
        ""
        "web"
        joined
      ≡ (ok (record { session_token = "t-c1"; context = ctx }), st1))
    × (authenticate setup (call_at 3 "c2") "t-c1" st1 ≡ (ok ctx, st2))
    × (ctx.user_id ≡ "u1")
    × (ctx.role ≡ citizen)
unfolding register password_problems lower check get_by_id check_keys get_by_token_hash
register-login-authenticate_example =
    register-login-authenticate setup (call_at 1 "u1") (call_at 2 "c1") (call_at 3 "c2")
      " Asha@example.org " "a long secret" "Asha Rao" "" "web" empty joined asha quiet refl refl
      refl refl refl refl refl (omega arith) (omega arith)
