-- ===== src/Auth/Sessions.antt =====
-- Signing in and out, and resolving a session: app/services/auth_service.py.
use civiclens.Auth.Session.{SessionRecord, is_active, policy_of}
use civiclens.Auth.Password.{normalize_email}
use civiclens.Access.{AuthContext}
use civiclens.Auth.State.{
  clear_keys, Setup, check_keys, fail_keys, State, AuthError, Call, session_expired, Answer,
  audited, after, with_user, not_signed_in, or_raise, bad_credentials, unlocked,
}
use civiclens.Auth.Tables.{
  get_by_token_hash, UserRecord, get_by_id, get_by_email, update_session, update_user,
}
use civiclens.Prelude.{
  ℕ, String, Bool, true, false, ◌&&◌, Option, none, some, List, [], ◌∷◌, ◌++◌, if◌then◌else◌,
  is_none, str_eq, is_empty, Result, ok, err, str_append,
}

-- `[f"login:{email_n}"] + ([f"ip:{client_key}"] if client_key else [])`
abbrev pub login_keys : String → String → List String
login_keys email client =
    str_append "login:" email ∷ (if is_empty client then [] else str_append "ip:" client ∷ [])

-- The account, when it is there, active, and the password is right; a missing account has the
-- password checked against another hash, whose answer is not used.
unfoldable pub accepted : Setup → String → Option UserRecord → Option UserRecord
accepted setup password none = none
accepted setup password (some user) =
    if user.is_active && setup.verify user.password_hash password then some user else none

-- `_fail`
unfoldable pub fail : List String → ℕ → State → State
unfolding fail_keys
fail keys now st =
    audited "auth.login_failed" none none (record st { throttle = fail_keys keys now st.throttle })

abbrev pub new_session : Setup → Call → String → String → SessionRecord
new_session setup call user_id client = record {
  id = call.uuid;
  user_id = user_id;
  token_hash = setup.hash_token call.token;
  created_at = call.now;
  last_seen_at = call.now;
  mfa_verified = true;
  revoked_at = none;
  kind = if str_eq client "mobile" then "mobile" else "web";
}

pub record LoginResult : Type 0 where
  pub session_token : String
  pub context : AuthContext

abbrev pub context_of : UserRecord → Bool → AuthContext
context_of user verified = record {
  user_id = user.id;
  role = user.role;
  department_id = user.department_id;
  mfa_verified = verified;
}

-- The session that a login opens, once the user row is up to date.
unfoldable pub open_session : Setup → Call → String → UserRecord → State → Answer LoginResult
open_session setup call client user st = (
  ok (record { session_token = call.token; context = context_of user true }),
  audited "auth.login" (some user.id) none
      (record st { sessions = st.sessions ++ new_session setup call user.id client ∷ [] }),
)

-- The account with its password hashed again.
abbrev pub rehashed : Setup → Call → String → UserRecord → UserRecord
rehashed setup call password user = record user { password_hash = setup.hash call.salt password }

-- The part of `login` after the credentials are accepted.
unfoldable pub enter :
    Setup → Call → String → String → List String → UserRecord → State → Answer LoginResult
unfolding clear_keys open_session update_user
enter setup call password client keys user st =
    let cleared = record st { throttle = clear_keys keys st.throttle } in
    if setup.needs_rehash user.password_hash
    then with_user (rehashed setup call password user) cleared
        (open_session setup call client (rehashed setup call password user))
    else open_session setup call client user cleared

-- The part of `login` after the throttle has let it through.
unfoldable pub signed_in :
    Setup → Call → String → String → String → List String → State → Answer LoginResult
unfolding get_by_email accepted fail enter
signed_in setup call password client email keys st =
    elim (accepted setup password (get_by_email email st.users)) [
      | none ↦ (err bad_credentials, fail keys call.monotonic st)
      | some user ↦ enter setup call password client keys user st
    ]

-- The part of `login` after the address is in its normal form.
unfoldable pub login_as :
    Setup → Call → String → String → String → String → State → Answer LoginResult
unfolding check_keys signed_in
login_as setup call password client_key client email st =
    let keys = login_keys email client_key in
    unlocked (check_keys keys call.monotonic st.throttle) st
      (signed_in setup call password client email keys)

unfoldable pub login : Setup → Call → String → String → String → String → State → Answer LoginResult
unfolding normalize_email login_as
login setup call email password client_key client st =
    after (or_raise (normalize_email setup.lower email) bad_credentials) st
      (λ value. login_as setup call password client_key client value st)

unfoldable pub live_session : Setup → ℕ → Option SessionRecord → Result AuthError SessionRecord
unfolding is_active
live_session setup now none = err session_expired
live_session setup now (some s) =
    if is_active s now (policy_of setup.policy s) then ok s else err session_expired

unfoldable pub active_user : Option UserRecord → Result AuthError UserRecord
active_user none = err session_expired
active_user (some u) = if u.is_active then ok u else err session_expired

unfoldable pub authenticate : Setup → Call → String → State → Answer AuthContext
unfolding get_by_token_hash get_by_id live_session active_user update_session
authenticate setup call raw_token st =
    if is_empty raw_token
    then (err not_signed_in, st)
    else after
        (live_session setup call.now (get_by_token_hash (setup.hash_token raw_token) st.sessions))
        st
        (λ session. after (active_user (get_by_id session.user_id st.users)) st (λ user. (
          ok (context_of user session.mfa_verified),
          record st {
            sessions = update_session (record session { last_seen_at = call.now }) st.sessions;
          },
        )))

unfoldable pub is_session_active : Setup → ℕ → String → State → Bool
unfolding is_active get_by_token_hash get_by_id
is_session_active setup now token_hash st = elim (get_by_token_hash token_hash st.sessions) [
  | none ↦ false
  | some s ↦ elim (get_by_id s.user_id st.users) [
    | none ↦ false
    | some u ↦ is_none s.revoked_at && u.is_active && is_active s now (policy_of setup.policy s)
  ]
]

unfoldable pub mark_session_mfa_verified : Setup → String → State → State
unfolding get_by_token_hash update_session
mark_session_mfa_verified setup raw_token st =
    elim (get_by_token_hash (setup.hash_token raw_token) st.sessions) [
      | none ↦ st
      | some s ↦
          if is_none s.revoked_at
          then record st {
            sessions = update_session (record s { mfa_verified = true }) st.sessions;
          }
          else st
    ]

unfoldable pub logout : Setup → Call → String → State → State
unfolding get_by_token_hash update_session
logout setup call raw_token st =
    if is_empty raw_token
    then st
    else elim (get_by_token_hash (setup.hash_token raw_token) st.sessions) [
      | none ↦ st
      | some s ↦
          if is_none s.revoked_at
          then audited "auth.logout" (some s.user_id) none (record st {
            sessions = update_session (record s { revoked_at = some call.now }) st.sessions;
          })
          else st
    ]
