-- ===== src/Auth/Passwords.antt =====
-- Changing and resetting a password: app/services/auth_service.py.
use civiclens.Access.{AuthContext}
use civiclens.Auth.Session.{minute}
use civiclens.Auth.State.{
  Setup, check_password, Call, AuthError, State, Answer, bad_reset_link, wrong_password, audited,
  after, with_user, user_not_found, or_raise, revoke_sessions,
}
use civiclens.Auth.Password.{normalize_email}
use civiclens.Auth.Tables.{
  get_reset, get_by_email, get_by_id, update_user, ResetTokenRecord, UserRecord,
  revoke_all_for_user, mark_used,
}
use civiclens.Prelude.{
  ℕ, ◌+◌, ◌*◌, String, Bool, true, false, ◌&&◌, ◌||◌, Option, none, some, List, [], ◌∷◌, ◌++◌, ltb,
  if◌then◌else◌, is_some, Result, ok, err,
}

unfoldable pub verify_password : Setup → String → String → State → Bool
unfolding get_by_id
verify_password setup user_id password st = elim (get_by_id user_id st.users) [
  | none ↦ false
  | some u ↦ u.is_active && setup.verify u.password_hash password
]

-- The account whose current password was given.
unfoldable pub proven : Setup → String → Option UserRecord → Result AuthError UserRecord
proven setup password none = err wrong_password
proven setup password (some u) =
    if setup.verify u.password_hash password then ok u else err wrong_password

-- `replace(user, password_hash=self._hasher.hash(new_password))`
abbrev pub new_password : Setup → Call → UserRecord → String → UserRecord
new_password setup call user password = record user {
  password_hash = setup.hash call.salt password;
}

-- `self._users.update(replace(user, password_hash=…))`, and the rest of the call
unfoldable pub replace_password :
    {B : Type 0} → Setup → Call → UserRecord → String → State → (State → Answer B) → Answer B
unfolding update_user
replace_password setup call user password st k =
    with_user (new_password setup call user password) st k

unfoldable pub change_password :
    Setup → Call → AuthContext → String → String → State → Answer (Unit {0})
unfolding get_by_id proven check_password replace_password revoke_all_for_user
change_password setup call ctx current new st =
    elim (proven setup current (get_by_id ctx.user_id st.users)) [
      | err e ↦ (err e, audited "auth.password_change_failed" (some ctx.user_id) none st)
      | ok user ↦ after (check_password setup.lower new user.email) st (λ u.
          replace_password setup call user new st (λ st'. (
            ok tt,
            audited "auth.password_changed" (some user.id) none
                (revoke_sessions user.id call.now st'),
          )))
    ]

-- `RESET_TOKEN_TTL`
abbrev pub reset_token_ttl : ℕ
reset_token_ttl = 60 * minute

-- `_new_reset_token`; `by_admin` chooses what the audit trail says.
unfoldable pub new_reset_token : Setup → Call → UserRecord → Bool → State → String × State
new_reset_token setup call user by_admin st =
    let row : ResetTokenRecord = record {
      token_hash = setup.hash_token call.token;
      user_id = user.id;
      expires_at = call.now + reset_token_ttl;
      used_at = none;
    } in
    let stored = record st { resets = st.resets ++ row ∷ [] } in
    (
      call.token,
      if by_admin
          then audited "auth.password_reset_issued" none (some user.id) stored
          else audited "auth.password_reset_requested" (some user.id) (some user.id) stored,
    )

-- The token that a call returns.
abbrev pub as_answer : String × State → Answer String
as_answer (raw, st) = (ok raw, st)

unfoldable pub issue_reset_for_user : Setup → Call → String → State → Answer String
unfolding get_by_id new_reset_token
issue_reset_for_user setup call user_id st = elim (get_by_id user_id st.users) [
  | none ↦ (err user_not_found, st)
  | some u ↦
      if u.is_active
      then as_answer (new_reset_token setup call u true st)
      else (err user_not_found, st)
]

-- The account that `request_password_reset` issues a token for.
unfoldable pub resettable : Option String → List UserRecord → Option UserRecord
unfolding get_by_email
resettable none users = none
resettable (some email) users = elim (get_by_email email users) [
  | none ↦ none
  | some u ↦ if u.is_active then some u else none
]

unfoldable pub request_password_reset : Setup → Call → String → State → Option String × State
unfolding normalize_email resettable new_reset_token
request_password_reset setup call email st =
    elim (resettable (normalize_email setup.lower email) st.users) [
      | none ↦ (none, st)
      | some u ↦ let (raw, st') = new_reset_token setup call u false st in (some raw, st')
    ]

-- The token's row, when it may still be used.
unfoldable pub usable : ℕ → Option ResetTokenRecord → Result AuthError ResetTokenRecord
usable now none = err bad_reset_link
usable now (some r) = if is_some r.used_at || ltb r.expires_at now then err bad_reset_link else ok r

unfoldable pub reset_password : Setup → Call → String → String → State → Answer (Unit {0})
unfolding get_reset usable get_by_id check_password replace_password mark_used revoke_all_for_user
reset_password setup call raw_token new st =
    after (usable call.now (get_reset (setup.hash_token raw_token) st.resets)) st (λ row.
      after (or_raise (get_by_id row.user_id st.users) bad_reset_link) st (λ user.
        after (check_password setup.lower new user.email) st (λ u.
          replace_password setup call user new st (λ st'. (
            ok tt,
            audited "auth.password_reset" (some user.id) none (
                revoke_sessions user.id call.now
                  (record st' { resets = mark_used row.token_hash call.now st'.resets })),
          )))))
