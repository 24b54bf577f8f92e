-- ===== src/Auth/Roles/Everyday.antt =====
-- The calls of app/services/auth_service.py that everybody makes, signing in and keeping the
-- password: no role changes.
use civiclens.Auth.Password.{normalize_email}
use civiclens.RateLimit.Throttle.{Throttle}
use civiclens.RateLimit.Sliding.{RateLimited}
use civiclens.Auth.Requests.{state_of}
use civiclens.Auth.Roles.{Changed, kept, written}
use civiclens.Auth.Passwords.{
  replace_password, issue_reset_for_user, request_password_reset, reset_password, change_password,
  usable, proven,
}
use civiclens.Auth.Tables.{
  get_by_email, UserRecord, get_by_id, get_reset, get_by_token_hash, write_user,
}
use civiclens.Auth.Sessions.{
  login, authenticate, signed_in, logout, mark_session_mfa_verified, enter, accepted, live_session,
  active_user, login_keys,
}
use civiclens.Access.{Role, AuthContext}
use civiclens.Auth.State.{Setup, Call, State, Answer, check_password, unlocked, check_keys}
use civiclens.Auth.Rows.{found_by_own_id}
use civiclens.Auth.Keys.{Keyed, Keyed-own}
use civiclens.Prelude.{
  String, ◌≡◌, refl, inl, inr, Option, none, some, List, arith, Bool-cases, Option-cases, is_empty,
  Result, Result-cases, ok, err,
}

-- A row keeps its role.
abbrev pub Kept : Option Role → Role → Type 0
Kept before r = before ≡ some r

module _ (setup : Setup) (call : Call) (st : State) where
  pub accepted-same :
      (p : String) (o : Option UserRecord) {u : UserRecord}
      → accepted setup p o ≡ some u
      → o ≡ some u
  unfolding accepted
  accepted-same p none h = absurd (cc h)
  accepted-same p (some r) h = ground arith

  enter-Changed :
      (p client : String) (keys : List String) (u : UserRecord)
      → get_by_id u.id st.users ≡ some u
      → Changed call.uuid Kept st.users (state_of (enter setup call p client keys u st)).users
  unfolding enter
  enter-Changed p client keys u own = elim (Bool-cases (setup.needs_rehash u.password_hash)) [
    | inl e ↦ rw e (rw own (written u _ own refl refl))
    | inr e ↦ rw e (kept refl)
  ]

  pub replace_password-users :
      {B : Type 0} (u : UserRecord) (new : String) (k : State → Answer B)
      → get_by_id u.id st.users ≡ some u
      → replace_password setup call u new st k
        ≡ k (record st {
          users = write_user (record u { password_hash = setup.hash call.salt new }) st.users;
        })
  unfolding replace_password
  replace_password-users u new k own = rw own

  proven-same :
      (p : String) (o : Option UserRecord) {u : UserRecord} → proven setup p o ≡ ok u → o ≡ some u
  unfolding proven
  proven-same p none h = absurd (cc h)
  proven-same p (some r) h = ground arith

  pub change_password-Changed :
      (ctx : AuthContext) (current new : String)
      → Changed call.uuid Kept st.users
          (state_of (change_password setup call ctx current new st)).users
  unfolding change_password
  change_password-Changed ctx current new =
      elim (Result-cases (proven setup current (get_by_id ctx.user_id st.users))) [
        | inr (x, h) ↦ rw (h, state_of) (kept refl)
        | inl (u, h) ↦ elim (Result-cases (check_password setup.lower new u.email)) [
          | inr (x, g) ↦ rw (h, state_of) (rw (g, state_of) (kept refl))
          | inl (x, g) ↦
              let found = proven-same current (get_by_id ctx.user_id st.users) h in
              let own = found_by_own_id ctx.user_id st.users found in
              rw (h, state_of) (rw (g, state_of) (rw (own, state_of) (written u _ own refl refl)))
        ]
      ]

  pub reset_password-Changed :
      (raw new : String)
      → Changed call.uuid Kept st.users (state_of (reset_password setup call raw new st)).users
  unfolding reset_password
  reset_password-Changed raw new =
      elim (Result-cases (usable call.now (get_reset (setup.hash_token raw) st.resets))) [
        | inr (x, h) ↦ rw h (kept refl)
        | inl (row, h) ↦ elim (Option-cases (get_by_id row.user_id st.users)) [
          | inl e ↦ rw h (rw e (kept refl))
          | inr (u, e) ↦ elim (Result-cases (check_password setup.lower new u.email)) [
            | inr (x, g) ↦ rw h (rw e (rw g (kept refl)))
            | inl (x, g) ↦
                let own = found_by_own_id row.user_id st.users e in
                rw h (rw e (rw g (rw own (written u _ own refl refl))))
          ]
        ]
      ]

  pub authenticate-users :
      (raw : String) → (state_of (authenticate setup call raw st)).users ≡ st.users
  unfolding authenticate
  authenticate-users raw = elim (Bool-cases (is_empty raw)) [
    | inl e ↦ rw e
    | inr e ↦
        elim (Result-cases
          (live_session setup call.now (get_by_token_hash (setup.hash_token raw) st.sessions))) [
            | inr (x, h) ↦ rw e (rw h)
            | inl (s, h) ↦ elim (Result-cases (active_user (get_by_id s.user_id st.users))) [
              | inr (x, g) ↦ rw e (rw h (rw g))
              | inl (u, g) ↦ rw e (rw h (rw g))
            ]
          ]
  ]

  pub verify_mfa-users : (raw : String) → (mark_session_mfa_verified setup raw st).users ≡ st.users
  unfolding mark_session_mfa_verified
  verify_mfa-users raw = ground arith

  pub logout-users : (raw : String) → (logout setup call raw st).users ≡ st.users
  unfolding logout
  logout-users raw = ground arith

  pub issue_reset-users :
      (id : String) → (state_of (issue_reset_for_user setup call id st)).users ≡ st.users
  unfolding issue_reset_for_user
  issue_reset-users id = ground arith

  pub request_reset-users :
      (e : String) → (state_of (request_password_reset setup call e st)).users ≡ st.users
  unfolding request_password_reset
  request_reset-users e = ground arith

module _ (setup : Setup) (call : Call) where
  check_credentials :
      (p client email : String) (keys : List String) (st : State)
      → Keyed st.users
      → Changed call.uuid Kept st.users
          (state_of (signed_in setup call p client email keys st)).users
  unfolding signed_in
  check_credentials p client email keys st keyed =
      elim (Option-cases (accepted setup p (get_by_email email st.users))) [
        | inl e ↦ rw (e, signed_in) (kept refl)
        | inr (u, e) ↦
            let found = accepted-same setup call st p (get_by_email email st.users) e in
            rw (e, signed_in)
              (enter-Changed setup call st p client keys u (Keyed-own _ st.users keyed found))
      ]

  pub login-Changed :
      (e p key client : String) (st : State)
      → Keyed st.users
      → Changed call.uuid Kept st.users (state_of (login setup call e p key client st)).users
  unfolding login
  login-Changed e p key client st keyed = elim (Option-cases (normalize_email setup.lower e)) [
    | inl h ↦ rw h (kept refl)
    | inr (email, h) ↦
        rw h (through email (check_keys (login_keys email key) call.monotonic st.throttle))
  ]
    where
      through :
          (email : String) (r : Result RateLimited (Unit {0}) × Throttle)
          → Changed call.uuid Kept st.users
              (state_of
                (unlocked r st (signed_in setup call p client email (login_keys email key)))).users
      through email (err x, t) = kept refl
      through email (ok x, t) =
          check_credentials p client email (login_keys email key) (record st { throttle = t }) keyed
