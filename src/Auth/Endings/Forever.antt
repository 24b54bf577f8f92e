-- ===== src/Auth/Endings/Forever.antt =====
-- A session of app/services/auth_service.py that has ended never comes back.
use civiclens.Auth.Password.{normalize_email}
use civiclens.Auth.Passwords.{issue_reset_for_user, request_password_reset}
use civiclens.RateLimit.Throttle.{Throttle}
use civiclens.RateLimit.Sliding.{RateLimited}
use civiclens.Auth.Accounts.{register, bootstrap_first_admin, create_staff}
use civiclens.Auth.Tables.{UserRecord, get_by_token_hash, update_user, get_by_email}
use civiclens.Auth.Requests.{
  Request, perform, perform_all, state_of, do_register, do_bootstrap, do_create_staff,
  do_change_role, do_set_active, do_login, do_authenticate, do_verify_mfa, do_logout,
  do_change_password, do_issue_reset, do_request_reset, do_reset_password,
}
use civiclens.Auth.Endings.{
  FindsSession, Revoked, Moved, Moved-keeps, opened, some, unmoved, sym, ap,
}
use civiclens.Auth.State.{Setup, Call, State, AuthError, session_expired, unlocked, check_keys}
use civiclens.Auth.Sessions.{
  live_session, authenticate, login, enter, signed_in, fail, open_session, accepted, rehashed,
  login_keys,
}
use civiclens.Auth.Session.{is_active, SessionRecord, policy_of}
use civiclens.Auth.Endings.Effects.{
  authenticate-Moved, verify_mfa-Moved, logout-Moved, change_role-Moved, set_active-Moved,
  change_password-Moved, reset_password-Moved, live_session-same,
}
use civiclens.Prelude.{
  String, ◌≡◌, refl, ◌≢◌, inl, inr, false, List, [], ◌∷◌, arith, Bool-cases, Option-cases, All,
  is_empty, Result, ok, err, Result-cases, ℕ, Option, none, All-find, str_eq, some_injective, sym,
  ◌∙◌, ap, is_some,
}

module _ (setup : Setup) (call : Call) where
  enter-Moved :
      (p client : String) (keys : List String) (u : UserRecord) (st : State)
      → Moved call.uuid st.sessions (state_of (enter setup call p client keys u st)).sessions
  unfolding enter open_session
  enter-Moved p client keys u st = elim (Bool-cases (setup.needs_rehash u.password_hash)) [
    | inr e ↦ rw e (opened _ refl refl)
    | inl e ↦ elim (Option-cases (update_user (rehashed setup call p u) st.users)) [
      | inl g ↦ rw e (rw g (unmoved refl))
      | inr (t, g) ↦ rw e (rw g (opened _ refl refl))
    ]
  ]

  signed_in-Moved :
      (p client email : String) (keys : List String) (st : State)
      → Moved call.uuid st.sessions
          (state_of (signed_in setup call p client email keys st)).sessions
  unfolding signed_in fail
  signed_in-Moved p client email keys st =
      elim (Option-cases (accepted setup p (get_by_email email st.users))) [
        | inl e ↦ rw (e, signed_in) (unmoved refl)
        | inr (u, e) ↦ rw (e, signed_in) (enter-Moved p client keys u st)
      ]

  login-Moved :
      (e p key client : String) (st : State)
      → Moved call.uuid st.sessions (state_of (login setup call e p key client st)).sessions
  unfolding login
  login-Moved e p key client st = elim (Option-cases (normalize_email setup.lower e)) [
    | inl h ↦ rw h (unmoved refl)
    | inr (email, h) ↦
        rw h (through email (check_keys (login_keys email key) call.monotonic st.throttle))
  ]
    where
      through :
          (email : String) (r : Result RateLimited (Unit {0}) × Throttle)
          → Moved call.uuid st.sessions
              (state_of (
                unlocked r st
                  (signed_in setup call p client email (login_keys email key)))).sessions
      through email (err x, t) = unmoved refl
      through email (ok x, t) =
          signed_in-Moved p client email (login_keys email key) (record st { throttle = t })

  request-Moved :
      (r : Request) (st : State) → Moved call.uuid st.sessions (perform setup call r st).sessions
  unfolding perform register bootstrap_first_admin create_staff issue_reset_for_user
      request_password_reset
  request-Moved (do_register e p n) st = unmoved (ground arith)
  request-Moved (do_bootstrap e p n a b) st = unmoved (ground arith)
  request-Moved (do_create_staff c e p n role d) st = unmoved (ground arith)
  request-Moved (do_change_role c id role d) st = change_role-Moved setup call st c id role d
  request-Moved (do_set_active c id active) st = set_active-Moved setup call st c id active
  request-Moved (do_login e p key client) st = login-Moved e p key client st
  request-Moved (do_authenticate raw) st = authenticate-Moved setup call st raw
  request-Moved (do_verify_mfa raw) st = verify_mfa-Moved setup call st raw
  request-Moved (do_logout raw) st = logout-Moved setup call st raw
  request-Moved (do_change_password c p q) st = change_password-Moved setup call st c p q
  request-Moved (do_issue_reset id) st = unmoved (ground arith)
  request-Moved (do_request_reset e) st = unmoved (ground arith)
  request-Moved (do_reset_password raw p) st = reset_password-Moved setup call st raw p

-- No call draws the identifier `i`.
abbrev Avoids : String → List (Call × Request) → Type 0
Avoids i rs = All (λ c. c.0.uuid ≢ i) rs

requests-keep :
    (setup : Setup) (h i : String) (rs : List (Call × Request)) (st : State)
    → Avoids i rs
    → Revoked i st.sessions × FindsSession h i st.sessions
    → Revoked i (perform_all setup rs st).sessions
      × FindsSession h i (perform_all setup rs st).sessions
unfolding perform_all
requests-keep setup h i [] st a d = d
requests-keep setup h i ((call, r) ∷ rs) st a d =
    requests-keep setup h i rs (perform setup call r st) a.1
      (Moved-keeps h i call.uuid _ _ a.0 (request-Moved setup call r st) d)

live_session-error :
    (setup : Setup) (now : ℕ) (o : Option SessionRecord) {x : AuthError}
    → live_session setup now o ≡ err x
    → x ≡ session_expired
unfolding live_session
live_session-error setup now none h = cc
live_session-error setup now (some s) h =
    elim (Bool-cases (is_active s now (policy_of setup.policy s))) [
      | inl e ↦ absurd (cc (rw e at h))
      | inr e ↦ let k : err session_expired ≡ err _ = rw e at h in cc
    ]

-- Once the session that a token belongs to is revoked, the token is refused after any requests,
-- whatever they are, whose new rows have other identifiers.
pub ended_session_refused :
    (setup : Setup) (raw i : String) (rs : List (Call × Request)) (call : Call) (st : State)
    → Revoked i st.sessions
    → FindsSession (setup.hash_token raw) i st.sessions
    → Avoids i rs
    → is_empty raw ≡ false
    → authenticate setup call raw (perform_all setup rs st)
      ≡ (err session_expired, perform_all setup rs st)
unfolding authenticate FindsSession
ended_session_refused setup raw i rs call st r f a filled =
    let d = requests-keep setup (setup.hash_token raw) i rs st a (r, f) in
    let sessions = (perform_all setup rs st).sessions in
    elim (Result-cases
      (live_session setup call.now (get_by_token_hash (setup.hash_token raw) sessions))) [
        | inl (s, h) ↦
            let live = live_session-same setup call st call.now _ h in
            let dead =
              All-find _ (λ s. str_eq s.token_hash (setup.hash_token raw)) sessions d.0 live.0 in
            let same : d.1.0 ≡ s = some_injective (sym d.1.1 ∙ live.0) in
            let revoked = dead (ap (λ x. x.id) (sym same) ∙ d.1.2) in
            absurd (cc (sym revoked ∙ ap is_some live.1))
        | inr (x, h) ↦
            let why = live_session-error setup call.now _ h in
            rw filled (rw h (ap (λ y. (err y, perform_all setup rs st)) why))
      ]
