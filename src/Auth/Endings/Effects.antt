-- ===== src/Auth/Endings/Effects.antt =====
-- The table of sessions after each call of app/services/auth_service.py.
use civiclens.Auth.Passwords.{
  change_password, reset_password, replace_password, usable, proven, new_password,
}
use civiclens.Auth.Session.{is_active, SessionRecord}
use civiclens.Auth.Requests.{state_of}
use civiclens.Access.{AuthContext, Role, can_assign_role, is_privileged_role, is_super_admin}
use civiclens.Auth.Endings.{Moved, unmoved, stored, closed, true}
use civiclens.Auth.Accounts.{
  change_role, is_officer, no_department, set_active, changed_role, other_account,
}
use civiclens.Auth.Tables.{get_by_token_hash, get_by_id, update_user, get_reset}
use civiclens.Auth.Sessions.{
  mark_session_mfa_verified, logout, authenticate, live_session, active_user,
}
use civiclens.Auth.State.{Setup, Call, State, check_password}
use civiclens.Prelude.{
  ℕ, String, ◌≡◌, refl, sym, ap, inl, inr, not, ◌&&◌, Option, none, some, arith, Bool-cases,
  Option-cases, is_empty, ok, Result-cases, true, Bool,
}

module _ (setup : Setup) (call : Call) (st : State) where
  pub live_session-same :
      (now : ℕ) (o : Option SessionRecord) {s : SessionRecord}
      → live_session setup now o ≡ ok s
      → (o ≡ some s) × (s.revoked_at ≡ none)
  unfolding live_session is_active
  live_session-same now none h = absurd (cc h)
  live_session-same now (some r) {s} h = elim (Option-cases r.revoked_at) [
    | inl e ↦ let same : r ≡ s = ground arith in (ap some same, rw (sym same) e)
    | inr (at, e) ↦ absurd (cc (rw e at h))
  ]

  pub authenticate-Moved :
      (raw : String)
      → Moved call.uuid st.sessions (state_of (authenticate setup call raw st)).sessions
  unfolding authenticate
  authenticate-Moved raw = elim (Bool-cases (is_empty raw)) [
    | inl e ↦ rw e (unmoved refl)
    | inr e ↦
        elim (Result-cases
          (live_session setup call.now (get_by_token_hash (setup.hash_token raw) st.sessions))) [
            | inr (x, h) ↦ rw e (rw h (unmoved refl))
            | inl (s, h) ↦ elim (Result-cases (active_user (get_by_id s.user_id st.users))) [
              | inr (x, g) ↦ rw e (rw h (rw g (unmoved refl)))
              | inl (u, g) ↦
                  let found = live_session-same call.now _ h in
                  rw e (
                    rw h (
                      rw g (
                        stored (setup.hash_token raw) s (record s { last_seen_at = call.now })
                          found.0 found.1 refl refl)))
            ]
          ]
  ]

  pub verify_mfa-Moved :
      (raw : String) → Moved call.uuid st.sessions (mark_session_mfa_verified setup raw st).sessions
  unfolding mark_session_mfa_verified
  verify_mfa-Moved raw =
      elim (Option-cases (get_by_token_hash (setup.hash_token raw) st.sessions)) [
        | inl h ↦ rw (h, mark_session_mfa_verified) (unmoved refl)
        | inr (s, h) ↦ elim (Option-cases s.revoked_at) [
          | inl e ↦
              rw (h, mark_session_mfa_verified)
                (rw e (
                  stored (setup.hash_token raw) s
                    (record s { mfa_verified = true; revoked_at = none }) h e refl refl))
          | inr (at, e) ↦ rw (h, mark_session_mfa_verified) (rw e (unmoved refl))
        ]
      ]

  pub logout-Moved :
      (raw : String) → Moved call.uuid st.sessions (logout setup call raw st).sessions
  unfolding logout
  logout-Moved raw = elim (Bool-cases (is_empty raw)) [
    | inl b ↦ rw b (unmoved refl)
    | inr b ↦ elim (Option-cases (get_by_token_hash (setup.hash_token raw) st.sessions)) [
      | inl h ↦ rw b (rw h (unmoved refl))
      | inr (s, h) ↦ elim (Option-cases s.revoked_at) [
        | inl e ↦ rw b (
            rw h (
              rw e (
                stored (setup.hash_token raw) s (record s { revoked_at = some call.now }) h e refl
                  refl)))
        | inr (at, e) ↦ rw b (rw h (rw e (unmoved refl)))
      ]
    ]
  ]

  pub change_role-Moved :
      (actor : AuthContext) (id : String) (role : Role) (d : Option String)
      → Moved call.uuid st.sessions (state_of (change_role call actor id role d st)).sessions
  unfolding change_role
  change_role-Moved actor id role d = elim (Bool-cases (can_assign_role actor id role)) [
    | inr h ↦ rw h (unmoved refl)
    | inl h ↦ elim (Option-cases (get_by_id id st.users)) [
      | inl g ↦ rw h (rw g (unmoved refl))
      | inr (u, g) ↦
          elim (Bool-cases (is_privileged_role u.role && not (is_super_admin actor.role))) [
            | inl k ↦ rw h (rw g (rw k (unmoved refl)))
            | inr k ↦ elim (Bool-cases (is_officer role && no_department d)) [
              | inl m ↦ rw h (rw g (rw k (rw m (unmoved refl))))
              | inr m ↦ elim (Option-cases (update_user (changed_role u role d) st.users)) [
                | inl e ↦ rw h (rw g (rw k (rw m (rw e (unmoved refl)))))
                | inr (t, e) ↦ rw h (rw g (rw k (rw m (rw e (closed id call.now refl)))))
              ]
            ]
          ]
    ]
  ]

  pub set_active-Moved :
      (actor : AuthContext) (id : String) (active : Bool)
      → Moved call.uuid st.sessions (state_of (set_active call actor id active st)).sessions
  unfolding set_active
  set_active-Moved actor id active =
      elim (Result-cases (other_account actor id (get_by_id id st.users))) [
        | inr (x, h) ↦ rw h (unmoved refl)
        | inl (u, h) ↦
            elim (Bool-cases (is_privileged_role u.role && not (is_super_admin actor.role))) [
              | inl k ↦ rw h (rw k (unmoved refl))
              | inr k ↦
                  elim (Option-cases (update_user (record u { is_active = active }) st.users)) [
                    | inl e ↦ rw h (rw k (rw e (unmoved refl)))
                    | inr (t, e) ↦ elim (Bool-cases active) [
                      | inl a ↦ rw h (rw k (rw e (rw a (unmoved refl))))
                      | inr a ↦ rw h (rw k (rw e (rw a (closed id call.now refl))))
                    ]
                  ]
            ]
      ]

  pub change_password-Moved :
      (ctx : AuthContext) (current new : String)
      → Moved call.uuid st.sessions
          (state_of (change_password setup call ctx current new st)).sessions
  unfolding change_password replace_password
  change_password-Moved ctx current new =
      elim (Result-cases (proven setup current (get_by_id ctx.user_id st.users))) [
        | inr (x, h) ↦ rw (h, state_of) (unmoved refl)
        | inl (u, h) ↦ elim (Result-cases (check_password setup.lower new u.email)) [
          | inr (x, g) ↦ rw (h, state_of) (rw (g, state_of) (unmoved refl))
          | inl (x, g) ↦
              elim (Option-cases (update_user (new_password setup call u new) st.users)) [
                | inl e ↦ rw (h, state_of) (rw (g, state_of) (rw (e, state_of) (unmoved refl)))
                | inr (t, e) ↦
                    rw (h, state_of)
                      (rw (g, state_of) (rw (e, state_of) (closed u.id call.now refl)))
              ]
        ]
      ]

  pub reset_password-Moved :
      (raw new : String)
      → Moved call.uuid st.sessions (state_of (reset_password setup call raw new st)).sessions
  unfolding reset_password replace_password
  reset_password-Moved raw new =
      elim (Result-cases (usable call.now (get_reset (setup.hash_token raw) st.resets))) [
        | inr (x, h) ↦ rw h (unmoved refl)
        | inl (row, h) ↦ elim (Option-cases (get_by_id row.user_id st.users)) [
          | inl f ↦ rw h (rw f (unmoved refl))
          | inr (u, f) ↦ elim (Result-cases (check_password setup.lower new u.email)) [
            | inr (x, g) ↦ rw h (rw f (rw g (unmoved refl)))
            | inl (x, g) ↦
                elim (Option-cases (update_user (new_password setup call u new) st.users)) [
                  | inl e ↦ rw h (rw f (rw g (rw e (unmoved refl))))
                  | inr (t, e) ↦ rw h (rw f (rw g (rw e (closed u.id call.now refl))))
                ]
          ]
        ]
      ]
