-- ===== src/Auth/Answers/RoundTrips.antt =====
-- From an account to a session and back: app/services/auth_service.py.
use civiclens.Auth.Rows.{get-append}
use civiclens.Auth.Accounts.{register_email, register, new_user, bad_length}
use civiclens.Access.{citizen, AuthContext}
use civiclens.Auth.Answers.Identity.{authenticate_iff}
use civiclens.Auth.Requests.{state_of}
use civiclens.Auth.Session.{policy_of}
use civiclens.Auth.Password.{normalize_email}
use civiclens.RateLimit.Throttle.{Throttle}
use civiclens.Auth.Tables.{UserRecord, get_by_id, get_by_token_hash, get_by_email}
use civiclens.Auth.State.{Setup, Call, State, check_keys, clear_keys, check_password}
use civiclens.Auth.Sessions.{
  open_session, login, login_as, signed_in, accepted, enter, new_session, login_keys, authenticate,
  context_of,
}
use civiclens.Prelude.{
  ◌-◌, ◌≤◌, String, ◌≡◌, true, false, none, some, is_empty, ok, str_eq, refl, eq_iff, ◌++◌, ◌∷◌, [],
  find?-append, ◌∙◌, Result-cases, Option-cases, inl, inr, Bool-cases, strip, ok_injective, ap,
  find?, sym,
}

-- A login with the right password, once the throttle lets it through.
login_ok :
    (setup : Setup) (call : Call) (e email p key client : String) (st : State) (t : Throttle)
    (u : UserRecord)
    → normalize_email setup.lower e ≡ some email
    → check_keys (login_keys email key) call.monotonic st.throttle ≡ (ok tt, t)
    → get_by_email email st.users ≡ some u
    → u.is_active ≡ true
    → setup.verify u.password_hash p ≡ true
    → setup.needs_rehash u.password_hash ≡ false
    → login setup call e p key client st
      ≡ open_session setup call client u
          (record st { throttle = clear_keys (login_keys email key) t })
unfolding login login_as signed_in accepted enter
login_ok setup call e email p key client st t u n c g a v r = rw n (
    rw (c, login_as) (rw (g, signed_in) (rw (a, accepted) (rw (v, accepted) (rw (r, enter) refl)))))

-- A session that was opened is authenticated as its account.
opened_authenticates :
    (setup : Setup) (call call' : Call) (client : String) (st : State) (u : UserRecord)
    → get_by_id u.id st.users ≡ some u
    → u.is_active ≡ true
    → get_by_token_hash (setup.hash_token call.token) st.sessions ≡ none
    → is_empty call.token ≡ false
    → call'.now - call.now ≤ (policy_of setup.policy (new_session setup call u.id client)).absolute
    → call'.now - call.now ≤ (policy_of setup.policy (new_session setup call u.id client)).idle
    → (st' : State) × (authenticate setup call' call.token
          (state_of (open_session setup call client u st))
        ≡ (ok (context_of u true), st'))
unfolding open_session get_by_token_hash
opened_authenticates setup call call' client st u g a fresh filled absolute idle =
    let s = new_session setup call u.id client in
    let own : str_eq s.token_hash s.token_hash ≡ true = (eq_iff _ _).1 refl in
    let found : get_by_token_hash s.token_hash (st.sessions ++ s ∷ []) ≡ some s =
      find?-append (λ x. str_eq x.token_hash s.token_hash) st.sessions (s ∷ [])
      ∙ rw fresh (rw own refl) in
    (authenticate_iff setup call' call.token (state_of (open_session setup call client u st))
        (context_of u true)).1
      (filled, (s, found, (refl, absolute, idle), (u, g, a, refl)))

register_email-eq :
    (setup : Setup) (e p n : String) (st : State) {v : String}
    → register_email setup.lower e p n st ≡ ok v
    → (normalize_email setup.lower e ≡ some v) × (get_by_email v st.users ≡ none)
unfolding register_email
register_email-eq setup e p n st {v} h = elim (Option-cases (normalize_email setup.lower e)) [
  | inl k ↦ absurd (cc (rw k at h))
  | inr (w, k) ↦ elim (Bool-cases (bad_length (strip n))) [
    | inl b ↦ absurd (cc (rw b at (rw k at h)))
    | inr b ↦ elim (Result-cases (check_password setup.lower p w)) [
      | inr (x, c) ↦ absurd (cc (rw c at (rw b at (rw k at h))))
      | inl (x, c) ↦ elim (Option-cases (get_by_email w st.users)) [
        | inr (u, f) ↦ absurd (cc (rw f at (rw c at (rw b at (rw k at h)))))
        | inl f ↦
            let same : w ≡ v = ok_injective (rw f at (rw c at (rw b at (rw k at h)))) in
            (k ∙ ap some same, ap (λ x. get_by_email x st.users) (sym same) ∙ f)
      ]
    ]
  ]
]

-- The account that a registration leaves, and how it is found.
pub record Registered (setup : Setup) (call : Call) (e p : String) (st st' : State) (u : UserRecord)
    : Type 0 where
  pub normal : normalize_email setup.lower e ≡ some u.email
  pub by_email : get_by_email u.email st'.users ≡ some u
  pub by_id : get_by_id u.id st.users ≡ none → get_by_id u.id st'.users ≡ some u
  pub hashed : u.password_hash ≡ setup.hash call.salt p
  pub active : u.is_active ≡ true
  pub citizenship : u.role ≡ citizen
  pub kept_sessions : st'.sessions ≡ st.sessions

register-Registered :
    (setup : Setup) (call : Call) (e p n : String) (st st' : State) (u : UserRecord)
    → register setup call e p n st ≡ (ok u, st')
    → Registered setup call e p st st' u
unfolding register get_by_email
register-Registered setup call e p n st st' u h =
    elim (Result-cases (register_email setup.lower e p n st)) [
      | inr (x, g) ↦ absurd (cc (rw g at h))
      | inl (v, g) ↦
          let facts = register_email-eq setup e p n st g in
          let k = rw g at h in
          let made : UserRecord = new_user setup call v p (strip n) citizen none in
          let same : made ≡ u = ok_injective (ap (λ y. y.0) k) in
          let users : st.users ++ made ∷ [] ≡ st'.users = ap (λ y. y.1.users) k in
          let sessions : st.sessions ≡ st'.sessions = ap (λ y. y.1.sessions) k in
          let mine : str_eq v v ≡ true = (eq_iff v v).1 refl in
          let own : str_eq made.id made.id ≡ true = (eq_iff _ _).1 refl in
          let at_email : find? (λ x. str_eq x.email v) (st.users ++ made ∷ []) ≡ some made =
            find?-append (λ x. str_eq x.email v) st.users (made ∷ []) ∙ rw facts.1 (rw mine refl) in
          along same (record {
            normal = facts.0;
            by_email = ap (λ t. find? (λ x. str_eq x.email v) t) (sym users) ∙ at_email;
            by_id = λ fresh.
                ap (get_by_id made.id) (sym users)
                ∙ get-append made.id st.users made
                ∙ rw fresh (rw own refl);
            hashed = refl;
            active = refl;
            citizenship = refl;
            kept_sessions = sym sessions;
          })
    ]
  where
    along :
        {a b : UserRecord}
        → a ≡ b
        → Registered setup call e p st st' a
        → Registered setup call e p st st' b
    along e r = rw⁻¹ e r

-- Registering, signing in and showing the token come round: with the registered password and the
-- e-mail address as it was typed, a client that is not locked out is signed in, and within both
-- limits of the session the token is authenticated as that account, a citizen.
pub register-login-authenticate :
    (setup : Setup) (call call' call'' : Call) (e p n key client : String) (st st' : State)
    (u : UserRecord) (t : Throttle)
    → register setup call e p n st ≡ (ok u, st')
    → get_by_id u.id st.users ≡ none
    → setup.verify (setup.hash call.salt p) p ≡ true
    → setup.needs_rehash (setup.hash call.salt p) ≡ false
    → check_keys (login_keys u.email key) call'.monotonic st'.throttle ≡ (ok tt, t)
    → get_by_token_hash (setup.hash_token call'.token) st.sessions ≡ none
    → is_empty call'.token ≡ false
    → call''.now - call'.now
      ≤ (policy_of setup.policy (new_session setup call' u.id client)).absolute
    → call''.now - call'.now ≤ (policy_of setup.policy (new_session setup call' u.id client)).idle
    → (st1 : State) × (st2 : State) × (ctx : AuthContext) × (login setup call' e p key client st'
        ≡ (ok (record { session_token = call'.token; context = ctx }), st1))
      × (authenticate setup call'' call'.token st1 ≡ (ok ctx, st2))
      × (ctx.user_id ≡ u.id)
      × (ctx.role ≡ citizen)
unfolding open_session
register-login-authenticate setup call call' call'' e p n key client st st' u t made new right plain
      free fresh filled absolute idle =
    let r = register-Registered setup call e p n st st' u made in
    let cleared = record st' { throttle = clear_keys (login_keys u.email key) t } in
    let verified = ap (λ h. setup.verify h p) r.hashed ∙ right in
    let kept = ap setup.needs_rehash r.hashed ∙ plain in
    let entered =
      login_ok setup call' e u.email p key client st' t u r.normal free r.by_email r.active verified
        kept in
    let unseen = ap (get_by_token_hash (setup.hash_token call'.token)) r.kept_sessions ∙ fresh in
    let back =
      opened_authenticates setup call' call'' client cleared u (r.by_id new) r.active unseen filled
        absolute idle in
    (_, back.0, context_of u true, entered, back.1, refl, r.citizenship)
