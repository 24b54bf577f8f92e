-- ===== src/Auth/Answers/Identity.antt =====
-- Whom `authenticate` of app/services/auth_service.py takes a token for.
use civiclens.Access.{AuthContext}
use civiclens.Auth.Tables.{UserRecord, get_by_token_hash, get_by_id, update_session}
use civiclens.Auth.State.{Setup, Call, State, session_expired}
use civiclens.Auth.Sessions.{active_user, live_session, authenticate, context_of}
use civiclens.Auth.Session.{is_active, SessionPolicy, SessionRecord, policy_of}
use civiclens.Prelude.{
  ℕ, ◌-◌, ◌≤◌, String, ◌≡◌, sym, ap, ◌↔◌, inl, inr, true, false, Option, none, some, arith,
  Bool-cases, is_empty, ok, ok_injective, some_injective, refl, Result-cases, ◌∙◌, Bool,
  if◌then◌else◌, err,
}

-- The session may be used: it is not revoked, and within both limits of its kind.
abbrev pub IsUsable : SessionPolicy → ℕ → SessionRecord → Type 0
IsUsable policy now s =
    (s.revoked_at ≡ none)
    × (now - s.created_at ≤ (policy_of policy s).absolute)
    × (now - s.last_seen_at ≤ (policy_of policy s).idle)

is_active-IsUsable :
    (policy : SessionPolicy) (now : ℕ) (s : SessionRecord)
    → (is_active s now (policy_of policy s) ≡ true) ↔ IsUsable policy now s
unfolding is_active
is_active-IsUsable policy now s =
    (λ h. within s (policy_of policy s) h, λ h. active s (policy_of policy s) h)
  where
    within :
        (r : SessionRecord) (p : SessionPolicy)
        → is_active r now p ≡ true
        → (r.revoked_at ≡ none)
          × (now - r.created_at ≤ p.absolute)
          × (now - r.last_seen_at ≤ p.idle)
    within r p h = ground arith

    active :
        (r : SessionRecord) (p : SessionPolicy)
        → (r.revoked_at ≡ none)
          × (now - r.created_at ≤ p.absolute)
          × (now - r.last_seen_at ≤ p.idle)
        → is_active r now p ≡ true
    active r p h = ground (arith, h.0, h.1, h.2)

live_session-ok :
    (setup : Setup) (now : ℕ) (o : Option SessionRecord) (s : SessionRecord)
    → live_session setup now o ≡ ok s
    → (o ≡ some s) × IsUsable setup.policy now s
unfolding live_session
live_session-ok setup now none s h = absurd (cc h)
live_session-ok setup now (some r) s h =
    elim (Bool-cases (is_active r now (policy_of setup.policy r))) [
      | inr e ↦ absurd (cc (rw e at h))
      | inl e ↦
          let same : r ≡ s = ok_injective (rw e at h) in
          (ap some same, (is_active-IsUsable setup.policy now s).0 (rw (sym same) e))
    ]

live_session-usable :
    (setup : Setup) (now : ℕ) (s : SessionRecord)
    → IsUsable setup.policy now s
    → live_session setup now (some s) ≡ ok s
unfolding live_session
live_session-usable setup now s h = rw ((is_active-IsUsable setup.policy now s).1 h)

ok_if :
    (b : Bool) (r u : UserRecord)
    → ((if b then ok r else err session_expired) ≡ ok u) ↔ ((r ≡ u) × (b ≡ true))
ok_if true r u = (λ h. (ok_injective h, refl), λ h. ap ok h.0)
ok_if false r u = (λ h. absurd (cc h), λ h. absurd (cc (h.1)))

active_user_iff :
    (o : Option UserRecord) (u : UserRecord)
    → (active_user o ≡ ok u) ↔ ((o ≡ some u) × (u.is_active ≡ true))
unfolding active_user
active_user_iff none u = (λ h. absurd (cc h), λ h. absurd (cc (h.0)))
active_user_iff (some r) u = (
  λ h. let k = (ok_if r.is_active r u).0 h in (ap some k.0, ap (λ x. x.is_active) (sym k.0) ∙ k.1),
  λ h.
      let same : r ≡ u = some_injective h.0 in
      (ok_if r.is_active r u).1 (same, ap (λ x. x.is_active) same ∙ h.1),
)

-- Whom a token stands for.
abbrev pub StandsFor : Setup → ℕ → State → String → AuthContext → Type 0
StandsFor setup now st raw ctx =
    (s : SessionRecord) × (get_by_token_hash (setup.hash_token raw) st.sessions ≡ some s)
    × IsUsable setup.policy now s
    × ((u : UserRecord) × (get_by_id s.user_id st.users ≡ some u)
        × (u.is_active ≡ true)
        × (ctx ≡ context_of u s.mfa_verified))

authenticate-StandsFor :
    (setup : Setup) (call : Call) (raw : String) (st st' : State) (ctx : AuthContext)
    → is_empty raw ≡ false
    → authenticate setup call raw st ≡ (ok ctx, st')
    → StandsFor setup call.now st raw ctx
unfolding authenticate
authenticate-StandsFor setup call raw st st' ctx e h =
    elim (Result-cases
      (live_session setup call.now (get_by_token_hash (setup.hash_token raw) st.sessions))) [
        | inr (x, f) ↦ absurd (cc (rw f at (rw e at h)))
        | inl (s, f) ↦ elim (Result-cases (active_user (get_by_id s.user_id st.users))) [
          | inr (x, g) ↦ absurd (cc (rw g at (rw f at (rw e at h))))
          | inl (u, g) ↦
              let live = live_session-ok setup call.now _ s f in
              let user = (active_user_iff _ u).0 g in
              let same = ok_injective (ap (λ x. x.0) (rw g at (rw f at (rw e at h)))) in
              (s, live.0, live.1, (u, user.0, user.1, sym same))
        ]
      ]

-- The session's last use is noted.
abbrev seen : ℕ → SessionRecord → State → State
seen now s st = record st {
  sessions = update_session (record s { last_seen_at = now }) st.sessions;
}

-- A request is authenticated exactly when its token finds a session that is not revoked, is within
-- the absolute and the idle limit of its kind, and belongs to an active account; the role and the
-- department are those of the account's row.
pub authenticate_iff :
    (setup : Setup) (call : Call) (raw : String) (st : State) (ctx : AuthContext)
    → ((st' : State) × (authenticate setup call raw st ≡ (ok ctx, st')))
      ↔ ((is_empty raw ≡ false) × StandsFor setup call.now st raw ctx)
unfolding authenticate
authenticate_iff setup call raw st ctx = (
  λ (st', h). elim (Bool-cases (is_empty raw)) [
    | inl e ↦ absurd (cc (rw e at h))
    | inr e ↦ (e, authenticate-StandsFor setup call raw st st' ctx e h)
  ],
  λ (e, (s, f, usable, (u, g, active, c))).
      let live = live_session-usable setup call.now s usable in
      let user = (active_user_iff (some u) u).1 (refl, active) in
      (seen call.now s st, rw e (rw f (rw live (rw g (rw user (rw c refl)))))),
)
