-- ===== src/Auth/Answers.antt =====
-- What the calls of app/services/auth_service.py answer.
pub mod Identity
pub mod Resets
pub mod RoundTrips
use civiclens.Auth.Roles.Everyday.{accepted-same}
use civiclens.Auth.Password.{normalize_email}
use civiclens.RateLimit.Throttle.{Throttle}
use civiclens.Access.{super_admin}
use civiclens.Auth.Sessions.{signed_in, enter, open_session, accepted, login, fail, login_keys}
use civiclens.RateLimit.Sliding.{RateLimited}
use civiclens.Auth.Accounts.{bootstrap_first_admin, new_email}
use civiclens.Auth.State.{
  AuthError, Setup, Call, bad_credentials, State, bad_setup_token, locked_out, audited,
  setup_completed, unlocked, check_keys,
}
use civiclens.Auth.Tables.{count_with_role, same_role, UserRecord, get_by_email}
use civiclens.Auth.Keys.{Keyed, Keyed-own}
use civiclens.Prelude.{
  String, ◌≡◌, refl, sym, ap, ◌∙◌, ◌⊎◌, inl, inr, true, not, ◌||◌, none, List, [], ◌∷◌, ◌++◌, arith,
  ltb, Bool-cases, Option-cases, str_eq, is_empty, ok, err, Result-cases, Result, err_injective,
}

count-added :
    (users : List UserRecord) (u : UserRecord)
    → u.role ≡ super_admin
    → ltb 0 (count_with_role super_admin (users ++ u ∷ [])) ≡ true
unfolding count_with_role same_role
count-added [] u e = rw e refl
count-added (r ∷ t) u e = elim (Bool-cases (same_role r.role super_admin)) [
  | inl h ↦ rw h (ground arith)
  | inr h ↦ rw h (count-added t u e)
]

-- A setup that succeeds leaves a super-admin in the table.
bootstrap-counted :
    (setup : Setup) (call : Call) (e p n a b : String) (st st' : State) (u : UserRecord)
    → bootstrap_first_admin setup call e p n a b st ≡ (ok u, st')
    → ltb 0 (count_with_role super_admin st'.users) ≡ true
unfolding bootstrap_first_admin
bootstrap-counted setup call e p n a b st st' u h =
    elim (Bool-cases (is_empty b || not (str_eq a b))) [
      | inl k ↦ absurd (cc (rw k at h))
      | inr k ↦ elim (Bool-cases (ltb 0 (count_with_role super_admin st.users))) [
        | inl m ↦ absurd (cc (rw m at (rw k at h)))
        | inr m ↦ elim (Result-cases (new_email setup.lower e p st)) [
          | inr (x, g) ↦ absurd (cc (rw g at (rw m at (rw k at h))))
          | inl (v, g) ↦
              let same = ap (λ x. x.1.users) (rw g at (rw m at (rw k at h))) in
              ap (λ t. ltb 0 (count_with_role super_admin t)) (sym same)
              ∙ count-added st.users _ refl
        ]
      ]
    ]

-- Once the first administrator is set up, the setup is refused whatever the input, and no account
-- is added.
pub bootstrap_once :
    (setup : Setup) (call call' : Call) (e p n a b e' p' n' a' b' : String) (st st' : State)
    (u : UserRecord)
    → bootstrap_first_admin setup call e p n a b st ≡ (ok u, st')
    → (x : AuthError) × (st'' : State) × (bootstrap_first_admin setup call' e' p' n' a' b' st'
        ≡ (err x, st''))
      × (st''.users ≡ st'.users)
unfolding bootstrap_first_admin
bootstrap_once setup call call' e p n a b e' p' n' a' b' st st' u h =
    let full = bootstrap-counted setup call e p n a b st st' u h in
    elim (Bool-cases (is_empty b' || not (str_eq a' b'))) [
      | inl k ↦ (bad_setup_token, audited "admin.bootstrap_denied" none none st', rw k refl, refl)
      | inr k ↦ (setup_completed, st', rw k (rw full refl), refl)
    ]

-- What a failed login may say.
abbrev pub IsGeneric : AuthError → Type 0
IsGeneric x = (x ≡ bad_credentials) ⊎ ((w : RateLimited) × (x ≡ locked_out w))

module _ (setup : Setup) (call : Call) where
  signed_in_errors :
      (p client email : String) (keys : List String) (st st' : State) (x : AuthError)
      → Keyed st.users
      → signed_in setup call p client email keys st ≡ (err x, st')
      → (x ≡ bad_credentials) × (st'.users ≡ st.users) × (st'.sessions ≡ st.sessions)
  unfolding signed_in enter open_session fail get_by_email
  signed_in_errors p client email keys st st' x keyed h =
      elim (Option-cases (accepted setup p (get_by_email email st.users))) [
        | inl e ↦
            let k = rw (e, signed_in) at h in
            (
              sym (err_injective (ap (λ y. y.0) k)),
              sym (ap (λ y. y.1.users) k),
              sym (ap (λ y. y.1.sessions) k),
            )
        | inr (u, e) ↦
            let found = accepted-same setup call st p _ e in
            let own = Keyed-own _ st.users keyed found in
            let k = rw (e, signed_in) at h in
            elim (Bool-cases (setup.needs_rehash u.password_hash)) [
              | inl r ↦ absurd (cc (rw (own, enter) at (rw (r, enter) at k)))
              | inr r ↦ absurd (cc (rw (r, enter) at k))
            ]
      ]

  login_through :
      (p client email : String) (keys : List String) (st st' : State) (x : AuthError)
      (r : Result RateLimited (Unit {0}) × Throttle)
      → Keyed st.users
      → unlocked r st (signed_in setup call p client email keys) ≡ (err x, st')
      → IsGeneric x × (st'.users ≡ st.users) × (st'.sessions ≡ st.sessions)
  login_through p client email keys st st' x (err w, t) keyed h = (
    inr (w, sym (err_injective (ap (λ y. y.0) h))),
    sym (ap (λ y. y.1.users) h),
    sym (ap (λ y. y.1.sessions) h),
  )
  login_through p client email keys st st' x (ok u, t) keyed h =
      let k = signed_in_errors p client email keys (record st { throttle = t }) st' x keyed h in
      (inl k.0, k.1, k.2)

  -- A call of `login` that fails, for whatever reason, says that the credentials are bad or that the
  -- client is locked out, never that a second factor is missing, and leaves every account and session
  -- as it was.
  pub login_errors :
      (e p key client : String) (st st' : State) (x : AuthError)
      → Keyed st.users
      → login setup call e p key client st ≡ (err x, st')
      → IsGeneric x × (st'.users ≡ st.users) × (st'.sessions ≡ st.sessions)
  unfolding login
  login_errors e p key client st st' x keyed h =
      elim (Option-cases (normalize_email setup.lower e)) [
        | inl n ↦
            let k = rw n at h in
            (
              inl (sym (err_injective (ap (λ y. y.0) k))),
              sym (ap (λ y. y.1.users) k),
              sym (ap (λ y. y.1.sessions) k),
            )
        | inr (email, n) ↦
            login_through p client email (login_keys email key) st st' x
              (check_keys (login_keys email key) call.monotonic st.throttle) keyed (rw n at h)
      ]
