-- ===== src/Auth/Roles/Privilege.antt =====
-- Who can hand out a privileged role through app/services/auth_service.py.
use civiclens.Access.Grants.{can_assign_role_iff}
use civiclens.Auth.Roles.{Changed, kept, added, written, sym, role_of, role-Follows, inl, inr}
use civiclens.Auth.State.{Setup, State, Call}
use civiclens.Auth.Tables.{UserRecord, get_by_id}
use civiclens.Access.{
  Role, super_admin, is_privileged_role, AuthContext, can_assign_role, is_super_admin,
}
use civiclens.Auth.Requests.{
  Request, do_bootstrap, perform, do_create_staff, do_register, do_change_role, do_set_active,
  do_login, do_authenticate, do_verify_mfa, do_logout, do_change_password, do_issue_reset,
  do_request_reset, do_reset_password,
}
use civiclens.Auth.Roles.Everyday.{
  login-Changed, authenticate-users, verify_mfa-users, logout-users, change_password-Changed,
  issue_reset-users, request_reset-users, reset_password-Changed,
}
use civiclens.Auth.Roles.Effects.{
  Admits, register-Changed, bootstrap-Changed, create_staff-Changed, change_role-Changed,
  set_active-Changed,
}
use civiclens.Auth.Keys.{Keyed, Keyed-append, Keyed-write}
use civiclens.Prelude.{
  String, ◌≡◌, ap, ◌∙◌, ◌≢◌, ◌↔◌, true, Option, none, some, List, false, arith, sym, some_injective,
  refl, ◌&&◌, not, Bool-cases,
}

request-Changed :
    (setup : Setup) (call : Call) (r : Request) (st : State)
    → Keyed st.users
    → Changed call.uuid (Admits r st) st.users (perform setup call r st).users
unfolding perform
request-Changed setup call (do_register e p n) st k = register-Changed setup call st e p n
request-Changed setup call (do_bootstrap e p n a b) st k = bootstrap-Changed setup call st e p n a b
request-Changed setup call (do_create_staff c e p n role d) st k =
    create_staff-Changed setup call st c e p n role d
request-Changed setup call (do_change_role c id role d) st k =
    change_role-Changed setup call st c id role d
request-Changed setup call (do_set_active c id active) st k =
    set_active-Changed setup call st c id active
request-Changed setup call (do_login e p key client) st k =
    login-Changed setup call e p key client st k
request-Changed setup call (do_authenticate raw) st k = kept (authenticate-users setup call st raw)
request-Changed setup call (do_verify_mfa raw) st k = kept (verify_mfa-users setup call st raw)
request-Changed setup call (do_logout raw) st k = kept (logout-users setup call st raw)
request-Changed setup call (do_change_password c p q) st k =
    change_password-Changed setup call st c p q
request-Changed setup call (do_issue_reset id) st k = kept (issue_reset-users setup call st id)
request-Changed setup call (do_request_reset e) st k = kept (request_reset-users setup call st e)
request-Changed setup call (do_reset_password raw p) st k =
    reset_password-Changed setup call st raw p

Changed-Keyed :
    {uuid : String} {P : Option Role → Role → Type 0} (users users' : List UserRecord)
    → get_by_id uuid users ≡ none
    → Keyed users
    → Changed uuid P users users'
    → Keyed users'
Changed-Keyed users users' fresh k (kept e) = rw e k
Changed-Keyed users users' fresh k (added u own p e) =
    rw e (Keyed-append users u k (ap (λ i. get_by_id i users) own ∙ fresh))
Changed-Keyed users users' fresh k (written old new h p e) = rw e (Keyed-write new users k)

-- Requests from `st` to `st'`, each with an identifier that no user has yet; `Allowed` says which.
pub data Trace (Allowed : Request → Type 0) (setup : Setup) (st : State) : State → Type 0 where
  no_request : Trace Allowed setup st st
  then_request :
      {st' : State} (call : Call) (r : Request)
      → Trace Allowed setup st st'
      → Allowed r
      → get_by_id call.uuid st'.users ≡ none
      → Trace Allowed setup st (perform setup call r st')

-- No actor is a super-admin, and no first administrator is set up.
abbrev pub Unprivileged : Request → Type 0
Unprivileged (do_bootstrap e p n provided expected) = ⊥
Unprivileged (do_create_staff actor e p n role d) = actor.role ≢ super_admin
Unprivileged (do_change_role actor id role d) = actor.role ≢ super_admin
Unprivileged _ = Unit {0}

-- Without a super-admin a role that is handed out is not privileged.
assigned_plain :
    (actor : AuthContext) (target : String) (role : Role)
    → actor.role ≢ super_admin
    → can_assign_role actor target role ≡ true
    → is_privileged_role role ≡ false
unfolding is_privileged_role
assigned_plain actor target role plain h =
    ground (arith, (can_assign_role_iff actor target role).0 h)

is_super_admin-eq : (r : Role) → is_super_admin r ≡ true → r ≡ super_admin
is_super_admin-eq r h = ground arith

held_plain :
    (actor : AuthContext) (o : Role)
    → actor.role ≢ super_admin
    → (is_privileged_role o && not (is_super_admin actor.role)) ≡ false
    → is_privileged_role o ≡ false
held_plain actor o plain h = elim (Bool-cases (is_super_admin actor.role)) [
  | inl e ↦ absurd (plain (is_super_admin-eq actor.role e))
  | inr e ↦ ground (arith, h, e)
]

-- A role that is not privileged, in place of one that is not privileged or of none.
abbrev Plain : Option Role → Type 0
Plain none = Unit {0}
Plain (some r) = is_privileged_role r ≡ false

Plain-differs :
    (o : Option Role) (role : Role) → is_privileged_role role ≡ true → Plain o → o ≢ some role
Plain-differs none role p a e = absurd (cc e)
Plain-differs (some x) role p a e =
    let same : x ≡ role = some_injective e in
    let clash : true ≡ false = sym p ∙ ap is_privileged_role (sym same) ∙ a in absurd (cc clash)

Plain-swap :
    (before later : Option Role) (role : Role)
    → is_privileged_role role ≡ true
    → Plain before
    → Plain later
    → (before ≡ some role) ↔ (later ≡ some role)
Plain-swap before later role p a b =
    (λ e. absurd (Plain-differs before role p a e), λ e. absurd (Plain-differs later role p b e))

-- What an unprivileged request admits touches no privileged role.
Admits-Unprivileged :
    (r : Request) (st : State) (before : Option Role) (new role : Role)
    → Unprivileged r
    → is_privileged_role role ≡ true
    → Admits r st before new
    → (before ≡ some role) ↔ (some new ≡ some role)
unfolding is_privileged_role
Admits-Unprivileged (do_register e w n) st before new role u p h =
    Plain-swap before (some new) role p (rw h.0 tt) (rw h.1 refl)
Admits-Unprivileged (do_bootstrap e w n a b) st before new role u p h = absurd u
Admits-Unprivileged (do_create_staff c e w n r d) st before new role u p h =
    Plain-swap before (some new) role p (rw h.0 tt) (rw h.1 (assigned_plain c "(new)" r u h.2))
Admits-Unprivileged (do_change_role c id r d) st before new role u p h =
    Plain-swap before (some new) role p (rw h.2.1 (held_plain c h.2.0 u h.2.2))
      (rw h.0 (assigned_plain c id r u h.1))
Admits-Unprivileged _ st before new role u p h = (λ e. sym h ∙ e, λ e. h ∙ e)

request-Unprivileged :
    (setup : Setup) (call : Call) (r : Request) (st : State) (id : String) (role : Role)
    → Keyed st.users
    → Unprivileged r
    → is_privileged_role role ≡ true
    → (role_of id st.users ≡ some role) ↔ (role_of id (perform setup call r st).users ≡ some role)
request-Unprivileged setup call r st id role k u p =
    elim (role-Follows (Admits r st) _ _ id (request-Changed setup call r st k)) [
      | inl same ↦ (λ e. same ∙ e, λ e. sym same ∙ e)
      | inr (new, later, h) ↦
          let swap = Admits-Unprivileged r st _ new role u p h in
          (λ e. later ∙ swap.0 e, λ e. swap.1 (sym later ∙ e))
    ]

Trace-Keyed :
    {Allowed : Request → Type 0} {setup : Setup} {st st' : State}
    → Keyed st.users
    → Trace Allowed setup st st'
    → Keyed st'.users
Trace-Keyed k no_request = k
Trace-Keyed {setup = setup} k (then_request call r before allowed fresh) =
    let k' = Trace-Keyed k before in Changed-Keyed _ _ fresh k' (request-Changed setup call r _ k')

-- Without a super-admin among the actors, and without the setup of the first administrator, no
-- sequence of requests makes any account privileged or takes a privileged role from one.
pub privilege_needs_super_admin :
    (setup : Setup) (st st' : State) (id : String) (role : Role)
    → Keyed st.users
    → Trace Unprivileged setup st st'
    → is_privileged_role role ≡ true
    → (role_of id st.users ≡ some role) ↔ (role_of id st'.users ≡ some role)
privilege_needs_super_admin setup st st' id role k no_request p = (λ e. e, λ e. e)
privilege_needs_super_admin setup st st' id role k (then_request call r before allowed fresh) p =
    let first = privilege_needs_super_admin setup st _ id role k before p in
    let last = request-Unprivileged setup call r _ id role (Trace-Keyed k before) allowed p in
    (λ e. last.0 (first.0 e), λ e. first.1 (last.1 e))
