-- ===== src/Auth/Roles/Effects.antt =====
-- The table of users after each call of app/services/auth_service.py.
use civiclens.Auth.Rows.{found_by_own_id}
use civiclens.Auth.Tables.{count_with_role, get_by_id}
use civiclens.Auth.Roles.{Changed, kept, added, written}
use civiclens.Access.{
  Role, AuthContext, citizen, super_admin, can_assign_role, is_privileged_role, is_super_admin,
}
use civiclens.Auth.Accounts.{
  register, change_role, bootstrap_first_admin, create_staff, is_citizen, register_email,
  is_officer, new_email, no_department, set_active,
}
use civiclens.Auth.Requests.{
  Request, do_register, do_change_role, do_bootstrap, state_of, do_create_staff, do_set_active,
}
use civiclens.Auth.State.{Setup, State, Call}
use civiclens.Prelude.{
  String, ◌≡◌, refl, inl, inr, true, false, not, ◌&&◌, ◌||◌, Option, none, some, arith, eq_iff, ltb,
  Bool-cases, Option-cases, str_eq, is_empty, Result-cases, Bool,
}

-- The roles that a request can put into a row: of the row's role before, if any, and the new role.
abbrev pub Admits : Request → State → Option Role → Role → Type 0
Admits (do_register e p n) st before r = (before ≡ none) × (r ≡ citizen)
Admits (do_bootstrap e p n provided expected) st before r =
    (before ≡ none)
    × (r ≡ super_admin)
    × (provided ≡ expected)
    × (count_with_role super_admin st.users ≡ 0)
Admits (do_create_staff actor e p n role d) st before r =
    (before ≡ none) × (r ≡ role) × (can_assign_role actor "(new)" role ≡ true)
Admits (do_change_role actor id role d) st before r =
    (r ≡ role)
    × (can_assign_role actor id role ≡ true)
    × ((o : Role) × (before ≡ some o)
        × ((is_privileged_role o && not (is_super_admin actor.role)) ≡ false))
Admits _ st before r = before ≡ some r

module _ (setup : Setup) (call : Call) (st : State) where
  pub register-Changed :
      (e p n : String)
      → Changed call.uuid
          (Admits (do_register e p n) st)
          st.users
          (state_of (register setup call e p n st)).users
  unfolding register
  register-Changed e p n = elim (Result-cases (register_email setup.lower e p n st)) [
    | inl (v, h) ↦ rw h (added _ refl (refl, refl) refl)
    | inr (x, h) ↦ rw h (kept refl)
  ]

  pub bootstrap-Changed :
      (e p n provided expected : String)
      → Changed call.uuid
          (Admits (do_bootstrap e p n provided expected) st)
          st.users
          (state_of (bootstrap_first_admin setup call e p n provided expected st)).users
  unfolding bootstrap_first_admin
  bootstrap-Changed e p n provided expected =
      elim (Bool-cases (is_empty expected || not (str_eq provided expected))) [
        | inl h ↦ rw h (kept refl)
        | inr h ↦ elim (Bool-cases (ltb 0 (count_with_role super_admin st.users))) [
          | inl k ↦ rw h (rw k (kept refl))
          | inr k ↦ elim (Result-cases (new_email setup.lower e p st)) [
            | inl (v, g) ↦ rw h (
                rw k (
                  rw g (
                    added _ refl
                      (refl, refl, ground (arith, eq_iff provided expected), ground arith) refl)))
            | inr (x, g) ↦ rw h (rw k (rw g (kept refl)))
          ]
        ]
      ]

  pub create_staff-Changed :
      (actor : AuthContext) (e p n : String) (role : Role) (d : Option String)
      → Changed call.uuid
          (Admits (do_create_staff actor e p n role d) st)
          st.users
          (state_of (create_staff setup call actor e p n role d st)).users
  unfolding create_staff
  create_staff-Changed actor e p n role d =
      elim (Bool-cases (is_citizen role || not (can_assign_role actor "(new)" role))) [
        | inl h ↦ rw h (kept refl)
        | inr h ↦ elim (Bool-cases (is_officer role && no_department d)) [
          | inl k ↦ rw h (rw k (kept refl))
          | inr k ↦ elim (Result-cases (new_email setup.lower e p st)) [
            | inl (v, g) ↦ rw h (rw k (rw g (added _ refl (refl, refl, ground arith) refl)))
            | inr (x, g) ↦ rw h (rw k (rw g (kept refl)))
          ]
        ]
      ]

  pub change_role-Changed :
      (actor : AuthContext) (id : String) (role : Role) (d : Option String)
      → Changed call.uuid
          (Admits (do_change_role actor id role d) st)
          st.users
          (state_of (change_role call actor id role d st)).users
  unfolding change_role
  change_role-Changed actor id role d = elim (Bool-cases (can_assign_role actor id role)) [
    | inr h ↦ rw h (kept refl)
    | inl h ↦ elim (Option-cases (get_by_id id st.users)) [
      | inl g ↦ rw h (rw g (kept refl))
      | inr (u, g) ↦
          elim (Bool-cases (is_privileged_role u.role && not (is_super_admin actor.role))) [
            | inl k ↦ rw h (rw g (rw k (kept refl)))
            | inr k ↦ elim (Bool-cases (is_officer role && no_department d)) [
              | inl m ↦ rw h (rw g (rw k (rw m (kept refl))))
              | inr m ↦
                  let own = found_by_own_id id st.users g in
                  rw h (
                    rw g (rw k (rw m (rw own (written u _ own (refl, h, (u.role, refl, k)) refl)))))
            ]
          ]
    ]
  ]

  pub set_active-Changed :
      (actor : AuthContext) (id : String) (active : Bool)
      → Changed call.uuid
          (Admits (do_set_active actor id active) st)
          st.users
          (state_of (set_active call actor id active st)).users
  unfolding set_active
  set_active-Changed actor id active = elim (Option-cases (get_by_id id st.users)) [
    | inl g ↦ rw g (kept refl)
    | inr (u, g) ↦ elim (Bool-cases (str_eq id actor.user_id)) [
      | inl h ↦ rw g (rw h (kept refl))
      | inr h ↦ elim (Bool-cases (is_privileged_role u.role && not (is_super_admin actor.role))) [
        | inl k ↦ rw g (rw h (rw k (kept refl)))
        | inr k ↦
            let own = found_by_own_id id st.users g in
            elim (Bool-cases active) [
              | inl a ↦ rw g (rw h (rw k (rw own (rw a (written u _ own refl refl)))))
              | inr a ↦ rw g (rw h (rw k (rw own (rw a (written u _ own refl refl)))))
            ]
      ]
    ]
  ]
