-- ===== src/Auth/Accounts.antt =====
-- The operations of app/services/auth_service.py that create and change accounts.
use civiclens.Auth.State.{
  Setup, Call, check_password, State, AuthError, own_or_unknown_account, Answer, after,
  role_not_assignable, bad_setup_token, audited, privileged_account, add_user, or_raise,
  officer_without_department, setup_completed, with_user, unknown_user, revoke_sessions,
  invalid_email, bad_name, email_taken,
}
use civiclens.Auth.Password.{normalize_email}
use civiclens.Auth.Tables.{
  get_by_id, UserRecord, count_with_role, update_user, get_by_email, revoke_all_for_user,
}
use civiclens.Access.{
  AuthContext, Role, can_assign_role, is_privileged_role, officer, citizen, admin, is_super_admin,
  super_admin,
}
use Prim.Native.String.{count}
use civiclens.Prelude.{
  ◌>>=◌, ◌>>◌, String, Bool, true, false, not, ◌&&◌, ◌||◌, Option, none, some, ltb, leb,
  if◌then◌else◌, is_some, str_eq, is_empty, Result, ok, err, strip, raise_if,
}

-- The row that `register` and `bootstrap_first_admin` build.
abbrev pub new_user : Setup → Call → String → String → String → Role → Option String → UserRecord
new_user setup call email password full_name role department = record {
  id = call.uuid;
  email = email;
  password_hash = setup.hash call.salt password;
  full_name = full_name;
  role = role;
  department_id = department;
  is_active = true;
}

-- The address in its normal form, once it and the password are accepted and nobody has it.
unfoldable pub new_email : (String → String) → String → String → State → Result AuthError String
unfolding normalize_email check_password get_by_email
new_email lower email password st =
    or_raise (normalize_email lower email) invalid_email >>= λ value.
    check_password lower password value
    >> raise_if (is_some (get_by_email value st.users)) email_taken
    >> ok value

-- `not 2 <= len(full_name) <= 120`
abbrev pub bad_length : String → Bool
bad_length name = not (leb 2 (count name) && leb (count name) 120)

-- The checks of `register`: the name stands between the address and the password.
unfoldable pub register_email :
    (String → String) → String → String → String → State → Result AuthError String
unfolding normalize_email check_password get_by_email strip
register_email lower email password full_name st =
    or_raise (normalize_email lower email) invalid_email >>= λ value.
    raise_if (bad_length (strip full_name)) bad_name
    >> check_password lower password value
    >> raise_if (is_some (get_by_email value st.users)) email_taken
    >> ok value

unfoldable pub register : Setup → Call → String → String → String → State → Answer UserRecord
unfolding register_email strip
register setup call email password full_name st =
    after (register_email setup.lower email password full_name st) st (λ value.
      let user = new_user setup call value password (strip full_name) citizen none in
      (ok user, audited "auth.registered" (some user.id) (some user.id) (add_user user st)))

unfoldable pub bootstrap_first_admin :
    Setup → Call → String → String → String → String → String → State → Answer UserRecord
unfolding new_email strip count_with_role
bootstrap_first_admin setup call email password full_name provided expected st =
    if is_empty expected || not (str_eq provided expected)
    then (err bad_setup_token, audited "admin.bootstrap_denied" none none st)
    else if ltb 0 (count_with_role super_admin st.users)
    then (err setup_completed, st)
    else after (new_email setup.lower email password st) st (λ value.
      let user = new_user setup call value password (strip full_name) super_admin none in
      (ok user, audited "admin.bootstrapped" (some user.id) (some user.id) (add_user user st)))

-- `role is Role.CITIZEN`
abbrev pub is_citizen : Role → Bool
is_citizen citizen = true
is_citizen _ = false

-- `role is Role.OFFICER`
abbrev pub is_officer : Role → Bool
is_officer officer = true
is_officer _ = false

-- `not department_id`
abbrev pub no_department : Option String → Bool
no_department none = true
no_department (some d) = is_empty d

unfoldable pub create_staff :
    Setup
    → Call
    → AuthContext
    → String
    → String
    → String
    → Role
    → Option String
    → State
    → Answer UserRecord
unfolding can_assign_role new_email strip
create_staff setup call actor email password full_name role department st =
    if is_citizen role || not (can_assign_role actor "(new)" role)
    then (err role_not_assignable, audited "admin.create_staff_denied" (some actor.user_id) none st)
    else if is_officer role && no_department department
    then (err officer_without_department, st)
    else after (new_email setup.lower email password st) st (λ value.
      let user =
        new_user setup call value password (strip full_name) role
          (if is_super_admin role then none else department) in
      (
        ok user,
        audited "admin.staff_created" (some actor.user_id) (some user.id) (add_user user st),
      ))

-- `role in (Role.OFFICER, Role.ADMIN)`
abbrev pub has_department : Role → Bool
has_department officer = true
has_department admin = true
has_department _ = false

-- `replace(user, role=role, department_id=…)`
abbrev pub changed_role : UserRecord → Role → Option String → UserRecord
changed_role user role department = record user {
  role = role;
  department_id = if has_department role then department else none;
}

unfoldable pub change_role :
    Call → AuthContext → String → Role → Option String → State → Answer UserRecord
unfolding can_assign_role get_by_id is_privileged_role update_user revoke_all_for_user
change_role call actor user_id role department st =
    if not (can_assign_role actor user_id role)
    then (
      err role_not_assignable,
      audited "admin.role_change_denied" (some actor.user_id) (some user_id) st,
    )
    else after (or_raise (get_by_id user_id st.users) unknown_user) st (λ user.
      if is_privileged_role user.role && not (is_super_admin actor.role)
      then (err privileged_account, st)
      else if is_officer role && no_department department
      then (err officer_without_department, st)
      else with_user (changed_role user role department) st (λ st'. (
        ok (changed_role user role department),
        audited "admin.role_changed" (some actor.user_id) (some user_id)
            (revoke_sessions user_id call.now st'),
      )))

-- The accounts that `set_active` may change: known, and not the actor's own.
abbrev pub other_account : AuthContext → String → Option UserRecord → Result AuthError UserRecord
other_account actor user_id none = err own_or_unknown_account
other_account actor user_id (some user) =
    if str_eq user_id actor.user_id then err own_or_unknown_account else ok user

unfoldable pub set_active : Call → AuthContext → String → Bool → State → Answer UserRecord
unfolding get_by_id is_privileged_role update_user revoke_all_for_user
set_active call actor user_id active st =
    after (other_account actor user_id (get_by_id user_id st.users)) st (λ user.
      if is_privileged_role user.role && not (is_super_admin actor.role)
      then (err privileged_account, st)
      else let updated = record user { is_active = active } in
        with_user updated st (λ st'. (
          ok updated,
          audited "admin.user_active_changed" (some actor.user_id) (some user_id)
              (if active then st' else revoke_sessions user_id call.now st'),
        )))
