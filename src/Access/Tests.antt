-- ===== src/Access/Tests.antt =====
-- Decisions for concrete users, and the theorems at them.
use civiclens.Prelude.{
  if◌then◌else◌, String, ◌≡◌, none, true, Option, ◌≢◌, some, str_eq, arith, refl, false,
}
use civiclens.Access.{
  AuthContext, Role, citizen, officer, admin, super_admin, can_access_complaint, can_assign_role,
  is_privileged_role, String, role_has, Option, true, false,
}
use civiclens.Access.Isolation.{can_access_complaint_scope, IsWithinScope}
use civiclens.Access.Grants.{
  Roles, assign, Assignments, none_yet, then_one, assigned, no_escalation,
}

abbrev user : String → Role → Option String → AuthContext
user id role department = record {
  user_id = id;
  role = role;
  department_id = department;
  mfa_verified = true;
}

can_access_complaint_scope_example :
    IsWithinScope (user "o1" officer (some "water")) "c1" (some "water") true officer
unfolding can_access_complaint role_has
can_access_complaint_scope_example =
    can_access_complaint_scope (user "o1" officer (some "water")) "c1" (some "water") true refl

other_department :
    can_access_complaint (user "o1" officer (some "water")) "c1" (some "roads") false ≡ false
unfolding can_access_complaint role_has
other_department = refl

-- Everybody is a citizen but the admin `m`, who makes `u` an officer.
abbrev first_roles : Roles
first_roles u = if str_eq u "m" then admin else citizen

no_super : (u : String) → first_roles u ≢ super_admin
no_super u e = ground arith

one_grant : Assignments first_roles (assign first_roles "u" officer)
unfolding can_assign_role
one_grant = then_one none_yet (assigned (user "m" admin none) "u" officer refl refl refl)

no_escalation_example : first_roles "m" ≡ assign first_roles "u" officer "m"
unfolding is_privileged_role
no_escalation_example = no_escalation first_roles no_super one_grant "m" refl
