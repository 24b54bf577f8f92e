-- ===== src/Access/Grants.antt =====
-- How roles are handed out.
use civiclens.Prelude.{
  String, ◌≡◌, ◌≢◌, ◌↔◌, ◌⊎◌, true, if◌then◌else◌, arith, eq_iff, refl, str_eq, ap,
}
use civiclens.Access.{
  AuthContext, Role, citizen, officer, admin, super_admin, can_assign_role, is_privileged_role,
}

-- Exactly a super-admin may assign any role, and an admin the roles of citizen and officer; and
-- nobody his own.
pub can_assign_role_iff :
    (actor : AuthContext) (target : String) (new_role : Role)
    → (can_assign_role actor target new_role ≡ true) ↔ (
        (actor.user_id ≢ target)
        × ((actor.role ≡ super_admin)
            ⊎ ((actor.role ≡ admin) × ((new_role ≡ citizen) ⊎ (new_role ≡ officer)))))
unfolding can_assign_role
can_assign_role_iff actor target new_role = ground (arith, eq_iff actor.user_id target)

-- The roles of all users; an assignment changes one of them.
abbrev pub Roles : Type 0
Roles = String → Role

abbrev pub assign : Roles → String → Role → Roles
assign roles target new_role u = if str_eq u target then new_role else roles u

-- One assignment that `can_assign_role` allows to a user acting under the role that he has.
pub data Assignment (roles : Roles) (next : Roles) : Type 0 where
  assigned :
      (actor : AuthContext) (target : String) (new_role : Role)
      → actor.role ≡ roles actor.user_id
      → can_assign_role actor target new_role ≡ true
      → next ≡ assign roles target new_role
      → Assignment roles next

pub data Assignments (first : Roles) : Roles → Type 0 where
  none_yet : Assignments first first
  then_one : {r s : Roles} → Assignments first r → Assignment r s → Assignments first s

-- Every privileged user of `roles` has in `first` the same role.
abbrev GrantsNothing : Roles → Roles → Type 0
GrantsNothing first roles = (u : String) → is_privileged_role (roles u) ≡ true → first u ≡ roles u

Assignment-GrantsNothing :
    (first r s : Roles)
    → ((u : String) → first u ≢ super_admin)
    → GrantsNothing first r
    → Assignment r s
    → GrantsNothing first s
unfolding is_privileged_role
Assignment-GrantsNothing first r s no_super old (assigned actor target new_role role allowed e) u
      p =
    ground (
      arith,
      ap (λ (f : Roles). f u) e,
      (can_assign_role_iff actor target new_role).0 allowed,
      old u,
      old actor.user_id,
      no_super actor.user_id,
    )

-- Where nobody is super-admin, no sequence of allowed assignments makes anybody privileged: whoever
-- holds a privileged role at its end had that role at its start.
pub no_escalation :
    (first : Roles)
    → ((u : String) → first u ≢ super_admin)
    → {roles : Roles} → Assignments first roles
    → (u : String) → is_privileged_role (roles u) ≡ true
    → first u ≡ roles u
no_escalation first no_super none_yet u p = refl
no_escalation first no_super (then_one {r} {s} earlier last) u p =
    Assignment-GrantsNothing first r s no_super (no_escalation first no_super earlier) last u p
