-- ===== src/Access.antt =====
-- app/core/authorization.py: roles, permissions and the decisions on records and on roles.
-- Identifiers are texts. A call that raises `PermissionDenied` returns an error.
pub mod Isolation
pub mod Grants
mod Tests
use civiclens.Prelude.{
  String, Bool, true, false, not, ◌&&◌, Option, Result, is_some, is_none, raise_if, str_eq, opt_eq,
  if◌then◌else◌,
}

pub data Role : Type 0 where
  citizen officer admin super_admin integration_admin auditor : Role

pub data Permission : Type 0 where
  complaint_create complaint_read_own evidence_upload complaint_feedback rti_manage_own : Permission
  legal_analyze gis_view assistant_use profile_manage notification_read_own : Permission
  complaint_read_department complaint_update_status complaint_remark complaint_assign : Permission
  complaint_field_action sla_view dashboard_department duplicate_review : Permission
  investigation_run admin_dashboard admin_users admin_departments admin_routing_rules : Permission
  admin_workflow_rules admin_integrations admin_audit admin_config admin_monitoring : Permission
  analytics_view complaint_read_all interop_manage interop_read : Permission
  role_assign_privileged : Permission

-- `permission in ROLE_PERMISSIONS[role]`
unfoldable pub role_has : Role → Permission → Bool
role_has super_admin p = true
role_has citizen complaint_create = true
role_has citizen complaint_read_own = true
role_has citizen evidence_upload = true
role_has citizen complaint_feedback = true
role_has citizen rti_manage_own = true
role_has citizen legal_analyze = true
role_has citizen gis_view = true
role_has citizen assistant_use = true
role_has citizen profile_manage = true
role_has citizen notification_read_own = true
role_has officer complaint_read_department = true
role_has officer complaint_update_status = true
role_has officer complaint_remark = true
role_has officer complaint_assign = true
role_has officer complaint_field_action = true
role_has officer sla_view = true
role_has officer dashboard_department = true
role_has officer duplicate_review = true
role_has officer investigation_run = true
role_has officer gis_view = true
role_has officer assistant_use = true
role_has officer profile_manage = true
role_has officer notification_read_own = true
role_has admin admin_dashboard = true
role_has admin admin_users = true
role_has admin admin_departments = true
role_has admin admin_routing_rules = true
role_has admin admin_workflow_rules = true
role_has admin admin_integrations = true
role_has admin admin_audit = true
role_has admin admin_config = true
role_has admin admin_monitoring = true
role_has admin analytics_view = true
role_has admin complaint_read_all = true
role_has admin complaint_read_department = true
role_has admin complaint_assign = true
role_has admin sla_view = true
role_has admin duplicate_review = true
role_has admin investigation_run = true
role_has admin dashboard_department = true
role_has admin gis_view = true
role_has admin assistant_use = true
role_has admin profile_manage = true
role_has admin notification_read_own = true
role_has admin interop_manage = true
role_has admin interop_read = true
role_has integration_admin interop_manage = true
role_has integration_admin interop_read = true
role_has integration_admin admin_integrations = true
role_has integration_admin admin_monitoring = true
role_has integration_admin gis_view = true
role_has integration_admin assistant_use = true
role_has integration_admin profile_manage = true
role_has integration_admin notification_read_own = true
role_has auditor interop_read = true
role_has auditor admin_audit = true
role_has auditor analytics_view = true
role_has auditor gis_view = true
role_has auditor assistant_use = true
role_has auditor profile_manage = true
role_has auditor notification_read_own = true
role_has _ _ = false

-- `role in _PRIVILEGED`
unfoldable pub is_privileged_role : Role → Bool
is_privileged_role admin = true
is_privileged_role super_admin = true
is_privileged_role integration_admin = true
is_privileged_role auditor = true
is_privileged_role _ = false

-- `role in _STAFF_MANAGERS`
unfoldable pub is_staff_manager : Role → Bool
is_staff_manager admin = true
is_staff_manager super_admin = true
is_staff_manager _ = false

pub record AuthContext : Type 0 where
  pub user_id : String
  pub role : Role
  pub department_id : Option String
  pub mfa_verified : Bool

abbrev pub has : AuthContext → Permission → Bool
has ctx p = role_has ctx.role p

-- The messages of the `PermissionDenied` that this module raises.
pub data Denied : Type 0 where
  no_permission mfa_required no_record_access : Denied

unfoldable pub require : AuthContext → Permission → Result Denied (Unit {0})
require ctx p = raise_if (not (has ctx p)) no_permission

unfoldable pub require_mfa_for_privileged : AuthContext → Result Denied (Unit {0})
unfolding is_privileged_role
require_mfa_for_privileged ctx =
    raise_if (is_privileged_role ctx.role && not ctx.mfa_verified) mfa_required

-- The branches of `can_access_complaint` on the role.
access_by_role : Role → AuthContext → String → Option String → Bool → Bool
access_by_role citizen ctx owner_id department_id write =
    not write && str_eq owner_id ctx.user_id && has ctx complaint_read_own
access_by_role officer ctx owner_id department_id write =
    is_some ctx.department_id
    && is_some department_id
    && opt_eq ctx.department_id department_id
    && has ctx complaint_read_department
access_by_role admin ctx owner_id department_id write =
    if write
    then false
    else if is_none ctx.department_id
    then true
    else opt_eq department_id ctx.department_id
access_by_role _ ctx owner_id department_id write = true

unfoldable pub can_access_complaint : AuthContext → String → Option String → Bool → Bool
unfolding access_by_role
can_access_complaint ctx owner_id department_id write =
    access_by_role ctx.role ctx owner_id department_id write

unfoldable pub require_complaint_access :
    AuthContext → String → Option String → Bool → Result Denied (Unit {0})
require_complaint_access ctx owner_id department_id write =
    raise_if (not (can_access_complaint ctx owner_id department_id write)) no_record_access

-- `role is Role.SUPER_ADMIN`
abbrev pub is_super_admin : Role → Bool
is_super_admin super_admin = true
is_super_admin _ = false

unfoldable pub can_assign_role : AuthContext → String → Role → Bool
unfolding is_privileged_role is_staff_manager
can_assign_role actor target_user_id new_role =
    if str_eq actor.user_id target_user_id
    then false
    else if is_privileged_role new_role
    then is_super_admin actor.role
    else is_staff_manager actor.role
