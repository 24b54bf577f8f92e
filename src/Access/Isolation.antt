-- ===== src/Access/Isolation.antt =====
-- Who reaches which complaint.
use civiclens.Prelude.{
  String, ◌≡◌, ◌⊎◌, Bool, true, false, Option, none, some, arith, is_some, ◌&&◌, eq_iff, opt_eq→eq,
  opt_eq, sym, refl,
}
use civiclens.Access.{
  AuthContext, Role, citizen, officer, admin, role_has, can_access_complaint, integration_admin,
  has, access_by_role, auditor, complaint_read_department, complaint_read_all,
  complaint_update_status, complaint_remark, complaint_assign,
}

-- What an access that was allowed says of the complaint, by the role of the reader or writer.
abbrev pub IsWithinScope : AuthContext → String → Option String → Bool → Role → Type 0
IsWithinScope ctx owner_id department_id write citizen = (owner_id ≡ ctx.user_id) × (write ≡ false)
IsWithinScope ctx owner_id department_id write officer =
    (d : String) × (ctx.department_id ≡ some d) × (department_id ≡ some d)
IsWithinScope ctx owner_id department_id write admin =
    (write ≡ false) × ((ctx.department_id ≡ none) ⊎ (department_id ≡ ctx.department_id))
IsWithinScope ctx owner_id department_id write _ = Unit

same_department :
    (a b : Option String)
    → (is_some a && is_some b && opt_eq a b) ≡ true
    → (d : String) × (a ≡ some d) × (b ≡ some d)
same_department (some x) (some y) h = (x, refl, sym (opt_eq→eq (some x) (some y) h))
same_department none b h = absurd (ground arith)
same_department (some x) none h = absurd (ground arith)

access_by_role_scope :
    (r : Role) (ctx : AuthContext) (owner_id : String) (department_id : Option String)
    (write : Bool)
    → access_by_role r ctx owner_id department_id write ≡ true
    → IsWithinScope ctx owner_id department_id write r
unfolding access_by_role
access_by_role_scope citizen ctx o d write h = ground (arith, eq_iff o ctx.user_id)
access_by_role_scope officer ctx o d write h = same_department ctx.department_id d (ground arith)
access_by_role_scope admin ctx o d write h = ground (arith, opt_eq→eq d ctx.department_id)
access_by_role_scope _ ctx o d write h = tt

-- A citizen is let in only to read his own complaint, an officer only to a complaint of his own
-- department, and an administrator only to read, within the department he is bound to, if any.
pub can_access_complaint_scope :
    (ctx : AuthContext) (owner_id : String) (department_id : Option String) (write : Bool)
    → can_access_complaint ctx owner_id department_id write ≡ true
    → IsWithinScope ctx owner_id department_id write ctx.role
unfolding can_access_complaint
can_access_complaint_scope ctx owner_id department_id write h =
    access_by_role_scope ctx.role ctx owner_id department_id write h

-- The roles that hold the platform's read and manage permissions but none on complaints.
abbrev pub is_platform_role : Role → Bool
is_platform_role integration_admin = true
is_platform_role auditor = true
is_platform_role _ = false

-- An integration administrator or an auditor has no permission to read, update, remark on or assign
-- complaints, and yet the record check lets him read and write every complaint.
pub platform_role_accesses_all :
    (ctx : AuthContext) (owner_id : String) (department_id : Option String) (write : Bool)
    → is_platform_role ctx.role ≡ true
    → (can_access_complaint ctx owner_id department_id write ≡ true)
      × (has ctx complaint_read_department ≡ false)
      × (has ctx complaint_read_all ≡ false)
      × (has ctx complaint_update_status ≡ false)
      × (has ctx complaint_remark ≡ false)
      × (has ctx complaint_assign ≡ false)
unfolding can_access_complaint role_has
platform_role_accesses_all ctx owner_id department_id write h = ground arith
