-- ===== src/Realtime/Audience.antt =====
-- Who receives an event, and what of it.
use civiclens.Access.{
  AuthContext, Role, citizen, officer, admin, super_admin, can_access_complaint, integration_admin,
  auditor, role_has,
}
use civiclens.Realtime.Events.{
  DomainEvent, EventType, may_receive, receives_by_type, receives_by_role, notification_created,
  complaint_created, integration_status_changed, complaint_processed, complaint_assigned,
  complaint_status_changed, complaint_escalated, view_for, Object, is_citizen, is_empty_object,
}
use civiclens.Prelude.{
  String, ◌≡◌, refl, ◌∙◌, Bool, true, false, some, Option, str_eq, is_some, is_none, none,
  Bool-cases, ◌&&◌, ◌||◌, inl, opt_eq, inr, if◌then◌else◌, str_eq_comm, not, sym,
}

-- The events that concern a complaint.
abbrev pub is_complaint_event : EventType → Bool
is_complaint_event notification_created = false
is_complaint_event integration_status_changed = false
is_complaint_event _ = true

by_role :
    (ctx : AuthContext) (event : DomainEvent) (type : EventType)
    → is_complaint_event type ≡ true
    → receives_by_type type ctx event ≡ receives_by_role ctx.role ctx event
unfolding receives_by_type
by_role ctx event complaint_created h = refl
by_role ctx event complaint_processed h = refl
by_role ctx event complaint_assigned h = refl
by_role ctx event complaint_status_changed h = refl
by_role ctx event complaint_escalated h = refl
by_role ctx event notification_created h = absurd (cc h)
by_role ctx event integration_status_changed h = absurd (cc h)

same_department :
    (a b : Option String) → is_some a && opt_eq a b ≡ is_some a && is_some b && opt_eq a b && true
same_department none b = refl
same_department (some x) none = refl
same_department (some x) (some y) = elim (Bool-cases (str_eq x y)) [ inl e ↦ rw e | inr e ↦ rw e ]

own_department :
    (a b : Option String) → is_none a || opt_eq a b ≡ (if is_none a then true else opt_eq b a)
own_department none b = refl
own_department (some x) none = refl
own_department (some x) (some y) = str_eq_comm x y

receives_by_role-access :
    (role : Role) (ctx : AuthContext) (event : DomainEvent) (owner : String)
    → event.owner_id ≡ some owner
    → receives_by_role role ctx event
      ≡ can_access_complaint (record ctx { role = role }) owner event.department_code false
unfolding receives_by_role can_access_complaint role_has
receives_by_role-access citizen ctx event owner h = rw h (
    rw (str_eq_comm ctx.user_id owner)
      (elim (Bool-cases (str_eq owner ctx.user_id)) [ inl e ↦ rw e | inr e ↦ rw e ]))
receives_by_role-access officer ctx event owner h =
    same_department ctx.department_id event.department_code
receives_by_role-access admin ctx event owner h =
    own_department ctx.department_id event.department_code
receives_by_role-access super_admin ctx event owner h = refl
receives_by_role-access integration_admin ctx event owner h = refl
receives_by_role-access auditor ctx event owner h = refl

-- An event of a complaint reaches exactly those who may read the complaint, whatever their role.
pub may_receive_iff_read :
    (ctx : AuthContext) (event : DomainEvent) (owner : String)
    → is_complaint_event event.type ≡ true
    → event.owner_id ≡ some owner
    → may_receive ctx event ≡ can_access_complaint ctx owner event.department_code false
unfolding may_receive
may_receive_iff_read ctx event owner h o =
    by_role ctx event event.type h ∙ receives_by_role-access ctx.role ctx event owner o

-- What a citizen is sent never has a staff-only part, and what anyone is sent has one only if the
-- event has, and then exactly the event's.
pub view_for_internal :
    (ctx : AuthContext) (event : DomainEvent)
    → (ctx.role ≡ citizen → (view_for ctx event).internal ≡ none)
      × ((part : Object) → (view_for ctx event).internal ≡ some part → part ≡ event.internal)
unfolding view_for
view_for_internal ctx event = (
  λ e. rw e,
  λ part h. elim (Bool-cases (not (is_citizen ctx.role) && not (is_empty_object event.internal))) [
    | inl e ↦ let k : some event.internal ≡ some part = rw e at h in sym (cc k)
    | inr e ↦ let k : none ≡ some part = rw e at h in absurd (cc k)
  ],
)
