-- ===== src/Realtime/Events.antt =====
-- app/realtime/events.py: the events, who may receive one, and what is sent. A JSON object is the
-- list of its keys and values; times are in microseconds.
use civiclens.Access.{AuthContext, Role, citizen, officer, admin, super_admin}
use civiclens.Prelude.{
  ℕ, String, Bool, true, false, not, ◌&&◌, ◌||◌, Option, none, some, List, [], ◌∷◌, if◌then◌else◌,
  is_some, is_none, opt_eq,
}

pub data EventType : Type 0 where
  complaint_created complaint_processed complaint_assigned complaint_status_changed : EventType
  complaint_escalated notification_created integration_status_changed : EventType

abbrev pub Object : Type 0
Object = List (String × String)

pub record DomainEvent : Type 0 where
  pub type : EventType
  pub payload : Object
  pub internal : Object
  pub owner_id : Option String
  pub department_code : Option String
  pub complaint_id : Option String
  pub at : ℕ

-- What goes over the wire, `data` as `body`; `none` where the key `internal` is not set.
pub record View : Type 0 where
  pub type : EventType
  pub complaint_id : Option String
  pub at : ℕ
  pub body : Object
  pub internal : Option Object

abbrev is_administrator : Role → Bool
is_administrator admin = true
is_administrator super_admin = true
is_administrator _ = false

-- `event.owner_id is not None and ctx.user_id == event.owner_id`
abbrev pub is_owner : AuthContext → DomainEvent → Bool
is_owner ctx event = is_some event.owner_id && opt_eq (some ctx.user_id) event.owner_id

-- The tests on the role, for a complaint's event.
unfoldable pub receives_by_role : Role → AuthContext → DomainEvent → Bool
receives_by_role citizen ctx event = is_owner ctx event
receives_by_role officer ctx event =
    is_some ctx.department_id && opt_eq ctx.department_id event.department_code
receives_by_role admin ctx event =
    is_none ctx.department_id || opt_eq ctx.department_id event.department_code
receives_by_role _ ctx event = true

unfoldable pub receives_by_type : EventType → AuthContext → DomainEvent → Bool
unfolding receives_by_role
receives_by_type notification_created ctx event = is_owner ctx event
receives_by_type integration_status_changed ctx event =
    is_administrator ctx.role && is_none ctx.department_id
receives_by_type _ ctx event = receives_by_role ctx.role ctx event

unfoldable pub may_receive : AuthContext → DomainEvent → Bool
unfolding receives_by_type
may_receive ctx event = receives_by_type event.type ctx event

abbrev pub is_empty_object : Object → Bool
is_empty_object [] = true
is_empty_object (_ ∷ _) = false

abbrev pub is_citizen : Role → Bool
is_citizen citizen = true
is_citizen _ = false

unfoldable pub view_for : AuthContext → DomainEvent → View
view_for ctx event = record {
  type = event.type;
  complaint_id = event.complaint_id;
  at = event.at;
  body = event.payload;
  internal =
      if not (is_citizen ctx.role) && not (is_empty_object event.internal)
      then some event.internal
      else none;
}
