-- ===== src/Desk.antt =====
-- The officers' desk: app/services/officer_service.py, app/services/workflow_service.py and
-- app/services/complaint_common.py, over the tables of app/db/repositories/complaints.py. A call
-- works on one complaint, the object `c`, and on the tables; what it releases after the commit is
-- kept with them. The details of events, labels and message texts are left out.
pub mod Matching
pub mod Rules
pub mod Officer
pub mod Fieldwork
pub mod Handover
pub mod Requests
pub mod Keeps
pub mod Automation
pub mod Firing
pub mod History
mod Tests
use civiclens.Complaint.Status.{Status}
use civiclens.Auth.State.{AuditEntry}
use civiclens.Prelude.{
  ℕ, String, Bool, Option, some, List, [], ◌∷◌, ◌++◌, if◌then◌else◌, find?, str_eq, strip_or_none,
}

pub data Priority : Type 0 where
  low medium high critical : Priority

-- `PRIORITY_ORDER.index(p)`
abbrev pub priority_index : Priority → ℕ
priority_index low = 0
priority_index medium = 1
priority_index high = 2
priority_index critical = 3

abbrev pub priority_name : Priority → String
priority_name low = "low"
priority_name medium = "medium"
priority_name high = "high"
priority_name critical = "critical"

pub record Complaint : Type 0 where
  pub id : String
  pub citizen_id : String
  pub language : String
  pub category : String
  pub priority : Priority
  pub ward : Option String
  pub status : Status
  pub department_code : Option String
  pub assigned_officer_id : Option String
  pub created_at : ℕ
  pub updated_at : ℕ
  pub sla_due_at : Option ℕ
  pub escalation_level : ℕ
  pub escalated_at : Option ℕ
  pub resolved_at : Option ℕ
  pub routing_source : Option String

pub record Event : Type 0 where
  pub complaint_id : String
  pub kind : String
  pub from_status : Option Status
  pub to_status : Option Status
  pub actor_id : Option String
  pub remarks : Option String
  pub at : ℕ
  pub internal : Bool

-- The dedupe keys of the notifications, by what their texts are made of.
pub data DedupeKey : Type 0 where
  status_key : (complaint_id : String) → Status → (seconds : ℕ) → DedupeKey
  assigned_key : (complaint_id officer_id : String) → DedupeKey
  transfer_key : (complaint_id department officer_id : String) → DedupeKey
  escalated_key : (complaint_id : String) (level : ℕ) (admin_id : String) → DedupeKey
  rule_key : (rule_id complaint_id admin_id : String) → DedupeKey
  rule_closed_key : (complaint_id : String) → DedupeKey
  rule_assigned_key : (complaint_id officer_id : String) → DedupeKey

-- A call of `ComplaintEffects.notify`.
pub record Notice : Type 0 where
  pub user_id : String
  pub kind : String
  pub dedupe_key : DedupeKey

-- An event that `ComplaintEffects.complaint_event` builds for the bus.
pub record BusEvent : Type 0 where
  pub kind : String
  pub complaint_id : String
  pub owner_id : String
  pub status : Status
  pub department_code : Option String

pub record Correction : Type 0 where
  pub complaint_id : String
  pub predicted : String
  pub corrected : String
  pub officer_id : String
  pub at : ℕ

pub record Book : Type 0 where
  pub complaints : List Complaint
  pub events : List Event
  pub executions : List (String × String)
  pub corrections : List Correction
  pub audit : List AuditEntry
  pub notices : List Notice
  pub bus_events : List BusEvent

-- The complaint at hand, as the call has changed it so far, and the tables.
abbrev pub Work : Type 0
Work = Complaint × Book

abbrev pub has_id : String → Complaint → Bool
has_id id c = str_eq c.id id

-- `uow.complaints.get(complaint_id)`
unfoldable pub get : String → List Complaint → Option Complaint
get id t = find? (has_id id) t

abbrev pub write : Complaint → List Complaint → List Complaint
write c [] = []
write c (r ∷ t) = (if has_id c.id r then c else r) ∷ write c t

-- `uow.complaints.update(c)`, where the row is there
abbrev pub save : Work → Work
save (c, b) = (c, record b { complaints = write c b.complaints })

-- `ComplaintEffects.event`
abbrev pub add_event :
    String → Option String → Option Status → Option Status → Option String → Bool → ℕ → Work → Work
add_event kind actor from to remarks internal now (c, b) = (
  c,
  record b {
    events =
        b.events
        ++ record {
          complaint_id = c.id;
          kind = kind;
          from_status = from;
          to_status = to;
          actor_id = actor;
          remarks = strip_or_none remarks;
          at = now;
          internal = internal;
        }
          ∷ [];
  },
)

-- `ComplaintEffects.notify`
abbrev pub notify : String → String → DedupeKey → Work → Work
notify user_id kind key (c, b) = (
  c,
  record b {
    notices = b.notices ++ record { user_id = user_id; kind = kind; dedupe_key = key } ∷ [];
  },
)

-- `out.events.append(self._fx.complaint_event(kind, c, …))`
abbrev pub announce : String → Work → Work
announce kind (c, b) = (
  c,
  record b {
    bus_events =
        b.bus_events
        ++ record {
          kind = kind;
          complaint_id = c.id;
          owner_id = c.citizen_id;
          status = c.status;
          department_code = c.department_code;
        }
          ∷ [];
  },
)

-- `self._fx.audit(uow).record(action, actor_id=actor, resource_type="complaint", resource_id=c.id)`
abbrev pub audited : String → Option String → Work → Work
audited action actor (c, b) = (
  c,
  record b {
    audit = b.audit ++ record { action = action; actor_id = actor; resource_id = some c.id } ∷ [];
  },
)

-- `for user_id in ids: self._fx.notify(…)`
abbrev pub notify_all : List String → String → (String → DedupeKey) → Work → Work
notify_all [] kind key w = w
notify_all (i ∷ is) kind key w = notify_all is kind key (notify i kind (key i) w)

abbrev pub second : ℕ
second = 1000000

abbrev pub max_escalation_level : ℕ
max_escalation_level = 3
