-- ===== src/Realtime/Tests.antt =====
-- A citizen, an officer and an administrator with live connections.
use civiclens.Access.{AuthContext, Role, citizen, officer, can_access_complaint}
use civiclens.Realtime.Events.{DomainEvent, complaint_created, View, may_receive, view_for}
use civiclens.Realtime.Manager.{Connection, Manager, deliver, sends, drop_session}
use civiclens.Realtime.Audience.{may_receive_iff_read, view_for_internal}
use civiclens.Realtime.Sessions.{Distinct}
use civiclens.Realtime.Fanout.{
  is_sent_to, IsAllowed, sends-IsAllowed, deliver_counts, failures, is_kept,
}
use civiclens.Prelude.{
  ◌+◌, String, ◌≡◌, refl, Bool, true, false, not, Option, none, some, List, [], ◌∷◌, length, filter,
  All, str_eq,
}

abbrev person : String → Role → Option String → AuthContext
person id role department_id = record {
  user_id = id;
  role = role;
  department_id = department_id;
  mfa_verified = true;
}

abbrev leak : DomainEvent
leak = record {
  type = complaint_created;
  payload = ("reference", "CL-1") ∷ [];
  internal = ("remarks", "check the pump") ∷ [];
  owner_id = some "asha";
  department_code = some "water";
  complaint_id = some "c1";
  at = 7;
}

abbrev live : Manager
live = record {
  conns =
      record { id = "1"; ctx = person "asha" citizen none; session_hash = some "s1" }
      ∷ record { id = "2"; ctx = person "ravi" officer (some "water"); session_hash = some "s2" }
      ∷ record { id = "3"; ctx = person "mina" officer (some "roads"); session_hash = some "s1" }
      ∷ [];
  delivered_total = 4;
  dropped_total = 0;
}

live-Distinct : Distinct live.conns
unfolding Distinct
live-Distinct = ((refl, (refl, tt)), ((refl, tt), (tt, tt)))

may_receive_iff_read_example :
    may_receive (person "ravi" officer (some "water")) leak
    ≡ can_access_complaint (person "ravi" officer (some "water")) "asha" (some "water") false
may_receive_iff_read_example =
    may_receive_iff_read (person "ravi" officer (some "water")) leak "asha" refl refl

view_for_internal_example :
    (citizen ≡ citizen → (view_for (person "asha" citizen none) leak).internal ≡ none)
    × ((part : List (String × String))
        → (view_for (person "asha" citizen none) leak).internal ≡ some part
        → part ≡ leak.internal)
view_for_internal_example = view_for_internal (person "asha" citizen none) leak

sends-IsAllowed_example :
    All (IsAllowed live.conns leak) (sends leak live)
    × All (λ c. may_receive c.ctx leak ≡ true → is_sent_to c.id (sends leak live) ≡ true) live.conns
sends-IsAllowed_example = sends-IsAllowed leak live

-- The socket of the officer is gone.
abbrev takes : Connection → View → Bool
takes c view = not (str_eq c.id "2")

deliver_counts_example :
    ((deliver takes leak live).0 + length (failures takes (sends leak live))
      ≡ length (sends leak live))
    × ((deliver takes leak live).1.delivered_total ≡ 4 + (deliver takes leak live).0)
    × ((deliver takes leak live).1.dropped_total ≡ 0 + length (failures takes (sends leak live)))
    × ((deliver takes leak live).1.conns
        ≡ filter (is_kept (failures takes (sends leak live))) live.conns)
deliver_counts_example = deliver_counts takes leak live

abbrev is_valid : String → Bool
is_valid hash = str_eq hash "s2"

drop_session_run : (drop_session "s1" live).0 ≡ 2
unfolding drop_session
drop_session_run = refl
