-- ===== src/Sla/Deadline.antt =====
-- The state of an unfinished complaint against its due time, and how it moves as time passes.
use civiclens.Sla.{
  SlaPolicy, SlaSubject, on_track, at_risk, breached, status, open_status, policy_for, due_at,
  risk_window, hour, status_by, at_most, State, diff,
}
use civiclens.Complaint.Status.{is_finished}
use civiclens.Prelude.{
  ℕ, ◌+◌, ◌*◌, Bool-cases, List, leb, ◌≤◌, ◌≡◌, if◌then◌else◌, ◌↔◌, ◌<◌, Option-cases, false, inl,
  inr, some, arith, value_or,
}

-- The due time that counts: the stored one, or else the policy's.
unfoldable pub deadline : SlaPolicy → SlaSubject → ℕ
deadline p s = value_or (s.created_at + p.resolution_hours * hour) s.sla_due_at

-- A complaint that is not finished and has this policy.
pub record IsOpen (policies : List SlaPolicy) (s : SlaSubject) (p : SlaPolicy) : Type 0 where
  pub unfinished : is_finished s.status ≡ false
  pub policy : policy_for policies s.priority s.department_code ≡ some p

pub status_open :
    (policies : List SlaPolicy) (s : SlaSubject) (p : SlaPolicy) (now : ℕ)
    → IsOpen policies s p
    → status policies s now ≡ open_status p (deadline p s) now
unfolding status due_at status_by deadline
status_open policies s p now h =
    rw h.unfinished
      (rw h.policy (elim (Option-cases s.sla_due_at) [ inl e ↦ rw e | inr (due, e) ↦ rw e ]))

pub at_most-diff : (a b d : ℕ) → at_most (diff a b) d ≡ leb a (b + d)
at_most-diff a b d = elim (Bool-cases (leb b a)) [
  | inl e ↦ rw e (ground arith)
  | inr e ↦ rw e (ground arith)
]

-- The state by the due time, the clock and the risk window.
unfoldable state_at : ℕ → ℕ → ℕ → State
state_at due now w =
    if leb due now then breached else (if leb due (now + w) then at_risk else on_track)

state_eq :
    (policies : List SlaPolicy) (s : SlaSubject) (p : SlaPolicy) (now : ℕ)
    → IsOpen policies s p
    → (status policies s now).state ≡ state_at (deadline p s) now (risk_window p)
unfolding open_status state_at
state_eq policies s p now h = rw (status_open policies s p now h) (
    rw (at_most-diff (deadline p s) now 0)
      (rw (at_most-diff (deadline p s) now (risk_window p)) (ground arith)))

-- The state of an unfinished complaint with a policy, by its due time, the clock and the risk
-- window of the policy: breached from the due time on, at risk before it while no more than the
-- risk window is left, and on track earlier.
pub state_iff :
    (policies : List SlaPolicy) (s : SlaSubject) (p : SlaPolicy) (now : ℕ)
    → IsOpen policies s p
    → (((status policies s now).state ≡ breached) ↔ (deadline p s ≤ now))
      × (((status policies s now).state ≡ at_risk)
          ↔ ((now < deadline p s) × (deadline p s ≤ now + risk_window p)))
      × (((status policies s now).state ≡ on_track) ↔ (now + risk_window p < deadline p s))
unfolding state_at
state_iff policies s p now h =
    rw (state_eq policies s p now h) (ground arith, ground arith, ground arith)
