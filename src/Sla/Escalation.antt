-- ===== src/Sla/Escalation.antt =====
-- Escalation: what the scan applies (app/services/sla_workflow.py), and how levels rise.
use Prim.Native.Nat.{zero}
use civiclens.Sla.{
  SlaPolicy, SlaSubject, EscalationAction, evaluate, escalate, hour, open_status, due_passed,
  still_unresolved, Reason, gap_passed, risk_window,
}
use civiclens.Sla.Deadline.{IsOpen, status_open, deadline, at_most-diff}
use civiclens.Prelude.{
  ℕ, ◌+◌, ◌*◌, Option, List, Bool, ◌∷◌, ◌≡◌, some, suc, leb, ◌&&◌, [], none, if◌then◌else◌, ltb,
  ◌==◌, ◌||◌, ◌⊎◌, ◌≤◌, ◌<◌, or_else, inl, inr, Option-cases, arith, refl, Bool-cases, All, sym,
  ◌∙◌, true, value_or,
}

-- `c.escalation_level, c.escalated_at = act.to_level, now`
unfoldable pub apply_action : Option EscalationAction → ℕ → SlaSubject → SlaSubject
apply_action none now s = s
apply_action (some act) now s = record s {
  escalation_level = act.to_level;
  escalated_at = some now;
}

-- What one complaint goes through in scans at these times.
unfoldable pub scans : List SlaPolicy → SlaSubject → List ℕ → SlaSubject
unfolding evaluate apply_action
scans policies s [] = s
scans policies s (now ∷ times) = scans policies (apply_action (evaluate policies s now) now s) times

-- The time from which the gap counts: the last escalation, or else the due time.
unfoldable last_step : SlaPolicy → SlaSubject → ℕ
last_step p s = value_or (deadline p s) s.escalated_at

-- Whether a scan at `now` escalates an open complaint.
unfoldable pub may_escalate : SlaPolicy → SlaSubject → ℕ → Bool
unfolding last_step
may_escalate p s now =
    leb (deadline p s) now
    && ltb s.escalation_level p.max_level
    && (s.escalation_level == 0 || leb (last_step p s + p.escalation_gap_hours * hour) now)

abbrev reason_of : SlaPolicy → ℕ → Reason
reason_of p zero = due_passed
reason_of p (suc n) = still_unresolved p.escalation_gap_hours (suc n)

abbrev next_action : SlaPolicy → SlaSubject → ℕ → EscalationAction
next_action p s now = record {
  complaint_id = s.id;
  from_level = s.escalation_level;
  to_level = s.escalation_level + 1;
  reason = reason_of p s.escalation_level;
  at = now;
}

gap_passed-last_step :
    (p : SlaPolicy) (s : SlaSubject) (now : ℕ)
    → gap_passed (or_else s.escalated_at (some (deadline p s))) p now
      ≡ leb (last_step p s + p.escalation_gap_hours * hour) now
unfolding last_step
gap_passed-last_step p s now = elim (Option-cases s.escalated_at) [
  | inl e ↦ rw e
  | inr (last, e) ↦ rw e
]

level-cases : (n : ℕ) → (n ≡ 0) ⊎ ((k : ℕ) × (n ≡ suc k))
level-cases zero = inl refl
level-cases (suc k) = inr (k, refl)

-- An open complaint is escalated, to the next level, exactly when it is breached, below the highest
-- level of its policy, and either not escalated yet or the gap has passed since the last time.
pub evaluate_open :
    (policies : List SlaPolicy) (s : SlaSubject) (p : SlaPolicy) (now : ℕ)
    → IsOpen policies s p
    → evaluate policies s now ≡ (if may_escalate p s now then some (next_action p s now) else none)
unfolding evaluate escalate may_escalate open_status
evaluate_open policies s p now h = rw h.policy (
    rw (status_open policies s p now h) (
      rw (at_most-diff (deadline p s) now 0) (
        rw (at_most-diff (deadline p s) now (risk_window p)) (
          rw (gap_passed-last_step p s now) (elim (level-cases s.escalation_level) [
            | inl e ↦ rw e (ground arith)
            | inr (k, e) ↦ rw e (ground arith)
          ])))))

-- The gaps that lie between the first level and this one.
abbrev gaps : ℕ → ℕ → ℕ
gaps zero gap = 0
gaps (suc n) gap = n * gap

-- What `scans` keeps of an open complaint, whatever the times: it stays open, its level only rises
-- and stays within the policy, and each level above the first took a gap.
record HasClimbed (policies : List SlaPolicy) (p : SlaPolicy) (due until : ℕ) (s : SlaSubject)
    : Type 0 where
  is_open : IsOpen policies s p
  same_due : deadline p s ≡ due
  bounded : s.escalation_level ≤ p.max_level
  timed :
      (s.escalation_level ≡ 0)
      ⊎ ((due + gaps s.escalation_level (p.escalation_gap_hours * hour) ≤ last_step p s)
          × (last_step p s ≤ until))

quiet_after :
    (policies : List SlaPolicy) (s : SlaSubject) (p : SlaPolicy) (now later : ℕ)
    → IsOpen policies s p
    → later < now + p.escalation_gap_hours * hour
    → evaluate policies (apply_action (some (next_action p s now)) now s) later ≡ none
unfolding apply_action may_escalate last_step
quiet_after policies s p now later h soon =
    rw
      (evaluate_open policies
        (record s { escalation_level = s.escalation_level + 1; escalated_at = some now }) p later
        (record { unfinished = h.unfinished; policy = h.policy }))
      (ground arith)

-- Once an open complaint is escalated, no scan escalates it again before the gap has passed.
pub evaluate_idempotent :
    (policies : List SlaPolicy) (s : SlaSubject) (p : SlaPolicy) (now later : ℕ)
    (act : EscalationAction)
    → IsOpen policies s p
    → evaluate policies s now ≡ some act
    → later < now + p.escalation_gap_hours * hour
    → evaluate policies (apply_action (some act) now s) later ≡ none
evaluate_idempotent policies s p now later act h e soon =
    let o = evaluate_open policies s p now h in
    elim (Bool-cases (may_escalate p s now)) [
      | inl may ↦
          let same : some act ≡ some (next_action p s now) = sym e ∙ o ∙ (rw may) in
          rw same (quiet_after policies s p now later h soon)
      | inr not_yet ↦ let same : some act ≡ none = sym e ∙ o ∙ (rw not_yet) in absurd (cc)
    ]

next_level :
    (due gap last until now level : ℕ)
    → due ≤ now
    → (level ≡ 0) ⊎ ((due + gaps level gap ≤ last) × (last ≤ until))
    → (level == 0 || leb (last + gap) now) ≡ true
    → due + gaps (level + 1) gap ≤ now
next_level due gap last until now zero passed timed step = omega arith
next_level due gap last until now (suc k) passed (inl e) step = absurd (omega arith)
next_level due gap last until now (suc k) passed (inr (timed, _)) step =
    let h : last + gap ≤ now = ground arith in
    let e : suc k * gap ≡ gap + k * gap = grind arith in
    let z : suc k + 1 ≡ suc (suc k) = omega arith in rw z (omega (arith, e, h, timed))

scan_once-HasClimbed :
    (policies : List SlaPolicy) (p : SlaPolicy) (due until now : ℕ) (s : SlaSubject)
    → now ≤ until
    → HasClimbed policies p due until s
    → HasClimbed policies p due until (apply_action (evaluate policies s now) now s)
unfolding apply_action last_step may_escalate deadline
scan_once-HasClimbed policies p due until now s before c =
    rw (evaluate_open policies s p now c.is_open) (elim (Bool-cases (may_escalate p s now)) [
      | inl may ↦ rw may (record {
        is_open = record { unfinished = c.is_open.unfinished; policy = c.is_open.policy };
        same_due = c.same_due;
        bounded = ground arith;
        timed = inr (
          next_level due (p.escalation_gap_hours * hour) (last_step p s) until now
              s.escalation_level (ground (arith, c.same_due)) c.timed (ground arith),
          before,
        );
      })
      | inr not_yet ↦ rw not_yet c
    ])

scans-HasClimbed :
    (policies : List SlaPolicy) (p : SlaPolicy) (due until : ℕ) (s : SlaSubject) (times : List ℕ)
    → All (λ t. t ≤ until) times
    → HasClimbed policies p due until s
    → HasClimbed policies p due until (scans policies s times)
unfolding scans
scans-HasClimbed policies p due until s [] before c = c
scans-HasClimbed policies p due until s (now ∷ times) before c =
    scans-HasClimbed policies p due until (apply_action (evaluate policies s now) now s) times
      before.1 (scan_once-HasClimbed policies p due until now s before.0 c)

least_time :
    (p : SlaPolicy) (due until : ℕ) (s : SlaSubject)
    → due + gaps s.escalation_level (p.escalation_gap_hours * hour) ≤ last_step p s
    → last_step p s ≤ until
    → due + gaps s.escalation_level (p.escalation_gap_hours * hour) ≤ until
least_time p due until s t u = omega (arith, t, u)

-- An open complaint that was never escalated stays within the highest level of its policy, however
-- often it is scanned, and a level is reached no sooner than the due time and a gap for each level
-- below it.
pub level_needs_time :
    (policies : List SlaPolicy) (p : SlaPolicy) (until : ℕ) (s : SlaSubject) (times : List ℕ)
    → IsOpen policies s p
    → s.escalation_level ≡ 0
    → All (λ t. t ≤ until) times
    → ((scans policies s times).escalation_level ≤ p.max_level)
      × ((n : ℕ)
          → (scans policies s times).escalation_level ≡ suc n
          → deadline p s + n * (p.escalation_gap_hours * hour) ≤ until)
level_needs_time policies p until s times h zero_level before =
    let c : HasClimbed policies p (deadline p s) until (scans policies s times) =
      scans-HasClimbed policies p (deadline p s) until s times before
        (record { is_open = h; same_due = refl; bounded = omega arith; timed = inl zero_level }) in
    (
      c.bounded,
      λ n e. elim c.timed [
        | inl z ↦ absurd (omega arith)
        | inr (t, u) ↦ rw e at (least_time p (deadline p s) until (scans policies s times) t u)
      ],
    )
