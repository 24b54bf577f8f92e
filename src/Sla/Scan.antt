-- ===== src/Sla/Scan.antt =====
-- What a scan reports.
use mathlib.Core.List.{append-nil, append_assoc}
use civiclens.Sla.{
  SlaPolicy, SlaSubject, EscalationAction, State, ScanReport, scan, scan_from, status, evaluate,
  is_breached, breached, at_risk, policy_for, scan_one, no_policy, finished, on_track,
}
use civiclens.Prelude.{
  List, ℕ, Bool, String, sym, ◌∷◌, ◌≡◌, true, Option, false, [], map, ◌++◌, some, filter, none,
  Option-cases, inl, inr, ◌∙◌, refl,
}

abbrev pub is_at_risk : State → Bool
is_at_risk at_risk = true
is_at_risk _ = false

abbrev add_first : Option EscalationAction → List EscalationAction → List EscalationAction
add_first none acts = acts
add_first (some act) acts = act ∷ acts

-- The actions that `evaluate` gives, in order.
abbrev pub all_actions : List SlaPolicy → List SlaSubject → ℕ → List EscalationAction
all_actions policies [] now = []
all_actions policies (s ∷ subjects) now =
    add_first (evaluate policies s now) (all_actions policies subjects now)

-- The identifiers of the complaints in a state, in order.
abbrev pub ids_in : (State → Bool) → List SlaPolicy → List SlaSubject → ℕ → List String
ids_in p policies subjects now =
    map (λ s. s.id) (filter (λ s. p (status policies s now).state) subjects)

-- A complaint that is not breached is not escalated.
evaluate_unbreached :
    (policies : List SlaPolicy) (s : SlaSubject) (now : ℕ)
    → is_breached (status policies s now).state ≡ false
    → evaluate policies s now ≡ none
unfolding evaluate
evaluate_unbreached policies s now h =
    elim (Option-cases (policy_for policies s.priority s.department_code)) [
      | inl e ↦ rw e
      | inr (p, e) ↦ rw e (rw h)
    ]

-- What the loop adds to a report.
record HasAdded (policies : List SlaPolicy) (subjects : List SlaSubject) (now : ℕ)
    (r r' : ScanReport) : Type 0 where
  risks : r'.at_risk ≡ r.at_risk ++ ids_in is_at_risk policies subjects now
  breaches : r'.breached ≡ r.breached ++ ids_in is_breached policies subjects now
  acts : r'.actions ≡ r.actions ++ all_actions policies subjects now

add_plain :
    (policies : List SlaPolicy) (s : SlaSubject) (subjects : List SlaSubject) (now : ℕ)
    (r r' : ScanReport) (st : State)
    → (status policies s now).state ≡ st
    → is_at_risk st ≡ false
    → is_breached st ≡ false
    → HasAdded policies subjects now r r'
    → HasAdded policies (s ∷ subjects) now r r'
add_plain policies s subjects now r r' st e no_risk no_breach h = record {
  risks = rw e (rw no_risk h.risks);
  breaches = rw e (rw no_breach h.breaches);
  acts = rw (evaluate_unbreached policies s now (rw e no_breach)) h.acts;
}

add_one :
    (policies : List SlaPolicy) (s : SlaSubject) (subjects : List SlaSubject) (now : ℕ)
    (r r' : ScanReport) (st : State)
    → (status policies s now).state ≡ st
    → HasAdded policies subjects now (scan_one st s.id (evaluate policies s now) r) r'
    → HasAdded policies (s ∷ subjects) now r r'
unfolding scan_one
add_one policies s subjects now r r' at_risk e h = record {
  risks =
      rw e (h.risks ∙ append_assoc r.at_risk (s.id ∷ []) (ids_in is_at_risk policies subjects now));
  breaches = rw e (h.breaches);
  acts = rw (evaluate_unbreached policies s now (rw e)) h.acts;
}
add_one policies s subjects now r r' breached e h = record {
  risks = rw e (h.risks);
  breaches =
      rw e (
        h.breaches
        ∙ append_assoc r.breached (s.id ∷ []) (ids_in is_breached policies subjects now));
  acts = elim (Option-cases (evaluate policies s now)) [
    | inl k ↦ rw k (rw k at h.acts)
    | inr (a, k) ↦
        rw k (rw k at h.acts ∙ append_assoc r.actions (a ∷ []) (all_actions policies subjects now))
  ];
}
add_one policies s subjects now r r' no_policy e h =
    add_plain policies s subjects now r r' no_policy e refl refl h
add_one policies s subjects now r r' finished e h =
    add_plain policies s subjects now r r' finished e refl refl h
add_one policies s subjects now r r' on_track e h =
    add_plain policies s subjects now r r' on_track e refl refl h

scan_from-HasAdded :
    (policies : List SlaPolicy) (subjects : List SlaSubject) (now : ℕ) (r : ScanReport)
    → HasAdded policies subjects now r (scan_from policies subjects now r)
unfolding scan_from
scan_from-HasAdded policies [] now r = record {
  risks = sym (append-nil _);
  breaches = sym (append-nil _);
  acts = sym (append-nil _);
}
scan_from-HasAdded policies (s ∷ subjects) now r =
    add_one policies s subjects now r
      (scan_from policies subjects now
        (scan_one (status policies s now).state s.id (evaluate policies s now) r))
      (status policies s now).state refl
      (scan_from-HasAdded policies subjects now
        (scan_one (status policies s now).state s.id (evaluate policies s now) r))

-- A scan reports exactly the complaints that are at risk, exactly those that are breached, and
-- every action that `evaluate` gives for one of the complaints, each in the order in which the
-- complaints come.
pub scan_reports :
    (policies : List SlaPolicy) (subjects : List SlaSubject) (now : ℕ)
    → ((scan policies subjects now).at_risk ≡ ids_in is_at_risk policies subjects now)
      × ((scan policies subjects now).breached ≡ ids_in is_breached policies subjects now)
      × ((scan policies subjects now).actions ≡ all_actions policies subjects now)
unfolding scan
scan_reports policies subjects now =
    let a : HasAdded policies subjects now (record { at_risk = []; breached = []; actions = [] })
        (scan policies subjects now) =
      scan_from-HasAdded policies subjects now
        (record { at_risk = []; breached = []; actions = [] }) in
    (a.risks, a.breaches, a.acts)
