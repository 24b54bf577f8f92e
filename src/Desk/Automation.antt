-- ===== src/Desk/Automation.antt =====
-- What the workflow rules keep: app/services/workflow_service.py.
use mathlib.Core.List.{append-nil}
use civiclens.Desk.Rules.{
  give_to, apply_action, level_up, is_taken, run_rules, run_rule, has_run, recorded, is_run, sweep,
  run_each, run_for_complaint, candidates,
}
use civiclens.Desk.Keeps.{
  Keeps, Keeps-edit, Keeps-refl, Keeps-trans, Keeps-move, Keeps-event, Once, Explains,
}
use civiclens.Desk.{
  Complaint, Work, DedupeKey, Book, notify_all, max_escalation_level, save, rule_key, notify,
  audited, add_event,
}
use civiclens.Complaint.Status.{resolved, closed, can_transition, is_finished}
use civiclens.Desk.Matching.{
  Rule, Action, Office, notify_admins, escalate, auto_close, assign_least_loaded, add_internal_note,
  same_status, Trigger, matches, scheduled, same_trigger,
}
use civiclens.Prelude.{
  ℕ, String, ◌≡◌, refl, sym, ◌∙◌, inl, inr, true, false, not, ◌&&◌, ◌||◌, Option, none, some, List,
  [], ◌∷◌, ◌++◌, arith, leb, ◌==◌, Bool-cases, length, filter, is_empty, str_eq_comm, any-append,
}

pub aside :
    (c : Complaint) (b b' : Book)
    → b'.events ≡ b.events
    → b'.executions ≡ b.executions
    → b'.complaints ≡ b.complaints
    → Keeps (c, b) (c, b')
aside c b b' e x w = Keeps-edit c c b b' refl refl refl (omega arith) (λ h. h) e x (inl (w, refl))

pub notify_all-Keeps :
    (ids : List String) (kind : String) (key : String → DedupeKey) (w : Work)
    → Keeps w (notify_all ids kind key w)
notify_all-Keeps [] kind key w = Keeps-refl w
notify_all-Keeps (i ∷ ids) kind key (c, b) =
    Keeps-trans (c, b) _ _ (aside c b _ refl refl refl)
      (notify_all-Keeps ids kind key (notify i kind (key i) (c, b)))

pub level_up-Keeps :
    (now : ℕ) (c : Complaint) (b : Book)
    → leb max_escalation_level c.escalation_level ≡ false
    → Keeps (c, b) (save (level_up now c, b))
level_up-Keeps now c b h =
    Keeps-edit c (level_up now c) b _ refl refl refl (omega arith) (λ m. ground (arith, h)) refl
      refl (inr refl)

give_to-Keeps : (now : ℕ) (o : Option String) (w : Work) → Keeps w (give_to now o w)
give_to-Keeps now none w = Keeps-refl w
give_to-Keeps now (some officer_id) (c, b) = elim (Bool-cases (is_empty officer_id)) [
  | inl e ↦ rw e (Keeps-refl (c, b))
  | inr e ↦ rw e (
      Keeps-edit c (record c { assigned_officer_id = some officer_id; updated_at = now }) b _ refl
        refl refl (omega arith) (λ m. m) refl refl (inr refl))
]

apply_action-Keeps :
    (office : Office) (now : ℕ) (rule : Rule) (action : Action) (w : Work)
    → Keeps w (apply_action office now rule action w)
unfolding apply_action
apply_action-Keeps office now rule notify_admins (c, b) =
    notify_all-Keeps office.admins "system" (rule_key rule.id c.id) (c, b)
apply_action-Keeps office now rule escalate (c, b) =
    elim (Bool-cases (is_finished c.status || leb max_escalation_level c.escalation_level)) [
      | inl e ↦ rw e (Keeps-refl (c, b))
      | inr e ↦ rw e (
          Keeps-trans (c, b) (save (level_up now c, b)) _
            (level_up-Keeps now c b (ground (arith, e)))
            (Keeps-event (level_up now c) _ _ _ refl refl refl refl refl))
    ]
apply_action-Keeps office now rule auto_close (c, b) =
    elim (Bool-cases
      (not (same_status c.status resolved) || not (can_transition c.status closed))) [
        | inl e ↦ rw e (Keeps-refl (c, b))
        | inr e ↦ rw e (
            Keeps-move c (record c { status = closed; updated_at = now }) b _ _ (ground (arith, e))
              refl refl refl refl refl refl refl refl refl)
      ]
apply_action-Keeps office now rule assign_least_loaded (c, b) = elim (Bool-cases (is_taken c)) [
  | inl e ↦ rw e (Keeps-refl (c, b))
  | inr e ↦ rw e (give_to-Keeps now _ (c, b))
]
apply_action-Keeps office now rule (add_internal_note text) (c, b) =
    Keeps-event c b _ _ refl refl refl refl refl

is_run-append :
    (r c r' c' : String) (xs : List (String × String))
    → has_run r' c' xs ≡ false
    → is_run r c (r', c') ≡ false
    → has_run r' c' (xs ++ (r, c) ∷ []) ≡ false
unfolding has_run
is_run-append r c r' c' xs h n =
    let other : is_run r' c' (r, c) ≡ false = rw (str_eq_comm r r') (rw (str_eq_comm c c') n) in
    any-append (is_run r' c') xs ((r, c) ∷ []) ∙ rw h (rw other refl)

Once-append :
    (r c : String) (xs : List (String × String))
    → Once xs
    → has_run r c xs ≡ false
    → Once (xs ++ (r, c) ∷ [])
unfolding Once has_run
Once-append r c [] o h = (refl, tt)
Once-append r c ((r', c') ∷ xs) o h =
    (is_run-append r c r' c' xs o.0 (ground (arith, h)), Once-append r c xs o.1 (ground (arith, h)))

recorded-Keeps :
    (rule : Rule) (c : Complaint) (b : Book)
    → has_run rule.id c.id b.executions ≡ false
    → Keeps (c, b) (recorded rule (c, b))
unfolding Explains
recorded-Keeps rule c b h = record {
  same_id = refl;
  same_citizen = refl;
  history = ([], sym (append-nil b.events), refl);
  level_kept = omega arith;
  level_bounded = λ m. m;
  others = λ i n. refl;
  stored = λ k. record {
    row = k.row;
    row_found = k.row_found;
    row_status = k.row_status;
    row_level = k.row_level;
  };
  once = λ o. Once-append rule.id c.id b.executions o h;
}

event_audited-Keeps :
    (now : ℕ) (w : Work)
    → Keeps w
        (audited "workflow.executed" none (add_event "workflow" none none none none true now w))
event_audited-Keeps now (c, b) = Keeps-event c b _ _ refl refl refl refl refl

pub run_rule-Keeps :
    (office : Office) (now : ℕ) (trigger : Trigger) (rule : Rule) (w : Work)
    → Keeps w (run_rule office now trigger rule w).0
unfolding run_rule
run_rule-Keeps office now trigger rule (c, b) =
    elim (Bool-cases (matches rule c trigger now && not (has_run rule.id c.id b.executions))) [
      | inr e ↦ rw e (Keeps-refl (c, b))
      | inl e ↦
          let w1 = recorded rule (c, b) in
          let w2 = apply_action office now rule rule.action w1 in
          let last =
            audited "workflow.executed" none
              (add_event "workflow" none none none none true now w2) in
          rw e (
            Keeps-trans (c, b) w1 last (recorded-Keeps rule c b (ground (arith, e)))
              (Keeps-trans w1 w2 last (apply_action-Keeps office now rule rule.action w1)
                (event_audited-Keeps now w2)))
    ]

pub run_rules-Keeps :
    (office : Office) (now : ℕ) (trigger : Trigger) (rules : List Rule) (w : Work)
    → Keeps w (run_rules office now trigger rules w).0
unfolding run_rules
run_rules-Keeps office now trigger [] w = Keeps-refl w
run_rules-Keeps office now trigger (rule ∷ rules) w =
    let w1 = (run_rule office now trigger rule w).0 in
    Keeps-trans w w1 _ (run_rule-Keeps office now trigger rule w)
      (run_rules-Keeps office now trigger rules w1)

run_each-Once :
    (office : Office) (now : ℕ) (cs : List Complaint) (b : Book)
    → Once b.executions
    → Once (run_each office now cs b).0.executions
unfolding run_each run_for_complaint
run_each-Once office now [] b o = o
run_each-Once office now (c ∷ cs) b o =
    let k = run_rules-Keeps office now scheduled office.rules (c, b) in
    run_each-Once office now cs (run_rules office now scheduled office.rules (c, b)).0.1 (k.once o)

pub sweep-Once :
    (office : Office) (now : ℕ) (b : Book)
    → Once b.executions
    → Once (sweep office now b).0.executions
unfolding sweep
sweep-Once office now b o =
    elim (Bool-cases (length (filter (λ r. same_trigger r.trigger scheduled) office.rules) == 0)) [
      | inl e ↦ rw e o
      | inr e ↦ rw e (run_each-Once office now (candidates b.complaints) b o)
    ]
