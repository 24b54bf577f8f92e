-- ===== src/Desk/Firing.antt =====
-- What a workflow rule does when it ran for the complaint before: app/services/workflow_service.py.
use civiclens.Desk.Automation.{run_rule-Keeps, run_rules-Keeps}
use civiclens.Desk.Keeps.{Once}
use mathlib.Core.List.{append-nil, append_assoc, map-append}
use civiclens.Desk.Rules.{
  run_rules, run_rule, has_run, recorded, apply_action, give_to, is_taken, run_for_complaint,
  is_run,
}
use civiclens.Desk.{Work, DedupeKey, notify, notify_all, max_escalation_level}
use civiclens.Complaint.Status.{resolved, closed, can_transition, is_finished}
use civiclens.Desk.Matching.{
  Rule, Action, Office, notify_admins, escalate, auto_close, assign_least_loaded, add_internal_note,
  same_status, Trigger, matches,
}
use civiclens.Prelude.{
  ℕ, String, ◌≡◌, refl, sym, ap, ◌∙◌, inl, inr, true, not, ◌&&◌, ◌||◌, Option, none, some, List, [],
  ◌∷◌, ◌++◌, map, leb, Bool-cases, filter, is_empty, any-append,
}

notify_all-executions :
    (ids : List String) (kind : String) (key : String → DedupeKey) (w : Work)
    → (notify_all ids kind key w).1.executions ≡ w.1.executions
notify_all-executions [] kind key w = refl
notify_all-executions (i ∷ ids) kind key w =
    notify_all-executions ids kind key (notify i kind (key i) w)

give_to-executions :
    (now : ℕ) (o : Option String) (w : Work) → (give_to now o w).1.executions ≡ w.1.executions
give_to-executions now none w = refl
give_to-executions now (some officer_id) (c, b) = elim (Bool-cases (is_empty officer_id)) [
  | inl e ↦ rw e refl
  | inr e ↦ rw e refl
]

apply_action-executions :
    (office : Office) (now : ℕ) (rule : Rule) (action : Action) (w : Work)
    → (apply_action office now rule action w).1.executions ≡ w.1.executions
unfolding apply_action
apply_action-executions office now rule notify_admins w =
    notify_all-executions office.admins "system" _ w
apply_action-executions office now rule escalate (c, b) =
    elim (Bool-cases (is_finished c.status || leb max_escalation_level c.escalation_level)) [
      | inl e ↦ rw e refl
      | inr e ↦ rw e refl
    ]
apply_action-executions office now rule auto_close (c, b) =
    elim (Bool-cases
      (not (same_status c.status resolved) || not (can_transition c.status closed))) [
        | inl e ↦ rw e refl
        | inr e ↦ rw e refl
      ]
apply_action-executions office now rule assign_least_loaded (c, b) =
    elim (Bool-cases (is_taken c)) [
      | inl e ↦ rw e refl
      | inr e ↦ rw e (give_to-executions now _ (c, b))
    ]
apply_action-executions office now rule (add_internal_note text) w = refl

-- The entries of the table for rules that fired
abbrev pub entries : String → List String → List (String × String)
entries complaint_id fired = map (λ r. (r, complaint_id)) fired

-- The rules that did not run for the complaint, going by these entries
abbrev pub unrun : String → List (String × String) → List Rule → List Rule
unrun complaint_id xs rules = filter (λ rule. not (has_run rule.id complaint_id xs)) rules

module _ (office : Office) (now : ℕ) (trigger : Trigger) where
  run_rule-executions :
      (rule : Rule) (w : Work)
      → (run_rule office now trigger rule w).0.1.executions
        ≡ w.1.executions ++ entries w.0.id (run_rule office now trigger rule w).1
  unfolding run_rule
  run_rule-executions rule (c, b) =
      elim (Bool-cases (matches rule c trigger now && not (has_run rule.id c.id b.executions))) [
        | inl e ↦ rw e (apply_action-executions office now rule rule.action (recorded rule (c, b)))
        | inr e ↦ rw e (sym (append-nil b.executions))
      ]

  run_rules-executions :
      (rules : List Rule) (w : Work)
      → (run_rules office now trigger rules w).0.1.executions
        ≡ w.1.executions ++ entries w.0.id (run_rules office now trigger rules w).1
  unfolding run_rules
  run_rules-executions [] w = sym (append-nil w.1.executions)
  run_rules-executions (rule ∷ rules) w =
      let first = run_rule office now trigger rule w in
      let rest = run_rules office now trigger rules first.0 in
      let same = (run_rule-Keeps office now trigger rule w).same_id in
      run_rules-executions rules first.0
      ∙ ap (λ x. x ++ entries first.0.0.id rest.1) (run_rule-executions rule w)
      ∙ ap (λ i. w.1.executions ++ entries w.0.id first.1 ++ entries i rest.1) same
      ∙ append_assoc w.1.executions (entries w.0.id first.1) (entries w.0.id rest.1)
      ∙ ap (λ x. w.1.executions ++ x) (sym (map-append (λ r. (r, w.0.id)) first.1 rest.1))

  -- A rule that ran before does nothing.
  run_rule-ran :
      (rule : Rule) (w : Work)
      → has_run rule.id w.0.id w.1.executions ≡ true
      → run_rule office now trigger rule w ≡ (w, [])
  unfolding run_rule
  run_rule-ran rule (c, b) h = elim (Bool-cases (matches rule c trigger now)) [
    | inl e ↦ rw (e, h) refl
    | inr e ↦ rw e refl
  ]

  has_run-append :
      (r c : String) (xs ys : List (String × String))
      → has_run r c xs ≡ true
      → has_run r c (xs ++ ys) ≡ true
  unfolding has_run
  has_run-append r c xs ys h = rw (any-append (is_run r c) xs ys, h) refl

  run_rules-unrun :
      (id : String) (xs ys : List (String × String)) (rules : List Rule) (w : Work)
      → w.0.id ≡ id
      → w.1.executions ≡ xs ++ ys
      → run_rules office now trigger rules w ≡ run_rules office now trigger (unrun id xs rules) w
  unfolding run_rules
  run_rules-unrun id xs ys [] w i e = refl
  run_rules-unrun id xs ys (rule ∷ rules) w i e = elim (Bool-cases (has_run rule.id id xs)) [
    | inl ran ↦
        let before : has_run rule.id w.0.id w.1.executions ≡ true =
          ap (λ x. has_run rule.id x w.1.executions) i
          ∙ ap (has_run rule.id id) e
          ∙ has_run-append rule.id id xs ys ran in
        rw ran (rw (run_rule-ran rule w before) (run_rules-unrun id xs ys rules w i e))
    | inr fresh ↦
        let first = run_rule office now trigger rule w in
        let rest =
          run_rules-unrun id xs (ys ++ entries w.0.id first.1) rules first.0
            ((run_rule-Keeps office now trigger rule w).same_id ∙ i)
            (run_rule-executions rule w
              ∙ ap (λ x. x ++ entries w.0.id first.1) e
              ∙ append_assoc xs ys (entries w.0.id first.1)) in
        rw fresh (ap (λ r. (r.0, first.1 ++ r.1)) rest)
  ]

  -- A rule does nothing to a complaint for which it ran before: the rules of the office do what those
  -- of them do that did not run, and each rule that fires, for whichever trigger, is entered in the
  -- table, where no rule is entered twice for one complaint if none was.
  pub no_rule_repeats :
      (w : Work)
      → Once w.1.executions
      → (run_for_complaint office now trigger w
          ≡ run_rules office now trigger (unrun w.0.id w.1.executions office.rules) w)
        × ((run_for_complaint office now trigger w).0.1.executions
            ≡ w.1.executions ++ entries w.0.id (run_for_complaint office now trigger w).1)
        × Once (run_for_complaint office now trigger w).0.1.executions
  unfolding run_for_complaint
  no_rule_repeats w o = (
    run_rules-unrun w.0.id w.1.executions [] office.rules w refl (sym (append-nil w.1.executions)),
    run_rules-executions office.rules w,
    (run_rules-Keeps office now trigger office.rules w).once o,
  )
