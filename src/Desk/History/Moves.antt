-- ===== src/Desk/History/Moves.antt =====
-- Routing by hand, correcting, transferring and escalating (app/services/officer_service.py) keep
-- what every step keeps.
use civiclens.Desk.History.{Handled, transition-Keeps, true}
use civiclens.Desk.Keeps.{Keeps, Keeps-edit, Keeps-trans, Keeps-along}
use civiclens.Desk.Officer.{
  unrouted_complaint, triage, with_due, permitted, is_administrator, not_administrator,
  is_elsewhere, outside_department, unknown_department, transition, due,
}
use civiclens.Access.{AuthContext, complaint_assign}
use civiclens.Desk.{Complaint, Book, Work, get}
use civiclens.Complaint.Status.{ai_routed, submitted}
use civiclens.Desk.Matching.{Office, same_status, member}
use civiclens.Prelude.{
  ℕ, String, ◌≡◌, refl, sym, ap, ◌∙◌, inl, inr, not, Option, none, some, arith, Bool-cases,
  Option-cases, ok, ◌>>◌, raise_if, >>=-ok, >>-ok, ok_injective, >>-first, raise_if-false, true,
}

unrouted-ok :
    (o : Option Complaint) {c : Complaint}
    → unrouted_complaint o ≡ ok c
    → (o ≡ some c) × (c.department_code ≡ none)
unrouted-ok none h = absurd (cc h)
unrouted-ok (some r) {c} h = elim (Option-cases r.department_code) [
  | inr (d, e) ↦ absurd (cc (rw e at h))
  | inl e ↦ elim (Bool-cases (not (same_status r.status submitted))) [
    | inl f ↦ absurd (cc (rw f at (rw e at h)))
    | inr f ↦
        let same : r ≡ c = ground (arith, h, e, f) in
        (ap some same, ap (λ x. x.department_code) (sym same) ∙ e)
  ]
]

with_due-Keeps : (d : Option ℕ) (w : Work) → Keeps w (with_due d w)
with_due-Keeps d (c, b) =
    Keeps-edit c (record c { sla_due_at = d }) b _ refl refl refl (omega arith) (λ m. m) refl refl
      (inr refl)

module _ (office : Office) (now : ℕ) (ctx : AuthContext) (id : String) (b : Book) {w' : Work} where
  pub triage-Handled :
      (department : String) → triage office now ctx id department b ≡ ok w' → Handled ctx id b w'
  unfolding triage
  triage-Handled department h =
      let guards =
        permitted ctx complaint_assign
        >> raise_if (not (is_administrator ctx.role)) not_administrator
        >> raise_if (is_elsewhere ctx department) outside_department in
      let first = >>=-ok (guards >> unrouted_complaint (get id b.complaints)) _ h in
      let allowed = >>-first guards _ first.1 in
      let staff = raise_if-false _ not_administrator (
        >>-ok (permitted ctx complaint_assign) _ (
          >>-first
            (permitted ctx complaint_assign
              >> raise_if (not (is_administrator ctx.role)) not_administrator)
            _ allowed)) in
      let administrator : is_administrator ctx.role ≡ true = ground (arith, staff) in
      let c = first.0 in
      let read = unrouted-ok (get id b.complaints) (>>-ok guards _ first.1) in
      let routed : Complaint = record c {
        department_code = some department;
        routing_source = some "manual";
      } in
      let known = raise_if (not (member department office.departments)) unknown_department in
      let last =
        >>=-ok (known >> transition office now ctx.user_id ai_routed none "routed" (routed, b)) _
          first.2 in
      let moved =
        transition-Keeps office now ctx.user_id ai_routed none "routed" routed b
          (>>-ok known _ last.1) in
      record {
        complaint = c;
        found = read.0;
        kept =
            Keeps-trans (c, b) (routed, b) w'
              (Keeps-edit c routed b b refl refl refl (omega arith) (λ m. m) refl refl
                (inl (refl, refl)))
              (Keeps-trans (routed, b) last.0 w' moved
                (Keeps-along (ok_injective last.2)
                  (with_due-Keeps (due office last.0.0 department) last.0)));
        access = inr (read.1, administrator);
      }
