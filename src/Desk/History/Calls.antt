-- ===== src/Desk/History/Calls.antt =====
-- Each call of app/services/officer_service.py keeps what every step keeps.
use civiclens.Desk.Automation.{aside}
use civiclens.Desk.History.{Handled, loaded, transition-Keeps, false}
use civiclens.Desk.Keeps.{Keeps, Keeps-along, Keeps-trans, Keeps-event, Keeps-edit}
use civiclens.Desk.Fieldwork.{typed_event, typed_step, moves}
use civiclens.Desk.Officer.{
  hand_over, update_status, permitted, finished_complaint, assign, serves, wrong_officer,
}
use civiclens.Desk.{Book, Work, Complaint, add_event, announce, notify, assigned_key}
use civiclens.Access.{AuthContext, Permission, complaint_update_status, complaint_assign}
use civiclens.Complaint.Status.{Status, ai_routed, assigned, is_finished}
use civiclens.Desk.Matching.{Office, same_status}
use civiclens.Prelude.{
  ℕ, String, ◌≡◌, inl, inr, Bool, Option, none, some, Bool-cases, ok, raise_if, ok_injective, >>-ok,
  >>=-ok, false, ◌>>◌, arith, refl, not, ◌>>=◌,
}

module _ (office : Office) (now : ℕ) (actor : String) (b : Book) where
  hand_over-Keeps :
      (c : Complaint) {w' : Work} → hand_over office now actor (c, b) ≡ ok w' → Keeps (c, b) w'
  unfolding hand_over
  hand_over-Keeps c h = elim (Bool-cases (same_status c.status ai_routed)) [
    | inl e ↦ transition-Keeps office now actor assigned none "assigned" c b (rw e at h)
    | inr e ↦ Keeps-along (ok_injective (rw e at h)) (
        Keeps-trans (c, b) (add_event "assigned" (some actor) none none none false now (c, b)) _
          (Keeps-event c b _ _ refl refl refl refl refl)
          (Keeps-edit c c _ _ refl refl refl (omega arith) (λ m. m) refl refl (inr refl)))
  ]

  typed_step-Keeps :
      (kind : String) (remarks : Option String) (internal : Bool) (to : Option Status)
      (c : Complaint) {w' : Work}
      → typed_step office now actor kind remarks internal to (c, b) ≡ ok w'
      → Keeps (c, b) w'
  typed_step-Keeps kind remarks internal (some target) c h =
      transition-Keeps office now actor target remarks kind c b h
  typed_step-Keeps kind remarks internal none c h = Keeps-along (ok_injective h) (
      Keeps-trans (c, b) (add_event kind (some actor) none none remarks internal now (c, b)) _
        (Keeps-event c b _ _ refl refl refl refl refl)
        (Keeps-edit c (record c { updated_at = now }) _ _ refl refl refl (omega arith) (λ m. m) refl
          refl (inr refl)))

module _ (office : Office) (now : ℕ) (ctx : AuthContext) (id : String) (b : Book) {w' : Work} where
  pub update_status-Handled :
      (target : Status) (remarks : Option String)
      → update_status office now ctx id target remarks b ≡ ok w'
      → Handled ctx id b w'
  unfolding update_status
  update_status-Handled target remarks h =
      loaded ctx id b (permitted ctx complaint_update_status) _
        (λ c k. transition-Keeps office now ctx.user_id target remarks "status_change" c b k) h

  pub typed_event-Handled :
      (permission : Permission) (kind : String) (remarks : Option String) (to : Option Status)
      (internal : Bool)
      → typed_event office now ctx id permission kind remarks to internal b ≡ ok w'
      → Handled ctx id b w'
  unfolding typed_event
  typed_event-Handled permission kind remarks to internal h =
      loaded ctx id b (permitted ctx permission) _
        (λ c k.
          typed_step-Keeps office now ctx.user_id b kind remarks internal (moves c.status to) c
            (>>-ok (raise_if (is_finished c.status) finished_complaint) _ k))
        h

  pub assign-Handled :
      (officer_id : String) → assign office now ctx id officer_id b ≡ ok w' → Handled ctx id b w'
  unfolding assign
  assign-Handled officer_id h =
      loaded ctx id b (permitted ctx complaint_assign) _ (λ c k. kept c k) h
    where
      kept :
          (c : Complaint)
          → (raise_if (not (serves office c.department_code officer_id)) wrong_officer
              >> raise_if (is_finished c.status) finished_complaint
              >> hand_over office now ctx.user_id
                  (record c { assigned_officer_id = some officer_id }, b)
              >>= λ w. ok (
                  announce "complaint.assigned"
                    (notify officer_id "complaint.assigned" (assigned_key w.0.id officer_id) w)))
            ≡ ok w'
          → Keeps (c, b) w'
      kept c k =
          let given : Complaint = record c { assigned_officer_id = some officer_id } in
          let guards =
            raise_if (not (serves office c.department_code officer_id)) wrong_officer
            >> raise_if (is_finished c.status) finished_complaint in
          let last = >>=-ok (guards >> hand_over office now ctx.user_id (given, b)) _ k in
          let moved = hand_over-Keeps office now ctx.user_id b given (>>-ok guards _ last.1) in
          Keeps-trans (c, b) (given, b) w'
            (Keeps-edit c given b b refl refl refl (omega arith) (λ m. m) refl refl
              (inl (refl, refl)))
            (Keeps-trans (given, b) last.0 w' moved
              (Keeps-along (ok_injective last.2) (aside last.0.0 last.0.1 _ refl refl refl)))
