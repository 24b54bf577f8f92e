-- ===== src/Desk/History/Sent.antt =====
-- Correcting the category, transferring and escalating (app/services/officer_service.py) keep what
-- every step keeps.
use civiclens.Sla.{due_at}
use civiclens.Desk.Fieldwork.{given}
use civiclens.Desk.Automation.{level_up-Keeps, notify_all-Keeps, aside}
use civiclens.Desk.Rules.{level_up}
use civiclens.Desk.Handover.{
  escalate_complaint, raise_level, relearned, transfer, correct_category, send_on, categories,
  rehomed, has_started, touched, recategorized, notify_desk,
}
use civiclens.Desk.History.{Handled, transition-Keeps, true, false, loaded}
use civiclens.Desk.Keeps.{Keeps, Keeps-edit, Keeps-trans, Keeps-along, Keeps-event, Keeps-refl}
use civiclens.Desk.Officer.{
  permitted, unknown_department, finished_complaint, highest_level, same_department, work_started,
  unknown_category, DeskError,
}
use civiclens.Access.{AuthContext, complaint_update_status, complaint_remark}
use civiclens.Desk.{
  Complaint, Book, Work, max_escalation_level, save, add_event, notify_all, escalated_key, audited,
  transfer_key,
}
use civiclens.Complaint.Status.{ai_routed, is_finished, assigned}
use civiclens.Desk.Matching.{Office, same_status, member}
use civiclens.Prelude.{
  ℕ, String, ◌≡◌, refl, inl, inr, not, none, some, arith, Bool-cases, ok, ◌>>◌, raise_if, >>=-ok,
  >>-ok, ok_injective, >>-first, raise_if-false, true, leb, false, if◌then◌else◌, opt_eq, str_eq,
  ◌&&◌, strip, ◌>>=◌, Result,
}

relearned-Keeps :
    (now : ℕ) (actor department : String) (w : Work) → Keeps w (relearned now actor department w)
relearned-Keeps now actor department (c, b) =
    elim (Bool-cases (member department categories && not (str_eq department c.category))) [
      | inl e ↦ rw e (
          Keeps-edit c (record c { category = department }) b _ refl refl refl (omega arith)
            (λ m. m) refl refl (inl (refl, refl)))
      | inr e ↦ rw e (Keeps-refl (c, b))
    ]

rehomed-Keeps :
    (office : Office) (department : String) (w : Work) → Keeps w (rehomed office department w)
unfolding due_at
rehomed-Keeps office department (c, b) =
    Keeps-edit c _ b b refl refl refl (omega arith) (λ m. m) refl refl (inl (refl, refl))

send_on-Keeps :
    (office : Office) (now : ℕ) (actor reason : String) (w : Work) {w' : Work}
    → send_on office now actor reason w ≡ ok w'
    → Keeps w w'
unfolding send_on
send_on-Keeps office now actor reason (c, b) h = elim (Bool-cases (same_status c.status assigned)) [
  | inl e ↦ transition-Keeps office now actor ai_routed (some reason) "transferred" c b (rw e at h)
  | inr e ↦ Keeps-along (ok_injective (rw e at h)) (
      Keeps-trans (c, b)
        (add_event "transferred" (some actor) none none (some reason) false now (c, b)) _
        (Keeps-event c b _ _ refl refl refl refl refl)
        (Keeps-edit c (record c { updated_at = now }) _ _ refl refl refl (omega arith) (λ m. m) refl
          refl (inr refl)))
]

module _ (office : Office) (now : ℕ) (ctx : AuthContext) (id : String) (b : Book) {w' : Work} where
  pub correct_category-Handled :
      (category : String) → correct_category now ctx id category b ≡ ok w' → Handled ctx id b w'
  unfolding correct_category
  correct_category-Handled category h =
      loaded ctx id b
        (permitted ctx complaint_remark
          >> raise_if (not (member category categories)) unknown_category)
        _ (λ c k. kept c k) h
    where
      kept :
          (c : Complaint)
          → if◌then◌else◌ {A = Result DeskError Work} (str_eq c.category category) (ok (c, b)) (
              ok (
                audited "classification.corrected" (some ctx.user_id) (
                  add_event "category_corrected"
                    (some ctx.user_id)
                    none
                    none
                    none
                    true
                    now
                    (save (touched now (recategorized now ctx.user_id category (c, b)))))))
            ≡ ok w'
          → Keeps (c, b) w'
      kept c k = elim (Bool-cases (str_eq c.category category)) [
        | inl e ↦ Keeps-along (ok_injective (rw e at k)) (Keeps-refl (c, b))
        | inr e ↦
            let w1 = save (touched now (recategorized now ctx.user_id category (c, b))) in
            Keeps-along (ok_injective (rw e at k)) (
              Keeps-trans (c, b) w1 _
                (Keeps-edit c w1.0 b w1.1 refl refl refl (omega arith) (λ m. m) refl refl
                  (inr refl))
                (Keeps-event w1.0 w1.1 _ _ refl refl refl refl refl))
      ]

  pub transfer-Handled :
      (department reason : String)
      → transfer office now ctx id department reason b ≡ ok w'
      → Handled ctx id b w'
  unfolding transfer
  transfer-Handled department reason h =
      loaded ctx id b (permitted ctx complaint_update_status >> given reason) _ (λ c k. kept c k) h
    where
      kept :
          (c : Complaint)
          → (raise_if (not (member department office.departments)) unknown_department
              >> raise_if (opt_eq (some department) c.department_code) same_department
              >> raise_if (has_started c.status) work_started
              >> send_on office now ctx.user_id
                  (strip reason)
                  (rehomed office department (relearned now ctx.user_id department (c, b)))
              >>= λ w. ok (notify_desk office department w))
            ≡ ok w'
          → Keeps (c, b) w'
      kept c k =
          let guards =
            raise_if (not (member department office.departments)) unknown_department
            >> raise_if (opt_eq (some department) c.department_code) same_department
            >> raise_if (has_started c.status) work_started in
          let w1 = relearned now ctx.user_id department (c, b) in
          let w2 = rehomed office department w1 in
          let last = >>=-ok (guards >> send_on office now ctx.user_id (strip reason) w2) _ k in
          let sent =
            send_on-Keeps office now ctx.user_id (strip reason) w2 (>>-ok guards _ last.1) in
          let told =
            notify_all-Keeps (office.officers department) "complaint.transferred_in"
              (transfer_key last.0.0.id department) last.0 in
          Keeps-trans (c, b) w1 w' (relearned-Keeps now ctx.user_id department (c, b))
            (Keeps-trans w1 w2 w' (rehomed-Keeps office department w1)
              (Keeps-trans w2 last.0 w' sent (Keeps-along (ok_injective last.2) told)))

  pub escalate-Handled :
      (reason : String)
      → escalate_complaint office now ctx id reason b ≡ ok w'
      → Handled ctx id b w'
  unfolding escalate_complaint raise_level
  escalate-Handled reason h =
      loaded ctx id b (permitted ctx complaint_update_status >> given reason) _ (λ c k. kept c k) h
    where
      kept :
          (c : Complaint)
          → (raise_if (is_finished c.status) finished_complaint
              >> raise_if (leb max_escalation_level c.escalation_level) highest_level
              >> ok (raise_level office now ctx.user_id reason (c, b)))
            ≡ ok w'
          → Keeps (c, b) w'
      kept c k =
          let guards =
            raise_if (is_finished c.status) finished_complaint
            >> raise_if (leb max_escalation_level c.escalation_level) highest_level in
          let open_ =
            >>-ok (raise_if (is_finished c.status) finished_complaint) _
              (>>-first guards (ok (raise_level office now ctx.user_id reason (c, b))) k) in
          let below = raise_if-false _ highest_level open_ in
          let w1 = save (level_up now c, b) in
          let w2 = add_event "escalated" (some ctx.user_id) none none (some reason) false now w1 in
          let w3 =
            notify_all office.admins "complaint.escalated"
              (escalated_key w2.0.id w2.0.escalation_level) w2 in
          Keeps-along (ok_injective (>>-ok guards _ k)) (
            Keeps-trans (c, b) w1 _ (level_up-Keeps now c b below)
              (Keeps-trans w1 w2 _ (Keeps-event w1.0 w1.1 _ _ refl refl refl refl refl) (
                Keeps-trans w2 w3 _
                  (notify_all-Keeps office.admins "complaint.escalated"
                    (escalated_key w2.0.id w2.0.escalation_level) w2)
                  (aside w3.0 w3.1 _ refl refl refl))))
