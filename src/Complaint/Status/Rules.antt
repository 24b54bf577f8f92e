-- ===== src/Complaint/Status/Rules.antt =====
-- When a transition is accepted, and what its history event records.
use civiclens.Prelude.{
  ℕ, String, ◌≡◌, ◌↔◌, true, false, ◌||◌, Option, some, ok, arith, has_text, strip_or_none,
  strip_or_none-has_text, ◌∙◌,
}
use civiclens.Complaint.Status.{
  Status, HistoryEvent, can_transition, remark_required, is_reopen, is_terminal,
  validate_transition, apply_transition,
}

-- Accepted transitions are exactly the edges of the graph whose remark rule is met: a resolution,
-- a rejection and a reopening each need a remark with some text.
pub validate_transition_iff :
    (current target : Status) (remarks : Option String)
    → (validate_transition current target remarks ≡ ok tt) ↔ (
        (can_transition current target ≡ true)
        × ((remark_required target || is_reopen current target) ≡ true → has_text remarks ≡ true))
unfolding validate_transition
validate_transition_iff current target remarks = ground arith

apply_transition-ok :
    (cid : String) (current target : Status) (actor label remarks : Option String) (at : ℕ)
    {e : HistoryEvent}
    → apply_transition cid current target actor label remarks at ≡ ok e
    → (validate_transition current target remarks ≡ ok tt)
      × (e.complaint_id ≡ cid)
      × (e.from_status ≡ some current)
      × (e.to_status ≡ some target)
      × (e.actor_id ≡ actor)
      × (e.at ≡ at)
      × (e.remarks ≡ strip_or_none remarks)
unfolding apply_transition
apply_transition-ok cid current target actor label remarks at h = ground arith

-- An accepted transition yields an event of that complaint from the one status to the other, at the
-- given time and by the given actor, that keeps the stripped remark; and a resolution, a rejection
-- and a reopening have such a remark.
pub apply_transition_records :
    (cid : String) (current target : Status) (actor label remarks : Option String) (at : ℕ)
    {e : HistoryEvent}
    → apply_transition cid current target actor label remarks at ≡ ok e
    → (e.complaint_id ≡ cid)
      × (e.from_status ≡ some current)
      × (e.to_status ≡ some target)
      × (e.actor_id ≡ actor)
      × (e.at ≡ at)
      × (e.remarks ≡ strip_or_none remarks)
      × ((remark_required target || is_reopen current target) ≡ true
          → (text : String) × (e.remarks ≡ some text))
apply_transition_records cid current target actor label remarks at h =
    let (valid, id, from, to, by, time, kept) =
      apply_transition-ok cid current target actor label remarks at h in
    let (_, needs) = (validate_transition_iff current target remarks).0 valid in
    (
      id,
      from,
      to,
      by,
      time,
      kept,
      λ required.
          let (text, e) = strip_or_none-has_text remarks (needs required) in (text, kept ∙ e),
    )

-- No transition leaves a closed or a rejected complaint, whatever the remark.
pub terminal_is_final :
    (current target : Status) (remarks : Option String)
    → is_terminal current ≡ true
    → can_transition current target ≡ false
unfolding is_terminal can_transition
terminal_is_final current target remarks h = ground arith
