-- ===== src/Complaint/Status/Lifecycle.antt =====
-- Histories of accepted transitions: what every complaint has been through.
use civiclens.Prelude.{
  String, ◌≡◌, ◌≢◌, refl, ◌⊎◌, inl, Bool, true, false, Option, ok, arith, has_text, inr,
}
use civiclens.Complaint.Status.{
  Status, submitted, ai_routed, assigned, under_review, resolved, rejected, can_transition,
  validate_transition, closed, remark_required,
}
use civiclens.Complaint.Status.Rules.{validate_transition_iff}

-- A sequence of transitions that `validate_transition` accepts, each with its remark.
pub data Trace (first : Status) : Status → Type 0 where
  start : Trace first first
  move :
      {s : Status} (earlier : Trace first s) (t : Status) (remarks : Option String)
      → validate_transition s t remarks ≡ ok tt
      → Trace first t

abbrev pub Visits : {first s : Status} → Status → Trace first s → Type 0
Visits {first} u start = first ≡ u
Visits u (move earlier t remarks h) = (t ≡ u) ⊎ Visits u earlier

-- A transition to `resolved` whose remark has some text.
abbrev pub IsResolvedWithText : {first s : Status} → Trace first s → Type 0
IsResolvedWithText start = ⊥
IsResolvedWithText (move earlier t remarks h) =
    ((t ≡ resolved) × (has_text remarks ≡ true)) ⊎ IsResolvedWithText earlier

-- The statuses that come before a review.
abbrev before_review : Status → Bool
before_review submitted = true
before_review ai_routed = true
before_review assigned = true
before_review rejected = true
before_review _ = false

review_comes_first :
    (s t : Status)
    → can_transition s t ≡ true
    → before_review s ≡ true
    → (before_review t ≡ true) ⊎ (t ≡ under_review)
unfolding can_transition
review_comes_first s t h b = ground arith

reviewed : {s : Status} (tr : Trace submitted s) → (before_review s ≡ true) ⊎ Visits under_review tr
reviewed start = inl refl
reviewed (move {s} earlier t remarks h) =
    ground (
      arith,
      reviewed earlier,
      review_comes_first s t ((validate_transition_iff s t remarks).0 h).0,
    )

past_review :
    (s : Status) {P : Type 0}
    → (before_review s ≡ true) ⊎ P
    → s ≢ submitted
    → s ≢ ai_routed
    → s ≢ assigned
    → s ≢ rejected
    → P
past_review s h a b c d = ground arith

-- A complaint that reached inspection, work, resolution or closure has been under review: no
-- history of accepted transitions leads past the review.
pub no_trace_skips_review :
    {s : Status} (tr : Trace submitted s)
    → s ≢ submitted
    → s ≢ ai_routed
    → s ≢ assigned
    → s ≢ rejected
    → Visits under_review tr
no_trace_skips_review {s} tr a b c d = past_review s (reviewed tr) a b c d

only_resolved_closes : (s : Status) → can_transition s closed ≡ true → s ≡ resolved
unfolding can_transition
only_resolved_closes s h = ground arith

resolved_with_text :
    {s : Status} (tr : Trace submitted s) → (s ≡ resolved) ⊎ (s ≡ closed) → IsResolvedWithText tr
unfolding remark_required
resolved_with_text start h = ground arith
resolved_with_text (move {s} earlier t remarks h) (inl e) =
    inl (e, ((validate_transition_iff s t remarks).0 h).1 (rw e refl))
resolved_with_text (move {s} earlier t remarks h) (inr e) = inr (
    resolved_with_text earlier
      (inl (only_resolved_closes s (rw e at ((validate_transition_iff s t remarks).0 h).0))))

-- A closed complaint has a resolution in its history whose remark has some text.
pub closed_was_resolved : (tr : Trace submitted closed) → IsResolvedWithText tr
closed_was_resolved tr = resolved_with_text tr (inr refl)
