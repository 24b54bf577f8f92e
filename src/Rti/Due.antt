-- ===== src/Rti/Due.antt =====
-- When the reminders of app/services/rti_service.py are due, and what the scheduled run of
-- app/services/rti_workflow.py does to the applications.
use civiclens.Rti.{
  RtiStatus, draft, generated, filed, responded, closed, RtiRules, RtiApplication, day_length,
}
use civiclens.Rti.Service.{is_filed}
use civiclens.Rti.Order.{
  head_most, take_one, filter-holds, filter-most, sort_down-Descending, sort_down-All,
  sort_down-back,
}
use civiclens.Rti.Reminders.{
  pos, countdown, until_due, is_answered, sort_down, was_sent, is_due, reached, due_reminders,
}
use civiclens.Prelude.{
  ℕ, ◌-◌, ◌/◌, ◌≤◌, ◌≡◌, refl, ◌⊎◌, inl, inr, Bool, true, false, some, List, [], ◌∷◌, arith, ltb,
  leb, Bool-cases, Option-cases, take, filter, All, Mem, All-filter, All-Mem,
}

-- What a reminder that is due says of its application.
pub record IsReached (rules : RtiRules) (a : RtiApplication) (now k : ℕ) : Type 0 where
  pub due : ℕ
  pub is_due_at : a.due_at ≡ some due
  pub still_filed : is_filed a.status ≡ true
  pub in_time : now ≤ due
  pub close_enough : (due - now) / day_length ≤ k
  pub configured : Mem k rules.reminder_days
  pub not_sent : was_sent k a.reminders_sent ≡ false
  pub greatest :
      All
        (λ j. is_due a.reminders_sent ((due - now) / day_length) j ≡ true → j ≤ k)
        rules.reminder_days

is_due-parts :
    (sent : List ℕ) (days k : ℕ)
    → is_due sent days k ≡ true
    → (days ≤ k) × (was_sent k sent ≡ false)
is_due-parts sent days k h = elim (Bool-cases (leb days k)) [
  | inr e ↦ absurd (cc (rw e at h))
  | inl e ↦ elim (Bool-cases (was_sent k sent)) [
    | inl w ↦ absurd (cc (rw (e, w) at h))
    | inr w ↦ (ground arith, w)
  ]
]

reached-IsReached :
    (rules : RtiRules) (a : RtiApplication) (now due : ℕ) {k : ℕ}
    → a.due_at ≡ some due
    → is_filed a.status ≡ true
    → reached rules a.reminders_sent due now ≡ k ∷ []
    → IsReached rules a now k
reached-IsReached rules a now due {k} d f h = elim (Bool-cases (ltb due now)) [
  | inl l ↦ absurd (cc (rw l at h))
  | inr l ↦
      let days : ℕ = (due - now) / day_length in
      let p : ℕ → Bool = is_due a.reminders_sent days in
      let one : take 1 (sort_down (filter p rules.reminder_days)) ≡ k ∷ [] = rw l at h in
      let parts = is_due-parts a.reminders_sent days k (
        take_one (λ x. p x ≡ true) _
          (sort_down-All (λ x. p x ≡ true) _ (filter-holds p rules.reminder_days)) one) in
      record {
        due = due;
        is_due_at = d;
        still_filed = f;
        in_time = ground arith;
        close_enough = parts.0;
        configured =
            take_one (λ x. Mem x rules.reminder_days) _
              (sort_down-All (λ x. Mem x rules.reminder_days) _
                (All-filter (λ x. Mem x rules.reminder_days) p rules.reminder_days
                  (All-Mem rules.reminder_days)))
              one;
        not_sent = parts.1;
        greatest = filter-most p k rules.reminder_days (
            sort_down-back (λ y. y ≤ k) _
              (head_most _ (sort_down-Descending (filter p rules.reminder_days)) one));
      }
]

pub due_reminders-IsReached :
    (rules : RtiRules) (a : RtiApplication) (now : ℕ) {k : ℕ}
    → due_reminders rules a now ≡ k ∷ []
    → IsReached rules a now k
unfolding due_reminders
due_reminders-IsReached rules a now h = elim (Bool-cases (is_filed a.status)) [
  | inr e ↦ absurd (cc (rw e at h))
  | inl e ↦ elim (Option-cases a.due_at) [
    | inl n ↦ absurd (cc (rw (e, n) at h))
    | inr d ↦ reached-IsReached rules a now d.0 d.1 e (rw (e, d.1) at h)
  ]
]

-- At most one reminder is due at a time.
pub due_reminders-cases :
    (rules : RtiRules) (a : RtiApplication) (now : ℕ)
    → (due_reminders rules a now ≡ []) ⊎ ((k : ℕ) × (due_reminders rules a now ≡ k ∷ []))
unfolding due_reminders
due_reminders-cases rules a now = elim (Bool-cases (is_filed a.status)) [
  | inr e ↦ inl (rw e refl)
  | inl e ↦ elim (Option-cases a.due_at) [
    | inl n ↦ inl (rw (e, n) refl)
    | inr d ↦ elim (Bool-cases (ltb d.0 now)) [
      | inl l ↦ inl (rw (e, d.1, l) refl)
      | inr l ↦ rw (e, d.1, l) (first_cases _)
    ]
  ]
]
  where
    first_cases : (xs : List ℕ) → (take 1 xs ≡ []) ⊎ ((k : ℕ) × (take 1 xs ≡ k ∷ []))
    first_cases [] = inl refl
    first_cases (x ∷ xs) = inr (x, refl)

filed_is_unanswered : (s : RtiStatus) → is_filed s ≡ true → is_answered s ≡ false
filed_is_unanswered filed h = refl
filed_is_unanswered draft h = absurd (cc h)
filed_is_unanswered generated h = absurd (cc h)
filed_is_unanswered responded h = absurd (cc h)
filed_is_unanswered closed h = absurd (cc h)

until_due-days :
    (estimate : Bool) (due now : ℕ)
    → now ≤ due
    → (until_due estimate due now).days_remaining ≡ some (pos ((due - now) / day_length))
unfolding until_due
until_due-days estimate due now l = let e : ltb due now ≡ false = ground arith in rw e refl

-- A reminder is due only while the countdown shows the days that are left, at most as many as its
-- threshold, which is one of the rules', was not sent before, and is the greatest threshold of the
-- rules of which both are true.
pub reminder_fits_countdown :
    (rules : RtiRules) (a : RtiApplication) (now k : ℕ)
    → due_reminders rules a now ≡ k ∷ []
    → (days : ℕ) × ((countdown a now).days_remaining ≡ some (pos days))
      × (days ≤ k)
      × Mem k rules.reminder_days
      × (was_sent k a.reminders_sent ≡ false)
      × All (λ j. is_due a.reminders_sent days j ≡ true → j ≤ k) rules.reminder_days
unfolding countdown
reminder_fits_countdown rules a now k h =
    let r = due_reminders-IsReached rules a now h in
    let u = filed_is_unanswered a.status r.still_filed in
    (
      (r.due - now) / day_length,
      rw (u, r.is_due_at) (until_due-days a.deadline_is_estimate r.due now r.in_time),
      r.close_enough,
      r.configured,
      r.not_sent,
      r.greatest,
    )
