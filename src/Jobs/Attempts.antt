-- ===== src/Jobs/Attempts.antt =====
-- The count of attempts: no job is run more often than `max_attempts` allows, whatever the order
-- of enqueuing, dispatching, running and retrying.
use civiclens.Jobs.Table.{
  JobRecord, Table, get, update, overwrite, JobStatus, pending, queued, retrying, running,
  succeeded, dead,
}
use civiclens.Jobs.Lifecycle.{
  is_waiting, is_handled, begin, settle, mark_queued, is_pending, Verdict,
}
use civiclens.Jobs.Rows.{get-update_same, get-update_other, get-update-none, get_id}
use civiclens.Prelude.{
  ℕ, ◌≤◌, ◌<◌, String, ◌≡◌, sym, ◌∙◌, inl, inr, true, false, none, some, arith, eq_iff, Bool-cases,
  Option-cases, str_eq, ap, ◌||◌, leb, refl,
}

pub record WellCounted (row : JobRecord) : Type 0 where
  pub positive : 0 < row.max_attempts
  pub within : row.attempts ≤ row.max_attempts
  pub left : is_waiting row.status ≡ true → row.attempts < row.max_attempts

abbrev pub Counted : Table → Type 0
Counted t = (id : String) (row : JobRecord) → get id t ≡ some row → WellCounted row

pub update-Counted :
    (j : JobRecord) (t : Table)
    → Counted t
    → ((row : JobRecord) → get j.id t ≡ some row → WellCounted (overwrite j row))
    → Counted (update j t)
update-Counted j t c new id row h = elim (Bool-cases (str_eq j.id id)) [
  | inr e ↦ c id row (sym (get-update_other id j t e) ∙ h)
  | inl e ↦
      let same : j.id ≡ id = ground (arith, eq_iff j.id id) in
      let k : get j.id (update j t) ≡ some row = ap (λ i. get i (update j t)) same ∙ h in
      elim (Option-cases (get j.id t)) [
        | inl gone ↦ let n : none ≡ some row = sym (get-update-none j t gone) ∙ k in absurd (cc n)
        | inr (old, here) ↦
            let n : some (overwrite j old) ≡ some row = sym (get-update_same j t old here) ∙ k in
            let eq : overwrite j old ≡ row = cc n in rw (sym eq) (new old here)
      ]
]

pub waiting_or_handled : (st : JobStatus) → is_handled st ≡ false → is_waiting st ≡ true
unfolding is_handled is_waiting
waiting_or_handled pending h = refl
waiting_or_handled queued h = refl
waiting_or_handled retrying h = refl
waiting_or_handled running h = absurd (cc h)
waiting_or_handled succeeded h = absurd (cc h)
waiting_or_handled dead h = absurd (cc h)

is_pending-waiting : (st : JobStatus) → is_pending st ≡ true → is_waiting st ≡ true
unfolding is_waiting
is_pending-waiting pending h = refl
is_pending-waiting queued h = refl
is_pending-waiting retrying h = refl
is_pending-waiting running h = absurd (cc h)
is_pending-waiting succeeded h = absurd (cc h)
is_pending-waiting dead h = absurd (cc h)

pub begin-WellCounted :
    (worker_id : String) (now : ℕ) (row : JobRecord)
    → WellCounted row
    → is_handled row.status ≡ false
    → WellCounted (begin worker_id now row)
unfolding begin is_waiting
begin-WellCounted worker_id now row c h = record {
  positive = c.positive;
  within = let k = c.left (waiting_or_handled row.status h) in omega (arith, k);
  left = λ k. absurd (cc k);
}

pub settle-WellCounted :
    (v : Verdict) (finished : ℕ) (row : JobRecord)
    → WellCounted row
    → WellCounted (settle v finished row)
unfolding settle is_waiting
settle-WellCounted v finished row c = elim (Option-cases v.error) [
  | inl e ↦ rw e (record { positive = c.positive; within = c.within; left = λ k. absurd (cc k) })
  | inr (x, e) ↦ rw e (elim (Bool-cases (v.permanent || leb row.max_attempts row.attempts)) [
    | inl k ↦ rw k (record { positive = c.positive; within = c.within; left = λ k. absurd (cc k) })
    | inr k ↦ rw k (record { positive = c.positive; within = c.within; left = λ _. ground arith })
  ])
]

-- Writing a well counted version of a row back.
pub overwrite-WellCounted :
    (j row : JobRecord)
    → WellCounted j
    → j.max_attempts ≡ row.max_attempts
    → WellCounted (overwrite j row)
overwrite-WellCounted j row c e = record {
  positive = rw (sym e) c.positive;
  within = rw (sym e) c.within;
  left = rw (sym e) c.left;
}

pub mark_queued-Counted :
    (id : String) (now : ℕ) (t : Table) → Counted t → Counted (mark_queued (get id t) now t)
unfolding mark_queued
mark_queued-Counted id now t c = elim (Option-cases (get id t)) [
  | inl e ↦ rw e c
  | inr (fresh, e) ↦ rw e (elim (Bool-cases (is_pending fresh.status)) [
    | inr p ↦ rw p c
    | inl p ↦ rw p (
        update-Counted (record fresh { status = queued; updated_at = now }) t c
          (λ row h.
            let here : get fresh.id t ≡ some fresh = ap (λ i. get i t) (get_id id t fresh e) ∙ e in
            let k : some fresh ≡ some row = sym here ∙ h in
            let same : fresh ≡ row = cc k in
            let w = c id fresh e in
            rw (sym same) (record {
              positive = w.positive;
              within = w.within;
              left = λ _. w.left (is_pending-waiting fresh.status p);
            })))
  ])
]
