-- ===== src/Jobs/Counts.antt =====
-- The count of attempts through what happens to one job and to the table.
use civiclens.Jobs.Rows.{get-append}
use civiclens.Jobs.Table.{JobRecord, Table, get, update, add_if_absent, has_key, has_id}
use civiclens.Jobs.Lifecycle.{Verdict, enqueue, settle}
use civiclens.Jobs.Growth.{Grows}
use civiclens.Jobs.Service.{Queue, Handlers, Handler}
use civiclens.Jobs.Attempts.{
  WellCounted, Counted, update-Counted, overwrite-WellCounted, settle-WellCounted,
}
use civiclens.Jobs.Attempts.{WellCounted, Counted}
use civiclens.Prelude.{
  ℕ, ◌<◌, String, ◌≡◌, refl, sym, ap, ◌∙◌, inl, inr, ◌||◌, Option, none, some, [], ◌∷◌, ◌++◌, arith,
  leb, if◌then◌else◌, Bool-cases, Option-cases, or_else, find?,
}

pub append-Counted : (t : Table) (j : JobRecord) → Counted t → WellCounted j → Counted (t ++ j ∷ [])
append-Counted t j c w id row h =
    let k : or_else (get id t) (if has_id id j then some j else none) ≡ some row =
      sym (get-append id t j) ∙ h in
    elim (Option-cases (get id t)) [
      | inr (old, e) ↦ let m : some old ≡ some row = rw e at k in c id row (e ∙ m)
      | inl e ↦
          let m : (if has_id id j then some j else none) ≡ some row = rw e at k in
          elim (Bool-cases (has_id id j)) [
            | inl y ↦
                let n : some j ≡ some row = rw y at m in
                let same : j ≡ row = cc n in rw (sym same) w
            | inr y ↦ let n : none ≡ some row = rw y at m in absurd (cc n)
          ]
    ]

pub enqueue-Counted :
    (id kind payload key : String) (run_at : Option ℕ) (max_attempts now : ℕ) (t : Table)
    → 0 < max_attempts
    → Counted t
    → Counted (enqueue id kind payload key run_at max_attempts now t).1
unfolding enqueue add_if_absent
enqueue-Counted id kind payload key run_at max_attempts now t pos c =
    elim (Option-cases (find? (has_key key) t)) [
      | inr (row, e) ↦ rw e c
      | inl e ↦
          rw e (
            append-Counted t _ c (record { positive = pos; within = omega arith; left = λ _. pos }))
    ]

pub max_attempts-settle :
    (v : Verdict) (finished : ℕ) (row : JobRecord)
    → ((settle v finished row).max_attempts ≡ row.max_attempts)
      × ((settle v finished row).id ≡ row.id)
unfolding settle
max_attempts-settle v finished row = elim (Option-cases v.error) [
  | inl e ↦ rw e (refl, refl)
  | inr (x, e) ↦ rw e (elim (Bool-cases (v.permanent || leb row.max_attempts row.attempts)) [
    | inl k ↦ rw k (refl, refl)
    | inr k ↦ rw k (refl, refl)
  ])
]

pub update_settled-Counted :
    (v : Verdict) (finished : ℕ) (row : JobRecord) (t : Table)
    → Counted t
    → WellCounted row
    → ((old : JobRecord) → get row.id t ≡ some old → row.max_attempts ≡ old.max_attempts)
    → Counted (update (settle v finished row) t)
update_settled-Counted v finished row t c w same =
    let (m, i) = max_attempts-settle v finished row in
    update-Counted (settle v finished row) t c (λ old h.
      overwrite-WellCounted (settle v finished row) old (settle-WellCounted v finished row w)
        (m ∙ same old (ap (λ x. get x t) (sym i) ∙ h)))

-- A handler that may do anything but break the counts of the table: it keeps every job and lowers no
-- count.
unfoldable pub KeepsCounts : {Q W : Type 0} → Handlers Q W → Type 0
KeepsCounts {Q} {W} handlers =
    (kind : String) (handler : Handler Q W)
    → handlers kind ≡ some handler
    → (payload : String) (job : JobRecord) (s : Queue Q W) → Counted s.jobs
    → Counted (handler payload job s).1.jobs × Grows s.jobs (handler payload job s).1.jobs
