-- ===== src/Jobs/Backed.antt =====
-- Counting the runs of the jobs of app/workers/queue.py: the runs of a job since it was last retried
-- by hand are backed by the attempts that it counts.
use civiclens.Jobs.Rows.{get_id, get-update_other}
use civiclens.Jobs.Table.{JobRecord, Table, get, update}
use civiclens.Jobs.Lifecycle.{RunResult, RetryError, is_dead, revived}
use civiclens.Jobs.Service.{Backend, Queue, retry_dead}
use civiclens.Jobs.Growth.{HasGrown, Grows, dispatch-Grows}
use civiclens.Prelude.{
  ℕ, suc, ◌≤◌, String, ◌≡◌, refl, sym, ap, ◌∙◌, ◌⊎◌, inl, inr, false, not, Option, none, some, List,
  [], ◌∷◌, arith, eq_iff, if◌then◌else◌, Bool-cases, Option-cases, filter, str_eq, Result, ok, err,
  some_injective,
}
use civiclens.Jobs.Runs.{HasRun}

-- The jobs that were run, the last one first; a job that is retried by hand is forgotten.
abbrev pub count_runs : String → List String → ℕ
count_runs id [] = 0
count_runs id (x ∷ xs) = if str_eq x id then suc (count_runs id xs) else count_runs id xs

abbrev pub ran : Option RunResult → List String → List String
ran none runs = runs
ran (some r) runs = r.job_id ∷ runs

abbrev pub retried : Result RetryError JobRecord → String → List String → List String
retried (err x) id runs = runs
retried (ok job) id runs = filter (λ x. not (str_eq x id)) runs

-- Each job that was run has a row that counts at least those runs.
abbrev pub Backed : List String → Table → Type 0
Backed runs t = (id : String) → (count_runs id runs ≡ 0) ⊎ HasGrown id (count_runs id runs) t

pub Backed-Grows : (runs : List String) (t t' : Table) → Backed runs t → Grows t t' → Backed runs t'
Backed-Grows runs t t' k g id = elim (k id) [
  | inl e ↦ inl e
  | inr h ↦ let m = g id h.0 h.1 in inr (m.0, m.1, omega (arith, m.2, h.2))
]

pub ran-Backed :
    (o : Option RunResult) (runs : List String) (t t' : Table)
    → Backed runs t
    → HasRun t t' o
    → Backed (ran o runs) t'
ran-Backed none runs t t' k h id = Backed-Grows runs t t' k h.grown id
ran-Backed (some r) runs t t' k h id = elim (Bool-cases (str_eq r.job_id id)) [
  | inr e ↦ rw e (Backed-Grows runs t t' k h.grown id)
  | inl e ↦
      let same : r.job_id ≡ id = (eq_iff r.job_id id).0 e in
      let m = h.counted r refl in
      let grown = m.2 in
      let found : get id t' ≡ some grown.0 = ap (λ x. get x t') (sym same) ∙ grown.1 in
      rw e (elim (k id) [
        | inl z ↦ inr (grown.0, found, omega (arith, z, grown.2))
        | inr old ↦
            let one : m.0 ≡ old.0 = some_injective (sym m.1 ∙ ap (λ x. get x t) same ∙ old.1) in
            inr (grown.0, found, omega (arith, old.2, grown.2, ap (λ x. x.attempts) one))
      ])
]

count_runs-forget_same :
    (id : String) (runs : List String) → count_runs id (filter (λ x. not (str_eq x id)) runs) ≡ 0
count_runs-forget_same id [] = refl
count_runs-forget_same id (x ∷ runs) = elim (Bool-cases (str_eq x id)) [
  | inl e ↦ rw e (count_runs-forget_same id runs)
  | inr e ↦ rw (e, e) (count_runs-forget_same id runs)
]

count_runs-forget :
    (id i : String) (runs : List String)
    → count_runs i (filter (λ x. not (str_eq x id)) runs) ≤ count_runs i runs
count_runs-forget id i [] = omega arith
count_runs-forget id i (x ∷ runs) = elim (Bool-cases (str_eq x id)) [
  | inl e ↦ elim (Bool-cases (str_eq x i)) [
    | inl f ↦ rw (e, f) (omega (arith, count_runs-forget id i runs))
    | inr f ↦ rw (e, f) (count_runs-forget id i runs)
  ]
  | inr e ↦ elim (Bool-cases (str_eq x i)) [
    | inl f ↦ rw (e, f) (omega (arith, count_runs-forget id i runs))
    | inr f ↦ rw (e, f) (count_runs-forget id i runs)
  ]
]

-- Of the other jobs, nothing is forgotten, and their rows stay.
forget-Backed :
    (id : String) (runs : List String) (t t' : Table)
    → Backed runs t
    → ((i : String)
        → str_eq id i ≡ false
        → (row : JobRecord) → get i t ≡ some row
        → HasGrown i row.attempts t')
    → Backed (filter (λ x. not (str_eq x id)) runs) t'
forget-Backed id runs t t' k g i = elim (Bool-cases (str_eq id i)) [
  | inl e ↦
      let same : id ≡ i = (eq_iff id i).0 e in
      inl (
        ap (λ x. count_runs x (filter (λ y. not (str_eq y id)) runs)) (sym same)
        ∙ count_runs-forget_same id runs)
  | inr e ↦ elim (k i) [
    | inl z ↦ inl (omega (arith, count_runs-forget id i runs, z))
    | inr old ↦
        let m = g i e old.0 old.1 in
        inr (m.0, m.1, omega (arith, m.2, old.2, count_runs-forget id i runs))
  ]
]

module _ {Q W : Type 0} (b : Backend Q) where
  pub retry_dead-Backed :
      (id : String) (now : ℕ) (s : Queue Q W) (runs : List String)
      → Backed runs s.jobs
      → Backed (retried (retry_dead b id now s).0 id runs) (retry_dead b id now s).1.jobs
  unfolding retry_dead
  retry_dead-Backed id now s runs k = elim (Option-cases (get id s.jobs)) [
    | inl e ↦ rw (e, retry_dead) k
    | inr (row, e) ↦ elim (Bool-cases (is_dead row.status)) [
      | inr d ↦ rw (e, retry_dead) (rw (d, retry_dead) k)
      | inl d ↦
          let j = revived now row in
          let own : row.id ≡ id = get_id id s.jobs row e in
          rw (e, retry_dead)
            (rw (d, retry_dead)
              (forget-Backed id runs s.jobs _ k (λ i n old h.
                let other : str_eq j.id i ≡ false = ap (λ x. str_eq x i) own ∙ n in
                dispatch-Grows b (j ∷ []) now (record s { jobs = update j s.jobs }) i old
                  (get-update_other i j s.jobs other ∙ h))))
    ]
  ]
