-- ===== src/Jobs/Idempotency.antt =====
-- Enqueuing with a key that is taken, and the keys of the table.
use civiclens.Jobs.Table.{JobRecord, Table, add_if_absent, has_key, inserted}
use civiclens.Jobs.Lifecycle.{enqueue, new_job}
use civiclens.Prelude.{
  ℕ, suc, ◌+◌, ◌≤◌, String, ◌≡◌, refl, sym, inl, inr, true, false, Option, none, some, [], ◌∷◌,
  ◌++◌, arith, eq_iff, if◌then◌else◌, Bool-cases, Option-cases, find?, str_eq,
}

-- The rows with a key.
unfoldable pub count_key : String → Table → ℕ
count_key key [] = 0
count_key key (j ∷ t) = let rest = count_key key t in if has_key key j then suc rest else rest

count_key-append :
    (key : String) (t : Table) (j : JobRecord)
    → count_key key (t ++ j ∷ []) ≡ count_key key t + (if has_key key j then 1 else 0)
unfolding count_key
count_key-append key [] j = elim (Bool-cases (has_key key j)) [ inl e ↦ rw e | inr e ↦ rw e ]
count_key-append key (r ∷ t) j = elim (Bool-cases (has_key key r)) [
  | inl e ↦ rw e (omega (arith, count_key-append key t j))
  | inr e ↦ rw e (count_key-append key t j)
]

count_key-absent : (key : String) (t : Table) → find? (has_key key) t ≡ none → count_key key t ≡ 0
unfolding count_key
count_key-absent key [] h = refl
count_key-absent key (r ∷ t) h = elim (Bool-cases (has_key key r)) [
  | inl e ↦ let k : some r ≡ none = rw e at h in absurd (cc k)
  | inr e ↦ rw e (count_key-absent key t (rw e at h))
]

-- Each key belongs to one row at most: the constraint of the table, which enqueuing keeps.
pub enqueue-keys :
    (id kind payload key : String) (run_at : Option ℕ) (max_attempts now : ℕ) (t : Table)
    → ((k : String) → count_key k t ≤ 1)
    → (k : String) → count_key k (enqueue id kind payload key run_at max_attempts now t).1 ≤ 1
unfolding enqueue add_if_absent
enqueue-keys id kind payload key run_at max_attempts now t unique k =
    elim (Option-cases (find? (has_key key) t)) [
      | inr (row, e) ↦ rw e (unique k)
      | inl e ↦
          rw (e, count_key-append k t)
            (elim (Bool-cases (str_eq key k)) [
              | inl same ↦
                  let i : key ≡ k = ground (arith, eq_iff key k) in
                  let z = count_key-absent key t e in rw same (rw (sym i) (omega (arith, z)))
              | inr other ↦ rw other (let u = unique k in omega (arith, u))
            ])
    ]

find-append_new :
    (key : String) (t : Table) (j : JobRecord)
    → find? (has_key key) t ≡ none
    → has_key key j ≡ true
    → find? (has_key key) (t ++ j ∷ []) ≡ some j
find-append_new key [] j h e = rw e
find-append_new key (r ∷ t) j h e = elim (Bool-cases (has_key key r)) [
  | inl k ↦ let n : some r ≡ none = rw k at h in absurd (cc n)
  | inr k ↦ rw k (find-append_new key t j (rw k at h) e)
]

-- Enqueuing again with the same key, whatever else is asked for and however much later, returns the
-- job that the first call returned, says that it created none, and leaves the table as it is.
pub enqueue_again :
    (id id' kind kind' payload payload' key : String) (run_at run_at' : Option ℕ)
    (max_attempts max_attempts' now now' : ℕ) (t : Table)
    → enqueue id' kind' payload' key run_at' max_attempts' now'
        (enqueue id kind payload key run_at max_attempts now t).1
      ≡ (
        ((enqueue id kind payload key run_at max_attempts now t).0.0, false),
        (enqueue id kind payload key run_at max_attempts now t).1,
      )
unfolding enqueue add_if_absent
enqueue_again id id' kind kind' payload payload' key run_at run_at' max max' now now' t =
    elim (Option-cases (find? (has_key key) t)) [
      | inr (row, e) ↦ rw e (rw e)
      | inl e ↦ rw e (
          rw (
            find-append_new key t (inserted (new_job id kind payload key run_at max now)) e
              (ground (arith, eq_iff key key))))
    ]
