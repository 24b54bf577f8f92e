-- ===== src/Jobs/Rows.antt =====
-- What the operations on the table do to the row that `get` finds.
use civiclens.Jobs.Table.{JobRecord, Table, get, update, overwrite, has_id}
use civiclens.Prelude.{
  String, ◌≡◌, refl, sym, inl, inr, false, none, some, [], ◌∷◌, ◌++◌, arith, eq_iff, if◌then◌else◌,
  Bool-cases, or_else, str_eq,
}
use civiclens.Prelude.{
  String, ◌≡◌, str_eq, some, false, ◌∷◌, Bool-cases, inl, sym, arith, inr, eq_iff, [], refl,
}

pub get_id : (id : String) (t : Table) (row : JobRecord) → get id t ≡ some row → row.id ≡ id
unfolding get
get_id id [] row h = absurd (cc)
get_id id (r ∷ t) row h = elim (Bool-cases (has_id id r)) [
  | inl e ↦
      let k : some r ≡ some row = rw e at h in
      let same : r ≡ row = cc k in rw (sym same) (ground (arith, eq_iff r.id id))
  | inr e ↦ get_id id t row (rw e at h)
]

pub get-update_same :
    (j : JobRecord) (t : Table) (row : JobRecord)
    → get j.id t ≡ some row
    → get j.id (update j t) ≡ some (overwrite j row)
unfolding get update
get-update_same j [] row h = absurd (cc)
get-update_same j (r ∷ t) row h = elim (Bool-cases (has_id j.id r)) [
  | inl e ↦
      let k : some r ≡ some row = rw e at h in let same : r ≡ row = cc k in rw e (rw e (rw same))
  | inr e ↦ rw e (rw e (get-update_same j t row (rw e at h)))
]

pub get-update_other :
    (id : String) (j : JobRecord) (t : Table)
    → str_eq j.id id ≡ false
    → get id (update j t) ≡ get id t
unfolding get update
get-update_other id j [] h = refl
get-update_other id j (r ∷ t) h = elim (Bool-cases (has_id j.id r)) [
  | inl e ↦
      let same : r.id ≡ j.id = ground (arith, eq_iff r.id j.id) in
      let other : str_eq r.id id ≡ false = rw same h in rw e (rw other (get-update_other id j t h))
  | inr e ↦ rw e (rw (get-update_other id j t h))
]

pub get-update-none : (j : JobRecord) (t : Table) → get j.id t ≡ none → get j.id (update j t) ≡ none
unfolding get update
get-update-none j [] h = refl
get-update-none j (r ∷ t) h = elim (Bool-cases (has_id j.id r)) [
  | inl e ↦ let k : some r ≡ none = rw e at h in absurd (cc k)
  | inr e ↦ rw e (rw e (get-update-none j t (rw e at h)))
]

pub get-append :
    (id : String) (t : Table) (j : JobRecord)
    → get id (t ++ j ∷ []) ≡ or_else (get id t) (if has_id id j then some j else none)
unfolding get
get-append id [] j = refl
get-append id (r ∷ t) j = elim (Bool-cases (has_id id r)) [
  | inl e ↦ rw e
  | inr e ↦ rw e (get-append id t j)
]
