-- ===== src/Auth/Keys.antt =====
-- The identifiers of user rows are keys: app/services/auth_service.py adds a row under a fresh one,
-- and writes no identifier.
use civiclens.Auth.Tables.{get_by_id, UserRecord, has_user_id, write_user}
use civiclens.Auth.Rows.{get-append}
use civiclens.Prelude.{
  String, ◌≡◌, refl, sym, ap, ◌∙◌, inl, inr, Bool, true, false, none, some, List, [], ◌∷◌, ◌++◌,
  eq_iff, Bool-cases, find?, str_eq, str_eq_comm, some_injective,
}

-- No two rows have one identifier.
unfoldable pub Keyed : List UserRecord → Type 0
unfolding get_by_id
Keyed [] = Unit
Keyed (u ∷ t) = (get_by_id u.id t ≡ none) × Keyed t

-- Then a row that any search finds is the one of its identifier.
pub Keyed-own :
    (p : UserRecord → Bool) (t : List UserRecord) {u : UserRecord}
    → Keyed t
    → find? p t ≡ some u
    → get_by_id u.id t ≡ some u
unfolding Keyed
Keyed-own p [] k h = absurd (cc h)
Keyed-own p (r ∷ t) {u} k h = elim (Bool-cases (p r)) [
  | inl e ↦
      let same : r ≡ u = some_injective (rw e at h) in
      let own : str_eq r.id r.id ≡ true = (eq_iff _ _).1 refl in rw (sym same) (rw own)
  | inr e ↦
      let found : get_by_id u.id t ≡ some u = Keyed-own p t k.1 (rw e at h) in
      elim (Bool-cases (has_user_id u.id r)) [
        | inr g ↦ rw g found
        | inl g ↦
            let same : r.id ≡ u.id = (eq_iff _ _).0 g in
            let lost : get_by_id u.id t ≡ none = ap (λ i. get_by_id i t) (sym same) ∙ k.0 in
            let clash : some u ≡ none = sym found ∙ lost in absurd (cc clash)
      ]
]

pub Keyed-append :
    (t : List UserRecord) (u : UserRecord) → Keyed t → get_by_id u.id t ≡ none → Keyed (t ++ u ∷ [])
unfolding Keyed
Keyed-append [] u k h = (refl, tt)
Keyed-append (r ∷ t) u k h = elim (Bool-cases (has_user_id u.id r)) [
  | inl e ↦ let clash : some r ≡ none = rw e at h in absurd (cc clash)
  | inr e ↦
      let other : has_user_id r.id u ≡ false = str_eq_comm u.id r.id ∙ e in
      let missing : get_by_id r.id (t ++ u ∷ []) ≡ none =
        get-append r.id t u ∙ rw k.0 (rw other refl) in
      (missing, Keyed-append t u k.1 (rw e at h))
]

get-write_none :
    (id : String) (u : UserRecord) (t : List UserRecord)
    → get_by_id id t ≡ none
    → get_by_id id (write_user u t) ≡ none
unfolding get_by_id
get-write_none id u [] h = refl
get-write_none id u (r ∷ t) h = elim (Bool-cases (has_user_id id r)) [
  | inl e ↦ let clash : some r ≡ none = rw e at h in absurd (cc clash)
  | inr e ↦ elim (Bool-cases (has_user_id u.id r)) [
    | inl g ↦
        let same : r.id ≡ u.id = (eq_iff _ _).0 g in
        let other : has_user_id id u ≡ false = ap (λ i. str_eq i id) (sym same) ∙ e in
        rw g (rw other (get-write_none id u t (rw e at h)))
    | inr g ↦ rw g (rw e (get-write_none id u t (rw e at h)))
  ]
]

pub Keyed-write : (u : UserRecord) (t : List UserRecord) → Keyed t → Keyed (write_user u t)
unfolding Keyed
Keyed-write u [] k = tt
Keyed-write u (r ∷ t) k = elim (Bool-cases (has_user_id u.id r)) [
  | inl g ↦
      let same : r.id ≡ u.id = (eq_iff _ _).0 g in
      let free : get_by_id u.id t ≡ none = ap (λ i. get_by_id i t) (sym same) ∙ k.0 in
      rw g (get-write_none u.id u t free, Keyed-write u t k.1)
  | inr g ↦ rw g (get-write_none r.id u t k.0, Keyed-write u t k.1)
]
