-- ===== src/Auth/Endings.antt =====
-- Sessions that have ended, in the table that SqlSessionRepository of
-- app/db/repositories/identity.py keeps.
pub mod Effects
pub mod Forever
use civiclens.Auth.Session.{SessionRecord}
use civiclens.Auth.Tables.{revoke_all_for_user, get_by_token_hash, update_session}
use civiclens.Prelude.{
  ℕ, String, ◌≡◌, refl, sym, ap, ◌∙◌, ◌≢◌, inl, inr, true, ◌&&◌, none, some, List, [], ◌∷◌, ◌++◌,
  eq_iff, Bool-cases, is_some, is_none, All, str_eq, All-append, some_injective, find?-append,
  All-find,
}

-- Every row with the identifier `i` is revoked.
abbrev pub Revoked : String → List SessionRecord → Type 0
Revoked i t = All (λ s. s.id ≡ i → is_some s.revoked_at ≡ true) t

-- The digest `h` finds a row with the identifier `i`.
unfoldable pub FindsSession : String → String → List SessionRecord → Type 0
unfolding get_by_token_hash
FindsSession h i t = (s : SessionRecord) × (get_by_token_hash h t ≡ some s) × (s.id ≡ i)

-- What one request does to the table of sessions; a row that is opened has the identifier `uuid`.
pub data Moved (uuid : String) (t t' : List SessionRecord) : Type 0 where
  unmoved : t' ≡ t → Moved uuid t t'
  opened : (s : SessionRecord) → s.id ≡ uuid → t' ≡ t ++ s ∷ [] → Moved uuid t t'
  stored :
      (h : String) (old s : SessionRecord)
      → get_by_token_hash h t ≡ some old
      → old.revoked_at ≡ none
      → s.id ≡ old.id
      → t' ≡ update_session s t
      → Moved uuid t t'
  closed : (u : String) (at : ℕ) → t' ≡ revoke_all_for_user u at t → Moved uuid t t'

Revoked-update :
    (i : String) (s : SessionRecord) (t : List SessionRecord)
    → s.id ≢ i
    → Revoked i t
    → Revoked i (update_session s t)
unfolding update_session
Revoked-update i s [] n a = tt
Revoked-update i s (r ∷ t) n a = elim (Bool-cases (str_eq r.id s.id)) [
  | inl e ↦ rw e (λ k. absurd (n (sym ((eq_iff _ _).0 e) ∙ k)), Revoked-update i s t n a.1)
  | inr e ↦ rw e (a.0, Revoked-update i s t n a.1)
]

Revoked-close :
    (i u : String) (at : ℕ) (t : List SessionRecord)
    → Revoked i t
    → Revoked i (revoke_all_for_user u at t)
unfolding revoke_all_for_user
Revoked-close i u at [] a = tt
Revoked-close i u at (r ∷ t) a = elim (Bool-cases (str_eq r.user_id u && is_none r.revoked_at)) [
  | inl e ↦ rw e (λ k. refl, Revoked-close i u at t a.1)
  | inr e ↦ rw e (a.0, Revoked-close i u at t a.1)
]

Finds-update :
    (h i : String) (s : SessionRecord) (t : List SessionRecord)
    → FindsSession h i t
    → FindsSession h i (update_session s t)
unfolding FindsSession update_session
Finds-update h i s [] f = absurd (cc f.1)
Finds-update h i s (r ∷ t) f = elim (Bool-cases (str_eq r.token_hash h)) [
  | inl g ↦
      let same : r ≡ f.0 = some_injective (rw g at f.1) in
      let own : r.id ≡ i = ap (λ x. x.id) same ∙ f.2 in
      elim (Bool-cases (str_eq r.id s.id)) [
        | inl e ↦ rw e (rw g (_, refl, own))
        | inr e ↦ rw e (rw g (_, refl, own))
      ]
  | inr g ↦
      let later = Finds-update h i s t (f.0, rw g at f.1, f.2) in
      elim (Bool-cases (str_eq r.id s.id)) [ inl e ↦ rw e (rw g later) | inr e ↦ rw e (rw g later) ]
]

Finds-close :
    (h i u : String) (at : ℕ) (t : List SessionRecord)
    → FindsSession h i t
    → FindsSession h i (revoke_all_for_user u at t)
unfolding FindsSession revoke_all_for_user
Finds-close h i u at [] f = absurd (cc f.1)
Finds-close h i u at (r ∷ t) f = elim (Bool-cases (str_eq r.token_hash h)) [
  | inl g ↦
      let same : r ≡ f.0 = some_injective (rw g at f.1) in
      let own : r.id ≡ i = ap (λ x. x.id) same ∙ f.2 in
      elim (Bool-cases (str_eq r.user_id u && is_none r.revoked_at)) [
        | inl e ↦ rw e (rw g (_, refl, own))
        | inr e ↦ rw e (rw g (_, refl, own))
      ]
  | inr g ↦
      let later = Finds-close h i u at t (f.0, rw g at f.1, f.2) in
      elim (Bool-cases (str_eq r.user_id u && is_none r.revoked_at)) [
        | inl e ↦ rw e (rw g later)
        | inr e ↦ rw e (rw g later)
      ]
]

-- A revoked session that a digest finds stays so, if no row is opened under its identifier.
pub Moved-keeps :
    (h i uuid : String) (t t' : List SessionRecord)
    → uuid ≢ i
    → Moved uuid t t'
    → Revoked i t × FindsSession h i t
    → Revoked i t' × FindsSession h i t'
unfolding FindsSession get_by_token_hash
Moved-keeps h i uuid t t' n (unmoved e) d = rw e d
Moved-keeps h i uuid t t' n (opened s own e) d = rw e (
  All-append _ t (s ∷ []) d.0 ((λ k. absurd (n (sym own ∙ k))), tt),
  (d.1.0, find?-append (λ s. str_eq s.token_hash h) t (s ∷ []) ∙ rw d.1.1 refl, d.1.2),
)
Moved-keeps h i uuid t t' n (stored g old s f live own e) d =
    let other : old.id ≢ i = λ k.
      absurd (cc (sym (All-find _ (λ s. str_eq s.token_hash g) t d.0 f k) ∙ ap is_some live)) in
    rw e (Revoked-update i s t (λ k. other (sym own ∙ k)) d.0, Finds-update h i s t d.1)
Moved-keeps h i uuid t t' n (closed u at e) d =
    rw e (Revoked-close i u at t d.0, Finds-close h i u at t d.1)
