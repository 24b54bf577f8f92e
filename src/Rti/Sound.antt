-- ===== src/Rti/Sound.antt =====
-- What holds of every application of app/services/rti_service.py.
use civiclens.Access.{AuthContext}
use civiclens.Rti.{
  RtiStatus, draft, generated, filed, responded, closed, RtiRules, deadline, RtiDraft,
  RtiApplication, validate_draft, Applications, get, update, has_id, RtiError,
}
use civiclens.Rti.Service.{permitted, owned_by, owned, is_open, is_generated, is_filed}
use civiclens.Prelude.{
  ℕ, ◌≤◌, String, ◌≡◌, refl, sym, ap, ◌∙◌, inl, inr, Bool, true, false, not, Option, none, some,
  List, [], ◌∷◌, ◌==◌, Bool-cases, any, All, str_eq, ok, raise_if, >>-ok, All-find, ok_injective,
}

unfoldable pub NoRepeats : List ℕ → Type 0
NoRepeats [] = Unit
NoRepeats (x ∷ xs) = (any (λ y. y == x) xs ≡ false) × NoRepeats xs

pub record IsUnfiled (a : RtiApplication) : Type 0 where
  pub filed_none : a.filed_at ≡ none
  pub received_none : a.received_at ≡ none
  pub due_none : a.due_at ≡ none
  pub none_sent : a.reminders_sent ≡ []

pub record IsSent (rules : RtiRules) (a : RtiApplication) : Type 0 where
  pub filing : ℕ
  pub receipt : ℕ
  pub filed_then : a.filed_at ≡ some filing
  pub received_then : a.received_at ≡ some receipt
  pub received_first : receipt ≤ filing
  pub due_then : a.due_at ≡ some (deadline rules receipt a.content.life_or_liberty)
  pub once_each : NoRepeats a.reminders_sent

abbrev pub HasText : RtiApplication → Type 0
HasText a = (r : String) × (w : String) × (a.reference ≡ some r) × (a.generated_text ≡ some w)

unfoldable pub Stage : RtiRules → RtiStatus → RtiApplication → Type 0
Stage rules draft a = IsUnfiled a
Stage rules generated a = IsUnfiled a × HasText a
Stage rules _ a = IsSent rules a × HasText a

pub record IsSound (rules : RtiRules) (a : RtiApplication) : Type 0 where
  pub drafted : (d : RtiDraft) × (validate_draft d ≡ ok a.content)
  pub stage : Stage rules a.status a

pub update-All {ℓ} :
    (P : RtiApplication → Type ℓ) (a : RtiApplication) (t : Applications)
    → All P t
    → P a
    → All P (update a t)
unfolding update
update-All P a [] h p = h
update-All P a (row ∷ t) h p = elim (Bool-cases (has_id a.id row)) [
  | inl e ↦ rw e (p, h.1)
  | inr e ↦ rw e (h.0, update-All P a t h.1 p)
]

owned_by-found :
    (user : String) (o : Option RtiApplication) {a : RtiApplication}
    → owned_by user o ≡ ok a
    → (o ≡ some a) × (str_eq a.owner_id user ≡ true)
owned_by-found user none h = absurd (cc h)
owned_by-found user (some b) {a} h = elim (Bool-cases (str_eq b.owner_id user)) [
  | inl e ↦
      let same : b ≡ a = ok_injective (rw e at h) in
      (ap some same, ap (λ x. str_eq x.owner_id user) (sym same) ∙ e)
  | inr e ↦ absurd (cc (rw e at h))
]

pub owned-found :
    (ctx : AuthContext) (id : String) (t : Applications) {a : RtiApplication}
    → owned ctx id t ≡ ok a
    → (get id t ≡ some a) × (str_eq a.owner_id ctx.user_id ≡ true)
unfolding owned
owned-found ctx id t h =
    owned_by-found ctx.user_id (get id t)
      (>>-ok (permitted ctx) (owned_by ctx.user_id (get id t)) h)

pub not_raised : (b : Bool) (x : RtiError) → raise_if (not b) x ≡ ok tt → b ≡ true
not_raised true x h = refl
not_raised false x h = absurd (cc h)

module _ (rules : RtiRules) where
  pub owned-IsSound :
      (ctx : AuthContext) (id : String) (t : Applications) {a : RtiApplication}
      → All (IsSound rules) t
      → owned ctx id t ≡ ok a
      → IsSound rules a
  unfolding get
  owned-IsSound ctx id t s h = All-find (IsSound rules) (has_id id) t s (owned-found ctx id t h).0

  pub open-IsUnfiled :
      (x : RtiStatus) (a : RtiApplication) → is_open x ≡ true → Stage rules x a → IsUnfiled a
  unfolding Stage
  open-IsUnfiled draft a h s = s
  open-IsUnfiled generated a h s = s.0
  open-IsUnfiled filed a h s = absurd (cc h)
  open-IsUnfiled responded a h s = absurd (cc h)
  open-IsUnfiled closed a h s = absurd (cc h)

  pub generated_stage :
      (x : RtiStatus) (a : RtiApplication)
      → is_generated x ≡ true
      → Stage rules x a
      → IsUnfiled a × HasText a
  unfolding Stage
  generated_stage generated a h s = s
  generated_stage draft a h s = absurd (cc h)
  generated_stage filed a h s = absurd (cc h)
  generated_stage responded a h s = absurd (cc h)
  generated_stage closed a h s = absurd (cc h)

  pub filed_stage :
      (x : RtiStatus) (a : RtiApplication)
      → is_filed x ≡ true
      → Stage rules x a
      → IsSent rules a × HasText a
  unfolding Stage
  filed_stage filed a h s = s
  filed_stage draft a h s = absurd (cc h)
  filed_stage generated a h s = absurd (cc h)
  filed_stage responded a h s = absurd (cc h)
  filed_stage closed a h s = absurd (cc h)
