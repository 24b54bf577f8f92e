-- ===== src/Rti/Told.antt =====
-- The reminders that app/services/rti_workflow.py has sent, and those that the applications record.
use civiclens.Rti.{RtiApplication, Applications, get, update, has_id}
use civiclens.Rti.Reminders.{Reminder}
use civiclens.Prelude.{
  ℕ, String, ◌≡◌, refl, sym, ap, ◌∙◌, inl, inr, Bool, true, false, Option, none, some, List, [],
  ◌∷◌, ◌++◌, eq_iff, if◌then◌else◌, Bool-cases, filter, All, str_eq, All-append, All-filter,
}

-- A log of the reminders that were sent beside the rest of the world.
pub record Noted (N : Type 0) : Type 0 where
  pub log : List Reminder
  pub world : N

-- `notify`, which is noted in the log
abbrev pub noting : {N : Type 0} → (Reminder → N → Bool × N) → Reminder → Noted N → Bool × Noted N
noting notify r n =
    let (event, w) = notify r n.world in (event, record { log = n.log ++ r ∷ []; world = w })

-- The thresholds of the reminders that were sent for an application.
unfoldable pub told : String → List Reminder → List ℕ
told i [] = []
told i (r ∷ rs) =
    let rest = told i rs in if str_eq r.application_id i then r.threshold ∷ rest else rest

-- What the row of an application records, if there is one.
abbrev pub sent_of : Option RtiApplication → List ℕ
sent_of none = []
sent_of (some a) = a.reminders_sent

-- For every application, what was sent is what is recorded, in this order.
abbrev pub Agrees : Applications → List Reminder → Type 0
Agrees t log = (i : String) → told i log ≡ sent_of (get i t)

unfoldable pub Distinct : Applications → Type 0
Distinct [] = Unit
Distinct (a ∷ t) = All (λ b. str_eq a.id b.id ≡ false) t × Distinct t

pub told-own :
    (log : List Reminder) (r : Reminder) (i : String)
    → str_eq r.application_id i ≡ true
    → told i (log ++ r ∷ []) ≡ told i log ++ r.threshold ∷ []
unfolding told
told-own [] r i e = rw e refl
told-own (x ∷ log) r i e = elim (Bool-cases (str_eq x.application_id i)) [
  | inl f ↦ rw (f, told-own log r i e) refl
  | inr f ↦ rw (f, told-own log r i e) refl
]

pub told-other :
    (log : List Reminder) (r : Reminder) (i : String)
    → str_eq r.application_id i ≡ false
    → told i (log ++ r ∷ []) ≡ told i log
unfolding told
told-other [] r i e = rw e refl
told-other (x ∷ log) r i e = elim (Bool-cases (str_eq x.application_id i)) [
  | inl f ↦ rw (f, told-other log r i e) refl
  | inr f ↦ rw (f, told-other log r i e) refl
]

pub get-update_own :
    (a b : RtiApplication) (t : Applications) → get a.id t ≡ some b → get a.id (update a t) ≡ some a
unfolding get update
get-update_own a b [] h = absurd (cc h)
get-update_own a b (row ∷ t) h = elim (Bool-cases (has_id a.id row)) [
  | inl e ↦ let own : str_eq a.id a.id ≡ true = (eq_iff a.id a.id).1 refl in rw (e, own) refl
  | inr e ↦ rw (e, e) (get-update_own a b t (rw e at h))
]

pub All-both :
    {P Q R : RtiApplication → Type 0}
    → ((x : RtiApplication) → P x → Q x → R x)
    → (t : Applications) → All P t
    → All Q t
    → All R t
All-both f [] p q = tt
All-both f (x ∷ t) p q = (f x p.0 q.0, All-both f t p.1 q.1)

pub Distinct-rows : (t : Applications) → Distinct t → All (λ b. get b.id t ≡ some b) t
unfolding Distinct get
Distinct-rows [] d = tt
Distinct-rows (a ∷ t) d =
    let own : str_eq a.id a.id ≡ true = (eq_iff a.id a.id).1 refl in
    (rw own refl, All-both (λ b n h. rw n h) t d.0 (Distinct-rows t d.1))

pub Distinct-filter :
    (p : RtiApplication → Bool) (t : Applications) → Distinct t → Distinct (filter p t)
unfolding Distinct
Distinct-filter p [] d = tt
Distinct-filter p (a ∷ t) d = elim (Bool-cases (p a)) [
  | inl e ↦ rw e (All-filter (λ b. str_eq a.id b.id ≡ false) p t d.0, Distinct-filter p t d.1)
  | inr e ↦ rw e (Distinct-filter p t d.1)
]

update-ids :
    (i : String) (a : RtiApplication) (t : Applications)
    → All (λ b. str_eq i b.id ≡ false) t
    → All (λ b. str_eq i b.id ≡ false) (update a t)
unfolding update
update-ids i a [] h = tt
update-ids i a (row ∷ t) h = elim (Bool-cases (has_id a.id row)) [
  | inl e ↦
      let same : row.id ≡ a.id = (eq_iff row.id a.id).0 e in
      rw e (ap (str_eq i) (sym same) ∙ h.0, h.1)
  | inr e ↦ rw e (h.0, update-ids i a t h.1)
]

pub Distinct-update : (a : RtiApplication) (t : Applications) → Distinct t → Distinct (update a t)
unfolding Distinct update
Distinct-update a [] d = tt
Distinct-update a (row ∷ t) d = elim (Bool-cases (has_id a.id row)) [
  | inl e ↦
      let same : row.id ≡ a.id = (eq_iff row.id a.id).0 e in
      rw e (
        All-both {P = λ b. str_eq row.id b.id ≡ false} {Q = λ b. str_eq row.id b.id ≡ false}
            (λ b n m. ap (λ x. str_eq x b.id) (sym same) ∙ n) t d.0 d.0,
        d.1,
      )
  | inr e ↦ rw e (update-ids row.id a t d.0, Distinct-update a t d.1)
]

pub Distinct-add :
    (a : RtiApplication) (t : Applications)
    → get a.id t ≡ none
    → Distinct t
    → Distinct (t ++ a ∷ [])
unfolding Distinct get
Distinct-add a [] n d = (tt, tt)
Distinct-add a (row ∷ t) n d = elim (Bool-cases (has_id a.id row)) [
  | inl e ↦ absurd (cc (rw e at n))
  | inr e ↦ (
    All-append (λ b. str_eq row.id b.id ≡ false) t (a ∷ []) d.0 (e, tt),
    Distinct-add a t (rw e at n) d.1,
  )
]
