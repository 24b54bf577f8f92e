-- ===== src/Desk/Keeps.antt =====
-- What every step on a complaint at the desk keeps: app/services/officer_service.py and
-- app/services/workflow_service.py.
use mathlib.Core.List.{append_assoc, append-nil}
use civiclens.Desk.Rules.{has_run}
use civiclens.Desk.{Work, Event, get, Option, Complaint, Book, write, has_id}
use civiclens.Complaint.Status.{Status, can_transition}
use civiclens.Prelude.{
  ◌≤◌, String, ◌≡◌, refl, sym, ap, ◌∙◌, ◌≢◌, ◌⊎◌, inl, inr, true, false, Option, none, some, List,
  [], ◌∷◌, ◌++◌, arith, eq_iff, Bool-cases, str_eq, str_differs,
}

-- What an event says of the status `s`: nothing, or that it goes on to another along an allowed
-- transition; `P` holds of the status after it.
abbrev pub Onward : (Status → Type 0) → Status → Option Status → Option Status → Type 0
Onward P s from none = P s
Onward P s from (some t) = (from ≡ some s) × (can_transition s t ≡ true) × P t

Onward-map :
    (P Q : Status → Type 0) (s : Status) (from to : Option Status)
    → ((t : Status) → P t → Q t)
    → Onward P s from to
    → Onward Q s from to
Onward-map P Q s from none f h = f s h
Onward-map P Q s from (some t) f h = (h.0, h.1, f t h.2)

-- The events take the complaint `id` from the status `s` to `s'`: those that name a new status follow
-- each other along allowed transitions.
unfoldable pub Explains : String → Status → List Event → Status → Type 0
Explains id s [] s' = s ≡ s'
Explains id s (e ∷ es) s' =
    (e.complaint_id ≡ id) × Onward (λ t. Explains id t es s') s e.from_status e.to_status

Explains-append :
    (id : String) (s t u : Status) (es fs : List Event)
    → Explains id s es t
    → Explains id t fs u
    → Explains id s (es ++ fs) u
unfolding Explains
Explains-append id s t u [] fs p q = rw p q
Explains-append id s t u (e ∷ es) fs p q = (
  p.0,
  Onward-map (λ x. Explains id x es t) (λ x. Explains id x (es ++ fs) u) s e.from_status e.to_status
      (λ x h. Explains-append id x t u es fs h q) p.1,
)

-- No rule ran twice for one complaint.
unfoldable pub Once : List (String × String) → Type 0
Once [] = Unit
Once (x ∷ xs) = (has_run x.0 x.1 xs ≡ false) × Once xs

-- The row of the complaint has the status and the level that the object has.
pub record IsStored (w : Work) : Type 0 where
  pub row : Complaint
  pub row_found : get w.0.id w.1.complaints ≡ some row
  pub row_status : row.status ≡ w.0.status
  pub row_level : row.escalation_level ≡ w.0.escalation_level

pub record Keeps (w w' : Work) : Type 0 where
  pub same_id : w'.0.id ≡ w.0.id
  pub same_citizen : w'.0.citizen_id ≡ w.0.citizen_id
  pub history :
      (es : List Event) × (w'.1.events ≡ w.1.events ++ es)
      × Explains w.0.id w.0.status es w'.0.status
  pub level_kept : w.0.escalation_level ≤ w'.0.escalation_level
  pub level_bounded : w.0.escalation_level ≤ 3 → w'.0.escalation_level ≤ 3
  pub others : (i : String) → w.0.id ≢ i → get i w'.1.complaints ≡ get i w.1.complaints
  pub stored : IsStored w → IsStored w'
  pub once : Once w.1.executions → Once w'.1.executions

pub Keeps-refl : (w : Work) → Keeps w w
unfolding Explains
Keeps-refl w = record {
  same_id = refl;
  same_citizen = refl;
  history = ([], sym (append-nil w.1.events), refl);
  level_kept = omega arith;
  level_bounded = λ h. h;
  others = λ i n. refl;
  stored = λ h. h;
  once = λ h. h;
}

pub Keeps-trans : (w w' w'' : Work) → Keeps w w' → Keeps w' w'' → Keeps w w''
Keeps-trans w w' w'' k l = record {
  same_id = l.same_id ∙ k.same_id;
  same_citizen = l.same_citizen ∙ k.same_citizen;
  history = (
    k.history.0 ++ l.history.0,
    l.history.1
        ∙ ap (λ es. es ++ l.history.0) k.history.1
        ∙ append_assoc w.1.events k.history.0 l.history.0,
    Explains-append w.0.id w.0.status w'.0.status w''.0.status k.history.0 l.history.0 k.history.2 (
        rw (ap (λ i. Explains i w'.0.status l.history.0 w''.0.status) (sym k.same_id)) l.history.2),
  );
  level_kept = omega (arith, k.level_kept, l.level_kept);
  level_bounded = λ h. l.level_bounded (k.level_bounded h);
  others = λ i n. l.others i (λ e. n (sym k.same_id ∙ e)) ∙ k.others i n;
  stored = λ h. l.stored (k.stored h);
  once = λ h. l.once (k.once h);
}

pub get-write_other :
    (i : String) (c : Complaint) (t : List Complaint) → c.id ≢ i → get i (write c t) ≡ get i t
unfolding get
get-write_other i c [] n = refl
get-write_other i c (r ∷ t) n = elim (Bool-cases (has_id c.id r)) [
  | inl e ↦
      let same : r.id ≡ c.id = (eq_iff _ _).0 e in
      let other : str_eq c.id i ≡ false = str_differs c.id i n in
      let other' : has_id i r ≡ false = ap (λ x. str_eq x i) same ∙ other in
      rw e (rw other (rw other' (get-write_other i c t n)))
  | inr e ↦ rw e (rw (get-write_other i c t n))
]

get-write_same :
    (c : Complaint) (t : List Complaint) {r : Complaint}
    → get c.id t ≡ some r
    → get c.id (write c t) ≡ some c
unfolding get
get-write_same c [] h = absurd (cc h)
get-write_same c (x ∷ t) h = elim (Bool-cases (has_id c.id x)) [
  | inl e ↦ rw (e, (eq_iff c.id c.id).1 refl) refl
  | inr e ↦ rw (e, e) (get-write_same c t (rw e at h))
]

-- The rows are as before, and so is the level, or the complaint's row is written.
abbrev pub Written : Complaint → Complaint → List Complaint → List Complaint → Type 0
Written c c' t t' = ((t' ≡ t) × (c'.escalation_level ≡ c.escalation_level)) ⊎ (t' ≡ write c' t)

IsStored-write :
    (c c' : Complaint) (b b' : Book)
    → c'.id ≡ c.id
    → b'.complaints ≡ write c' b.complaints
    → IsStored (c, b)
    → IsStored (c', b')
IsStored-write c c' b b' i w s = record {
  row = c';
  row_found =
      ap (get c'.id) w
      ∙ get-write_same c' b.complaints (ap (λ x. get x b.complaints) i ∙ s.row_found);
  row_status = refl;
  row_level = refl;
}

Written-IsStored :
    (c c' : Complaint) (b b' : Book)
    → c'.id ≡ c.id
    → c'.status ≡ c.status
    → Written c c' b.complaints b'.complaints
    → IsStored (c, b)
    → IsStored (c', b')
Written-IsStored c c' b b' i p (inr w) s = IsStored-write c c' b b' i w s
Written-IsStored c c' b b' i p (inl w) s = record {
  row = s.row;
  row_found = ap (get c'.id) w.0 ∙ ap (λ x. get x b.complaints) i ∙ s.row_found;
  row_status = s.row_status ∙ sym p;
  row_level = s.row_level ∙ sym w.1;
}

Written-others :
    (c c' : Complaint) (t t' : List Complaint) (i : String)
    → Written c c' t t'
    → c'.id ≢ i
    → get i t' ≡ get i t
Written-others c c' t t' i (inl e) n = ap (get i) e.0
Written-others c c' t t' i (inr e) n = ap (get i) e ∙ get-write_other i c' t n

-- A step that changes the object, and perhaps its row, but neither its status nor the history.
pub Keeps-edit :
    (c c' : Complaint) (b b' : Book)
    → c'.id ≡ c.id
    → c'.citizen_id ≡ c.citizen_id
    → c'.status ≡ c.status
    → c.escalation_level ≤ c'.escalation_level
    → (c.escalation_level ≤ 3 → c'.escalation_level ≤ 3)
    → b'.events ≡ b.events
    → b'.executions ≡ b.executions
    → Written c c' b.complaints b'.complaints
    → Keeps (c, b) (c', b')
unfolding Explains
Keeps-edit c c' b b' i p s l m e x w = record {
  same_id = i;
  same_citizen = p;
  history = ([], e ∙ sym (append-nil b.events), sym s);
  level_kept = l;
  level_bounded = m;
  others = λ j n. Written-others c c' b.complaints b'.complaints j w (λ k. n (sym i ∙ k));
  stored = Written-IsStored c c' b b' i s w;
  once = λ h. rw x h;
}

-- A step that leaves the object and writes one event without a status.
pub Keeps-event :
    (c : Complaint) (b b' : Book) (e : Event)
    → e.complaint_id ≡ c.id
    → e.to_status ≡ none
    → b'.events ≡ b.events ++ e ∷ []
    → b'.executions ≡ b.executions
    → b'.complaints ≡ b.complaints
    → Keeps (c, b) (c, b')
unfolding Explains
Keeps-event c b b' e i t h x w = record {
  same_id = refl;
  same_citizen = refl;
  history = (e ∷ [], h, (i, rw t refl));
  level_kept = omega arith;
  level_bounded = λ k. k;
  others = λ j n. ap (get j) w;
  stored = Written-IsStored c c b b' refl refl (inl (w, refl));
  once = λ k. rw x k;
}

-- An allowed transition, with its event and its row.
pub Keeps-move :
    (c c' : Complaint) (b b' : Book) (e : Event)
    → can_transition c.status c'.status ≡ true
    → c'.id ≡ c.id
    → c'.citizen_id ≡ c.citizen_id
    → c'.escalation_level ≡ c.escalation_level
    → e.complaint_id ≡ c.id
    → e.from_status ≡ some c.status
    → e.to_status ≡ some c'.status
    → b'.events ≡ b.events ++ e ∷ []
    → b'.executions ≡ b.executions
    → b'.complaints ≡ write c' b.complaints
    → Keeps (c, b) (c', b')
unfolding Explains
Keeps-move c c' b b' e a i p l k f t h x w = record {
  same_id = i;
  same_citizen = p;
  history = (e ∷ [], h, (k, rw t (f, a, refl)));
  level_kept = omega (arith, l);
  level_bounded = λ m. omega (arith, l, m);
  others = λ j n. Written-others c c' b.complaints b'.complaints j (inr w) (λ q. n (sym i ∙ q));
  stored = IsStored-write c c' b b' i w;
  once = λ m. rw x m;
}

pub Keeps-along : {w w1 w2 : Work} → w1 ≡ w2 → Keeps w w1 → Keeps w w2
Keeps-along e k = rw⁻¹ e k
