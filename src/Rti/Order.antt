-- ===== src/Rti/Order.antt =====
-- The order of the thresholds in `due_reminders` of app/services/rti_service.py.
use civiclens.Rti.Reminders.{insert_down, sort_down}
use civiclens.Prelude.{
  ℕ, ◌≤◌, ◌≡◌, sym, inl, inr, Bool, true, List, [], ◌∷◌, arith, ltb, Bool-cases, take, filter, All,
}

module _ (P : ℕ → Type 0) where
  insert_down-All : (x : ℕ) (xs : List ℕ) → P x → All P xs → All P (insert_down x xs)
  unfolding insert_down
  insert_down-All x [] p a = (p, tt)
  insert_down-All x (y ∷ ys) p a = elim (Bool-cases (ltb x y)) [
    | inl e ↦ rw e (a.0, insert_down-All x ys p a.1)
    | inr e ↦ rw e (p, a)
  ]

  pub sort_down-All : (xs : List ℕ) → All P xs → All P (sort_down xs)
  unfolding sort_down
  sort_down-All [] a = tt
  sort_down-All (x ∷ xs) a = insert_down-All x (sort_down xs) a.0 (sort_down-All xs a.1)

  insert_down-back : (x : ℕ) (xs : List ℕ) → All P (insert_down x xs) → P x × All P xs
  unfolding insert_down
  insert_down-back x [] a = (a.0, tt)
  insert_down-back x (y ∷ ys) a = elim (Bool-cases (ltb x y)) [
    | inl e ↦
        let b : P y × All P (insert_down x ys) = rw e at a in
        let r = insert_down-back x ys b.1 in (r.0, (b.0, r.1))
    | inr e ↦ rw e at a
  ]

  pub sort_down-back : (xs : List ℕ) → All P (sort_down xs) → All P xs
  unfolding sort_down
  sort_down-back [] a = tt
  sort_down-back (x ∷ xs) a =
      let r = insert_down-back x (sort_down xs) a in (r.0, sort_down-back xs r.1)

-- Its head is the greatest.
unfoldable pub Descending : List ℕ → Type 0
Descending [] = Unit
Descending (x ∷ xs) = All (λ y. y ≤ x) xs × Descending xs

All-le : (x z : ℕ) (xs : List ℕ) → z ≤ x → All (λ y. y ≤ z) xs → All (λ y. y ≤ x) xs
All-le x z [] l a = tt
All-le x z (y ∷ ys) l a = (omega (arith, a.0), All-le x z ys l a.1)

insert_down-Descending : (x : ℕ) (xs : List ℕ) → Descending xs → Descending (insert_down x xs)
unfolding Descending insert_down
insert_down-Descending x [] d = (tt, tt)
insert_down-Descending x (y ∷ ys) d = elim (Bool-cases (ltb x y)) [
  | inl e ↦
      rw e (insert_down-All (λ z. z ≤ y) x ys (ground arith) d.0, insert_down-Descending x ys d.1)
  | inr e ↦ let l : y ≤ x = ground arith in rw e ((l, All-le x y ys l d.0), d)
]

pub sort_down-Descending : (xs : List ℕ) → Descending (sort_down xs)
unfolding Descending sort_down
sort_down-Descending [] = tt
sort_down-Descending (x ∷ xs) = insert_down-Descending x (sort_down xs) (sort_down-Descending xs)

pub filter-holds : (p : ℕ → Bool) (xs : List ℕ) → All (λ x. p x ≡ true) (filter p xs)
filter-holds p [] = tt
filter-holds p (x ∷ xs) = elim (Bool-cases (p x)) [
  | inl e ↦ rw e (e, filter-holds p xs)
  | inr e ↦ rw e (filter-holds p xs)
]

pub filter-most :
    (p : ℕ → Bool) (k : ℕ) (xs : List ℕ)
    → All (λ x. x ≤ k) (filter p xs)
    → All (λ x. p x ≡ true → x ≤ k) xs
filter-most p k [] a = tt
filter-most p k (x ∷ xs) a = elim (Bool-cases (p x)) [
  | inl e ↦
      let b : x ≤ k × All (λ y. y ≤ k) (filter p xs) = rw e at a in
      ((λ _. b.0), filter-most p k xs b.1)
  | inr e ↦ ((λ t. absurd (cc (rw e at t))), filter-most p k xs (rw e at a))
]

-- The greatest element, if there is one
pub head_most : (xs : List ℕ) {k : ℕ} → Descending xs → take 1 xs ≡ k ∷ [] → All (λ y. y ≤ k) xs
unfolding Descending
head_most [] d e = absurd (cc e)
head_most (x ∷ xs) {k} d e = let same : x ≡ k = cc in (omega arith, All-le k x xs (omega arith) d.0)

pub take_one : (P : ℕ → Type 0) (xs : List ℕ) {k : ℕ} → All P xs → take 1 xs ≡ k ∷ [] → P k
take_one P [] a e = absurd (cc e)
take_one P (x ∷ xs) {k} a e = let same : x ≡ k = cc in rw (sym same) a.0
