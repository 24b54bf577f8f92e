-- ===== src/Prelude/Lists.antt =====
-- Lists measured by native numbers, and predicates on them by recursion.
use Prim.Native.Nat.{ℕ, zero, suc, ◌+◌}
use mathlib.Core.Path.{◌≡◌, refl, sym}
use mathlib.Core.Logic.{inl, inr}
use mathlib.Core.Bool.{Bool, true, false, ◌&&◌, ◌||◌}
use mathlib.Core.List.{List, [], ◌∷◌, ◌++◌, Mem, mem-cons_self, mem-cons_of_mem}
use mathlib.Core.Option.{Option, none, some}
use native.Mathlib.Omega.{arith}
use civiclens.Prelude.Tests.{if◌then◌else◌, Bool-cases, or_else}

pub some_injective {ℓ} : {A : Type ℓ} {x y : A} → some x ≡ some y → x ≡ y
some_injective h = cc

module _ {ℓ} {A : Type ℓ} where
  abbrev pub length : List A → ℕ
  length [] = 0
  length (x ∷ xs) = suc (length xs)

  abbrev pub get_elem? : List A → ℕ → Option A
  get_elem? [] i = none
  get_elem? (x ∷ xs) zero = some x
  get_elem? (x ∷ xs) (suc i) = get_elem? xs i

  abbrev pub take : ℕ → List A → List A
  take zero xs = []
  take (suc n) [] = []
  take (suc n) (x ∷ xs) = x ∷ take n xs

  abbrev pub drop : ℕ → List A → List A
  drop zero xs = xs
  drop (suc n) [] = []
  drop (suc n) (x ∷ xs) = drop n xs

  abbrev pub any : (A → Bool) → List A → Bool
  any p [] = false
  any p (x ∷ xs) = p x || any p xs

  abbrev pub all : (A → Bool) → List A → Bool
  all p [] = true
  all p (x ∷ xs) = p x && all p xs

  -- `[x for x in xs if p(x)]`
  abbrev pub filter : (A → Bool) → List A → List A
  filter p [] = []
  filter p (x ∷ xs) = let rest = filter p xs in if p x then x ∷ rest else rest

  -- `next((x for x in xs if p(x)), None)`
  abbrev pub find? : (A → Bool) → List A → Option A
  find? p [] = none
  find? p (x ∷ xs) = let rest = find? p xs in if p x then some x else rest

  abbrev pub All {κ} : (A → Type κ) → List A → Type κ
  All P [] = Unit
  All P (x ∷ xs) = P x × All P xs

  pub length-append : (xs ys : List A) → length (xs ++ ys) ≡ length xs + length ys
  length-append [] ys = omega arith
  length-append (x ∷ xs) ys = omega (arith, length-append xs ys)

  pub All-append {κ} : (P : A → Type κ) (xs ys : List A) → All P xs → All P ys → All P (xs ++ ys)
  All-append P [] ys hx hy = hy
  All-append P (x ∷ xs) ys hx hy = (hx.0, All-append P xs ys hx.1 hy)

  -- What follows from a property of all elements, one by one
  pub All-map {κ κ'} :
      (P : A → Type κ) (R : A → Type κ')
      → ((x : A) → P x → R x)
      → (xs : List A) → All P xs
      → All R xs
  All-map P R f [] a = tt
  All-map P R f (x ∷ xs) a = (f x a.0, All-map P R f xs a.1)

  pub All-Mem : (xs : List A) → All (λ x. Mem x xs) xs
  All-Mem [] = tt
  All-Mem (x ∷ xs) = (
    mem-cons_self,
    All-map (λ y. Mem y xs) (λ y. Mem y (x ∷ xs)) (λ y m. mem-cons_of_mem x m) xs (All-Mem xs),
  )

  pub All-filter {κ} :
      (P : A → Type κ) (p : A → Bool) (xs : List A) → All P xs → All P (filter p xs)
  All-filter P p [] a = tt
  All-filter P p (x ∷ xs) a = elim (Bool-cases (p x)) [
    | inl e ↦ rw e (a.0, All-filter P p xs a.1)
    | inr e ↦ rw e (All-filter P p xs a.1)
  ]

  pub filter-append :
      (p : A → Bool) (xs ys : List A) → filter p (xs ++ ys) ≡ filter p xs ++ filter p ys
  filter-append p [] ys = refl
  filter-append p (x ∷ xs) ys = elim (Bool-cases (p x)) [
    | inl e ↦ rw (e, filter-append p xs ys) refl
    | inr e ↦ rw (e, filter-append p xs ys) refl
  ]

  pub find?-append :
      (p : A → Bool) (xs ys : List A) → find? p (xs ++ ys) ≡ or_else (find? p xs) (find? p ys)
  find?-append p [] ys = refl
  find?-append p (x ∷ xs) ys = elim (Bool-cases (p x)) [
    | inl e ↦ rw e
    | inr e ↦ rw e (find?-append p xs ys)
  ]

  pub find?-holds : (p : A → Bool) (xs : List A) {x : A} → find? p xs ≡ some x → p x ≡ true
  find?-holds p [] h = absurd (cc h)
  find?-holds p (y ∷ ys) h = elim (Bool-cases (p y)) [
    | inl e ↦ let k : some y ≡ some _ = rw e at h in rw (sym (some_injective k)) e
    | inr e ↦ find?-holds p ys (rw e at h)
  ]

  pub All-find {κ} :
      (P : A → Type κ) (p : A → Bool) (xs : List A) {x : A} → All P xs → find? p xs ≡ some x → P x
  All-find P p [] a h = absurd (cc h)
  All-find P p (y ∷ ys) {x} a h = elim (Bool-cases (p y)) [
    | inl e ↦ let same : y ≡ x = some_injective (rw e at h) in rw (sym same) a.0
    | inr e ↦ All-find P p ys a.1 (rw e at h)
  ]

  pub any-append : (p : A → Bool) (xs ys : List A) → any p (xs ++ ys) ≡ (any p xs || any p ys)
  any-append p [] ys = refl
  any-append p (x ∷ xs) ys = elim (Bool-cases (p x)) [
    | inl e ↦ rw e refl
    | inr e ↦ rw e (any-append p xs ys)
  ]
