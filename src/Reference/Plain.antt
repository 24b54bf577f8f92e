-- ===== src/Reference/Plain.antt =====
-- Texts of hyphens, digits and capitals in app/services/reference.py, and where their parts end.
use civiclens.Reference.Checksum.{all_below, alphabet-index, all_below-at, index-bound, index-code}
use Prim.Native.Char.{Char, code}
use civiclens.Reference.{chars, of_chars, char_at, in_alphabet, alphabet}
use civiclens.Reference.Matching.{upper, take_while, drop_while, special, upper_of}
use civiclens.Prelude.{
  ℕ, zero, suc, String, ◌≡◌, refl, inl, inr, Bool, true, false, ◌&&◌, List, [], ◌∷◌, ◌++◌, arith,
  ltb, leb, ◌==◌, if◌then◌else◌, Bool-cases, length, take, drop, all, is_empty, strip,
  upper_char-same, rstrip, lstrip, is_space,
}

module _ (p : Char → Bool) where
  pub take_while-append :
      (xs : List Char) (d : Char) (ys : List Char)
      → all p xs ≡ true
      → p d ≡ false
      → take_while p (xs ++ d ∷ ys) ≡ xs
  unfolding take_while
  take_while-append [] d ys a n = rw n refl
  take_while-append (x ∷ xs) d ys a n = elim (Bool-cases (p x)) [
    | inl e ↦ rw (e, take_while-append xs d ys (rw e at a) n) refl
    | inr e ↦ absurd (cc (rw e at a))
  ]

  pub drop_while-append :
      (xs : List Char) (d : Char) (ys : List Char)
      → all p xs ≡ true
      → p d ≡ false
      → drop_while p (xs ++ d ∷ ys) ≡ d ∷ ys
  unfolding drop_while
  drop_while-append [] d ys a n = rw n refl
  drop_while-append (x ∷ xs) d ys a n = elim (Bool-cases (p x)) [
    | inl e ↦ rw (e, drop_while-append xs d ys (rw e at a) n) refl
    | inr e ↦ absurd (cc (rw e at a))
  ]

  pub all-weaken :
      (q : Char → Bool)
      → ((c : Char) → p c ≡ true → q c ≡ true)
      → (xs : List Char) → all p xs ≡ true
      → all q xs ≡ true
  all-weaken q k [] a = refl
  all-weaken q k (x ∷ xs) a = elim (Bool-cases (p x)) [
    | inl e ↦ rw (k x e) (all-weaken q k xs (rw e at a))
    | inr e ↦ absurd (cc (rw e at a))
  ]

  pub all-append : (xs ys : List Char) → all p xs ≡ true → all p ys ≡ true → all p (xs ++ ys) ≡ true
  all-append [] ys a b = b
  all-append (x ∷ xs) ys a b = elim (Bool-cases (p x)) [
    | inl e ↦ rw e (all-append xs ys (rw e at a) b)
    | inr e ↦ absurd (cc (rw e at a))
  ]

pub all-split :
    (p : Char → Bool) (xs ys : List Char)
    → all p (xs ++ ys) ≡ true
    → (all p xs ≡ true) × (all p ys ≡ true)
all-split p [] ys a = (refl, a)
all-split p (x ∷ xs) ys a = elim (Bool-cases (p x)) [
  | inl e ↦ let r = all-split p xs ys (rw e at a) in (rw e r.0, r.1)
  | inr e ↦ absurd (cc (rw e at a))
]

pub take-append : (xs ys : List Char) (n : ℕ) → length xs ≡ n → take n (xs ++ ys) ≡ xs
take-append [] ys zero e = refl
take-append [] ys (suc n) e = absurd (omega arith)
take-append (x ∷ xs) ys zero e = absurd (omega arith)
take-append (x ∷ xs) ys (suc n) e = rw (take-append xs ys n (omega arith)) refl

pub drop-append : (xs ys : List Char) (n : ℕ) → length xs ≡ n → drop n (xs ++ ys) ≡ ys
drop-append [] ys zero e = refl
drop-append [] ys (suc n) e = absurd (omega arith)
drop-append (x ∷ xs) ys zero e = absurd (omega arith)
drop-append (x ∷ xs) ys (suc n) e = drop-append xs ys n (omega arith)

-- Hyphens, digits and capitals lie between these; `strip` and `upper` leave them alone.
abbrev pub is_plain : Char → Bool
is_plain c = leb 45 (code c) && leb (code c) 90

plain-is_space : (c : Char) → is_plain c ≡ true → is_space (code c) ≡ false
unfolding is_space
plain-is_space c h = ground arith

pub chars-of_chars : (xs : List Char) → chars (of_chars xs) ≡ xs
unfolding chars of_chars
chars-of_chars [] = refl
chars-of_chars (x ∷ xs) = rw (chars-of_chars xs) refl

upper_of-plain :
    (table : List (ℕ × List Char)) (c : Char)
    → all (λ e. ltb 90 e.0) table ≡ true
    → is_plain c ≡ true
    → upper_of table c ≡ c ∷ []
unfolding upper_of
upper_of-plain [] c a h = rw (upper_char-same c (ground arith)) refl
upper_of-plain ((k, cs) ∷ table) c a h = elim (Bool-cases (ltb 90 k)) [
  | inl l ↦
      let other : code c == k ≡ false = ground arith in
      rw other (upper_of-plain table c (rw l at a) h)
  | inr n ↦ absurd (cc (rw n at a))
]

pub upper-plain : (xs : List Char) → all is_plain xs ≡ true → upper xs ≡ xs
unfolding upper
upper-plain [] a = refl
upper-plain (x ∷ xs) a = elim (Bool-cases (is_plain x)) [
  | inl e ↦ rw (upper_of-plain special x refl e, upper-plain xs (rw e at a)) refl
  | inr e ↦ absurd (cc (rw e at a))
]

drop_no : (b : Bool) (s t : String) → Path String (if b && false then s else t) t
drop_no true s t = refl
drop_no false s t = refl

rstrip-plain : (xs : List Char) → all is_plain xs ≡ true → rstrip (of_chars xs) ≡ of_chars xs
unfolding rstrip of_chars
rstrip-plain [] a = refl
rstrip-plain (x ∷ xs) a = elim (Bool-cases (is_plain x)) [
  | inl e ↦
      rw (rstrip-plain xs (rw e at a), plain-is_space x e) (drop_no (is_empty (of_chars xs)) _ _)
  | inr e ↦ absurd (cc (rw e at a))
]

pub strip-plain : (xs : List Char) → all is_plain xs ≡ true → strip (of_chars xs) ≡ of_chars xs
unfolding strip lstrip of_chars
strip-plain [] a = refl
strip-plain (x ∷ xs) a = elim (Bool-cases (is_plain x)) [
  | inl e ↦ rw (plain-is_space x e) (rstrip-plain (x ∷ xs) a)
  | inr e ↦ absurd (cc (rw e at a))
]

pub alphabet-plain : (c : Char) → in_alphabet c ≡ true → is_plain c ≡ true
unfolding all_below char_at alphabet
alphabet-plain c h =
    let x = alphabet-index c h in
    let low : leb 45 (code (char_at x.0 alphabet)) ≡ true =
      all_below-at 31 (λ i. leb 45 (code (char_at i alphabet))) refl x.0
        (index-bound c alphabet x.1) in
    let high : leb (code (char_at x.0 alphabet)) 90 ≡ true =
      all_below-at 31 (λ i. leb (code (char_at i alphabet)) 90) refl x.0
        (index-bound c alphabet x.1) in
    let same : code c ≡ code (char_at x.0 alphabet) = index-code c alphabet x.1 in
    rw (same, low) high
