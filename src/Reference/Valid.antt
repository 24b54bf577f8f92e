-- ===== src/Reference/Valid.antt =====
-- `is_valid_reference` of app/services/reference.py on the numbers that `generate_reference` makes,
-- and on those with a wrong character.
use civiclens.Reference.Plain.{
  strip-plain, take_while-append, is_plain, drop_while-append, chars-of_chars, all-append,
  take-append, upper-plain, all-weaken, drop-append, alphabet-plain, all-split,
}
use civiclens.Reference.Checksum.{check_char-index, index-char_at, check_char-detects}
use civiclens.Reference.Matching.{
  checks_out, other_prefix, is_capital, is_valid_reference, match_reference, day_group, body_group,
  Groups,
}
use civiclens.Reference.{
  in_alphabet, generate_reference, check_char, of_chars, char_at, alphabet, joined,
}
use Prim.Native.Char.{Char, code}
use civiclens.Prelude.{
  ℕ, suc, ◌≤◌, ◌<◌, String, ◌≡◌, refl, ap, ◌≢◌, Bool, true, false, ◌&&◌, Option, some, List, [],
  ◌∷◌, ◌++◌, map, arith, leb, length, all, All, le→leb, ◌==◌, ◌∙◌, Bool-cases, ◌+◌, sym, is_empty,
  inl, inr, length-append, eq_iff,
}

abbrev pub is_ascii_digit : Char → Bool
is_ascii_digit c = leb 48 (code c) && leb (code c) 57

-- What comes before the body
pub record IsStem (prefix day : List Char) : Type 0 where
  pub prefix_capitals : all is_capital prefix ≡ true
  pub prefix_long : 2 ≤ length prefix
  pub prefix_short : length prefix ≤ 5
  pub day_digits : all is_ascii_digit day ≡ true
  pub day_length : length day ≡ 8

pub record IsBody (body : List Char) : Type 0 where
  pub body_alphabet : all in_alphabet body ≡ true
  pub body_length : length body ≡ 7

module _ (is_digit : ℕ → Bool) (digits : (c : ℕ) → 48 ≤ c → c ≤ 57 → is_digit c ≡ true) where
  match-joined :
      (prefix day body : List Char) (check : Char)
      → IsStem prefix day
      → IsBody body
      → in_alphabet check ≡ true
      → match_reference is_digit (joined prefix day body check)
        ≡ some (record { prefix = prefix; day = day; body = body; check = check })
  unfolding match_reference day_group body_group
  match-joined prefix day body check h b k =
      let rest : List Char = day ++ ("-" ∷ (body ++ (check ∷ []))) in
      let p1 = take_while-append is_capital prefix "-" rest h.prefix_capitals refl in
      let p2 = drop_while-append is_capital prefix "-" rest h.prefix_capitals refl in
      let d1 = take-append day ("-" ∷ (body ++ (check ∷ []))) 8 h.day_length in
      let d2 = drop-append day ("-" ∷ (body ++ (check ∷ []))) 8 h.day_length in
      let b1 = take-append body (check ∷ []) 7 b.body_length in
      let b2 = drop-append body (check ∷ []) 7 b.body_length in
      let low : leb 2 (length prefix) ≡ true = le→leb _ _ h.prefix_long in
      let high : leb (length prefix) 5 ≡ true = le→leb _ _ h.prefix_short in
      let ds : all (λ c. is_digit (code c)) day ≡ true =
        all-weaken is_ascii_digit (λ c. is_digit (code c))
          (λ c e. digits (code c) (ground arith) (ground arith)) day h.day_digits in
      rw (p1, p2, low, high)
        (rw (d1, d2, ds, h.day_length, b1, b2, b.body_alphabet, b.body_length, k) refl)

  joined-plain :
      (prefix day body : List Char) (check : Char)
      → IsStem prefix day
      → IsBody body
      → in_alphabet check ≡ true
      → all is_plain (joined prefix day body check) ≡ true
  joined-plain prefix day body check h b k =
      all-append is_plain prefix _
        (all-weaken is_capital is_plain (λ c e. ground arith) prefix h.prefix_capitals)
        (all-append is_plain day _
          (all-weaken is_ascii_digit is_plain (λ c e. ground arith) day h.day_digits)
          (all-append is_plain body _
            (all-weaken in_alphabet is_plain alphabet-plain body b.body_alphabet)
            (rw (alphabet-plain check k) refl)))

  valid-joined :
      (prefix day body : List Char) (check : Char) (wanted : Option String)
      → IsStem prefix day
      → IsBody body
      → in_alphabet check ≡ true
      → is_valid_reference is_digit (some (of_chars (joined prefix day body check))) wanted
        ≡ checks_out wanted
            (some (record { prefix = prefix; day = day; body = body; check = check }))
  unfolding is_valid_reference
  valid-joined prefix day body check wanted h b k =
      let xs : List Char = joined prefix day body check in
      let plain = joined-plain prefix day body check h b k in
      rw
        (
          strip-plain xs plain,
          chars-of_chars xs,
          upper-plain xs plain,
          match-joined prefix day body check h,
        )
        refl

check_char-alphabet :
    (prefix day body : List Char) → in_alphabet (check_char prefix day body) ≡ true
check_char-alphabet prefix day body = rw (check_char-index prefix day body) refl

drawn-alphabet :
    (draws : List ℕ)
    → All (λ i. i < 31) draws
    → all in_alphabet (map (λ i. char_at i alphabet) draws) ≡ true
drawn-alphabet [] a = refl
drawn-alphabet (i ∷ draws) a = rw (index-char_at i a.0) (drawn-alphabet draws a.1)

map-length : (f : ℕ → Char) (xs : List ℕ) → length (map f xs) ≡ length xs
map-length f [] = refl
map-length f (x ∷ xs) = ap suc (map-length f xs)

own_prefix : (s : List Char) → other_prefix (some (of_chars s)) s ≡ false
own_prefix s = elim (Bool-cases (is_empty (of_chars s))) [
  | inl e ↦ rw e refl
  | inr e ↦ rw (e, (eq_iff (of_chars s) (of_chars s)).1 refl) refl
]

same_code : (n : ℕ) → n == n ≡ true
same_code n = ground arith

other_code : (m n : ℕ) → m ≢ n → m == n ≡ false
other_code m n d = ground arith

never_valid :
    (wanted : Option String) (m : Groups)
    → code (check_char m.prefix m.day m.body) ≢ code m.check
    → checks_out wanted (some m) ≡ false
unfolding checks_out
never_valid wanted m n = elim (Bool-cases (other_prefix wanted m.prefix)) [
  | inl e ↦ rw e refl
  | inr e ↦ rw (e, other_code _ _ n) refl
]

replaced :
    (u v : List Char) (c d : Char)
    → IsBody (u ++ c ∷ v)
    → in_alphabet d ≡ true
    → (in_alphabet c ≡ true) × (length u < 7) × IsBody (u ++ d ∷ v)
replaced u v c d b dn =
    let parts = all-split in_alphabet u (c ∷ v) b.body_alphabet in
    let long : length u + suc (length v) ≡ 7 = sym (length-append u (c ∷ v)) ∙ b.body_length in
    elim (Bool-cases (in_alphabet c)) [
      | inr e ↦ absurd (cc (rw e at parts.1))
      | inl e ↦ (
        e,
        omega arith,
        record {
          body_alphabet = all-append in_alphabet u (d ∷ v) parts.0 (rw dn (rw e at parts.1));
          body_length = length-append u (d ∷ v) ∙ long;
        },
      )
    ]

module _ (is_digit : ℕ → Bool) (digits : (c : ℕ) → 48 ≤ c → c ≤ 57 → is_digit c ≡ true)
    (prefix day : List Char) where
  -- A generated reference number is valid, and valid for its prefix: for a prefix of two to five
  -- capitals, a day of eight digits, and seven characters drawn from the alphabet.
  pub generated_valid :
      (draws : List ℕ)
      → IsStem prefix day
      → length draws ≡ 7
      → All (λ i. i < 31) draws
      → is_valid_reference is_digit
          (some (generate_reference prefix day draws))
          (some (of_chars prefix))
        ≡ true
  unfolding generate_reference checks_out
  generated_valid draws h l a =
      let body : List Char = map (λ i. char_at i alphabet) draws in
      let k : Char = check_char prefix day body in
      let b : IsBody body = record {
        body_alphabet = drawn-alphabet draws a;
        body_length = map-length _ draws ∙ l;
      } in
      valid-joined is_digit digits prefix day body k (some (of_chars prefix)) h b
        (check_char-alphabet prefix day body)
      ∙ rw (own_prefix prefix) (same_code (code k))

  -- A reference number with one wrong character of the alphabet in its body, the others and the check
  -- character as they were generated, is not valid.
  pub typo_rejected :
      (u v : List Char) (c d : Char) (wanted : Option String)
      → IsStem prefix day
      → IsBody (u ++ c ∷ v)
      → in_alphabet d ≡ true
      → code c ≢ code d
      → is_valid_reference is_digit
          (some (of_chars (joined prefix day (u ++ d ∷ v) (check_char prefix day (u ++ c ∷ v)))))
          wanted
        ≡ false
  unfolding checks_out
  typo_rejected u v c d wanted h b dn n =
      let r = replaced u v c d b dn in
      let check : Char = check_char prefix day (u ++ c ∷ v) in
      let changed : code (check_char prefix day (u ++ d ∷ v)) ≢ code check = λ e.
        check_char-detects prefix day u v c d r.0 dn n
          (omega (arith, h.prefix_short, h.day_length, r.1)) (sym e) in
      valid-joined is_digit digits prefix day (u ++ d ∷ v) check wanted h r.2
        (check_char-alphabet prefix day (u ++ c ∷ v))
      ∙ never_valid wanted (record { prefix = prefix; day = day; body = u ++ d ∷ v; check = check })
          changed
