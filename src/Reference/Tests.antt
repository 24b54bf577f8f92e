-- ===== src/Reference/Tests.antt =====
-- Runs of app/services/reference.py on concrete references.
use civiclens.Reference.Valid.{IsStem, generated_valid, IsBody, typo_rejected}
use civiclens.Reference.Matching.{is_valid_reference}
use civiclens.Reference.{generate_reference, chars, of_chars, alphabet, index, joined, check_char}
use civiclens.Prelude.{
  ℕ, ◌≤◌, String, ◌≡◌, refl, Bool, true, false, ◌&&◌, none, some, [], ◌∷◌, ◌++◌, arith, leb,
}

abbrev ascii_digit : ℕ → Bool
ascii_digit c = leb 48 c && leb c 57

abbrev generated : String
generated = generate_reference (chars "CL") (chars "20260919") (5 ∷ 17 ∷ 1 ∷ 18 ∷ 7 ∷ 22 ∷ 8 ∷ [])

generated_text : generated ≡ "CL-20260919-7K3M9RAD"
unfolding generate_reference
generated_text = refl

accepts_typed : is_valid_reference ascii_digit (some " cl-20260919-7k3m9rad ") (some "CL") ≡ true
unfolding is_valid_reference
accepts_typed = refl

rejects_typo : is_valid_reference ascii_digit (some "CL-20260919-7K3M9RBD") none ≡ false
unfolding is_valid_reference
rejects_typo = refl

ascii_digits : (c : ℕ) → 48 ≤ c → c ≤ 57 → ascii_digit c ≡ true
ascii_digits c l h = ground arith

stem : IsStem (chars "CL") (chars "20260919")
unfolding chars
stem = record {
  prefix_capitals = refl;
  prefix_long = omega arith;
  prefix_short = omega arith;
  day_digits = refl;
  day_length = refl;
}

body : IsBody (chars "7K3M9" ++ "R" ∷ chars "A")
unfolding chars alphabet index
body = record { body_alphabet = refl; body_length = refl }

generated_valid_example :
    is_valid_reference ascii_digit (some generated) (some (of_chars (chars "CL"))) ≡ true
unfolding chars
generated_valid_example =
    generated_valid ascii_digit ascii_digits (chars "CL") (chars "20260919")
      (5 ∷ 17 ∷ 1 ∷ 18 ∷ 7 ∷ 22 ∷ 8 ∷ []) stem refl
      (
        omega arith,
        (
          omega arith,
          (omega arith, (omega arith, (omega arith, (omega arith, (omega arith, tt))))),
        ),
      )

typo_rejected_example :
    is_valid_reference ascii_digit
      (some (
        of_chars (
          joined
            (chars "CL")
            (chars "20260919")
            (chars "7K3M9" ++ "B" ∷ chars "A")
            (check_char (chars "CL") (chars "20260919") (chars "7K3M9" ++ "R" ∷ chars "A")))))
      none
    ≡ false
unfolding index alphabet
typo_rejected_example =
    typo_rejected ascii_digit ascii_digits (chars "CL") (chars "20260919") (chars "7K3M9")
      (chars "A") "R" "B" none stem body refl (λ e. absurd (omega arith))
