-- ===== src/Auth/Password.antt =====
-- `validate_password_policy` of app/core/security.py, and `normalize_email` of
-- app/services/auth_service.py with its regular expression `_EMAIL_RE` written out.
-- `str.lower`, which follows the tables of Unicode, is a parameter.
use Prim.Native.Char.{Char, code}
use Prim.Native.String.{count}
use civiclens.Prelude.{
  ℕ, suc, String, ◌≡◌, refl, Bool, true, false, not, ◌&&◌, ◌||◌, Option, none, some, List, [], ◌∷◌,
  ◌++◌, ltb, leb, ◌==◌, if◌then◌else◌, any, str_eq, is_empty, lower, is_space, strip,
}

pub data Problem : Type 0 where
  too_short too_long too_common equals_email has_margin : Problem

-- `_COMMON_PASSWORDS`
abbrev pub common_passwords : List String
common_passwords =
    "password" ∷ "password1" ∷ "password123" ∷ "1234567890" ∷ "qwertyuiop" ∷ "iloveyou12"
    ∷ "letmein123" ∷ "admin12345" ∷ "welcome123" ∷ "civiclens123" ∷ []

-- `if c: problems.append(p)`
abbrev pub noted : Bool → Problem → List Problem
noted true p = p ∷ []
noted false p = []

-- The list `problems`; the password is accepted when it is empty.
unfoldable pub password_problems : (String → String) → String → String → List Problem
unfolding strip
password_problems lower password email =
    noted (ltb (count password) 10) too_short
    ++ noted (ltb 128 (count password)) too_long
    ++ noted (any (str_eq (lower password)) common_passwords) too_common
    ++ noted (not (is_empty email) && str_eq (lower password) (lower (strip email))) equals_email
    ++ noted (not (str_eq (strip password) password) || is_empty (strip password)) has_margin

-- `[^@\s]`
unfoldable pub is_plain : Char → Bool
unfolding is_space
is_plain c = not (code c == 64) && not (is_space (code c))

-- The text before the first `@`, and what follows it.
unfoldable pub split_at_sign : String → Option (String × String)
split_at_sign String.[] = none
split_at_sign (String.◌∷◌ c s) =
    let rest = split_at_sign s in
    if code c == 64
    then some (String.[], s)
    else elim rest [ none ↦ none | some (a, b) ↦ some (String.◌∷◌ c a, b) ]

unfoldable pub all_plain : String → Bool
unfolding is_plain
all_plain String.[] = true
all_plain (String.◌∷◌ c s) = is_plain c && all_plain s

-- `{1,255}\.` and `{2,}` of the part after the `@`, from its character at the position `i`.
unfoldable pub has_dot : ℕ → String → Bool
has_dot i String.[] = false
has_dot i (String.◌∷◌ c s) =
    (code c == 46 && leb 1 i && leb i 255 && leb 2 (count s)) || has_dot (suc i) s

-- `_EMAIL_RE.match(value)` on a text without white space at its ends
unfoldable pub matches_email : String → Bool
unfolding split_at_sign all_plain has_dot
matches_email s = elim (split_at_sign s) [
  | none ↦ false
  | some (local, domain) ↦
      leb 1 (count local)
      && leb (count local) 64
      && all_plain local
      && all_plain domain
      && has_dot 0 domain
]

unfoldable pub normalize_email : (String → String) → String → Option String
unfolding matches_email strip
normalize_email lower email =
    let value = lower (strip email) in if matches_email value then some value else none

normalize_example : normalize_email lower " Asha@Example.org\n" ≡ some "asha@example.org"
unfolding normalize_email lower
normalize_example = refl

normalize_bad : normalize_email lower "asha@example" ≡ none
unfolding normalize_email lower
normalize_bad = refl

problems_example : password_problems lower "Password1" "a@b.org" ≡ too_short ∷ too_common ∷ []
unfolding password_problems lower
problems_example = refl
