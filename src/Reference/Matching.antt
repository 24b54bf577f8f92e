-- ===== src/Reference/Matching.antt =====
-- `is_valid_reference` of app/services/reference.py. Where the upper case of a character has other
-- than ASCII characters, the character itself stands for it: neither matches the expression.
use Prim.Native.Char.{Char, code}
use civiclens.Reference.{chars, of_chars, in_alphabet, check_char}
use civiclens.Prelude.{
  ℕ, String, Bool, false, not, ◌&&◌, Option, none, some, List, [], ◌∷◌, ◌++◌, leb, ◌==◌,
  if◌then◌else◌, value_or, length, take, drop, all, str_eq, is_empty, strip, upper_char,
}

abbrev pub special : List (ℕ × List Char)
special =
    (223, "S" ∷ "S" ∷ [])
    ∷ (305, "I" ∷ [])
    ∷ (383, "S" ∷ [])
    ∷ (64256, "F" ∷ "F" ∷ [])
    ∷ (64257, "F" ∷ "I" ∷ [])
    ∷ (64258, "F" ∷ "L" ∷ [])
    ∷ (64259, "F" ∷ "F" ∷ "I" ∷ [])
    ∷ (64260, "F" ∷ "F" ∷ "L" ∷ [])
    ∷ (64261, "S" ∷ "T" ∷ [])
    ∷ (64262, "S" ∷ "T" ∷ [])
    ∷ []

unfoldable pub upper_of : List (ℕ × List Char) → Char → List Char
unfolding upper_char
upper_of [] c = upper_char c ∷ []
upper_of ((k, cs) ∷ table) c = let rest = upper_of table c in if code c == k then cs else rest

-- `s.upper()`
unfoldable pub upper : List Char → List Char
unfolding upper_of
upper [] = []
upper (c ∷ cs) = upper_of special c ++ upper cs

abbrev pub is_capital : Char → Bool
is_capital c = leb 65 (code c) && leb (code c) 90

abbrev pub is_hyphen : Char → Bool
is_hyphen c = code c == 45

unfoldable pub take_while : (Char → Bool) → List Char → List Char
take_while p [] = []
take_while p (c ∷ cs) = let rest = take_while p cs in if p c then c ∷ rest else []

unfoldable pub drop_while : (Char → Bool) → List Char → List Char
drop_while p [] = []
drop_while p (c ∷ cs) = let rest = drop_while p cs in if p c then rest else c ∷ cs

-- The groups of a match of `_RE`
pub record Groups : Type 0 where
  pub prefix : List Char
  pub day : List Char
  pub body : List Char
  pub check : Char

abbrev pub exactly : ℕ → (Char → Bool) → List Char → Bool
exactly n p cs = length cs == n && all p cs

-- A hyphen, and then what `k` makes of the rest
abbrev pub after_hyphen : List Char → (List Char → Option Groups) → Option Groups
after_hyphen [] k = none
after_hyphen (c ∷ cs) k = let r = k cs in if is_hyphen c then r else none

abbrev pub last_group : List Char → List Char → List Char → List Char → Option Groups
last_group prefix day body (c ∷ []) =
    if in_alphabet c
    then some (record { prefix = prefix; day = day; body = body; check = c })
    else none
last_group prefix day body _ = none

unfoldable pub body_group : List Char → List Char → List Char → Option Groups
body_group prefix day cs =
    if exactly 7 in_alphabet (take 7 cs)
    then last_group prefix day (take 7 cs) (drop 7 cs)
    else none

-- `prefix and m["prefix"] != prefix`
abbrev pub other_prefix : Option String → List Char → Bool
other_prefix none cs = false
other_prefix (some p) cs = not (is_empty p) && not (str_eq p (of_chars cs))

unfoldable pub checks_out : Option String → Option Groups → Bool
unfolding check_char of_chars
checks_out prefix none = false
checks_out prefix (some m) =
    if other_prefix prefix m.prefix
    then false
    else code (check_char m.prefix m.day m.body) == code m.check

module _ (is_digit : ℕ → Bool) where
  unfoldable pub day_group : List Char → List Char → Option Groups
  unfolding body_group
  day_group prefix cs =
      if exactly 8 (λ c. is_digit (code c)) (take 8 cs)
      then after_hyphen (drop 8 cs) (body_group prefix (take 8 cs))
      else none

  -- `_RE.match`: the capitals of the prefix end where the hyphen stands.
  unfoldable pub match_reference : List Char → Option Groups
  unfolding take_while drop_while day_group
  match_reference cs =
      let prefix = take_while is_capital cs in
      if leb 2 (length prefix) && leb (length prefix) 5
      then after_hyphen (drop_while is_capital cs) (day_group prefix)
      else none

  unfoldable pub is_valid_reference : Option String → Option String → Bool
  unfolding chars strip upper match_reference checks_out
  is_valid_reference ref prefix =
      checks_out prefix (match_reference (upper (chars (strip (value_or "" ref)))))
