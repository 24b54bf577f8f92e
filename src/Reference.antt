-- ===== src/Reference.antt =====
-- app/services/reference.py: reference numbers with a check character. The digits that `\d` accepts
-- are a parameter; `strftime("%Y%m%d")` and the characters that the generator draws are arguments.
pub mod Matching
pub mod Checksum
pub mod Plain
pub mod Valid
mod Tests
use Prim.Native.Char.{Char, code}
use civiclens.Prelude.{
  ℕ, zero, suc, ◌+◌, ◌*◌, ◌%◌, String, Bool, Option, none, some, List, [], ◌∷◌, ◌++◌, map, ◌==◌,
  if◌then◌else◌, is_some, value_or, length,
}

unfoldable pub chars : String → List Char
chars String.[] = []
chars (String.◌∷◌ c s) = c ∷ chars s

unfoldable pub of_chars : List Char → String
of_chars [] = String.[]
of_chars (c ∷ cs) = String.◌∷◌ c (of_chars cs)

-- `_ALPHABET`
unfoldable pub alphabet : List Char
unfolding chars
alphabet = chars "23456789ABCDEFGHJKMNPQRSTUVWXYZ"

abbrev same_char : Char → Char → Bool
same_char c d = code c == code d

abbrev pub shifted : Option ℕ → Option ℕ
shifted none = none
shifted (some i) = some (suc i)

-- `s.index(ch) if ch in s`
unfoldable pub index : Char → List Char → Option ℕ
index c [] = none
index c (d ∷ ds) = let rest = index c ds in if same_char c d then some 0 else shifted rest

abbrev pub in_alphabet : Char → Bool
in_alphabet c = is_some (index c alphabet)

unfoldable pub value : Char → ℕ
unfolding index alphabet
value c = value_or (code c) (index c alphabet)

-- The loop of `_check_char`, from the index `i` on
unfoldable pub weighted : ℕ → List Char → ℕ
unfolding value
weighted i [] = 0
weighted i (c ∷ cs) = (i + 1) * value c + weighted (i + 1) cs

-- `s[i]`, with `i` within the text
unfoldable pub char_at : ℕ → List Char → Char
char_at i [] = "Z"
char_at zero (c ∷ cs) = c
char_at (suc i) (c ∷ cs) = char_at i cs

unfoldable pub check_char : List Char → List Char → List Char → Char
unfolding weighted char_at alphabet
check_char prefix day body = char_at (weighted 0 (prefix ++ day ++ body) % length alphabet) alphabet

abbrev pub joined : List Char → List Char → List Char → Char → List Char
joined prefix day body check = prefix ++ ("-" ∷ (day ++ ("-" ∷ (body ++ (check ∷ [])))))

-- `generate_reference`; the generator draws the indices of the body's characters.
unfoldable pub generate_reference : List Char → List Char → List ℕ → String
unfolding of_chars char_at alphabet check_char
generate_reference prefix day draws =
    let body = map (λ i. char_at i alphabet) draws in
    of_chars (joined prefix day body (check_char prefix day body))
