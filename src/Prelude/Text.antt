-- ===== src/Prelude/Text.antt =====
-- Texts. The program's strings are native strings; `str.strip` and `str.lower` are written out.
-- `strip` removes what `str.isspace` accepts. `lower` changes the ASCII capitals alone: the program
-- compares its result with lower-case ASCII words only.
use Prim.Native.Nat.{ℕ, ◌+◌, ◌-◌, ◌<◌, compare, Ordering}
use Prim.Native.Char.{Char, char, code, IsScalar}
use Prim.Native.String.{String}
use mathlib.Core.Path.{◌≡◌, refl}
use mathlib.Core.Bool.{Bool, true, false, not, ◌&&◌, ◌||◌}
use mathlib.Core.Logic.{dite, dif_neg, inl, inr}
use native.Mathlib.Decide.{dec_lt}
use mathlib.Core.Option.{Option, none, some}
use native.Mathlib.Omega.{arith}
use text.Mathlib.Text.{◌==◌}
use text.Mathlib.TextEquality.{eq_iff}
use civiclens.Prelude.Tests.{Bool-cases, leb, if◌then◌else◌, ◌==◌ as nat_eq}

abbrev pub str_eq : String → String → Bool
str_eq a b = a == b

-- `a == b` on texts that may be `None`
abbrev pub opt_eq : Option String → Option String → Bool
opt_eq none none = true
opt_eq (some a) (some b) = str_eq a b
opt_eq _ _ = false

pub opt_eq→eq : (a b : Option String) → opt_eq a b ≡ true → a ≡ b
opt_eq→eq none none h = refl
opt_eq→eq (some a) (some b) h = ground (arith, eq_iff a b)
opt_eq→eq none (some b) h = cc
opt_eq→eq (some a) none h = cc

pub str_ne : (a b : String) → str_eq a b ≡ false → (a ≡ b) → ⊥
str_ne a b h e = ground (arith, eq_iff a b)

pub str_eq_comm : (a b : String) → str_eq a b ≡ str_eq b a
str_eq_comm a b = elim (Bool-cases (str_eq a b)) [
  | inl e ↦ ground (arith, eq_iff a b, eq_iff b a)
  | inr e ↦ ground (arith, eq_iff a b, eq_iff b a)
]

-- `not s`
abbrev pub is_empty : String → Bool
is_empty String.[] = true
is_empty (String.◌∷◌ c s) = false

unfoldable pub is_space : ℕ → Bool
is_space c =
    (leb 9 c && leb c 13)
    || (leb 28 c && leb c 32)
    || nat_eq c 133
    || nat_eq c 160
    || nat_eq c 5760
    || (leb 8192 c && leb c 8202)
    || nat_eq c 8232
    || nat_eq c 8233
    || nat_eq c 8239
    || nat_eq c 8287
    || nat_eq c 12288

unfoldable pub lstrip : String → String
unfolding is_space
lstrip String.[] = String.[]
lstrip (String.◌∷◌ c s) = let rest = lstrip s in if is_space (code c) then rest else String.◌∷◌ c s

unfoldable pub rstrip : String → String
unfolding is_space
rstrip String.[] = String.[]
rstrip (String.◌∷◌ c s) =
    let rest = rstrip s in
    if is_empty rest && is_space (code c) then String.[] else String.◌∷◌ c rest

unfoldable pub strip : String → String
unfolding lstrip rstrip
strip s = rstrip (lstrip s)

-- `bool(s and s.strip())`, for a text that may be `None`
unfoldable pub has_text : Option String → Bool
unfolding strip
has_text none = false
has_text (some s) = not (is_empty (strip s))

-- `(s or "").strip() or None`
unfoldable pub strip_or_none : Option String → Option String
unfolding strip
strip_or_none none = none
strip_or_none (some s) = if is_empty (strip s) then none else some (strip s)

-- A text is kept exactly when it has something besides white space.
pub strip_or_none-has_text :
    (s : Option String) → has_text s ≡ true → (t : String) × (strip_or_none s ≡ some t)
unfolding has_text strip_or_none
strip_or_none-has_text none h = absurd (ground arith)
strip_or_none-has_text (some s) h = (strip s, ground arith)

ascii-IsScalar : (n : ℕ) → n < 128 → IsScalar n
ascii-IsScalar n h = let e : compare n 55296 ≡ Ordering.lt = ground arith in rw e tt

unfoldable pub lower_char : Char → Char
unfolding ascii-IsScalar dec_lt
lower_char c =
    dite (dec_lt 64 (code c))
      (λ _.
        dite (dec_lt (code c) 91)
          (λ h. char (code c + 32) (ascii-IsScalar (code c + 32) (omega arith))) (λ _. c))
      (λ _. c)

-- `s.lower()`
unfoldable pub lower : String → String
unfolding lower_char
lower String.[] = String.[]
lower (String.◌∷◌ c s) = String.◌∷◌ (lower_char c) (lower s)

upper_char-IsScalar : (n : ℕ) → n < 123 → IsScalar (n - 32)
upper_char-IsScalar n h = let e : compare (n - 32) 55296 ≡ Ordering.lt = ground arith in rw e tt

unfoldable pub upper_char : Char → Char
unfolding upper_char-IsScalar dec_lt
upper_char c =
    dite (dec_lt 96 (code c))
      (λ _.
        dite (dec_lt (code c) 123) (λ h. char (code c - 32) (upper_char-IsScalar (code c) h))
          (λ _. c))
      (λ _. c)

pub upper_char-same : (c : Char) → code c < 97 → upper_char c ≡ c
unfolding upper_char
upper_char-same c h = dif_neg (dec_lt 96 (code c)) (λ l. omega arith) _ _

lower_example : lower "RTI" ≡ "rti"
unfolding lower
lower_example = refl

strip_example : strip " ok, go\t " ≡ "ok, go"
unfolding strip
strip_example = refl

pub str_differs : (a b : String) → ((a ≡ b) → ⊥) → str_eq a b ≡ false
str_differs a b n = elim (Bool-cases (str_eq a b)) [
  | inl e ↦ absurd (n ((eq_iff a b).0 e))
  | inr e ↦ e
]
