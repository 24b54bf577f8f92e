-- ===== src/Reference/Checksum.antt =====
-- The check character of app/services/reference.py: arithmetic modulo the prime 31.
use Prim.Native.Char.{Char, code}
use civiclens.Reference.{index, alphabet, char_at, weighted, value, check_char, in_alphabet}
use native.Mathlib.Nat.{mul-add}
use mathlib.Core.List.{append_assoc}
use civiclens.Prelude.{
  ℕ, zero, suc, ◌+◌, ◌-◌, ◌*◌, ◌%◌, ◌<◌, ◌≡◌, refl, sym, ap, ◌≢◌, inl, inr, Bool, true, false, not,
  ◌&&◌, ◌||◌, Option, none, some, List, [], ◌∷◌, arith, ltb, ◌==◌, Bool-cases, length,
  some_injective, Option-cases, ◌++◌, ◌∙◌, length-append,
}

unfoldable pub all_below : ℕ → (ℕ → Bool) → Bool
all_below zero p = true
all_below (suc n) p = p n && all_below n p

pub all_below-at : (n : ℕ) (p : ℕ → Bool) → all_below n p ≡ true → (i : ℕ) → i < n → p i ≡ true
unfolding all_below
all_below-at zero p h i l = absurd (omega arith)
all_below-at (suc n) p h i l = elim (Bool-cases (i == n)) [
  | inl e ↦ let same : i ≡ n = ground arith in rw same (ground arith)
  | inr e ↦ all_below-at n p (ground arith) i (ground arith)
]

abbrev option_eq : Option ℕ → ℕ → Bool
option_eq none i = false
option_eq (some j) i = j == i

option_eq-some : (o : Option ℕ) (i : ℕ) → option_eq o i ≡ true → o ≡ some i
option_eq-some none i h = absurd (cc h)
option_eq-some (some j) i h = ap some (ground arith)

pub index-char_at : (i : ℕ) → i < 31 → index (char_at i alphabet) alphabet ≡ some i
unfolding index char_at all_below alphabet
index-char_at i l =
    option_eq-some _ i
      (all_below-at 31 (λ j. option_eq (index (char_at j alphabet) alphabet) j) refl i l)

abbrev nonzero : ℕ → ℕ → Bool
nonzero w d = w == 0 || d == 0 || not (w * d % 31 == 0)

is_nonzero : (w d m : ℕ) → (w == 0 || d == 0 || not (m == 0)) ≡ true → 0 < w → 0 < d → m ≢ 0
is_nonzero w d m h w0 d0 e =
    let a : w == 0 ≡ false = ground arith in
    let b : d == 0 ≡ false = ground arith in absurd (cc (rw (a, b, e) at h))

prime : (w d : ℕ) → 0 < w → w < 31 → 0 < d → d < 31 → w * d % 31 ≢ 0
unfolding all_below
prime w d w0 wl d0 dl =
    let row : all_below 31 (nonzero w) ≡ true =
      all_below-at 31 (λ v. all_below 31 (nonzero v)) refl w wl in
    is_nonzero w d (w * d % 31) (all_below-at 31 (nonzero w) row d dl) w0 d0

cancel_ordered :
    (s w x y : ℕ) → 0 < w → w < 31 → x < y → y < 31 → (s + w * x) % 31 ≢ (s + w * y) % 31
cancel_ordered s w x y w0 wl xy yl e =
    let d : ℕ = y - x in
    let n : w * d % 31 ≢ 0 = prime w d w0 wl (omega arith) (omega arith) in
    let split : x + d ≡ y = omega arith in
    let r : w * y ≡ w * x + w * d = ap (λ z. w * z) (sym split) ∙ mul-add w x d in n (omega arith)

cancel :
    (s w x y : ℕ) → 0 < w → w < 31 → x < 31 → y < 31 → (s + w * x) % 31 ≡ (s + w * y) % 31 → x ≡ y
cancel s w x y w0 wl xl yl e = elim (Bool-cases (ltb x y)) [
  | inl l ↦ absurd (cancel_ordered s w x y w0 wl (ground arith) yl e)
  | inr l ↦ elim (Bool-cases (ltb y x)) [
    | inl m ↦ absurd (cancel_ordered s w y x w0 wl (ground arith) xl (sym e))
    | inr m ↦ ground arith
  ]
]

pub index-bound : (c : Char) (ds : List Char) {i : ℕ} → index c ds ≡ some i → i < length ds
unfolding index
index-bound c [] h = absurd (cc h)
index-bound c (d ∷ ds) {i} h = elim (Bool-cases (code c == code d)) [
  | inl e ↦ let k : 0 ≡ i = some_injective (rw e at h) in omega arith
  | inr e ↦ elim (Option-cases (index c ds)) [
    | inl n ↦ absurd (cc (rw (e, n) at h))
    | inr s ↦
        let k : suc s.0 ≡ i = some_injective (rw (e, s.1) at h) in
        omega (arith, index-bound c ds s.1)
  ]
]

-- The index is that of a character with the same code.
pub index-code :
    (c : Char) (ds : List Char) {i : ℕ} → index c ds ≡ some i → code c ≡ code (char_at i ds)
unfolding index char_at
index-code c [] h = absurd (cc h)
index-code c (d ∷ ds) {i} h = elim (Bool-cases (code c == code d)) [
  | inl e ↦
      let k : 0 ≡ i = some_injective (rw e at h) in
      let same : code c ≡ code d = ground arith in rw (sym k) same
  | inr e ↦ elim (Option-cases (index c ds)) [
    | inl n ↦ absurd (cc (rw (e, n) at h))
    | inr s ↦
        let k : suc s.0 ≡ i = some_injective (rw (e, s.1) at h) in rw (sym k) (index-code c ds s.1)
  ]
]

index-same : (c d : Char) (ds : List Char) → code c ≡ code d → index c ds ≡ index d ds
unfolding index
index-same c d [] e = refl
index-same c d (x ∷ ds) e = rw (e, index-same c d ds e)

weighted-split :
    (i : ℕ) (u v : List Char) (c : Char)
    → weighted i (u ++ c ∷ v)
      ≡ weighted i u + weighted (i + length u + 1) v + (i + length u + 1) * value c
unfolding weighted
weighted-split i [] v c = let here : i + 0 + 1 ≡ i + 1 = omega arith in rw here (omega arith)
weighted-split i (x ∷ u) v c =
    let later : i + suc (length u) + 1 ≡ i + 1 + length u + 1 = omega arith in
    rw (weighted-split (i + 1) u v c, later) (omega arith)

value-index : (c : Char) {i : ℕ} → index c alphabet ≡ some i → value c ≡ i
unfolding value
value-index c h = rw h refl

pub check_char-index :
    (prefix day body : List Char)
    → index (check_char prefix day body) alphabet ≡ some (weighted 0 (prefix ++ day ++ body) % 31)
unfolding check_char
check_char-index prefix day body =
    index-char_at (weighted 0 (prefix ++ day ++ body) % 31) (omega arith)

-- The weights of the text modulo 31 can be read off the check character.
check_char-weighted :
    (prefix day b b' : List Char)
    → code (check_char prefix day b) ≡ code (check_char prefix day b')
    → weighted 0 (prefix ++ day ++ b) % 31 ≡ weighted 0 (prefix ++ day ++ b') % 31
check_char-weighted prefix day b b' e = some_injective (
    sym (check_char-index prefix day b)
    ∙ index-same _ _ alphabet e
    ∙ check_char-index prefix day b')

module _ (t v : List Char) (c d : Char) {i j : ℕ} (ci : index c alphabet ≡ some i)
    (dj : index d alphabet ≡ some j) where
  weighted-cancel :
      length t < 30 → weighted 0 (t ++ c ∷ v) % 31 ≡ weighted 0 (t ++ d ∷ v) % 31 → code c ≡ code d
  unfolding alphabet
  weighted-cancel l e =
      let x : value c ≡ i = value-index c ci in
      let y : value d ≡ j = value-index d dj in
      let same : i ≡ j =
        cancel (weighted 0 t + weighted (0 + length t + 1) v) (0 + length t + 1) i j (omega arith)
          (omega arith) (index-bound c alphabet ci) (index-bound d alphabet dj)
          (rw (weighted-split 0 t v c, weighted-split 0 t v d, x, y) at e) in
      index-code c alphabet ci
      ∙ ap (λ k. code (char_at k alphabet)) same
      ∙ sym (index-code d alphabet dj)

pub alphabet-index : (c : Char) → in_alphabet c ≡ true → (i : ℕ) × (index c alphabet ≡ some i)
alphabet-index c h = elim (Option-cases (index c alphabet)) [
  | inl n ↦ absurd (cc (rw n at h))
  | inr s ↦ s
]

-- A single wrong character of the body changes the check character.
pub check_char-detects :
    (prefix day u v : List Char) (c d : Char)
    → in_alphabet c ≡ true
    → in_alphabet d ≡ true
    → code c ≢ code d
    → length prefix + length day + length u < 30
    → code (check_char prefix day (u ++ c ∷ v)) ≢ code (check_char prefix day (u ++ d ∷ v))
check_char-detects prefix day u v c d ca da n l e =
    let x = alphabet-index c ca in
    let y = alphabet-index d da in
    let t : List Char = prefix ++ day ++ u in
    let long : length t ≡ length prefix + length day + length u =
      rw (length-append (prefix ++ day) u, length-append prefix day) refl in
    n (
      weighted-cancel t v c d x.1 y.1 (omega arith) (
        rw (append_assoc (prefix ++ day) u (c ∷ v), append_assoc (prefix ++ day) u (d ∷ v))
          (check_char-weighted prefix day (u ++ c ∷ v) (u ++ d ∷ v) e)))
