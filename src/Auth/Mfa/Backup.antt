-- ===== src/Auth/Mfa/Backup.antt =====
-- Backup codes in `MFAService.verify_login` of app/services/mfa_service.py: each works once.
use civiclens.Auth.Mfa.Replay.{
  Advances, stepped, spent, Attempt, failed, proved, verify_login-Attempt,
}
use civiclens.Auth.Mfa.Replay.Steps.{verify_all, Advances-own, update_same}
use civiclens.Auth.Mfa.{MfaSetup, MfaRecord, MfaState, MfaError, is_code}
use civiclens.Auth.Mfa.Service.{remove_first, entered, verify_login}
use civiclens.Prelude.{
  ℕ, suc, String, ◌≡◌, refl, sym, ap, ◌∙◌, ◌≢◌, inl, inr, Bool, true, false, Option, some, List, [],
  ◌∷◌, arith, if◌then◌else◌, Bool-cases, any, str_eq, Result, ok, some_injective,
}

-- How often a digest stands in the list.
unfoldable pub occurrences : String → List String → ℕ
occurrences x [] = 0
occurrences x (y ∷ ys) = let rest = occurrences x ys in if str_eq x y then suc rest else rest

absent : (x : String) (ys : List String) → occurrences x ys ≡ 0 → any (str_eq x) ys ≡ false
unfolding occurrences
absent x [] h = refl
absent x (y ∷ ys) h = elim (Bool-cases (str_eq x y)) [
  | inl e ↦ absurd (cc (rw e at h))
  | inr e ↦ rw e (absent x ys (rw e at h))
]

remove_first-absent :
    (x : String) (ys : List String)
    → occurrences x ys ≡ 1
    → any (str_eq x) (remove_first x ys) ≡ false
unfolding occurrences remove_first
remove_first-absent x [] h = absurd (cc h)
remove_first-absent x (y ∷ ys) h = elim (Bool-cases (str_eq x y)) [
  | inl e ↦ rw e (absent x ys (let k = rw e at h in omega (arith, k)))
  | inr e ↦ rw e (rw e (remove_first-absent x ys (rw e at h)))
]

remove_first-stays :
    (x z : String) (ys : List String)
    → any (str_eq x) ys ≡ false
    → any (str_eq x) (remove_first z ys) ≡ false
unfolding remove_first
remove_first-stays x z [] h = refl
remove_first-stays x z (y ∷ ys) h = elim (Bool-cases (str_eq x y)) [
  | inl e ↦ absurd (cc (rw e at h))
  | inr e ↦ elim (Bool-cases (str_eq z y)) [
    | inl f ↦ rw f (rw e at h)
    | inr f ↦ rw f (rw e (remove_first-stays x z ys (rw e at h)))
  ]
]

-- The row of a user, without the digest.
pub record Gone (user_id digest : String) (rows : String → Option MfaRecord) : Type 0 where
  pub row : MfaRecord
  pub found : rows user_id ≡ some row
  pub own : row.user_id ≡ user_id
  pub missing : any (str_eq digest) row.backup_code_hashes ≡ false

Advances-missing :
    {setup : MfaSetup} {s : String} {r r' : MfaRecord} (x : String)
    → Advances setup s r r'
    → any (str_eq x) r.backup_code_hashes ≡ false
    → any (str_eq x) r'.backup_code_hashes ≡ false
Advances-missing x (stepped step secret c t l e) m =
    ap (λ y. any (str_eq x) y.backup_code_hashes) e ∙ m
Advances-missing {r = r} x (spent c a e) m =
    ap (λ y. any (str_eq x) y.backup_code_hashes) e ∙ remove_first-stays x _ r.backup_code_hashes m

Attempt-Gone :
    {setup : MfaSetup} {user_id s : String} {st : MfaState} {out : Result MfaError Bool × MfaState}
    (x : String)
    → Attempt setup user_id s st out
    → Gone user_id x st.rows
    → Gone user_id x out.1.rows
Attempt-Gone x (failed e n) u = rw e u
Attempt-Gone {user_id = user_id} {st = st} x (proved r r' f on a good e) u =
    let same : u.row ≡ r = some_injective (sym u.found ∙ f) in
    let mine : r'.user_id ≡ user_id = Advances-own a ∙ ap (λ y. y.user_id) (sym same) ∙ u.own in
    rw e (record {
      row = r';
      found = update_same st.rows r'.user_id user_id r' mine;
      own = mine;
      missing =
          Advances-missing x a
            (ap (λ y. any (str_eq x) y.backup_code_hashes) (sym same) ∙ u.missing);
    })

verify_all-Gone :
    (setup : MfaSetup) (user_id x : String) (rest : List (ℕ × ℕ × String)) (st : MfaState)
    → Gone user_id x st.rows
    → Gone user_id x (verify_all setup user_id rest st).rows
unfolding verify_all
verify_all-Gone setup user_id x [] st u = u
verify_all-Gone setup user_id x ((now, mono, s) ∷ rest) st u =
    verify_all-Gone setup user_id x rest _
      (Attempt-Gone x (verify_login-Attempt setup now mono user_id s st) u)

-- A code that is no code by time is refused where its digest is missing.
Gone-refused :
    {setup : MfaSetup} {user_id s : String} {st : MfaState} {out : Result MfaError Bool × MfaState}
    → is_code setup (entered s) ≡ false
    → Gone user_id (setup.digest (entered s)) st.rows
    → Attempt setup user_id s st out
    → out.0 ≢ ok true
Gone-refused c u (failed e n) = n
Gone-refused c u (proved r r' f on (stepped step secret x t l e) good w) = absurd (cc (sym c ∙ x))
Gone-refused {setup = setup} {s = s} c u (proved r r' f on (spent x m e) good w) =
    let same : u.row ≡ r = some_injective (sym u.found ∙ f) in
    let lost =
      ap (λ y. any (str_eq (setup.digest (entered s))) y.backup_code_hashes) (sym same)
      ∙ u.missing in
    absurd (cc (sym m ∙ lost))

-- A successful attempt with a backup code takes its digest away.
spent-Gone :
    {setup : MfaSetup} {user_id s : String} {st : MfaState} {out : Result MfaError Bool × MfaState}
    (row : MfaRecord)
    → is_code setup (entered s) ≡ false
    → st.rows user_id ≡ some row
    → row.user_id ≡ user_id
    → occurrences (setup.digest (entered s)) row.backup_code_hashes ≡ 1
    → out.0 ≡ ok true
    → Attempt setup user_id s st out
    → Gone user_id (setup.digest (entered s)) out.1.rows
spent-Gone row c g own once good (failed e n) = absurd (n good)
spent-Gone row c g own once good (proved r r' f on (stepped step secret x t l e) k w) =
    absurd (cc (sym c ∙ x))
spent-Gone {setup = setup} {user_id = user_id} {s = s} {st = st} row c g own once good
      (proved r r' f on (spent x m e) k w) =
    let same : row ≡ r = some_injective (sym g ∙ f) in
    let digest = setup.digest (entered s) in
    let mine : r'.user_id ≡ user_id =
      ap (λ y. y.user_id) e ∙ ap (λ y. y.user_id) (sym same) ∙ own in
    let single = ap (λ y. occurrences digest y.backup_code_hashes) (sym same) ∙ once in
    rw w (record {
      row = r';
      found = update_same st.rows r'.user_id user_id r' mine;
      own = mine;
      missing =
          ap (λ y. any (str_eq digest) y.backup_code_hashes) e
          ∙ remove_first-absent digest r.backup_code_hashes single;
    })

-- A backup code whose digest is stored once is accepted once: after it was accepted, and after any
-- further attempts of the user, it is not accepted again.
pub backup_once :
    (setup : MfaSetup) (user_id s : String) (now mono now' mono' : ℕ) (rest : List (ℕ × ℕ × String))
    (st : MfaState) (row : MfaRecord)
    → is_code setup (entered s) ≡ false
    → st.rows user_id ≡ some row
    → row.user_id ≡ user_id
    → occurrences (setup.digest (entered s)) row.backup_code_hashes ≡ 1
    → (verify_login setup now mono user_id s st).0 ≡ ok true
    → (verify_login setup now' mono' user_id s
        (verify_all setup user_id rest (verify_login setup now mono user_id s st).1)).0
      ≢ ok true
backup_once setup user_id s now mono now' mono' rest st row c f own once good =
    let first = verify_login-Attempt setup now mono user_id s st in
    let gone = spent-Gone row c f own once good first in
    Gone-refused c (verify_all-Gone setup user_id (setup.digest (entered s)) rest _ gone)
      (verify_login-Attempt setup now' mono' user_id s _)
