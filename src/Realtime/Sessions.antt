-- ===== src/Realtime/Sessions.antt =====
-- Which connections the end of a session closes.
use civiclens.Realtime.Manager.{
  Connection, Manager, disconnect, close_all, has_other_id, put, drop_session, sweep_from, sweep,
  in_session, is_stale,
}
use civiclens.Prelude.{
  ◌≡◌, refl, ap, inl, inr, Bool, false, not, List, [], ◌∷◌, Bool-cases, filter, All, str_eq, true,
  str_eq_comm, ◌∙◌, arith, String, ℕ, eq_iff, length, ◌+◌, suc,
}

-- No two connections have the same identifier.
unfoldable pub Distinct : List Connection → Type 0
Distinct [] = Unit
Distinct (c ∷ cs) = (All (λ d. str_eq d.id c.id ≡ false) cs) × Distinct cs

-- Removing some connections one by one.
remove_all : List Connection → List Connection → List Connection
remove_all [] cs = cs
remove_all (v ∷ vs) cs = remove_all vs (filter (has_other_id v.id) cs)

close_all-remove_all :
    (vs : List Connection) (m : Manager)
    → close_all vs m ≡ record m { conns = remove_all vs m.conns }
unfolding close_all remove_all
close_all-remove_all [] m = refl
close_all-remove_all (v ∷ vs) m = close_all-remove_all vs (disconnect v.id m)

filter_fresh :
    (v : Connection) (cs : List Connection)
    → All (λ d. str_eq d.id v.id ≡ false) cs
    → filter (has_other_id v.id) cs ≡ cs
filter_fresh v [] h = refl
filter_fresh v (c ∷ cs) h = rw h.0 (ap (λ x. c ∷ x) (filter_fresh v cs h.1))

-- A connection that none of the removed ones shares its identifier with stays.
remove_all_cons :
    (vs : List Connection) (c : Connection) (cs : List Connection)
    → All (λ v. str_eq c.id v.id ≡ false) vs
    → remove_all vs (c ∷ cs) ≡ c ∷ remove_all vs cs
unfolding remove_all
remove_all_cons [] c cs h = refl
remove_all_cons (v ∷ vs) c cs h = rw h.0 (remove_all_cons vs c (filter (has_other_id v.id) cs) h.1)

-- The connections of a list that pass a test have other identifiers than one before the list.
others-filter :
    (p : Connection → Bool) (c : Connection) (cs : List Connection)
    → All (λ d. str_eq d.id c.id ≡ false) cs
    → All (λ v. str_eq c.id v.id ≡ false) (filter p cs)
others-filter p c [] h = tt
others-filter p c (d ∷ ds) h = elim (Bool-cases (p d)) [
  | inl e ↦ rw e (str_eq_comm c.id d.id ∙ h.0, others-filter p c ds h.1)
  | inr e ↦ rw e (others-filter p c ds h.1)
]

-- Removing the connections that pass a test keeps exactly the others.
remove_filter :
    (p : Connection → Bool) (cs : List Connection)
    → Distinct cs
    → remove_all (filter p cs) cs ≡ filter (λ c. not (p c)) cs
unfolding remove_all Distinct
remove_filter p [] d = refl
remove_filter p (c ∷ cs) d = elim (Bool-cases (p c)) [
  | inl e ↦ rw e (
      let z : str_eq c.id c.id ≡ true = ground (arith, eq_iff c.id c.id) in
      rw (z, remove_all) (rw (filter_fresh c cs d.0) (remove_filter p cs d.1)))
  | inr e ↦ rw e (
      remove_all_cons (filter p cs) c cs (others-filter p c cs d.0)
      ∙ ap (λ x. c ∷ x) (remove_filter p cs d.1))
]

-- When a session ends, exactly its connections are closed, whoever opened them, and their number is
-- returned; every other connection stays, in order.
pub drop_session_closes :
    (hash : String) (m : Manager)
    → Distinct m.conns
    → drop_session hash m ≡ (
      length (filter (in_session hash) m.conns),
      record m { conns = filter (λ c. not (in_session hash c)) m.conns },
    )
unfolding drop_session
drop_session_closes hash m d =
    rw (close_all-remove_all (filter (in_session hash) m.conns) m)
      (rw (remove_filter (in_session hash) m.conns d))

sweep_from-close_all :
    (is_valid : String → Bool) (cs : List Connection) (dropped : ℕ) (m : Manager)
    → sweep_from is_valid cs (dropped, m) ≡ (
      dropped + length (filter (λ c. is_stale is_valid c.session_hash) cs),
      close_all (filter (λ c. is_stale is_valid c.session_hash) cs) m,
    )
unfolding sweep_from close_all
sweep_from-close_all is_valid [] dropped m = let z : dropped + 0 ≡ dropped = omega arith in rw z
sweep_from-close_all is_valid (c ∷ cs) dropped m =
    elim (Bool-cases (is_stale is_valid c.session_hash)) [
      | inl e ↦ rw e (
          sweep_from-close_all is_valid cs (dropped + 1) (disconnect c.id m)
          ∙ (let z : dropped + 1 + length (filter (λ c. is_stale is_valid c.session_hash) cs)
                  ≡ dropped + suc (length (filter (λ c. is_stale is_valid c.session_hash) cs)) =
                omega arith in
              rw z))
      | inr e ↦ rw e (sweep_from-close_all is_valid cs dropped m)
    ]

-- A sweep closes exactly the connections whose session is not valid any more and returns how many
-- they are; connections without a session stay.
pub sweep_closes :
    (is_valid : String → Bool) (m : Manager)
    → Distinct m.conns
    → sweep is_valid m ≡ (
      length (filter (λ c. is_stale is_valid c.session_hash) m.conns),
      record m { conns = filter (λ c. not (is_stale is_valid c.session_hash)) m.conns },
    )
unfolding sweep
sweep_closes is_valid m d = rw (sweep_from-close_all is_valid m.conns 0 m) (
    rw (close_all-remove_all (filter (λ c. is_stale is_valid c.session_hash) m.conns) m) (
      rw (remove_filter (λ c. is_stale is_valid c.session_hash) m.conns d) (
        let z : 0 + length (filter (λ c. is_stale is_valid c.session_hash) m.conns)
            ≡ length (filter (λ c. is_stale is_valid c.session_hash) m.conns) =
          omega arith in
        rw z)))

put-fresh :
    (c d : Connection) (cs : List Connection)
    → str_eq d.id c.id ≡ false
    → All (λ x. str_eq x.id d.id ≡ false) cs
    → All (λ x. str_eq x.id d.id ≡ false) (put c cs)
unfolding put
put-fresh c d [] h k = (str_eq_comm c.id d.id ∙ h, tt)
put-fresh c d (x ∷ xs) h k = elim (Bool-cases (str_eq x.id c.id)) [
  | inl e ↦ rw e (str_eq_comm c.id d.id ∙ h, k.1)
  | inr e ↦ rw e (k.0, put-fresh c d xs h k.1)
]

-- Connecting keeps the identifiers distinct.
pub put-Distinct : (c : Connection) (cs : List Connection) → Distinct cs → Distinct (put c cs)
unfolding put Distinct
put-Distinct c [] d = (tt, tt)
put-Distinct c (x ∷ xs) d = elim (Bool-cases (str_eq x.id c.id)) [
  | inl e ↦ let same : x.id ≡ c.id = ground (arith, eq_iff x.id c.id) in rw e (rw same at d.0, d.1)
  | inr e ↦ rw e (put-fresh c x xs e d.0, put-Distinct c xs d.1)
]
