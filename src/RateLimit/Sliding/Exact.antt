-- ===== src/RateLimit/Sliding/Exact.antt =====
-- The limiter answers as the one that keeps every call ever let through and counts those of the
-- last window.
use civiclens.Prelude.{
  ℕ, suc, ◌+◌, ◌-◌, ◌≤◌, ◌<◌, String, ◌≡◌, refl, Bool, ◌&&◌, List, [], ◌∷◌, ◌++◌, ltb, leb, length,
  str_eq, if◌then◌else◌, arith, All, Bool-cases, inl, inr, false, ap, sym, eq_iff, true, ◌∙◌, ok,
  ◌*◌,
}
use civiclens.RateLimit.Sliding.{Limiter, window, prune, hit, run, update, new, tick}

-- The number of the calls with that key less than `w` ticks before `now`.
unfoldable pub recent : String → ℕ → ℕ → List (String × ℕ) → ℕ
recent key now w [] = 0
recent key now w ((k, t) ∷ past) =
    let rest = recent key now w past in if str_eq k key && ltb now (t + w) then suc rest else rest

-- The reference: a call passes when fewer than `limit` calls with its key passed in the last window.
unfoldable pub reference : ℕ → ℕ → List (String × ℕ) → List (String × ℕ) → List Bool
reference limit w past [] = []
reference limit w past ((key, now) ∷ calls) =
    let pass = ltb (recent key now w past) limit in
    pass ∷ reference limit w (if pass then past ++ (key, now) ∷ [] else past) calls

-- The clock never goes back.
abbrev pub IsMonotone : ℕ → List (String × ℕ) → Type 0
IsMonotone t [] = Unit
IsMonotone t ((key, now) ∷ calls) = (t ≤ now) × IsMonotone now calls

-- The times of a key's calls, oldest first.
times : String → List (String × ℕ) → List ℕ
times key [] = []
times key ((k, t) ∷ past) = let rest = times key past in if str_eq k key then t ∷ rest else rest

count_live : ℕ → ℕ → List ℕ → ℕ
count_live now w [] = 0
count_live now w (t ∷ ts) =
    let rest = count_live now w ts in if ltb now (t + w) then suc rest else rest

recent-eq-count_live :
    (key : String) (now w : ℕ) (past : List (String × ℕ))
    → recent key now w past ≡ count_live now w (times key past)
unfolding recent count_live times
recent-eq-count_live key now w [] = refl
recent-eq-count_live key now w ((k, t) ∷ past) = ground (arith, recent-eq-count_live key now w past)

abbrev IsFrom : ℕ → List ℕ → Type 0
IsFrom t q = All (λ u. t ≤ u) q

-- Times up to `now`, oldest first.
abbrev IsAscending : ℕ → List ℕ → Type 0
IsAscending now [] = Unit
IsAscending now (t ∷ q) = (t ≤ now) × IsFrom t q × IsAscending now q

-- `q` is what is left of `ts` when some calls that have left the window are dropped from its front.
data Tracks (now w : ℕ) : List ℕ → List ℕ → Type 0 where
  same : (q : List ℕ) → IsAscending now q → Tracks now w q q
  dropped : (t : ℕ) (ts q : List ℕ) → t + w ≤ now → Tracks now w ts q → Tracks now w (t ∷ ts) q

IsAscending-mono :
    (now later : ℕ) (q : List ℕ) → now ≤ later → IsAscending now q → IsAscending later q
IsAscending-mono now later [] h a = tt
IsAscending-mono now later (t ∷ q) h a = (omega arith, a.1, IsAscending-mono now later q h a.2)

Tracks-mono :
    (now later w : ℕ) {ts q : List ℕ} → now ≤ later → Tracks now w ts q → Tracks later w ts q
Tracks-mono now later w h (same q a) = same q (IsAscending-mono now later q h a)
Tracks-mono now later w h (dropped t ts q old tr) =
    dropped t ts q (omega arith) (Tracks-mono now later w h tr)

prune-same : (now w : ℕ) (q : List ℕ) → IsAscending now q → Tracks now w q (prune now w q)
unfolding prune
prune-same now w [] a = same [] tt
prune-same now w (t ∷ q) a = elim (Bool-cases (leb w (now - t))) [
  | inl old ↦ rw old (dropped t q (prune now w q) (ground arith) (prune-same now w q a.2))
  | inr live ↦ rw live (same (t ∷ q) a)
]

Tracks-prune : (now w : ℕ) {ts q : List ℕ} → Tracks now w ts q → Tracks now w ts (prune now w q)
Tracks-prune now w (same q a) = prune-same now w q a
Tracks-prune now w (dropped t ts q old tr) =
    dropped t ts (prune now w q) old (Tracks-prune now w tr)

IsFrom-append : (t now : ℕ) (q : List ℕ) → t ≤ now → IsFrom t q → IsFrom t (q ++ now ∷ [])
IsFrom-append t now [] h a = (h, tt)
IsFrom-append t now (u ∷ q) h a = (a.0, IsFrom-append t now q h a.1)

IsAscending-append : (now : ℕ) (q : List ℕ) → IsAscending now q → IsAscending now (q ++ now ∷ [])
IsAscending-append now [] a = (omega arith, tt, tt)
IsAscending-append now (t ∷ q) a =
    (a.0, IsFrom-append t now q a.0 a.1, IsAscending-append now q a.2)

Tracks-append :
    (now w : ℕ) {ts q : List ℕ} → Tracks now w ts q → Tracks now w (ts ++ now ∷ []) (q ++ now ∷ [])
Tracks-append now w (same q a) = same (q ++ now ∷ []) (IsAscending-append now q a)
Tracks-append now w (dropped t ts q old tr) =
    dropped t (ts ++ now ∷ []) (q ++ now ∷ []) old (Tracks-append now w tr)

count_live-all :
    (now w t : ℕ) (q : List ℕ) → now < t + w → IsFrom t q → count_live now w q ≡ length q
unfolding count_live
count_live-all now w t [] h a = refl
count_live-all now w t (u ∷ q) h a = ground (arith, count_live-all now w t q h a.1)

count_live-prune :
    (now w : ℕ) (q : List ℕ) → IsAscending now q → count_live now w q ≡ length (prune now w q)
unfolding count_live prune
count_live-prune now w [] a = refl
count_live-prune now w (t ∷ q) a =
    ground
      (arith, count_live-prune now w q a.2, λ (h : now < t + w). count_live-all now w t q h a.1)

Tracks-count_live :
    (now w : ℕ) {ts q : List ℕ} → Tracks now w ts q → count_live now w ts ≡ length (prune now w q)
unfolding count_live
Tracks-count_live now w (same q a) = count_live-prune now w q a
Tracks-count_live now w (dropped t ts q old tr) = ground (arith, Tracks-count_live now w tr)

str_eq_comm : (a b : String) → str_eq a b ≡ str_eq b a
str_eq_comm a b = ground (arith, eq_iff a b, eq_iff b a)

times-append :
    (key k : String) (now : ℕ) (past : List (String × ℕ))
    → times key (past ++ (k, now) ∷ [])
      ≡ (if str_eq k key then times key past ++ now ∷ [] else times key past)
unfolding times
times-append key k now [] = ground arith
times-append key k now ((j, t) ∷ past) = ground (arith, times-append key k now past)

-- Every deque is what the limiter needs of the past.
abbrev IsKept : ℕ → List (String × ℕ) → Limiter → Type 0
IsKept now past l = (key : String) → Tracks now (window l) (times key past) (l.hits key)

module _ (l : Limiter) (past : List (String × ℕ)) (t now : ℕ) (key : String)
    (kept : IsKept t past l) (h : t ≤ now) where
  kept_later : (j : String) → Tracks now (window l) (times j past) (l.hits j)
  kept_later j = Tracks-mono t now (window l) h (kept j)

  length-prune : length (prune now (window l) (l.hits key)) ≡ recent key now (window l) past
  length-prune = sym (
      recent-eq-count_live key now (window l) past
      ∙ Tracks-count_live now (window l) (kept_later key))

  hit_refused-IsKept :
      IsKept now past (record l { hits = update l.hits key (prune now (window l) (l.hits key)) })
  hit_refused-IsKept j = elim (Bool-cases (str_eq j key)) [
    | inl e ↦ rw e (rw ((eq_iff j key).0 e) (Tracks-prune now (window l) (kept_later key)))
    | inr e ↦ rw e (kept_later j)
  ]

  hit_passed-IsKept :
      IsKept now
        (past ++ (key, now) ∷ [])
        (record l { hits = update l.hits key (prune now (window l) (l.hits key) ++ now ∷ []) })
  hit_passed-IsKept j = elim (Bool-cases (str_eq j key)) [
    | inl e ↦
        rw (times-append, str_eq_comm key j, e)
          (rw ((eq_iff j key).0 e)
            (Tracks-append now (window l) (Tracks-prune now (window l) (kept_later key))))
    | inr e ↦ rw (times-append, str_eq_comm key j, e) (kept_later j)
  ]

full_refuses : (n limit : ℕ) → leb limit n ≡ true → ltb n limit ≡ false
full_refuses n limit h = ground arith

room_passes : (n limit : ℕ) → leb limit n ≡ false → ltb n limit ≡ true
room_passes n limit h = ground arith

run-eq-reference :
    (l : Limiter) (past : List (String × ℕ)) (t : ℕ) (calls : List (String × ℕ))
    → IsKept t past l
    → IsMonotone t calls
    → run l calls ≡ reference l.limit (window l) past calls
unfolding run reference hit
run-eq-reference l past t [] kept h = refl
run-eq-reference l past t ((key, now) ∷ calls) kept (later, h) =
    elim (Bool-cases (leb l.limit (recent key now (window l) past))) [
      | inl full ↦
          rw
            (
              length-prune l past t now key kept later,
              full,
              full_refuses (recent key now (window l) past) l.limit full,
            )
            (ap (λ bs. false ∷ bs)
              (run-eq-reference
                (record l { hits = update l.hits key (prune now (window l) (l.hits key)) }) past now
                calls (hit_refused-IsKept l past t now key kept later) h))
      | inr room ↦
          rw
            (
              length-prune l past t now key kept later,
              room,
              room_passes (recent key now (window l) past) l.limit room,
            )
            (ap (λ bs. true ∷ bs)
              (run-eq-reference
                (record l {
                  hits = update l.hits key (prune now (window l) (l.hits key) ++ now ∷ []);
                })
                (past ++ (key, now) ∷ []) now calls (hit_passed-IsKept l past t now key kept later)
                h))
    ]

new-ok :
    (limit window_seconds : ℕ) {l : Limiter}
    → new limit window_seconds ≡ ok l
    → record { limit = limit; window_seconds = window_seconds; hits = λ _. [] } ≡ l
unfolding new
new-ok limit window_seconds made = ground arith

-- A new limiter lets a call through exactly when, of the calls with its key that were let through,
-- fewer than the limit lie less than a window back; this holds of every sequence of calls, with any
-- keys, whose times do not go back.
pub run-new_is_exact :
    (limit window_seconds : ℕ) {l : Limiter} (calls : List (String × ℕ))
    → new limit window_seconds ≡ ok l
    → IsMonotone 0 calls
    → run l calls ≡ reference limit (window_seconds * tick) [] calls
run-new_is_exact limit window_seconds calls made h = rw (← new-ok limit window_seconds made) (
    run-eq-reference (record { limit = limit; window_seconds = window_seconds; hits = λ _. [] }) []
      0 calls (unfold times in λ key. same [] tt) h)
