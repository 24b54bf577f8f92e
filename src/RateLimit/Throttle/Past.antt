-- ===== src/RateLimit/Throttle/Past.antt =====
-- A reference for the failure throttle of app/core/rate_limit.py: it keeps every failure of a key, and
-- looks back over the window when one is added.
use civiclens.RateLimit.Sliding.{RateLimited, tick, retry_after}
use civiclens.RateLimit.Throttle.{ThrottlePolicy, prune}
use civiclens.RateLimit.Throttle.Keys.{Call, checked, failed, succeeded, key_of}
use civiclens.Prelude.{
  ℕ, suc, ◌+◌, ◌-◌, ◌*◌, ◌/◌, ◌≤◌, String, ◌≡◌, refl, inl, inr, Bool, true, false, Option, none,
  some, List, [], ◌∷◌, ◌++◌, arith, ltb, leb, if◌then◌else◌, Bool-cases, length, filter, All,
  str_eq, Result, ok, err, All-append,
}

-- What the reference keeps of one key: all failures since the last success or expired lock-out, and
-- the end of the lock-out.
pub record History : Type 0 where
  pub past : List ℕ
  pub lock : Option ℕ

abbrev pub cleared : History
cleared = record { past = []; lock = none }

-- Whether a failure at `t` lies in the window that ends at `now`
abbrev pub is_recent : ThrottlePolicy → ℕ → ℕ → Bool
is_recent p now t = leb (now - t) (p.window_seconds * tick)

-- A failure locks the key when, with those of its window, there are `max_failures`.
abbrev pub lock_after : ThrottlePolicy → ℕ → History → Option ℕ
lock_after p now h =
    if leb p.max_failures (suc (length (filter (is_recent p now) h.past)))
    then some (now + p.lockout_seconds * tick)
    else h.lock

abbrev pub looked : Option ℕ → ℕ → History → History
looked none now h = h
looked (some until) now h = if ltb now until then h else cleared

abbrev pub happened : ThrottlePolicy → Call → History → History
happened p (failed k now) h = record { past = h.past ++ now ∷ []; lock = lock_after p now h }
happened p (checked k now) h = looked h.lock now h
happened p (succeeded k) h = cleared

-- Calls with other keys change nothing.
unfoldable pub happened_all : ThrottlePolicy → String → List Call → History → History
happened_all p key [] h = h
happened_all p key (c ∷ cs) h =
    happened_all p key cs (if str_eq (key_of c) key then happened p c h else h)

-- The answer of a check: refused until the lock-out ends, with the whole seconds left plus one
abbrev pub answer : Option ℕ → ℕ → Result RateLimited (Unit {0})
answer none now = ok tt
answer (some until) now =
    if ltb now until then err (retry_after ((until - now) / tick + 1)) else ok tt

-- The clock does not go back, from `last` on.
unfoldable pub InOrder : ℕ → List Call → Type 0
InOrder last [] = Unit
InOrder last (failed k now ∷ cs) = (last ≤ now) × InOrder now cs
InOrder last (checked k now ∷ cs) = (last ≤ now) × InOrder now cs
InOrder last (succeeded k ∷ cs) = InOrder last cs

unfoldable pub Rising : List ℕ → Type 0
Rising [] = Unit
Rising (t ∷ ts) = All (λ u. t ≤ u) ts × Rising ts

pub Rising-add :
    (ts : List ℕ) (now : ℕ) → Rising ts → All (λ u. u ≤ now) ts → Rising (ts ++ now ∷ [])
unfolding Rising
Rising-add [] now r a = (tt, tt)
Rising-add (t ∷ ts) now r a =
    (All-append (λ u. t ≤ u) ts (now ∷ []) r.0 (a.0, tt), Rising-add ts now r.1 a.1)

module _ (p : ThrottlePolicy) where
  all_recent :
      (now t : ℕ) (ts : List ℕ)
      → All (λ u. t ≤ u) ts
      → is_recent p now t ≡ true
      → filter (is_recent p now) ts ≡ ts
  all_recent now t [] a h = refl
  all_recent now t (u ∷ ts) a h =
      let l : t ≤ u = a.0 in
      let first : is_recent p now u ≡ true = ground arith in
      rw (first, all_recent now t ts a.1 h) refl

  -- Pruning what was recent leaves what is recent.
  pub prune-recent :
      (last now : ℕ) (ts : List ℕ)
      → last ≤ now
      → Rising ts
      → prune now (p.window_seconds * tick) (filter (is_recent p last) ts)
        ≡ filter (is_recent p now) ts
  unfolding prune Rising
  prune-recent last now [] l r = refl
  prune-recent last now (t ∷ ts) l r = elim (Bool-cases (is_recent p now t)) [
    | inl e ↦
        let before : is_recent p last t ≡ true = ground arith in
        let stays : ltb (p.window_seconds * tick) (now - t) ≡ false = ground arith in
        rw (e, before, stays, all_recent last t ts r.0 before, all_recent now t ts r.0 e) refl
    | inr e ↦
        let goes : ltb (p.window_seconds * tick) (now - t) ≡ true = ground arith in
        elim (Bool-cases (is_recent p last t)) [
          | inl b ↦ rw (e, b, goes) (prune-recent last now ts l r.1)
          | inr b ↦ rw (e, b) (prune-recent last now ts l r.1)
        ]
  ]
