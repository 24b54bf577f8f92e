-- ===== src/RateLimit/Throttle/Follows.antt =====
-- What the failure throttle of app/core/rate_limit.py keeps of a key, through every call.
use civiclens.RateLimit.Throttle.Past.{
  Rising, InOrder, cleared, History, happened, looked, is_recent, prune-recent, Rising-add,
}
use civiclens.RateLimit.Sliding.{update, tick}
use civiclens.RateLimit.Throttle.{
  ThrottlePolicy, Throttle, prune, record_success, record_failure, check, check_lock,
}
use civiclens.RateLimit.Throttle.Keys.{Call, checked, failed, succeeded, key_of, IsSameAt, perform}
use civiclens.Prelude.{
  ℕ, suc, ◌+◌, ◌*◌, ◌≤◌, String, ◌≡◌, refl, sym, ap, ◌∙◌, inl, inr, Bool, true, false, Option, none,
  some, List, [], ◌∷◌, ◌++◌, arith, eq_iff, ltb, leb, if◌then◌else◌, Bool-cases, length, filter,
  All, length-append, All-append, filter-append, All-map,
}

-- The throttle knows of the key what the reference keeps, without the failures that are too old.
pub record Follows (p : ThrottlePolicy) (key : String) (s : Throttle) (last : ℕ) (h : History)
    : Type 0 where
  policy_same : s.policy ≡ p
  pub lock_same : s.locked_until key ≡ h.lock
  seen : ℕ
  seen_before : seen ≤ last
  kept : s.failures key ≡ filter (is_recent p seen) h.past
  rising : Rising h.past
  bounded : All (λ t. t ≤ seen) h.past

update_same : {V : Type 0} (f : String → V) (k : String) (v : V) → update f k v k ≡ v
update_same f k v = rw ((eq_iff k k).1 refl) refl

lock_update :
    (b : Bool) (f : String → Option ℕ) (k : String) (v : Option ℕ) {o : Option ℕ}
    → f k ≡ o
    → (if b then update f k v else f) k ≡ (if b then v else o)
lock_update true f k v h = update_same f k v
lock_update false f k v h = h

-- The time that the clock shows after a call
abbrev pub time_after : ℕ → Call → ℕ
time_after last (failed k now) = now
time_after last (checked k now) = now
time_after last (succeeded k) = last

module _ (p : ThrottlePolicy) (key : String) where
  cleared-Follows :
      (s : Throttle) (last : ℕ)
      → s.policy ≡ p
      → s.locked_until key ≡ none
      → s.failures key ≡ []
      → Follows p key s last cleared
  unfolding Rising
  cleared-Follows s last e l f = record {
    policy_same = e;
    lock_same = l;
    seen = 0;
    seen_before = omega arith;
    kept = f;
    rising = tt;
    bounded = tt;
  }

  pub success-Follows :
      (s : Throttle) (last : ℕ) → s.policy ≡ p → Follows p key (record_success s key) last cleared
  unfolding record_success
  success-Follows s last e =
      cleared-Follows (record_success s key) last e (update_same s.locked_until key none)
        (update_same s.failures key [])

  queue_same :
      (s : Throttle) (last now : ℕ) (h : History)
      → last ≤ now
      → Follows p key s last h
      → prune now (s.policy.window_seconds * tick) (s.failures key) ++ now ∷ []
        ≡ filter (is_recent p now) h.past ++ now ∷ []
  queue_same s last now h l f =
      rw (f.policy_same, f.kept)
        (ap (λ q. q ++ now ∷ [])
          (prune-recent p f.seen now h.past (omega (arith, f.seen_before)) f.rising))

  failure-Follows :
      (s : Throttle) (last now : ℕ) (h : History)
      → last ≤ now
      → Follows p key s last h
      → Follows p key (record_failure s key now) now (happened p (failed key now) h)
  unfolding record_failure
  failure-Follows s last now h l f =
      let queue : List ℕ =
        prune now (s.policy.window_seconds * tick) (s.failures key) ++ now ∷ [] in
      let q = queue_same s last now h l f in
      let self : is_recent p now now ≡ true = ground arith in
      let grown : length (filter (is_recent p now) h.past ++ now ∷ [])
          ≡ suc (length (filter (is_recent p now) h.past)) =
        length-append (filter (is_recent p now) h.past) (now ∷ []) ∙ omega arith in
      record {
        policy_same = f.policy_same;
        lock_same =
            lock_update (leb s.policy.max_failures (length queue)) s.locked_until key
              (some (now + s.policy.lockout_seconds * tick)) f.lock_same
            ∙ ap
                (λ n.
                  if leb s.policy.max_failures n
                  then some (now + s.policy.lockout_seconds * tick)
                  else h.lock)
                (ap length q ∙ grown)
            ∙ ap
                (λ r.
                  if leb r.max_failures (suc (length (filter (is_recent p now) h.past)))
                  then some (now + r.lockout_seconds * tick)
                  else h.lock)
                f.policy_same;
        seen = now;
        seen_before = omega arith;
        kept =
            update_same s.failures key _
            ∙ q
            ∙ sym (filter-append (is_recent p now) h.past (now ∷ []) ∙ rw self refl);
        rising = Rising-add h.past now f.rising (
            All-map (λ t. t ≤ f.seen) (λ t. t ≤ now) (λ t b. omega (arith, b, f.seen_before)) h.past
              f.bounded);
        bounded =
            All-append (λ t. t ≤ now) h.past (now ∷ [])
              (All-map (λ t. t ≤ f.seen) (λ t. t ≤ now) (λ t b. omega (arith, b, f.seen_before))
                h.past f.bounded)
              (omega arith, tt);
      }

  pub later :
      (s : Throttle) (last now : ℕ) (h : History)
      → last ≤ now
      → Follows p key s last h
      → Follows p key s now h
  later s last now h l f = record {
    policy_same = f.policy_same;
    lock_same = f.lock_same;
    seen = f.seen;
    seen_before = omega (arith, l, f.seen_before);
    kept = f.kept;
    rising = f.rising;
    bounded = f.bounded;
  }

  Follows-history :
      {s : Throttle} {last : ℕ} {h h' : History}
      → h ≡ h'
      → Follows p key s last h
      → Follows p key s last h'
  Follows-history e f = rw⁻¹ e f

  Follows-throttle :
      {s s' : Throttle} {last : ℕ} {h : History}
      → s ≡ s'
      → Follows p key s last h
      → Follows p key s' last h
  Follows-throttle e f = rw⁻¹ e f

  check_lock-Follows :
      (o : Option ℕ) (s : Throttle) (now : ℕ) (h : History)
      → Follows p key s now h
      → Follows p key (check_lock o s key now).1 now (looked o now h)
  unfolding check_lock
  check_lock-Follows none s now h f = f
  check_lock-Follows (some until) s now h f = elim (Bool-cases (ltb now until)) [
    | inl b ↦ rw b f
    | inr b ↦ rw b (
        cleared-Follows _ now f.policy_same (update_same s.locked_until key none)
          (update_same s.failures key []))
  ]

  check-Follows :
      (s : Throttle) (now : ℕ) (h : History)
      → Follows p key s now h
      → Follows p key (check s key now).1 now (looked h.lock now h)
  unfolding check
  check-Follows s now h f =
      Follows-history (ap (λ o. looked o now h) f.lock_same)
        (check_lock-Follows (s.locked_until key) s now h f)

  pub same-Follows :
      (s t : Throttle) (last : ℕ) (h : History)
      → IsSameAt key s t
      → Follows p key s last h
      → Follows p key t last h
  same-Follows s t last h e f = record {
    policy_same = e.policy ∙ f.policy_same;
    lock_same = e.locked ∙ f.lock_same;
    seen = f.seen;
    seen_before = f.seen_before;
    kept = e.failures ∙ f.kept;
    rising = f.rising;
    bounded = f.bounded;
  }

  pub own-Follows :
      (s : Throttle) (last : ℕ) (c : Call) (cs : List Call) (h : History)
      → key_of c ≡ key
      → InOrder last (c ∷ cs)
      → Follows p key s last h
      → Follows p key (perform s c) (time_after last c) (happened p c h)
  unfolding perform InOrder
  own-Follows s last (failed k now) cs h e o f =
      Follows-throttle (ap (λ x. record_failure s x now) (sym e))
        (failure-Follows s last now h o.0 f)
  own-Follows s last (checked k now) cs h e o f =
      Follows-throttle (ap (λ x. (check s x now).1) (sym e))
        (check-Follows s now h (later s last now h o.0 f))
  own-Follows s last (succeeded k) cs h e o f =
      Follows-throttle (ap (λ x. record_success s x) (sym e)) (success-Follows s last f.policy_same)
