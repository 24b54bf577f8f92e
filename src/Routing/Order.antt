-- ===== src/Routing/Order.antt =====
-- The sorted rules: the same rules, by their priority.
use civiclens.Routing.{RoutingRule, key_leb, insert_rule, sort_rules}
use civiclens.Prelude.{
  ℕ, ◌≤◌, ◌≡◌, inl, inr, true, false, List, [], ◌∷◌, arith, ltb, ◌==◌, Bool-cases, All,
}

unfoldable pub Ordered : List RoutingRule → Type 0
Ordered [] = Unit
Ordered (r ∷ rs) = (All (λ s. r.priority ≤ s.priority) rs) × Ordered rs

key_leb-le : (r s : RoutingRule) → key_leb r s ≡ true → r.priority ≤ s.priority
key_leb-le r s h = elim (Bool-cases (ltb r.priority s.priority)) [
  | inl e ↦ ground arith
  | inr e ↦ elim (Bool-cases (r.priority == s.priority)) [
    | inl k ↦ ground arith
    | inr k ↦ ground arith
  ]
]

key_leb-ge : (r s : RoutingRule) → key_leb r s ≡ false → s.priority ≤ r.priority
key_leb-ge r s h = ground arith

module _ (P : RoutingRule → Type 0) where
  pub All-insert_rule :
      (r : RoutingRule) (ss : List RoutingRule) → P r → All P ss → All P (insert_rule r ss)
  unfolding insert_rule
  All-insert_rule r [] p h = (p, tt)
  All-insert_rule r (s ∷ ss) p h = elim (Bool-cases (key_leb r s)) [
    | inl e ↦ rw e (p, h)
    | inr e ↦ rw e (h.0, All-insert_rule r ss p h.1)
  ]

  pub insert_rule-All :
      (r : RoutingRule) (ss : List RoutingRule) → All P (insert_rule r ss) → P r × All P ss
  unfolding insert_rule
  insert_rule-All r [] h = (h.0, tt)
  insert_rule-All r (s ∷ ss) h = elim (Bool-cases (key_leb r s)) [
    | inl e ↦ let k : P r × (P s × All P ss) = rw e at h in k
    | inr e ↦
        let k : P s × All P (insert_rule r ss) = rw e at h in
        let (p, q) = insert_rule-All r ss k.1 in (p, (k.0, q))
  ]

  -- What holds of all sorted rules holds of all rules, and the other way round.
  pub sort_rules-All : (rs : List RoutingRule) → All P (sort_rules rs) → All P rs
  unfolding sort_rules
  sort_rules-All [] h = tt
  sort_rules-All (r ∷ rs) h =
      let (p, q) = insert_rule-All r (sort_rules rs) h in (p, sort_rules-All rs q)

  pub All-sort_rules : (rs : List RoutingRule) → All P rs → All P (sort_rules rs)
  unfolding sort_rules
  All-sort_rules [] h = tt
  All-sort_rules (r ∷ rs) h = All-insert_rule r (sort_rules rs) h.0 (All-sort_rules rs h.1)

All-le_trans :
    (a b : ℕ) (ss : List RoutingRule)
    → a ≤ b
    → All (λ s. b ≤ s.priority) ss
    → All (λ s. a ≤ s.priority) ss
All-le_trans a b [] h k = tt
All-le_trans a b (s ∷ ss) h k = (let m = k.0 in omega (arith, h, m), All-le_trans a b ss h k.1)

insert_rule-Ordered :
    (r : RoutingRule) (ss : List RoutingRule) → Ordered ss → Ordered (insert_rule r ss)
unfolding Ordered insert_rule
insert_rule-Ordered r [] h = (tt, tt)
insert_rule-Ordered r (s ∷ ss) h = elim (Bool-cases (key_leb r s)) [
  | inl e ↦
      rw e ((key_leb-le r s e, All-le_trans r.priority s.priority ss (key_leb-le r s e) h.0), h)
  | inr e ↦ rw e (
    All-insert_rule (λ x. s.priority ≤ x.priority) r ss (key_leb-ge r s e) h.0,
    insert_rule-Ordered r ss h.1,
  )
]

pub sort_rules-Ordered : (rs : List RoutingRule) → Ordered (sort_rules rs)
unfolding Ordered sort_rules
sort_rules-Ordered [] = tt
sort_rules-Ordered (r ∷ rs) = insert_rule-Ordered r (sort_rules rs) (sort_rules-Ordered rs)
