-- ===== src/Routing/Decisions.antt =====
-- How a complaint is routed.
use civiclens.Routing.{
  RoutingRule, Router, new, sort_rules, route, build, Classification, AiSuggestion, matches,
  Decision, by_rule, by_ai,
}
use civiclens.Routing.Order.{Ordered, sort_rules-Ordered, sort_rules-All, All-sort_rules}
use civiclens.Prelude.{
  ℕ, ◌≤◌, String, ◌≡◌, refl, sym, ap, ◌∙◌, ◌⊎◌, inl, inr, Bool, true, false, not, ◌&&◌, Option,
  none, some, List, [], ◌∷◌, arith, leb, Bool-cases, Option-cases, filter, find?, All, ok, lower,
  Mem, All-Mem,
}

pub record IsBuilt (rules : List RoutingRule) (known : String → Bool) (router : Router)
    : Type 0 where
  sorted : router.sorted ≡ sort_rules rules
  departments : router.known_departments ≡ known
  all_known : All (λ r. known r.department_code ≡ true) rules

filter_empty :
    (known : String → Bool) (rules : List RoutingRule)
    → filter (λ r. not (known r.department_code)) rules ≡ []
    → All (λ r. known r.department_code ≡ true) rules
filter_empty known [] h = tt
filter_empty known (r ∷ rs) h = elim (Bool-cases (known r.department_code)) [
  | inl e ↦ (e, filter_empty known rs (rw e at h))
  | inr e ↦ absurd (let k = rw e at h in cc k)
]

build-IsBuilt :
    (bad rules : List RoutingRule) (known : String → Bool) (least : ℕ) (router : Router)
    → filter (λ r. not (known r.department_code)) rules ≡ bad
    → build bad rules known least ≡ ok router
    → IsBuilt rules known router
build-IsBuilt [] rules known least router e h =
    let same : record {
      rules = rules;
      known_departments = known;
      min_ai_confidence = least;
      sorted = sort_rules rules;
    }
        ≡ router =
      cc h in
    rw (sym same)
      (record { sorted = refl; departments = refl; all_known = filter_empty known rules e })
build-IsBuilt (r ∷ rs) rules known least router e h = absurd (cc h)

new-IsBuilt :
    (rules : List RoutingRule) (known : String → Bool) (least : ℕ) (router : Router)
    → new rules known least ≡ ok router
    → IsBuilt rules known router
unfolding new
new-IsBuilt rules known least router h =
    build-IsBuilt (filter (λ r. not (known r.department_code)) rules) rules known least router refl
      h

below :
    (p : RoutingRule → Bool) (n : ℕ) (ss : List RoutingRule)
    → All (λ x. n ≤ x.priority) ss
    → All (λ x. p x ≡ true → n ≤ x.priority) ss
below p n [] h = tt
below p n (s ∷ ss) h = ((λ _. h.0), below p n ss h.1)

-- The first rule of an ordered list that passes a test.
find-least :
    (p : RoutingRule → Bool) (rs : List RoutingRule)
    → Ordered rs
    → ((find? p rs ≡ none) × All (λ s. p s ≡ false) rs)
      ⊎ ((r : RoutingRule) × (find? p rs ≡ some r)
          × (p r ≡ true)
          × All (λ s. p s ≡ true → r.priority ≤ s.priority) rs)
unfolding Ordered
find-least p [] o = inl (refl, tt)
find-least p (s ∷ ss) o = elim (Bool-cases (p s)) [
  | inl e ↦ inr (s, (rw e), e, ((λ _. omega arith), below p s.priority ss o.0))
  | inr e ↦ elim (find-least p ss o.1) [
    | inl (n, none_pass) ↦ inl ((rw e n), (e, none_pass))
    | inr (r, f, passes, least) ↦
        inr (r, (rw e f), passes, ((λ k. absurd (let m = sym e ∙ k in cc m)), least))
  ]
]

find-All :
    (P : RoutingRule → Type 0) (p : RoutingRule → Bool) (rs : List RoutingRule) (r : RoutingRule)
    → All P rs
    → find? p rs ≡ some r
    → P r
find-All P p [] r h e = absurd (cc e)
find-All P p (s ∷ ss) r h e = elim (Bool-cases (p s)) [
  | inl k ↦ let m : some s ≡ some r = rw k at e in let same : s ≡ r = cc m in rw (sym same) h.0
  | inr k ↦ find-All P p ss r h.1 (rw k at e)
]

-- What routing does with the rules: it takes one of them that matches and has the least priority of
-- all that match, or none matches.
abbrev pub RoutedBy :
    (RoutingRule → Bool) → List RoutingRule → Option AiSuggestion → Router → Decision → Type 0
RoutedBy p rules ai router d =
    ((r : RoutingRule) × Mem r rules
      × (d ≡ by_rule r ai)
      × (p r ≡ true)
      × All (λ s. p s ≡ true → r.priority ≤ s.priority) rules)
    ⊎ (All (λ s. p s ≡ false) rules × (d ≡ by_ai router ai))

-- A router decides by one of its rules, one that matches and whose priority is the least of all the rules that match,
-- whatever the suggestion says, and falls back to the suggestion only when no rule matches.
pub route_by_least :
    (lower : String → String) (rules : List RoutingRule) (known : String → Bool) (least : ℕ)
    (router : Router) (cls : Classification) (text : String) (ward : Option String)
    (ai : Option AiSuggestion)
    → new rules known least ≡ ok router
    → RoutedBy
        (λ r. matches lower r cls text ward)
        rules
        ai
        router
        (route lower router cls text ward ai)
unfolding route
route_by_least lower rules known least router cls text ward ai h =
    let b = new-IsBuilt rules known least router h in
    let p : RoutingRule → Bool = λ r. matches lower r cls text ward in
    rw b.sorted (elim (find-least p (sort_rules rules) (sort_rules-Ordered rules)) [
      | inl (n, none_match) ↦ inr (sort_rules-All (λ s. p s ≡ false) rules none_match, (rw n))
      | inr (r, f, m, first) ↦ inl (
        r,
        find-All (λ s. Mem s rules) p (sort_rules rules) r
            (All-sort_rules (λ s. Mem s rules) rules (All-Mem rules)) f,
        (rw f),
        m,
        sort_rules-All (λ s. p s ≡ true → r.priority ≤ s.priority) rules first,
      )
    ])

by_ai-known :
    (router : Router) (ai : Option AiSuggestion) (d : String)
    → (by_ai router ai).department_code ≡ some d
    → router.known_departments d ≡ true
unfolding by_ai
by_ai-known router none d h = absurd (cc h)
by_ai-known router (some ai) d h =
    elim (Bool-cases
      (router.known_departments ai.department_code && leb router.min_ai_confidence ai.confidence)) [
        | inl e ↦
            let k : some ai.department_code ≡ some d = rw e at h in
            let same : ai.department_code ≡ d = cc k in rw (sym same) (ground arith)
        | inr e ↦ let k : none ≡ some d = rw e at h in absurd (cc k)
      ]

-- A complaint is only ever routed to a department that is known, by a rule or by a suggestion.
pub route_known :
    (lower : String → String) (rules : List RoutingRule) (known : String → Bool) (least : ℕ)
    (router : Router) (cls : Classification) (text : String) (ward : Option String)
    (ai : Option AiSuggestion) (d : String)
    → new rules known least ≡ ok router
    → (route lower router cls text ward ai).department_code ≡ some d
    → known d ≡ true
unfolding route
route_known lower rules known least router cls text ward ai d h e =
    let b = new-IsBuilt rules known least router h in
    let p : RoutingRule → Bool = λ r. matches lower r cls text ward in
    let all_known = All-sort_rules (λ r. known r.department_code ≡ true) rules b.all_known in
    elim (Option-cases (find? p router.sorted)) [
      | inl n ↦
          let k : (by_ai router ai).department_code ≡ some d = rw n at e in
          rw (sym b.departments) (by_ai-known router ai d k)
      | inr (r, f) ↦
          let k : some r.department_code ≡ some d = rw f at e in
          let same : r.department_code ≡ d = cc k in
          rw (sym same) (
            find-All (λ x. known x.department_code ≡ true) p (sort_rules rules) r all_known
              (ap (λ rs. find? p rs) (sym b.sorted) ∙ f))
    ]
