-- ===== src/Routing.antt =====
-- `DepartmentRouter` of app/services/routing_service.py. A frozen set of departments is its test of
-- membership, one of categories or wards a list. A suggestion's confidence is counted in a unit in
-- which all of them are whole; priorities are not negative. The explanations are not modelled. `lower` stands for `str.lower`, and every
-- statement holds for any function in its place.
pub mod Order
pub mod Decisions
mod Tests
use Prim.Native.Nat.{Ordering}
use Prim.Native.String.{compare}
use civiclens.Prelude.{
  ℕ, String, Bool, true, false, not, ◌&&◌, ◌||◌, Option, none, some, List, [], ◌∷◌, map, ltb, leb,
  ◌==◌, if◌then◌else◌, is_some, any, filter, find?, str_eq, Result, ok, err,
}

-- `SEVERITIES`, with `SEVERITIES.index`.
pub data Severity : Type 0 where
  low medium high critical : Severity

abbrev severity_index : Severity → ℕ
severity_index low = 0
severity_index medium = 1
severity_index high = 2
severity_index critical = 3

-- What routing reads of a `ClassificationResult`.
pub record Classification : Type 0 where
  pub category : String
  pub severity : Severity

pub record RoutingRule : Type 0 where
  pub id : String
  pub priority : ℕ
  pub department_code : String
  pub service_code : Option String
  pub categories : List String
  pub keywords_any : List String
  pub wards : List String
  pub min_severity : Option Severity
  pub active : Bool

pub record AiSuggestion : Type 0 where
  pub department_code : String
  pub confidence : ℕ

pub data Source : Type 0 where
  rule ai_fallback unrouted : Source

-- The confidence 1.0 of a rule, or that of a suggestion.
pub data Confidence : Type 0 where
  full : Confidence
  given : ℕ → Confidence

-- `ai_disagreement`: the department and the confidence that were overruled.
pub record Decision : Type 0 where
  pub department_code : Option String
  pub service_code : Option String
  pub source : Source
  pub rule_id : Option String
  pub confidence : Option Confidence
  pub ai_disagreement : Option (String × ℕ)
  pub needs_manual_triage : Bool

abbrev member : String → List String → Bool
member x xs = any (λ y. str_eq y x) xs

abbrev is_nil : List String → Bool
is_nil [] = true
is_nil (_ ∷ _) = false

starts_with : String → String → Bool
starts_with String.[] t = true
starts_with (String.◌∷◌ c s) String.[] = false
starts_with (String.◌∷◌ c s) (String.◌∷◌ d t) =
    str_eq (String.◌∷◌ c String.[]) (String.◌∷◌ d String.[]) && starts_with s t

-- `k in t`
contains : String → String → Bool
unfolding starts_with
contains k String.[] = starts_with k String.[]
contains k (String.◌∷◌ c t) = starts_with k (String.◌∷◌ c t) || contains k t

abbrev ward_passes : List String → Option String → Bool
ward_passes wards none = is_nil wards
ward_passes wards (some ward) = is_nil wards || member ward wards

abbrev severity_passes : Option Severity → Severity → Bool
severity_passes none severity = true
severity_passes (some least) severity = leb (severity_index least) (severity_index severity)

-- `RoutingRule.matches`
unfoldable pub matches :
    (String → String) → RoutingRule → Classification → String → Option String → Bool
unfolding contains
matches lower r cls text ward =
    r.active
    && (is_nil r.categories || member cls.category r.categories)
    && ward_passes r.wards ward
    && severity_passes r.min_severity cls.severity
    && (is_nil r.keywords_any || any (λ k. contains (lower k) (lower text)) r.keywords_any)
    && (not (is_nil r.categories)
        || not (is_nil r.wards)
        || is_some r.min_severity
        || not (is_nil r.keywords_any))

abbrev pub text_leb : String → String → Bool
text_leb a b = elim (compare a b) [ Ordering.gt ↦ false | _ ↦ true ]

-- The order of the keys `(r.priority, r.id)`.
abbrev pub key_leb : RoutingRule → RoutingRule → Bool
key_leb r s = ltb r.priority s.priority || (r.priority == s.priority && text_leb r.id s.id)

unfoldable pub insert_rule : RoutingRule → List RoutingRule → List RoutingRule
insert_rule r [] = r ∷ []
insert_rule r (s ∷ ss) = let rest = insert_rule r ss in if key_leb r s then r ∷ s ∷ ss else s ∷ rest

-- `sorted(self.rules, key=lambda r: (r.priority, r.id))`
unfoldable pub sort_rules : List RoutingRule → List RoutingRule
unfolding insert_rule
sort_rules [] = []
sort_rules (r ∷ rs) = insert_rule r (sort_rules rs)

pub record Router : Type 0 where
  pub rules : List RoutingRule
  pub known_departments : String → Bool
  pub min_ai_confidence : ℕ
  pub sorted : List RoutingRule

-- The `ValueError` of `__post_init__`, with the rules that it names.
pub data BadRouter : Type 0 where
  unknown_departments : List String → BadRouter

abbrev pub build :
    List RoutingRule → List RoutingRule → (String → Bool) → ℕ → Result BadRouter Router
build [] rules known least = ok (record {
  rules = rules;
  known_departments = known;
  min_ai_confidence = least;
  sorted = sort_rules rules;
})
build (r ∷ rs) rules known least = err (unknown_departments (map (λ x. x.id) (r ∷ rs)))

unfoldable pub new : List RoutingRule → (String → Bool) → ℕ → Result BadRouter Router
unfolding sort_rules
new rules known least = build (filter (λ r. not (known r.department_code)) rules) rules known least

abbrev disagreement : Option AiSuggestion → RoutingRule → Option (String × ℕ)
disagreement none r = none
disagreement (some ai) r =
    if str_eq ai.department_code r.department_code
    then none
    else some (ai.department_code, ai.confidence)

abbrev pub by_rule : RoutingRule → Option AiSuggestion → Decision
by_rule r ai = record {
  department_code = some r.department_code;
  service_code = r.service_code;
  source = rule;
  rule_id = some r.id;
  confidence = some full;
  ai_disagreement = disagreement ai r;
  needs_manual_triage = false;
}

abbrev pub for_triage : Decision
for_triage = record {
  department_code = none;
  service_code = none;
  source = unrouted;
  rule_id = none;
  confidence = none;
  ai_disagreement = none;
  needs_manual_triage = true;
}

-- What `route` returns when no rule matches.
unfoldable pub by_ai : Router → Option AiSuggestion → Decision
by_ai router none = for_triage
by_ai router (some ai) =
    if router.known_departments ai.department_code && leb router.min_ai_confidence ai.confidence
    then record {
      department_code = some ai.department_code;
      service_code = none;
      source = ai_fallback;
      rule_id = none;
      confidence = some (given ai.confidence);
      ai_disagreement = none;
      needs_manual_triage = false;
    }
    else for_triage

unfoldable pub decide : Router → Option RoutingRule → Option AiSuggestion → Decision
unfolding by_ai
decide router none ai = by_ai router ai
decide router (some r) ai = by_rule r ai

unfoldable pub route :
    (String → String)
    → Router
    → Classification
    → String
    → Option String
    → Option AiSuggestion
    → Decision
unfolding decide matches
route lower router cls text ward ai =
    decide router (find? (λ r. matches lower r cls text ward) router.sorted) ai
