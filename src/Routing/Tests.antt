-- ===== src/Routing/Tests.antt =====
-- Two rules that both match, and a suggestion that says otherwise.
use civiclens.Routing.{
  RoutingRule, Router, AiSuggestion, Classification, high, new, route, matches, sort_rules,
}
use civiclens.Routing.Decisions.{RoutedBy, route_by_least}
use civiclens.Prelude.{
  ℕ, String, ◌≡◌, refl, Bool, true, ◌||◌, Option, none, some, List, [], ◌∷◌, str_eq, ok,
}

abbrev plain : String → ℕ → String → RoutingRule
plain id priority department_code = record {
  id = id;
  priority = priority;
  department_code = department_code;
  service_code = none;
  categories = "water" ∷ [];
  keywords_any = [];
  wards = [];
  min_severity = none;
  active = true;
}

abbrev rules : List RoutingRule
rules = plain "r2" 20 "health" ∷ plain "r1" 10 "water" ∷ []

abbrev known : String → Bool
known d = str_eq d "water" || str_eq d "health"

abbrev router : Router
router = record {
  rules = rules;
  known_departments = known;
  min_ai_confidence = 50;
  sorted = plain "r1" 10 "water" ∷ plain "r2" 20 "health" ∷ [];
}

abbrev leak : Classification
leak = record { category = "water"; severity = high }

abbrev hint : Option AiSuggestion
hint = some (record { department_code = "health"; confidence = 90 })

router-new : new rules known 50 ≡ ok router
unfolding new sort_rules
router-new = refl

abbrev same : String → String
same s = s

route_by_least_example :
    RoutedBy
      (λ r. matches same r leak "pipe burst" none)
      rules
      hint
      router
      (route same router leak "pipe burst" none hint)
route_by_least_example =
    route_by_least same rules known 50 router leak "pipe burst" none hint router-new

routed : (route same router leak "pipe burst" none hint).department_code ≡ some "water"
unfolding route
routed = refl
