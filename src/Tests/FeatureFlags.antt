-- ===== src/Tests/FeatureFlags.antt =====
-- Small configurations of features.
use aws_lambda_powertools_py.Common.{◌≡◌, refl, true, false, some, none, String, Option, List}
use aws_lambda_powertools_py.Common.Effect.{ok, raised}
use aws_lambda_powertools_py.Common.Json.{
  Json, null, bool, str, arr, obj, cons, nil, Fields, field, end, truthy,
}
use aws_lambda_powertools_py.FeatureFlags.Schema.{other, validate, rule_action}
use aws_lambda_powertools_py.FeatureFlags.Evaluation.{evaluate, get_enabled_features}
use aws_lambda_powertools_py.FeatureFlags.Evaluation.Total.{evaluate-validate}
use aws_lambda_powertools_py.FeatureFlags.Evaluation.Agreement.{
  listed, get_enabled_features-evaluate, get_enabled_features-empty_rules,
}

abbrev render : Json → String
render v = "?"

abbrev condition : Json
condition =
    obj
      (field "action" (str "EQUALS") (field "key" (str "tier") (field "value" (str "premium") end)))

abbrev rule : Json
rule = obj (field "when_match" (bool true) (field "conditions" (arr (cons condition nil)) end))

abbrev premium : Json
premium =
    obj (field "default" (bool false) (field "rules" (obj (field "tier is premium" rule end)) end))

abbrev features : Fields
features = field "premium" premium (field "plain" (obj (field "default" (bool true) end)) end)

abbrev context : Option Fields
context = some (field "tier" (str "premium") end)

valid : validate (obj features) ≡ ok tt
unfolding validate rule_action
valid = refl

evaluate-validate_example :
    (v : Json) × (evaluate render (ok (obj features)) "premium" context (bool false) ≡ ok v)
evaluate-validate_example =
    evaluate-validate render (obj features) "premium" context (bool false) valid

matches : evaluate render (ok (obj features)) "premium" context (bool false) ≡ ok (bool true)
unfolding evaluate validate
matches = refl

get_enabled_features-evaluate_example :
    (names : List String) × (get_enabled_features render (ok (obj features)) context ≡ ok names)
    × ((name : String) (v : Json)
        → evaluate render (ok (obj features)) name context (bool false) ≡ ok v
        → listed name names ≡ truthy v)
get_enabled_features-evaluate_example =
    get_enabled_features-evaluate render features context valid (tt, (tt, tt)) (refl, (refl, tt))

abbrev empty_rules : Fields
empty_rules = field "default" (bool false) (field "rules" null end)

valid_empty_rules : validate (obj (field "beta" (obj empty_rules) end)) ≡ ok tt
unfolding validate
valid_empty_rules = refl

get_enabled_features-empty_rules_example :
    (get_enabled_features render (ok (obj (field "beta" (obj empty_rules) end))) none
      ≡ raised (other "AttributeError"))
    × ((w : Json) × (evaluate render
            (ok (obj (field "beta" (obj empty_rules) end)))
            "beta"
            none
            (bool false)
          ≡ ok w))
get_enabled_features-empty_rules_example =
    get_enabled_features-empty_rules render none "beta" empty_rules end null valid_empty_rules refl
      refl (λ h. h) refl
