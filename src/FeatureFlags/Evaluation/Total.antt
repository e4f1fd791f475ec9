-- ===== src/FeatureFlags/Evaluation/Total.antt =====
-- A configuration that passes the validators is evaluated without an exception.
use mathlib.Core.Path.{subst}
use aws_lambda_powertools_py.Common.Eq.{◌==◌, string_eq}
use aws_lambda_powertools_py.Common.{
  String, Bool, true, false, ◌≡◌, refl, inl, inr, Option, none, some, if◌then◌else◌, Bool-cases,
  arith,
}
use aws_lambda_powertools_py.Common.Effect.{Result, ok, raised}
use aws_lambda_powertools_py.Common.Json.{
  Json, null, bool, arr, obj, Items, nil, cons, Fields, end, field, find, truthy,
}
use aws_lambda_powertools_py.FeatureFlags.Schema.{
  Error, Check, ◌>>◌, rules_key, feature_default_val_key, conditions_key,
  feature_default_val_type_key, get_or, get, validate_each_condition, validate_conditions,
  validate_rule, validate_each_rule, validate_rules, validate_feature, validate_features, validate,
}
use aws_lambda_powertools_py.FeatureFlags.Evaluation.{
  as_list, ◌>>=◌, holds, all_conditions, evaluate_conditions, evaluate_each_rule, evaluate_rules,
  evaluate_feature, evaluate_found, given, evaluate,
}

abbrev pub Returns : {A : Type 0} → Result Error A → Type 0
Returns {A} r = (a : A) × (r ≡ ok a)

pub passes : (c d : Check) → (c >> d) ≡ ok tt → (c ≡ ok tt) × (d ≡ ok tt)
passes (ok u) d h = (refl, h)
passes (raised e) d h = cc

if_Returns :
    {A : Type 0} (b : Bool) (r s : Result Error A)
    → Returns r
    → Returns s
    → Returns (if b then r else s)
if_Returns true r s h k = h
if_Returns false r s h k = k

module _ (render : Json → String) (context : Fields) where
  all_conditions-Returns :
      (cs : Items) → validate_each_condition cs ≡ ok tt → Returns (all_conditions render context cs)
  unfolding validate_each_condition all_conditions
  all_conditions-Returns nil h = (true, refl)
  all_conditions-Returns (cons (obj fs) cs) h =
      let (_, hs) = passes _ (validate_each_condition cs) h in
      if_Returns (holds render context fs) _ _ (all_conditions-Returns cs hs) (false, refl)
  all_conditions-Returns (cons v cs) h = cc

  conditions-Returns :
      (o : Option Json)
      → validate_conditions (elim o [ none ↦ obj end | some v ↦ v ]) ≡ ok tt
      → Returns (
          let conditions : Json = elim o [ none ↦ null | some v ↦ v ] in
          if truthy conditions
          then as_list conditions >>= all_conditions render context
          else ok false)
  unfolding validate_conditions
  conditions-Returns none h = cc
  conditions-Returns (some (arr (cons c cs))) h = all_conditions-Returns (cons c cs) h
  conditions-Returns (some (arr nil)) h = cc
  conditions-Returns (some v) h = cc

  evaluate_conditions-Returns :
      (fs : Fields)
      → validate_conditions (get_or conditions_key (obj end) fs) ≡ ok tt
      → Returns (evaluate_conditions render fs context)
  unfolding evaluate_conditions
  evaluate_conditions-Returns fs h = conditions-Returns (find conditions_key fs) h

  evaluate_each_rule-Returns :
      (rules : Fields) (d kind : Json)
      → validate_each_rule rules kind ≡ ok tt
      → Returns (evaluate_each_rule render context d rules kind)
  unfolding validate_each_rule validate_rule evaluate_each_rule
  evaluate_each_rule-Returns end d kind h = (d, refl)
  evaluate_each_rule-Returns (field name (obj (field k v fs)) rules) d kind h =
      let (here, later) = passes _ (validate_each_rule rules kind) h in
      let (_, conditions) = passes _ _ here in
      let (hit, e) = evaluate_conditions-Returns (field k v fs) conditions in
      rw e (if_Returns hit _ _ (_, refl) (evaluate_each_rule-Returns rules d kind later))
  evaluate_each_rule-Returns (field name (obj end) rules) d kind h = cc
  evaluate_each_rule-Returns (field name rule rules) d kind h = cc

  evaluate_rules-Returns :
      (rules d kind : Json)
      → truthy rules ≡ true
      → validate_rules rules kind ≡ ok tt
      → Returns (evaluate_rules render context d rules kind)
  unfolding validate_rules evaluate_rules
  evaluate_rules-Returns (obj (field k v fs)) d kind t h =
      evaluate_each_rule-Returns (field k v fs) d kind h
  evaluate_rules-Returns (obj end) d kind t h = cc
  evaluate_rules-Returns v d kind t h = ground arith

  pub evaluate_feature-Returns :
      (fs : Fields)
      → validate_feature (obj fs) ≡ ok tt
      → Returns (evaluate_feature render context fs)
  unfolding validate_feature evaluate_feature
  evaluate_feature-Returns end h = cc
  evaluate_feature-Returns (field k v fs) h =
      let feature = field k v fs in
      let kind = get_or feature_default_val_type_key (bool true) feature in
      let default = get feature_default_val_key feature in
      let (_, valid) = passes _ (validate_rules (get rules_key feature) kind) h in
      elim (Bool-cases (truthy (get rules_key feature))) [
        | inl e ↦ rw e (evaluate_rules-Returns (get rules_key feature) default kind e valid)
        | inr e ↦ rw e (_, refl)
      ]

-- each feature of a valid configuration is a valid feature
valid_feature :
    (name : String) (features : Fields) (feature : Json)
    → validate_features features ≡ ok tt
    → find name features ≡ some feature
    → validate_feature feature ≡ ok tt
unfolding validate_features
valid_feature name end feature h found = cc
valid_feature name (field k v fs) feature h found =
    let (here, later) = passes (validate_feature v) (validate_features fs) h in
    elim (Bool-cases (k == name)) [
      | inl e ↦
          let held : some v ≡ some feature = rw e at found in
          let same : v ≡ feature = cc in subst (λ f. validate_feature f ≡ ok tt) same here
      | inr e ↦ valid_feature name fs feature later (rw e at found)
    ]

found-Returns :
    (render : Json → String) (context : Fields) (default : Json) (o : Option Json)
    → ((f : Json) → o ≡ some f → validate_feature f ≡ ok tt)
    → Returns (evaluate_found render context default (elim o [ none ↦ null | some v ↦ v ]))
unfolding validate_feature
found-Returns render context default none valid = (default, refl)
found-Returns render context default (some null) valid = (default, refl)
found-Returns render context default (some (obj fs)) valid =
    evaluate_feature-Returns render context fs (valid (obj fs) refl)
found-Returns render context default (some v) valid = cc (valid v refl)

-- A configuration that the validators accept is evaluated, for every name, context and default,
-- without an exception: `evaluate` returns a value.
pub evaluate-validate :
    (render : Json → String) (config : Json) (name : String) (context : Option Fields)
    (default : Json)
    → validate config ≡ ok tt
    → (v : Json) × (evaluate render (ok config) name context default ≡ ok v)
unfolding validate evaluate
evaluate-validate render (obj features) name context default h =
    let valid : validate_features features ≡ ok tt = h in
    rw valid (
      found-Returns render (given render context) default (find name features)
        (λ f e. valid_feature name features f valid e))
evaluate-validate render v name context default h = cc
