-- ===== src/FeatureFlags/Evaluation.antt =====
-- feature_flags/feature_flags.py: `FeatureFlags`. The store's answer and the context are arguments;
-- `render` is Python's `str` on what is not a text.
pub mod Total
pub mod Agreement
use aws_lambda_powertools_py.Common.{
  String, Bool, true, false, not, ◌&&◌, Option, none, some, List, [], ◌∷◌, if◌then◌else◌,
}
use aws_lambda_powertools_py.Common.Effect.{Result, ok, raised}
use aws_lambda_powertools_py.Common.Json.{
  Json, null, bool, num, str, arr, obj, Items, nil, cons, Fields, end, field, find, truthy,
}
use aws_lambda_powertools_py.FeatureFlags.Operators
use aws_lambda_powertools_py.FeatureFlags.Operators.{py_eq, less, member, negated}
use aws_lambda_powertools_py.FeatureFlags.Schema.{
  Error, configuration_store_error, other, Check, RuleAction, equals, not_equals,
  key_greater_than_value, key_greater_than_or_equal_value, key_less_than_value,
  key_less_than_or_equal_value, startswith, endswith, in_, not_in, key_in_value, key_not_in_value,
  value_in_key, value_not_in_key, rule_action, rules_key, feature_default_val_key, conditions_key,
  rule_match_value, condition_key, condition_value, condition_action, feature_default_val_type_key,
  get_or, get, validate,
}

-- `mapping_by_action`, at the context's value and the condition's value
unfoldable pub apply_action : RuleAction → Json → Json → Option Bool
unfolding py_eq less member Operators.startswith Operators.endswith
apply_action equals a b = some (py_eq a b)
apply_action not_equals a b = some (not (py_eq a b))
apply_action key_greater_than_value a b = less b a
apply_action key_greater_than_or_equal_value a b = negated (less a b)
apply_action key_less_than_value a b = less a b
apply_action key_less_than_or_equal_value a b = negated (less b a)
apply_action startswith a b = Operators.startswith a b
apply_action endswith a b = Operators.endswith a b
apply_action in_ a b = member a b
apply_action not_in a b = negated (member a b)
apply_action key_in_value a b = member a b
apply_action key_not_in_value a b = negated (member a b)
apply_action value_in_key a b = member b a
apply_action value_not_in_key a b = negated (member b a)

abbrev pub named_action : Json → Option RuleAction
named_action (str s) = rule_action s
named_action _ = none

-- an exception of the comparison, or an unknown action, is no match
abbrev pub or_false : Option Bool → Bool
or_false none = false
or_false (some b) = b

unfoldable pub match_by_action : Json → Json → Json → Bool
unfolding apply_action rule_action
match_by_action action condition context =
    if truthy context
    then (elim (named_action action) [
      | none ↦ false
      | some a ↦ or_false (apply_action a context condition)
    ])
    else false

-- Code that may raise, with no state.
infixl 5 ◌>>=◌
abbrev pub ◌>>=◌ : {A B : Type 0} → Result Error A → (A → Result Error B) → Result Error B
ok a >>= f = f a
raised e >>= f = raised e

-- v.items(), v.get(...), for what should be a dict
abbrev pub as_dict : Json → Result Error Fields
as_dict (obj fs) = ok fs
as_dict v = raised (other "AttributeError")

-- `for ... in v`, for what should be a list of conditions and is truthy: the items of a list, or the
-- texts that a dict or a text yields, on which `.get` is an AttributeError at once
abbrev pub as_list : Json → Result Error Items
as_list (arr vs) = ok vs
as_list (num n) = raised (other "TypeError")
as_list (bool b) = raised (other "TypeError")
as_list v = raised (other "AttributeError")

module _ (render : Json → String) where
  -- str(v)
  abbrev text : Json → String
  text (str s) = s
  text v = render v

  abbrev holds : Fields → Fields → Bool
  holds context condition =
      match_by_action (get_or condition_action (str "") condition) (get condition_value condition)
        (get (text (get condition_key condition)) context)

  unfoldable pub all_conditions : Fields → Items → Result Error Bool
  unfolding match_by_action
  all_conditions context nil = ok true
  all_conditions context (cons c cs) =
      let rest = all_conditions context cs in
      as_dict c >>= λ condition. if holds context condition then rest else ok false

  unfoldable pub evaluate_conditions : Fields → Fields → Result Error Bool
  unfolding all_conditions
  evaluate_conditions rule context =
      let conditions = get conditions_key rule in
      if truthy conditions then as_list conditions >>= all_conditions context else ok false

  abbrev matched : Json → Fields → Json
  matched boolean_feature rule =
      if truthy boolean_feature
      then bool (truthy (get rule_match_value rule))
      else get rule_match_value rule

  unfoldable pub evaluate_each_rule : Fields → Json → Fields → Json → Result Error Json
  unfolding evaluate_conditions
  evaluate_each_rule context feat_default end boolean_feature = ok feat_default
  evaluate_each_rule context feat_default (field name rule rules) boolean_feature =
      let rest = evaluate_each_rule context feat_default rules boolean_feature in
      as_dict rule >>= λ r.
      evaluate_conditions r context >>= λ hit. if hit then ok (matched boolean_feature r) else rest

  -- `_evaluate_rules`
  unfoldable pub evaluate_rules : Fields → Json → Json → Json → Result Error Json
  unfolding evaluate_each_rule
  evaluate_rules context feat_default rules boolean_feature =
      as_dict rules >>= λ rs. evaluate_each_rule context feat_default rs boolean_feature

  -- `get_configuration`, by the store's answer
  unfoldable pub get_configuration : Result Error Json → Result Error Json
  unfolding validate
  get_configuration fetched = fetched >>= λ config. validate config >>= λ _. ok config

  -- the part of `evaluate` that works on the feature's dict
  unfoldable pub evaluate_feature : Fields → Fields → Result Error Json
  unfolding evaluate_rules
  evaluate_feature context feature =
      let rules = get rules_key feature in
      let feat_default = get feature_default_val_key feature in
      let boolean_feature = get_or feature_default_val_type_key (bool true) feature in
      if truthy rules
      then evaluate_rules context feat_default rules boolean_feature
      else ok (if truthy boolean_feature then bool (truthy feat_default) else feat_default)

  abbrev evaluate_found : Fields → Json → Json → Result Error Json
  evaluate_found context default null = ok default
  evaluate_found context default feature = as_dict feature >>= evaluate_feature context

  abbrev given : Option Fields → Fields
  given none = end
  given (some context) = context

  -- the `except ConfigurationStoreError` of both methods
  abbrev or_default :
      {A : Type 0} → A → Result Error Json → (Json → Result Error A) → Result Error A
  or_default d (ok config) f = f config
  or_default d (raised configuration_store_error) f = ok d
  or_default d (raised e) f = raised e

  unfoldable pub evaluate : Result Error Json → String → Option Fields → Json → Result Error Json
  unfolding get_configuration evaluate_feature
  evaluate fetched name context default = or_default default (get_configuration fetched) λ config.
      as_dict config >>= λ features. evaluate_found (given context) default (get name features)

  -- the body of the loop of `get_enabled_features`
  unfoldable pub is_enabled : Fields → Fields → Result Error Bool
  unfolding evaluate_rules
  is_enabled context feature =
      let rules = get_or rules_key (obj end) feature in
      let feature_default_value = get feature_default_val_key feature in
      let boolean_feature = get_or feature_default_val_type_key (bool true) feature in
      if truthy feature_default_value && not (truthy rules)
      then ok true
      else evaluate_rules context feature_default_value rules boolean_feature >>= λ v. ok (truthy v)

  unfoldable pub enabled_names : Fields → Fields → Result Error (List String)
  unfolding is_enabled
  enabled_names context end = ok []
  enabled_names context (field name feature features) =
      let rest = enabled_names context features in
      as_dict feature >>= λ f.
      is_enabled context f >>= λ on. rest >>= λ names. ok (if on then name ∷ names else names)

  unfoldable pub get_enabled_features :
      Result Error Json → Option Fields → Result Error (List String)
  unfolding get_configuration enabled_names
  get_enabled_features fetched context =
      or_default [] (get_configuration fetched)
        λ config. as_dict config >>= enabled_names (given context)
