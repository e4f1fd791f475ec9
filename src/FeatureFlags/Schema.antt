-- ===== src/FeatureFlags/Schema.antt =====
-- feature_flags/schema.py: the keys of a schema, the actions, and the validators. A validator returns
-- or raises SchemaValidationError; where the source would fail otherwise, that is an `other`.
use aws_lambda_powertools_py.Common.{
  String, Bool, true, false, not, ◌&&◌, ◌||◌, Option, none, some, List, [], ◌∷◌, if◌then◌else◌,
}
use aws_lambda_powertools_py.Common.Eq.{◌==◌, string_eq}
use aws_lambda_powertools_py.Common.Effect.{Result, ok, raised}
use aws_lambda_powertools_py.Common.Json.{
  Json, null, bool, str, arr, obj, Items, nil, cons, Fields, end, field, find, truthy,
}

pub data Error : Type 0 where
  schema_validation_error : Error
  configuration_store_error : Error
  other : String → Error

abbrev pub Check : Type 0
Check = Result Error (Unit {0})

infixl 5 ◌>>◌
abbrev pub ◌>>◌ : Check → Check → Check
ok u >> next = next
raised e >> next = raised e

abbrev pub require : Bool → Check
require true = ok tt
require false = raised schema_validation_error

abbrev pub rules_key : String
rules_key = "rules"

abbrev pub feature_default_val_key : String
feature_default_val_key = "default"

abbrev pub conditions_key : String
conditions_key = "conditions"

abbrev pub rule_match_value : String
rule_match_value = "when_match"

abbrev pub condition_key : String
condition_key = "key"

abbrev pub condition_value : String
condition_value = "value"

abbrev pub condition_action : String
condition_action = "action"

abbrev pub feature_default_val_type_key : String
feature_default_val_type_key = "boolean_type"

pub data RuleAction : Type 0 where
  equals not_equals : RuleAction
  key_greater_than_value key_greater_than_or_equal_value : RuleAction
  key_less_than_value key_less_than_or_equal_value : RuleAction
  startswith endswith : RuleAction
  in_ not_in key_in_value key_not_in_value value_in_key value_not_in_key : RuleAction

-- the actions' names and values are the same texts
abbrev pub members : List (String × RuleAction)
members =
    ("EQUALS", equals)
    ∷ ("NOT_EQUALS", not_equals)
    ∷ ("KEY_GREATER_THAN_VALUE", key_greater_than_value)
    ∷ ("KEY_GREATER_THAN_OR_EQUAL_VALUE", key_greater_than_or_equal_value)
    ∷ ("KEY_LESS_THAN_VALUE", key_less_than_value)
    ∷ ("KEY_LESS_THAN_OR_EQUAL_VALUE", key_less_than_or_equal_value)
    ∷ ("STARTSWITH", startswith)
    ∷ ("ENDSWITH", endswith)
    ∷ ("IN", in_)
    ∷ ("NOT_IN", not_in)
    ∷ ("KEY_IN_VALUE", key_in_value)
    ∷ ("KEY_NOT_IN_VALUE", key_not_in_value)
    ∷ ("VALUE_IN_KEY", value_in_key)
    ∷ ("VALUE_NOT_IN_KEY", value_not_in_key)
    ∷ []

abbrev lookup_action : String → List (String × RuleAction) → Option RuleAction
lookup_action s [] = none
lookup_action s ((name, action) ∷ more) = if name == s then some action else lookup_action s more

unfoldable pub rule_action : String → Option RuleAction
rule_action s = lookup_action s members

is_some : {A : Type 0} → Option A → Bool
is_some none = false
is_some (some a) = true

-- d.get(k, default)
abbrev pub get_or : String → Json → Fields → Json
get_or k default fs = elim (find k fs) [ none ↦ default | some v ↦ v ]

-- d.get(k)
abbrev pub get : String → Fields → Json
get k fs = get_or k null fs

abbrev is_bool : Json → Bool
is_bool (bool b) = true
is_bool _ = false

abbrev is_null : Json → Bool
is_null null = true
is_null _ = false

-- `ConditionsValidator.validate_condition_action`: an unhashable action is a TypeError
validate_action : Json → Check
unfolding is_some rule_action
validate_action (str s) = require (is_some (rule_action s))
validate_action (arr vs) = raised (other "TypeError")
validate_action (obj fs) = raised (other "TypeError")
validate_action _ = raised schema_validation_error

unfoldable pub validate_condition_action : Fields → Check
unfolding validate_action
validate_condition_action condition = validate_action (get_or condition_action (str "") condition)

abbrev is_name : Json → Bool
is_name (str s) = not (s == "")
is_name _ = false

unfoldable pub validate_condition_key : Fields → Check
validate_condition_key condition = require (is_name (get_or condition_key (str "") condition))

unfoldable pub validate_condition_value : Fields → Check
validate_condition_value condition = require (truthy (get_or condition_value (str "") condition))

unfoldable pub validate_condition : Json → Check
unfolding validate_condition_action validate_condition_key validate_condition_value
validate_condition (obj (field k v fs)) =
    validate_condition_action (field k v fs)
    >> validate_condition_key (field k v fs)
    >> validate_condition_value (field k v fs)
validate_condition _ = raised schema_validation_error

unfoldable pub validate_each_condition : Items → Check
unfolding validate_condition
validate_each_condition nil = ok tt
validate_each_condition (cons c cs) = validate_condition c >> validate_each_condition cs

-- `ConditionsValidator.validate` on `rule.get("conditions", {})`
unfoldable pub validate_conditions : Json → Check
unfolding validate_each_condition
validate_conditions (arr (cons c cs)) = validate_each_condition (cons c cs)
validate_conditions _ = raised schema_validation_error

unfoldable pub validate_rule_name : String → Check
validate_rule_name rule_name = require (not (rule_name == ""))

unfoldable pub validate_rule_default_value : Fields → Json → Check
validate_rule_default_value rule boolean_feature =
    require (not (truthy boolean_feature && not (is_bool (get rule_match_value rule))))

-- `RulesValidator.validate_rule`, then the conditions of the rule
unfoldable pub validate_rule : Json → String → Json → Check
unfolding validate_rule_name validate_rule_default_value validate_conditions
validate_rule (obj (field k v fs)) rule_name boolean_feature =
    validate_rule_name rule_name
    >> validate_rule_default_value (field k v fs) boolean_feature
    >> validate_conditions (get_or conditions_key (obj end) (field k v fs))
validate_rule _ rule_name boolean_feature = raised schema_validation_error

unfoldable pub validate_each_rule : Fields → Json → Check
unfolding validate_rule
validate_each_rule end boolean_feature = ok tt
validate_each_rule (field name rule rules) boolean_feature =
    validate_rule rule name boolean_feature >> validate_each_rule rules boolean_feature

abbrev check_rules : Json → Json → Check
check_rules (obj rules) boolean_feature = validate_each_rule rules boolean_feature
check_rules _ boolean_feature = raised schema_validation_error

-- `RulesValidator.validate` on `feature.get("rules")`
unfoldable pub validate_rules : Json → Json → Check
unfolding validate_each_rule
validate_rules rules boolean_feature =
    if truthy rules then check_rules rules boolean_feature else ok tt

-- `FeaturesValidator.validate_feature`, then the rules of the feature
unfoldable pub validate_feature : Json → Check
unfolding validate_rules
validate_feature (obj (field k v fs)) =
    let feature = field k v fs in
    let default_value = get feature_default_val_key feature in
    let boolean_feature = get_or feature_default_val_type_key (bool true) feature in
    require (not (is_null default_value || (not (is_bool default_value) && truthy boolean_feature)))
    >> validate_rules (get rules_key feature) boolean_feature
validate_feature _ = raised schema_validation_error

unfoldable pub validate_features : Fields → Check
unfolding validate_feature
validate_features end = ok tt
validate_features (field name feature features) =
    validate_feature feature >> validate_features features

-- `SchemaValidator.validate`
unfoldable pub validate : Json → Check
unfolding validate_features
validate (obj features) = validate_features features
validate _ = raised schema_validation_error
