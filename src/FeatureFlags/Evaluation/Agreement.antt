-- ===== src/FeatureFlags/Evaluation/Agreement.antt =====
-- `get_enabled_features` and `evaluate` say the same of each feature, where its rules are a dict or
-- left out, and do not where they are another empty value.
use mathlib.Core.Path.{subst}
use text.Mathlib.TextEquality.{eq_iff}
use aws_lambda_powertools_py.Common.Eq.{◌==◌, string_eq}
use aws_lambda_powertools_py.Common.{
  String, Bool, true, false, not, ◌&&◌, ◌≡◌, refl, inl, inr, Option, none, some, List, [], ◌∷◌,
  if◌then◌else◌, Bool-cases, arith, ap, sym, ◌∙◌,
}
use aws_lambda_powertools_py.Common.Effect.{Result, ok, raised}
use aws_lambda_powertools_py.Common.Json.{Json, null, bool, obj, Fields, end, field, find, truthy}
use aws_lambda_powertools_py.FeatureFlags.Schema.{
  Error, other, rules_key, feature_default_val_key, feature_default_val_type_key, get_or, get,
  validate_feature, validate_features, validate,
}
use aws_lambda_powertools_py.FeatureFlags.Evaluation.{
  ◌>>=◌, evaluate_rules, evaluate_feature, evaluate_found, given, evaluate, is_enabled,
  enabled_names, get_enabled_features,
}
use aws_lambda_powertools_py.FeatureFlags.Evaluation.Total.{
  passes, evaluate-validate, evaluate_feature-Returns,
}

abbrev pub IsDict : Option Json → Type 0
IsDict none = Unit
IsDict (some (obj fs)) = Unit
IsDict (some v) = ⊥

-- Every feature has its rules in a dict, or no rules.
abbrev pub HasDictRules : Fields → Type 0
HasDictRules end = Unit
HasDictRules (field name (obj fs) features) = IsDict (find rules_key fs) × HasDictRules features
HasDictRules (field name v features) = HasDictRules features

-- The names of the features differ, as the keys of a dict do.
abbrev pub HasDistinctNames : Fields → Type 0
HasDistinctNames end = Unit
HasDistinctNames (field name v features) = (find name features ≡ none) × HasDistinctNames features

abbrev pub listed : String → List String → Bool
listed name [] = false
listed name (k ∷ ks) = if k == name then true else listed name ks

module _ (render : Json → String) (context : Fields) where
  -- with no rules both look at the default alone
  no_rules :
      (d kind : Json) (b : Bool)
      → truthy d ≡ b
      → ◌≡◌ {A = Result Error Bool}
          (if b && true then ok true else ok b)
          (ok (truthy (if truthy kind then bool b else d)))
  no_rules d kind b h = ground (arith, h)

  is_enabled-eq :
      (d kind : Json) (o : Option Json)
      → IsDict o
      → (let rules : Json = elim o [ none ↦ obj end | some v ↦ v ] in
          if truthy d && not (truthy rules)
          then ok true
          else evaluate_rules render context d rules kind >>= λ v. ok (truthy v))
        ≡ ((let rules : Json = elim o [ none ↦ null | some v ↦ v ] in
              if truthy rules
              then evaluate_rules render context d rules kind
              else ok (if truthy kind then bool (truthy d) else d))
            >>= λ v. ok (truthy v))
  unfolding evaluate_rules
  is_enabled-eq d kind none h = no_rules d kind (truthy d) refl
  is_enabled-eq d kind (some (obj end)) h = no_rules d kind (truthy d) refl
  is_enabled-eq d kind (some (obj (field k v fs))) h = elim (Bool-cases (truthy d)) [
    | inl e ↦ rw e
    | inr e ↦ rw e
  ]
  is_enabled-eq d kind (some v) h = absurd h

  is_enabled-evaluate_feature :
      (fs : Fields)
      → IsDict (find rules_key fs)
      → is_enabled render context fs ≡ (evaluate_feature render context fs >>= λ v. ok (truthy v))
  unfolding is_enabled evaluate_feature
  is_enabled-evaluate_feature fs h =
      is_enabled-eq (get feature_default_val_key fs)
        (get_or feature_default_val_type_key (bool true) fs) (find rules_key fs) h

  -- What the list says of a name is what evaluating the name says.
  abbrev answer : Option Json → Result Error Json
  answer o = evaluate_found render context (bool false) (elim o [ none ↦ null | some v ↦ v ])

  abbrev Agrees : Fields → List String → Type 0
  Agrees features names =
      (name : String) (v : Json) → answer (find name features) ≡ ok v → listed name names ≡ truthy v

  listed-cons :
      (k name : String) (on : Bool) (ns : List String)
      → (k == name) ≡ false
      → listed name (if on then k ∷ ns else ns) ≡ listed name ns
  listed-cons k name true ns e = rw e
  listed-cons k name false ns e = refl

  listed_self :
      (k name : String) (on : Bool) (ns : List String)
      → (k == name) ≡ true
      → listed name ns ≡ false
      → listed name (if on then k ∷ ns else ns) ≡ on
  listed_self k name true ns e h = rw e
  listed_self k name false ns e h = h

  find_same :
      (k name : String) (f : Json) (features : Fields)
      → (k == name) ≡ true
      → find name (field k f features) ≡ some f
  find_same k name f features e = rw e

  find_other :
      (k name : String) (f : Json) (features : Fields)
      → (k == name) ≡ false
      → find name (field k f features) ≡ find name features
  find_other k name f features e = rw e

  Agrees-cons :
      (k : String) (f v₀ : Json) (features : Fields) (ns : List String)
      → find k features ≡ none
      → answer (some f) ≡ ok v₀
      → Agrees features ns
      → Agrees (field k f features) (if truthy v₀ then k ∷ ns else ns)
  Agrees-cons k f v₀ features ns fresh e₀ agree name v h = elim (Bool-cases (k == name)) [
    | inl e ↦
        let evaluated = subst (λ o. answer o ≡ ok v) (find_same k name f features e) h in
        let same : v₀ ≡ v = cc in
        let gone : find name features ≡ none =
          subst (λ j. find j features ≡ none) ((eq_iff k name).0 e) fresh in
        let absent =
          agree name (bool false) (subst (λ o. answer o ≡ ok (bool false)) (sym gone) refl) in
        listed_self k name (truthy v₀) ns e absent ∙ ap truthy same
    | inr e ↦
        listed-cons k name (truthy v₀) ns e
        ∙ agree name v (subst (λ o. answer o ≡ ok v) (find_other k name f features e) h)
  ]

  enabled_names-Agrees :
      (features : Fields)
      → validate_features features ≡ ok tt
      → HasDictRules features
      → HasDistinctNames features
      → (names : List String) × (enabled_names render context features ≡ ok names)
        × Agrees features names
  unfolding validate_features validate_feature enabled_names
  enabled_names-Agrees end valid dicts distinct =
      ([], refl, λ name v h. let same : bool false ≡ v = cc in ap truthy same)
  enabled_names-Agrees (field k (obj fs) features) valid (dict, dicts) (fresh, distinct) =
      let (here, later) = passes (validate_feature (obj fs)) (validate_features features) valid in
      let (v₀, e₀) = evaluate_feature-Returns render context fs here in
      let (ns, e, agree) = enabled_names-Agrees features later dicts distinct in
      let on : is_enabled render context fs ≡ ok (truthy v₀) =
        is_enabled-evaluate_feature fs dict ∙ rw e₀ refl in
      (
        if truthy v₀ then k ∷ ns else ns,
        rw (on, e),
        Agrees-cons k (obj fs) v₀ features ns fresh e₀ agree,
      )
  enabled_names-Agrees (field k v features) valid dicts distinct = cc

-- For a configuration that the validators accept, whose features have rules in a dict or none and
-- whose names differ, `get_enabled_features` returns a list, and a name is in it exactly if `evaluate`
-- of the name, with False for the default, returns a true value.
pub get_enabled_features-evaluate :
    (render : Json → String) (features : Fields) (context : Option Fields)
    → validate (obj features) ≡ ok tt
    → HasDictRules features
    → HasDistinctNames features
    → (names : List String) × (get_enabled_features render (ok (obj features)) context ≡ ok names)
      × ((name : String) (v : Json)
          → evaluate render (ok (obj features)) name context (bool false) ≡ ok v
          → listed name names ≡ truthy v)
unfolding validate evaluate get_enabled_features
get_enabled_features-evaluate render features context valid dicts distinct =
    let passed : validate_features features ≡ ok tt = valid in
    let (names, e, agree) =
      enabled_names-Agrees render (given render context) features passed dicts distinct in
    (names, rw passed e, λ name v h. agree name v (rw passed at h))

-- The disagreement. A first feature with a false default whose rules are an empty value other than a
-- dict, such as null, passes the validators and is evaluated, and `get_enabled_features` raises
-- AttributeError, whatever the other features are.
module _ (render : Json → String) (context : Option Fields) (name : String) (fs rest : Fields)
    (v : Json) where
  raises :
      (d kind : Json) (o : Option Json)
      → o ≡ some v
      → truthy v ≡ false
      → ¬ IsDict (some v)
      → truthy d ≡ false
      → ◌≡◌ {A = Result Error Bool}
          (let rules : Json = elim o [ none ↦ obj end | some w ↦ w ] in
            if truthy d && not (truthy rules)
            then ok true
            else evaluate_rules render (given render context) d rules kind >>= λ w. ok (truthy w))
          (raised (other "AttributeError"))
  unfolding evaluate_rules
  raises d kind o found empty wrong off = rw (found, off) (stuck v empty wrong)
    where
      stuck :
          (u : Json)
          → truthy u ≡ false
          → ¬ IsDict (some u)
          → ◌≡◌ {A = Result Error Bool}
              (evaluate_rules render (given render context) d u kind >>= λ w. ok (truthy w))
              (raised (other "AttributeError"))
      stuck (obj fs) e h = absurd (h tt)
      stuck u e h = refl

  is_enabled-raises :
      find rules_key fs ≡ some v
      → truthy v ≡ false
      → ¬ IsDict (some v)
      → truthy (get feature_default_val_key fs) ≡ false
      → is_enabled render (given render context) fs ≡ raised (other "AttributeError")
  unfolding is_enabled
  is_enabled-raises found empty wrong off =
      raises (get feature_default_val_key fs) (get_or feature_default_val_type_key (bool true) fs)
        (find rules_key fs) found empty wrong off

  pub get_enabled_features-empty_rules :
      validate (obj (field name (obj fs) rest)) ≡ ok tt
      → find rules_key fs ≡ some v
      → truthy v ≡ false
      → ¬ IsDict (some v)
      → truthy (get feature_default_val_key fs) ≡ false
      → (get_enabled_features render (ok (obj (field name (obj fs) rest))) context
          ≡ raised (other "AttributeError"))
        × ((w : Json) × (evaluate render
                (ok (obj (field name (obj fs) rest)))
                name
                context
                (bool false)
              ≡ ok w))
  unfolding validate get_enabled_features enabled_names
  get_enabled_features-empty_rules valid found empty wrong off =
      let passed : validate_features (field name (obj fs) rest) ≡ ok tt = valid in
      (
        rw (passed, is_enabled-raises found empty wrong off),
        evaluate-validate render (obj (field name (obj fs) rest)) name context (bool false) valid,
      )
