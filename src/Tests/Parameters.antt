-- ===== src/Tests/Parameters.antt =====
-- A provider that counts its calls, over texts.
use aws_lambda_powertools_py.Common.{
  ℕ, suc, ◌+◌, ◌≡◌, refl, ap, true, false, String, Option, none, some, [], ◌∷◌, arith, map,
}
use aws_lambda_powertools_py.Common.Dict.{Dict, store, merge}
use aws_lambda_powertools_py.Common.Eq.{◌==◌, string_eq}
use aws_lambda_powertools_py.Common.{if◌then◌else◌}
use aws_lambda_powertools_py.Common.Effect.{Result, ok, raised, ◌>>=◌}
use aws_lambda_powertools_py.Parameters.Transform.{
  Library, Value, single, dict, get_transform_method, json, echo, transform_value,
}
use aws_lambda_powertools_py.Parameters.Transform.Partial.{attempted, transform_value-partial}
use aws_lambda_powertools_py.Parameters.Provider.{Methods, World, get_parameter}
use aws_lambda_powertools_py.Parameters.Provider.Cached.{get_parameter-cached}

abbrev loads : Option String → Result String (Option String)
loads none = raised "the JSON object must be str, bytes or bytearray, not NoneType"
loads (some s) = if s == "{" then raised "Expecting property name" else ok (some s)

abbrev texts : Library String
texts = record { decode = λ s. ok s; loads = loads; b64decode = λ v. ok v }

abbrev methods : Methods String ℕ
methods = record {
  get_one = λ name n. (ok (single (some name)), n + 1);
  get_all = λ path n. (ok [], n + 1);
}

abbrev at_start : World String ℕ
at_start = record { cache = []; clock = λ i. i; db = 0 }

abbrev fetched : World String ℕ
fetched = (get_parameter texts methods "a" 5 (some "json") true at_start).1

abbrev content : Value String → ℕ
content (single none) = 0
content v = 1

get_parameter-cached_example :
    get_parameter texts methods "a" 9 (some "json") false fetched
    ≡ (ok (single (some "a")), record fetched { clock = λ i. fetched.clock (suc i) })
unfolding get_parameter transform_value ◌>>=◌
get_parameter-cached_example =
    get_parameter-cached texts methods "a" 5 9 (some "json") (single (some "a")) at_start fetched
      refl (λ e. ground (arith, ap content e)) (omega arith)

by_suffix : get_transform_method "a.b.json" (some "auto") ≡ json
unfolding get_transform_method
by_suffix = refl

no_suffix : get_transform_method "a" (some "auto") ≡ echo
unfolding get_transform_method
no_suffix = refl

abbrev half_bad : Dict String (Option String)
half_bad = ("a", some "1") ∷ ("b", some "{") ∷ []

-- the example of the note in `transform_value`
half_bad_transformed :
    transform_value texts (some "json") false "" (dict half_bad)
    ≡ ok (dict (("a", some "1") ∷ ("b", none) ∷ []))
unfolding transform_value store
half_bad_transformed = refl

transform_value-partial_example :
    transform_value texts (some "json") false "" (dict half_bad)
    ≡ ok (dict (merge (map (attempted texts (some "json")) half_bad) []))
transform_value-partial_example = transform_value-partial texts (some "json") "" half_bad
