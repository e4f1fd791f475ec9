-- ===== src/Tests/Ssm.antt =====
-- A client of SSM that knows each name but one, asked for eleven parameters.
use aws_lambda_powertools_py.Common.{
  ℕ, ◌+◌, String, true, false, none, some, List, [], ◌∷◌, map, take, ◌≡◌, refl, if◌then◌else◌,
}
use aws_lambda_powertools_py.Common.Eq.{◌==◌, string_eq}
use aws_lambda_powertools_py.Common.Dict.{Dict, contains, store, get}
use aws_lambda_powertools_py.Common.Effect.{Result, ok, raised, ◌>>=◌}
use aws_lambda_powertools_py.Common.Ends.{Ends}
use aws_lambda_powertools_py.Parameters.Transform.{
  Error, Value, single, Library, transform_parameter_error, get_parameter_error, transform_value,
  get_transform_method,
}
use aws_lambda_powertools_py.Parameters.Provider.{World}
use aws_lambda_powertools_py.Parameters.Ssm.{
  Client, Fetched, max_get_parameters_item, without, get_in_chunks, get_each,
  get_parameters_by_name,
}
use aws_lambda_powertools_py.Common.Slices.{slice_dictionary}
use aws_lambda_powertools_py.Parameters.Ssm.Options.{
  Overrides, callers_overrides, Overrides, Wanted,
}
use aws_lambda_powertools_py.Parameters.Ssm.Chunks.{get_in_chunks-first_ten}
use aws_lambda_powertools_py.Parameters.Ssm.{
  transform_and_cache, transform_name, transform_parameter,
}
use aws_lambda_powertools_py.Parameters.Ssm.Graceful.{IsDone, IsNoGetError, get_each-IsDone}

abbrev plain : Library String
plain = record { decode = λ s. ok s; loads = λ v. ok v; b64decode = λ v. ok v }

abbrev value_of : String → Result String (Value String)
value_of name = if name == "x" then raised "ParameterNotFound" else ok (single (some name))

-- the state counts the calls
abbrev client : Client String ℕ
client = record {
  text = λ s. s;
  methods = λ decrypt. record {
    get_one = λ name n. (value_of name, n + 1);
    get_all = λ path n. (ok [], n + 1);
  };
  get_parameters = λ decrypt names n.
      (ok (record { parameters = map (λ name. (name, name)) names; invalid = [] }), n + 1);
}

abbrev start : World String ℕ
start = record { cache = []; clock = λ i. i; db = 0 }

abbrev plainly : String → String × Wanted
plainly name = (name, record { transform = none; decrypt = false; max_age = 5 })

abbrev letters : List String
letters = "a" ∷ "b" ∷ "c" ∷ "d" ∷ "e" ∷ "f" ∷ "g" ∷ "h" ∷ "i" ∷ "j" ∷ "k" ∷ []

abbrev eleven : Dict String Wanted
eleven = map plainly letters

abbrev outcome_of : Result Error (Fetched String) → Fetched String
outcome_of (ok f) = f
outcome_of (raised e) = ([], [])

abbrev fetched : Fetched String
fetched = outcome_of (get_in_chunks plain client true false eleven [] start).0

-- two calls, and no value for "k"
eleven_fetched :
    ((get_in_chunks plain client true false eleven [] start).1.db ≡ 2)
    × (contains "a" fetched.0 ≡ true)
    × (contains "k" fetched.0 ≡ false)
unfolding get_in_chunks slice_dictionary contains store get
eleven_fetched = (refl, refl, refl)

get_in_chunks-first_ten_example :
    contains "a" (take max_get_parameters_item (without {B = Value String} eleven [])) ≡ true
unfolding get_in_chunks slice_dictionary contains store get
get_in_chunks-first_ten_example =
    get_in_chunks-first_ten plain client true false eleven [] start fetched "a" refl refl

abbrev three : List String
three = "a" ∷ "b" ∷ "c" ∷ []

get_each-IsDone_example :
    Ends
      (IsDone (plainly "a" ∷ plainly "x" ∷ []) ([], []))
      IsNoGetError
      (get_each plain client false (plainly "a" ∷ plainly "x" ∷ []) ([], []) start).0
get_each-IsDone_example =
    get_each-IsDone plain client (plainly "a" ∷ plainly "x" ∷ []) ([], []) start

abbrev default_options : Overrides
default_options = record { given_transform = none; given_decrypt = none; given_max_age = none }

-- "_errors" is reserved where errors do not raise
reserved :
    (get_parameters_by_name plain client
      (("_errors", default_options) ∷ [])
      none
      false
      5
      false
      start).0
    ≡ raised (get_parameter_error "'_errors' is reserved")
unfolding get_parameters_by_name contains
reserved = refl

abbrev with_json : Wanted
with_json = record { transform = some "json"; decrypt = false; max_age = 5 }

-- a parameter with a transform: the name is transformed by the method that the value names
swapped_test :
    transform_and_cache plain (λ s. s) (("a", with_json) ∷ []) (("a", "{}") ∷ []) [] start
    ≡ (raised (transform_parameter_error "'NoneType' object is not callable"), start)
unfolding get transform_and_cache transform_name transform_parameter transform_value
    get_transform_method ◌>>=◌
swapped_test = refl

-- the defaults of one call are the options of the next with the same dict
abbrev given_transform_only : Overrides
given_transform_only = record {
  given_transform = some "json";
  given_decrypt = none;
  given_max_age = none;
}

kept_defaults_test :
    callers_overrides none 60 false (callers_overrides none 5 true given_transform_only)
    ≡ record { given_transform = some "json"; given_decrypt = some true; given_max_age = some 5 }
unfolding callers_overrides
kept_defaults_test = refl
