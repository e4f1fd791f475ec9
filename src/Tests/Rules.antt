-- ===== src/Tests/Rules.antt =====
-- Rules, headers and prefixes of the event handler, over the letters of ASCII.
use Prim.Native.Char.{code}
use aws_lambda_powertools_py.Common.{
  ℕ, String, Bool, Option, none, some, List, [], ◌∷◌, ◌||◌, ◌&&◌, not, if◌then◌else◌, ◌≡◌, refl,
  leb, eqb,
}
use aws_lambda_powertools_py.Common.Eq.{◌==◌, string_eq}
use aws_lambda_powertools_py.Common.Dict.{Dict, contains, get}
use aws_lambda_powertools_py.EventHandler.Rule.{
  Unicode, Rule, exact, slashes, lit, group, compile_regex, match_tokens,
}
use aws_lambda_powertools_py.EventHandler.Header.{
  one, many, multi, multi_value, serialize, Headers, or_empty,
}
use aws_lambda_powertools_py.EventHandler.Header.Values.{serialize-multi_value}

abbrev pub between : ℕ → ℕ → ℕ → Bool
between a b n = leb a n && leb n b

abbrev pub ascii : Unicode
ascii = record {
  is_word =
      λ c. let n = code c in between 97 122 n || (between 65 90 n || (between 48 57 n || eqb n 95));
  isidentifier = λ s. not (s == "");
  upper = λ s. if s == "get" then "GET" else if s == "options" then "OPTIONS" else s;
  lower = λ s. s;
}

abbrev user_rule : Option Rule
user_rule = compile_regex ascii slashes "/u/<id>"

compiled_rule :
    user_rule
    ≡ some (record { tokens = lit "/" ∷ lit "u" ∷ lit "/" ∷ group "id" ∷ []; ending = slashes })
unfolding compile_regex
compiled_rule = refl

-- a name stands once
repeated_name : compile_regex ascii exact "/<id>/<id>" ≡ none
unfolding compile_regex
repeated_name = refl

-- slashes at the end are no part of an argument
trailing_slashes :
    match_tokens ascii slashes (lit "/" ∷ group "id" ∷ []) "/a1//" ≡ some (("id", "a1") ∷ [])
unfolding match_tokens
trailing_slashes = refl

-- a group takes as much as it can
longest_first :
    match_tokens ascii exact (group "a" ∷ group "b" ∷ []) "xyz"
    ≡ some (("a", "xy") ∷ ("b", "z") ∷ [])
unfolding match_tokens
longest_first = refl

abbrev two_headers : Headers
two_headers = ("A", many ("1" ∷ "2" ∷ [])) ∷ ("Set-Cookie", one "c=1") ∷ []

serialize-multi_value_example :
    (d : Dict String (List String)) × (serialize multi_value two_headers ("d=2" ∷ [])
      ≡ some (multi d))
    × (or_empty (get "Set-Cookie" d) ≡ "c=1" ∷ "d=2" ∷ [])
unfolding contains get
serialize-multi_value_example =
    serialize-multi_value "Set-Cookie" two_headers ("d=2" ∷ []) (refl, (refl, tt))
