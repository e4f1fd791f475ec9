-- ===== src/Parameters/Ssm/Graceful.antt =====
-- `_get_parameters_by_name_with_decrypt_option` where errors do not raise.
use aws_lambda_powertools_py.Common.{
  String, Bool, true, false, ◌||◌, List, [], ◌∷◌, ◌++◌, any, All, ◌≡◌, ◌≢◌, ap, arith,
  if◌then◌else◌,
}
use aws_lambda_powertools_py.Common.Eq.{◌==◌, string_eq}
use aws_lambda_powertools_py.Common.Dict.{Dict, contains, store}
use aws_lambda_powertools_py.Common.Dict.Merge.{contains-store}
use aws_lambda_powertools_py.Common.Effect.{◌>>=◌, Op, Result, ok, raised, ◌>>=◌}
use aws_lambda_powertools_py.Common.Ends.{Ends, returns, raises, Ends-implies}
use aws_lambda_powertools_py.Parameters.Transform.{
  Error, get_parameter_error, transform_parameter_error, escaped, Value, Library,
}
use aws_lambda_powertools_py.Parameters.Provider.{World, get_parameter}
use aws_lambda_powertools_py.Parameters.Ssm.Options.{Wanted}
use aws_lambda_powertools_py.Parameters.Ssm.{Client, Fetched, after_get, get_each}

-- a name that has a value or an error
abbrev pub is_settled : {V : Type 0} → String → Fetched V → Bool
is_settled j (response, errors) = contains j response || any (λ n. n == j) errors

abbrev pub IsNoGetError : Error → Type 0
IsNoGetError e = (text : String) → e ≢ get_parameter_error text

listed-append :
    (j name : String) (errors : List String)
    → any (λ n. n == j) (errors ++ name ∷ []) ≡ (any (λ n. n == j) errors || name == j)
listed-append j name [] = ground arith
listed-append j name (n ∷ errors) = ground (arith, listed-append j name errors)

module _ {V : Type 0} where
  abbrev pub IsGrown : Fetched V → Fetched V → Type 0
  IsGrown f g = (j : String) → is_settled j f ≡ true → is_settled j g ≡ true

  -- a later state in which every name of the batch is settled
  abbrev pub IsDone : Dict String Wanted → Fetched V → Fetched V → Type 0
  IsDone batch f g = IsGrown f g × All (λ p. is_settled p.0 g ≡ true) batch

  after_store :
      (j name : String) (v : Value V) (response : Dict String (Value V)) (errors : List String)
      → is_settled j (store name v response, errors)
        ≡ ((if name == j then true else contains j response) || any (λ n. n == j) errors)
  after_store j name v response errors =
      ap (λ b. b || any (λ n. n == j) errors) (contains-store name j v response)

  after_error :
      (j name : String) (response : Dict String (Value V)) (errors : List String)
      → is_settled j (response, errors ++ name ∷ [])
        ≡ (contains j response || (any (λ n. n == j) errors || name == j))
  after_error j name response errors =
      ap (λ b. contains j response || b) (listed-append j name errors)

  settle :
      (name : String) (o : Wanted) (batch : Dict String Wanted) (f f' : Fetched V)
      {r : Result Error (Fetched V)}
      → IsGrown f f'
      → is_settled name f' ≡ true
      → Ends (IsDone batch f') IsNoGetError r
      → Ends (IsDone ((name, o) ∷ batch) f) IsNoGetError r
  settle name o batch f f' grown now h =
      Ends-implies (λ g (later, each). ((λ j k. later j (grown j k)), (later name now, each))) h

module _ {V Db : Type 0} (lib : Library V) (client : Client V Db) where
  step :
      (name : String) (o : Wanted) (batch : Dict String Wanted)
      (rest : Fetched V → Op (World V Db) Error (Fetched V)) (r : Result Error (Value V))
      (f : Fetched V) (w : World V Db)
      → ((g : Fetched V) (u : World V Db) → Ends (IsDone batch g) IsNoGetError (rest g u).0)
      → Ends
          (IsDone ((name, o) ∷ batch) f)
          IsNoGetError
          (after_get lib client false name r rest f w).0
  unfolding get_each
  step name o batch rest (ok v) (response, errors) w h =
      settle name o batch (response, errors) (store name v response, errors)
        (λ j k. ground (arith, k, after_store j name v response errors))
        (ground (arith, after_store name name v response errors, string_eq.same_key_iff name name))
        (h _ w)
  step name o batch rest (raised (get_parameter_error e)) (response, errors) w h =
      settle name o batch (response, errors) (response, errors ++ name ∷ [])
        (λ j k. ground (arith, k, after_error j name response errors))
        (ground (arith, after_error name name response errors, string_eq.same_key_iff name name))
        (h _ w)
  step name o batch rest (raised (transform_parameter_error e)) f w h =
      raises (λ text k. ground (arith, k))
  step name o batch rest (raised (escaped e)) f w h = raises (λ text k. ground (arith, k))

  -- Where errors do not raise, fetching parameters one by one never ends with GetParameterError, and
  -- when it returns, each of the parameters has a value or stands among the errors, as do those that
  -- had before.
  pub get_each-IsDone :
      (batch : Dict String Wanted) (f : Fetched V) (w : World V Db)
      → Ends (IsDone batch f) IsNoGetError (get_each lib client false batch f w).0
  unfolding get_each ◌>>=◌
  get_each-IsDone [] f w = returns ((λ j h. h), tt)
  get_each-IsDone ((name, o) ∷ batch) f w =
      let (r, u) =
        get_parameter lib (client.methods o.decrypt) name o.max_age o.transform false w in
      step name o batch (get_each lib client false batch) r f u (get_each-IsDone batch)
