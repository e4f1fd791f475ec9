-- ===== src/Parameters/Ssm.antt =====
-- parameters/ssm.py: `get_parameters_by_name` of `SSMProvider`, over the calls of the SSM client.
pub mod Options
pub mod Chunks
pub mod Graceful
use aws_lambda_powertools_py.Common.{
  ℕ, zero, suc, ◌-◌, String, Bool, true, false, ◌&&◌, not, Option, none, some, List, [], ◌∷◌, ◌++◌,
  length, is_empty, map, take, eqb, if◌then◌else◌,
}
use aws_lambda_powertools_py.Common.Eq.{◌==◌, string_eq}
use aws_lambda_powertools_py.Common.Dict.{Dict, get, contains, store, merge}
use aws_lambda_powertools_py.Common.Slices.{slice_dictionary}
use aws_lambda_powertools_py.Common.Effect.{
  Op, Result, ok, raised, pure, raise, lift, attempt, ◌>>=◌, ◌>>◌,
}
use aws_lambda_powertools_py.Parameters.Transform.{
  transform_value, Error, get_parameter_error, escaped, Value, single, Library,
}
use aws_lambda_powertools_py.Parameters.Provider.{
  is_set, World, Methods, get_parameter, has_not_expired_in_cache, add_to_cache,
}
use aws_lambda_powertools_py.Parameters.Ssm.Options.{Overrides, Wanted, split_parameters}

-- What GetParameters answers: "Parameters" by "Name" and "Value", and "InvalidParameters".
pub record Found : Type 0 where
  pub parameters : List (String × String)
  pub invalid : List String

pub data ApiError : Type 0 where
  -- InvalidKeyId and InternalServerError
  unrecoverable : ApiError
  another : String → ApiError

-- The calls of the client: GetParameter under `_get`, for each value of WithDecryption, and
-- GetParameters. The answers are texts, and `text` is a text as a value.
pub record Client (V Db : Type 0) : Type 0 where
  pub text : String → V
  pub methods : Bool → Methods V Db
  pub get_parameters : Bool → List String → Db → Result ApiError (Found) × Db

-- What is fetched so far, and the names that failed.
abbrev pub Fetched : Type 0 → Type 0
Fetched V = Dict String (Value V) × List String

-- The result: "_errors", where errors do not raise, and the values.
pub record Answer (V : Type 0) : Type 0 where
  pub errors : Option (List String)
  pub values : Dict String (Value V)

abbrev pub max_get_parameters_item : ℕ
max_get_parameters_item = 10

abbrev pub errors_key : String
errors_key = "_errors"

-- `_handle_any_invalid_get_parameter_errors`
unfoldable pub invalid_parameters : Bool → List String → Result Error (List String)
invalid_parameters raise_on_error failed =
    if not (is_empty failed) && raise_on_error
    then raised (get_parameter_error "Failed to fetch parameters")
    else ok failed

names : {A : Type 0} → Dict String A → List String
names d = map (λ p. p.0) d

abbrev pub without : {A B : Type 0} → Dict String A → Dict String B → Dict String A
without [] cache = []
without ((k, a) ∷ d) cache =
    let rest = without d cache in if contains k cache then rest else (k, a) ∷ rest

abbrev keep_cached :
    {V : Type 0} → String → Option (Value V) → Dict String (Value V) → Dict String (Value V)
keep_cached name none cache = cache
keep_cached name (some v) cache = store name v cache

-- `_get_parameters_by_name_from_cache`
module _ {V Db : Type 0} where
  unfoldable pub from_cache :
      Dict String Wanted → Dict String (Value V) → Op (World V Db) Error (Dict String (Value V))
  unfolding has_not_expired_in_cache ◌>>=◌
  from_cache [] cache = pure cache
  from_cache ((name, o) ∷ batch) cache = do
    v ← has_not_expired_in_cache (name, o.transform)
    from_cache batch (keep_cached name v cache)

module _ {V : Type 0} (lib : Library V) (text : String → V) where
  -- transform_value(name, value, transform, raise_on_error), whose parameters are `value`, `transform`,
  -- `raise_on_transform_error` and `key`: the name is transformed by the method that the value names,
  -- and a failure raises, as the transform is not empty. For "auto" the key is a bool, without rsplit.
  unfoldable pub transform_name : String → String → Result Error (Value V)
  transform_name name v =
      let swapped = transform_value lib (some v) true "" (single (some (text name))) in
      if v == "auto" then raised (escaped "AttributeError") else swapped

  unfoldable pub transform_parameter : Option String → String → String → Result Error (Value V)
  unfolding transform_name
  transform_parameter transform name v =
      if is_set transform then transform_name name v else ok (single (some (text v)))

module _ {V Db : Type 0} (lib : Library V) (text : String → V) where
  keep_parameter :
      String
      → String
      → Option Wanted
      → (Value V → Op (World V Db) Error (Dict String (Value V)))
      → Op (World V Db) Error (Dict String (Value V))
  unfolding transform_parameter add_to_cache ◌>>=◌
  keep_parameter name v none rest = raise (escaped "KeyError")
  keep_parameter name v (some o) rest = do
    t ← lift (transform_parameter lib text o.transform name v)
    add_to_cache (name, o.transform) t o.max_age
    rest t

  -- `_transform_and_cache_get_parameters_response`; what it is told of errors makes no difference.
  unfoldable pub transform_and_cache :
      Dict String Wanted
      → List (String × String)
      → Dict String (Value V)
      → Op (World V Db) Error (Dict String (Value V))
  unfolding keep_parameter
  transform_and_cache wanted [] response = pure response
  transform_and_cache wanted ((name, v) ∷ answers) response =
      keep_parameter name v (get name wanted)
        (λ t. transform_and_cache wanted answers (store name t response))

module _ {V Db : Type 0} (lib : Library V) (client : Client V Db) where
  -- what follows the call of GetParameters: an unrecoverable error fails every name, and never raises
  after_get_parameters :
      Bool → Dict String Wanted → Result ApiError (Found) → Op (World V Db) Error (Fetched V)
  unfolding transform_and_cache names invalid_parameters ◌>>=◌
  after_get_parameters raise_on_error wanted (raised unrecoverable) = pure ([], names wanted)
  after_get_parameters raise_on_error wanted (raised (another e)) = raise (escaped e)
  after_get_parameters raise_on_error wanted (ok found) = do
    failed ← lift (invalid_parameters raise_on_error found.invalid)
    response ← transform_and_cache lib client.text wanted found.parameters []
    pure (response, failed)

  -- client.get_parameters(Names=names, WithDecryption=decrypt)
  abbrev call_client : Bool → List String → World V Db → Result ApiError (Found) × World V Db
  call_client decrypt ns w =
      let (r, d) = client.get_parameters decrypt ns w.db in (r, record w { db = d })

  -- `_get_parameters_by_name`
  unfoldable pub get_chunk : Bool → Bool → Dict String Wanted → Op (World V Db) Error (Fetched V)
  unfolding after_get_parameters names
  get_chunk raise_on_error decrypt wanted w =
      let (r, u) = call_client decrypt (names wanted) w in
      after_get_parameters raise_on_error wanted r u

  -- The loop over the chunks: the response is that of the chunk, the errors are added up.
  get_chunks :
      Bool
      → Bool
      → List (Dict String Wanted)
      → Dict String (Value V)
      → List String
      → Op (World V Db) Error (Fetched V)
  unfolding get_chunk ◌>>=◌
  get_chunks raise_on_error decrypt [] response errors = pure (response, errors)
  get_chunks raise_on_error decrypt (chunk ∷ chunks) response errors = do
    fetched ← get_chunk raise_on_error decrypt chunk
    get_chunks raise_on_error decrypt chunks fetched.0 (errors ++ fetched.1)

  -- `_get_parameters_by_name_in_chunks`
  unfoldable pub get_in_chunks :
      Bool → Bool → Dict String Wanted → Dict String (Value V) → Op (World V Db) Error (Fetched V)
  unfolding get_chunks slice_dictionary
  get_in_chunks raise_on_error decrypt batch cache =
      get_chunks raise_on_error decrypt
        (slice_dictionary (without batch cache) max_get_parameters_item) [] []

  get_rest :
      Bool → Bool → Dict String Wanted → Dict String (Value V) → Op (World V Db) Error (Fetched V)
  unfolding get_in_chunks ◌>>=◌
  get_rest raise_on_error decrypt batch cached = do
    fetched ← get_in_chunks raise_on_error decrypt batch cached
    pure (merge fetched.0 cached, fetched.1)

  -- `_get_parameters_batch_by_name`
  unfoldable pub get_batch : Bool → Bool → Dict String Wanted → Op (World V Db) Error (Fetched V)
  unfolding get_rest from_cache ◌>>=◌
  get_batch raise_on_error decrypt batch = do
    cached ← from_cache batch []
    (if eqb (length cached) (length batch)
        then pure (cached, [])
        else get_rest raise_on_error decrypt batch cached)

  -- what follows a `get` under its `try`: a GetParameterError is an error of this name
  abbrev after_get :
      Bool
      → String
      → Result Error (Value V)
      → (Fetched V → Op (World V Db) Error (Fetched V))
      → Fetched V
      → Op (World V Db) Error (Fetched V)
  after_get raise_on_error name (ok v) rest (response, errors) =
      rest (store name v response, errors)
  after_get true name (raised (get_parameter_error e)) rest fetched = raise (get_parameter_error e)
  after_get false name (raised (get_parameter_error e)) rest (response, errors) =
      rest (response, errors ++ name ∷ [])
  after_get raise_on_error name (raised e) rest fetched = raise e

  -- `_get_parameters_by_name_with_decrypt_option`
  unfoldable pub get_each :
      Bool → Dict String Wanted → Fetched V → Op (World V Db) Error (Fetched V)
  unfolding get_parameter ◌>>=◌
  get_each raise_on_error [] fetched = pure fetched
  get_each raise_on_error ((name, o) ∷ batch) fetched = do
    r ← attempt (get_parameter lib (client.methods o.decrypt) name o.max_age o.transform false)
    after_get raise_on_error name r (get_each raise_on_error batch) fetched

  answered : Bool → Fetched V → Fetched V → Answer V
  answered raise_on_error (batch, batch_errors) (decrypted, decrypt_errors) = record {
    errors = if raise_on_error then none else some (decrypt_errors ++ batch_errors);
    values = merge decrypted batch;
  }

  all_decrypted : Bool → Dict String Wanted → Op (World V Db) Error (Answer V)
  unfolding get_batch answered ◌>>=◌
  all_decrypted raise_on_error decrypted = do
    fetched ← get_batch raise_on_error true decrypted
    pure (answered raise_on_error fetched ([], []))

  some_decrypted : Bool → Dict String Wanted → Dict String Wanted → Op (World V Db) Error (Answer V)
  unfolding get_each get_batch answered ◌>>=◌
  some_decrypted raise_on_error batch decrypted = do
    each ← get_each raise_on_error decrypted ([], [])
    fetched ← get_batch raise_on_error false batch
    pure (answered raise_on_error fetched each)

  get_split : Bool → ℕ → Dict String Wanted × Dict String Wanted → Op (World V Db) Error (Answer V)
  unfolding all_decrypted some_decrypted
  get_split raise_on_error count (batch, decrypted) =
      if eqb (length decrypted) count
      then all_decrypted raise_on_error decrypted
      else some_decrypted raise_on_error batch decrypted

  -- `get_parameters_by_name`
  unfoldable pub get_parameters_by_name :
      Dict String Overrides → Option String → Bool → ℕ → Bool → Op (World V Db) Error (Answer V)
  unfolding get_split split_parameters
  get_parameters_by_name parameters transform decrypt max_age raise_on_error =
      if not raise_on_error && contains errors_key parameters
      then raise (get_parameter_error "'_errors' is reserved")
      else get_split raise_on_error (length parameters)
          (split_parameters parameters transform max_age decrypt)
