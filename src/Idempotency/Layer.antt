-- ===== src/Idempotency/Layer.antt =====
-- The attributes of `BasePersistenceLayer`, its `configure`, and the keys and hashes that it makes of
-- a payload; config.py.
use aws_lambda_powertools_py.Common.{
  ℕ, String, Bool, true, false, not, ◌&&◌, Option, none, some, all, if◌then◌else◌,
}
use Prim.Native.String.{◌++◌}
use aws_lambda_powertools_py.Common.Eq.{◌==◌, string_eq}
use aws_lambda_powertools_py.Common.Effect.{Op, Result, ok, raised, pure, raise, modify, ◌>>◌}
use aws_lambda_powertools_py.Common.Json.{Json, null, arr, obj, items, fields, truthy}
use aws_lambda_powertools_py.Cache
use aws_lambda_powertools_py.Cache.{LruDict}
use aws_lambda_powertools_py.Idempotency.Error.{Error, key_error, validation_error, other}
use aws_lambda_powertools_py.Idempotency.Record.{DataRecord}

-- The options of a jmespath search: Powertools' own functions, or the customer's options.
pub data JmespathOptions : Type 0 where
  powertools_functions : JmespathOptions
  custom : Json → JmespathOptions

-- What the utility calls of `json`, `jmespath` and `hashlib`; `none` and `false` stand for a raise.
pub record Library : Type 0 where
  pub dumps : Json → Option String
  pub loads : String → Option Json
  pub compiles : String → Bool
  pub search : String → Option JmespathOptions → Json → Option Json
  pub has_hash : String → Bool
  pub hexdigest : String → String → String

-- `lambda_context` is what the runtime's context answers about the remaining time, at a time.
pub record IdempotencyConfig : Type 0 where
  pub event_key_jmespath : String
  pub payload_validation_jmespath : String
  pub jmespath_options : Option JmespathOptions
  pub raise_on_no_idempotency_key : Bool
  pub expires_after_seconds : ℕ
  pub use_local_cache : Bool
  pub local_cache_max_items : ℕ
  pub hash_function : String
  pub lambda_context : Option (ℕ → ℕ)

abbrev pub register_lambda_context : (ℕ → ℕ) → IdempotencyConfig → IdempotencyConfig
register_lambda_context context c = record c { lambda_context = some context }

-- `event_key_jmespath` is "" where the source has None. `cache` is `_cache`, which is read only
-- where `use_local_cache` holds.
pub record Layer : Type 0 where
  pub function_name : String
  pub configured : Bool
  pub event_key_jmespath : String
  pub jmespath_options : Option JmespathOptions
  pub validation_key_jmespath : String
  pub payload_validation_enabled : Bool
  pub raise_on_no_idempotency_key : Bool
  pub expires_after_seconds : ℕ
  pub use_local_cache : Bool
  pub cache : LruDict DataRecord
  pub hash_function : String

-- `__init__`
unfoldable pub initial : Layer
unfolding Cache.init
initial = record {
  function_name = "";
  configured = false;
  event_key_jmespath = "";
  jmespath_options = none;
  validation_key_jmespath = "";
  payload_validation_enabled = false;
  raise_on_no_idempotency_key = false;
  expires_after_seconds = 3600;
  use_local_cache = false;
  cache = Cache.init 0;
  hash_function = "";
}

-- customer options that are an empty dict, or null, are none
abbrev with_default : Option JmespathOptions → Option JmespathOptions
with_default none = some powertools_functions
with_default (some powertools_functions) = some powertools_functions
with_default (some (custom v)) = if truthy v then some (custom v) else some powertools_functions

is_null : Json → Bool
is_null null = true
is_null _ = false

-- a dict is asked for its keys, which are never None
unfoldable pub is_missing_idempotency_key : Json → Bool
unfolding is_null
is_missing_idempotency_key (arr xs) = all is_null (items xs)
is_missing_idempotency_key (obj fs) = all (λ _. false) (fields fs)
is_missing_idempotency_key v = not (truthy v)

abbrev pub or_raise : {A : Type 0} → String → Option A → Result Error A
or_raise kind none = raised (other kind)
or_raise kind (some a) = ok a

abbrev pub then_do : {A B : Type 0} → Result Error A → (A → Result Error B) → Result Error B
then_do (ok a) f = f a
then_do (raised e) f = raised e

-- a record with no hash differs from every hash
abbrev pub same_hash : Option String → String → Bool
same_hash none hash = false
same_hash (some stored) hash = stored == hash

module _ (lib : Library) where
  -- jmespath.compile
  compile : String → Op Layer Error (Unit {0})
  compile expression = if lib.compiles expression then pure tt else raise (other "ParseError")

  -- The rest of `configure`, once per instance. `lambda_name` is the environment's.
  set_up : IdempotencyConfig → Op Layer Error (Unit {0})
  unfolding compile
  set_up config = do
    modify (λ l. record l { configured = true; event_key_jmespath = config.event_key_jmespath })
    if config.event_key_jmespath == "" then pure tt else compile config.event_key_jmespath
    modify (λ l. record l { jmespath_options = with_default config.jmespath_options })
    if config.payload_validation_jmespath == "" then pure tt else do
      compile config.payload_validation_jmespath
      modify (λ l. record l {
        validation_key_jmespath = config.payload_validation_jmespath;
        payload_validation_enabled = true;
      })
    modify (λ l. record l {
      raise_on_no_idempotency_key = config.raise_on_no_idempotency_key;
      expires_after_seconds = config.expires_after_seconds;
      use_local_cache = config.use_local_cache;
      cache = if config.use_local_cache then Cache.init config.local_cache_max_items else l.cache;
    })
    if lib.has_hash config.hash_function
        then modify (λ l. record l { hash_function = config.hash_function })
        else raise (other "AttributeError")

  unfoldable pub configure : String → IdempotencyConfig → String → Op Layer Error (Unit {0})
  unfolding set_up Cache.init
  configure lambda_name config function_name l =
      let named = record l { function_name = lambda_name ++ "." ++ function_name } in
      if l.configured then (ok tt, named) else set_up config named

  unfoldable pub generate_hash : Layer → Json → Result Error String
  generate_hash l v =
      then_do (or_raise "TypeError" (lib.dumps v)) (λ text. ok (lib.hexdigest l.hash_function text))

  -- the part of the payload that the key is made of
  key_data : Layer → Json → Result Error Json
  key_data l v =
      if l.event_key_jmespath == ""
      then ok v
      else or_raise "JMESPathError" (lib.search l.event_key_jmespath l.jmespath_options v)

  unfoldable pub get_hashed_idempotency_key : Layer → Json → Result Error String
  unfolding key_data generate_hash is_missing_idempotency_key
  get_hashed_idempotency_key l v = then_do (key_data l v) λ picked.
      if is_missing_idempotency_key picked && l.raise_on_no_idempotency_key
      then raised key_error
      else then_do (generate_hash l picked) (λ hash. ok (l.function_name ++ "#" ++ hash))

  -- the validation expression is searched with no options
  unfoldable pub get_hashed_payload : Layer → Json → Result Error String
  unfolding generate_hash
  get_hashed_payload l v =
      if l.payload_validation_enabled
      then then_do (or_raise "JMESPathError" (lib.search l.validation_key_jmespath none v))
          (generate_hash l)
      else ok ""

  unfoldable pub validate_payload : Layer → Json → DataRecord → Result Error (Unit {0})
  unfolding get_hashed_payload
  validate_payload l v r =
      if l.payload_validation_enabled
      then then_do (get_hashed_payload l v)
          (λ hash. if same_hash r.payload_hash hash then ok tt else raised validation_error)
      else ok tt
