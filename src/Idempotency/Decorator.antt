-- ===== src/Idempotency/Decorator.antt =====
-- idempotency/idempotency.py: the two decorators.
pub mod Replay
use aws_lambda_powertools_py.Common.{
  ℕ, String, Bool, true, false, not, Option, none, some, if◌then◌else◌,
}
use aws_lambda_powertools_py.Common.Eq.{◌==◌, string_eq}
use aws_lambda_powertools_py.Common.Dict.{Dict, get}
use aws_lambda_powertools_py.Common.Effect.{Op, raise, ◌>>=◌, ◌>>◌}
use aws_lambda_powertools_py.Common.Json.{Json}
use aws_lambda_powertools_py.Idempotency.Error.{Error, other}
use aws_lambda_powertools_py.Idempotency.Layer.{
  Library, Layer, IdempotencyConfig, register_lambda_context, configure,
}
use aws_lambda_powertools_py.Idempotency.Persistence.{Backend, World}
use aws_lambda_powertools_py.Idempotency.Handler.{Function, run, handle}

-- IdempotencyConfig()
abbrev pub default_config : IdempotencyConfig
default_config = record {
  event_key_jmespath = "";
  payload_validation_jmespath = "";
  jmespath_options = none;
  raise_on_no_idempotency_key = false;
  expires_after_seconds = 3600;
  use_local_cache = false;
  local_cache_max_items = 256;
  hash_function = "md5";
  lambda_context = none;
}

abbrev pub or_default : Option IdempotencyConfig → IdempotencyConfig
or_default none = default_config
or_default (some config) = config

-- whether POWERTOOLS_IDEMPOTENCY_DISABLED is set
abbrev pub is_disabled : Option String → Bool
is_disabled none = false
is_disabled (some s) = not (s == "")

-- A decorated function: its name with its module's, the name of the Lambda function, and the variable.
pub record Site : Type 0 where
  pub lambda_name : String
  pub name : String
  pub disabled : Option String

module _ {Db App : Type 0} (lib : Library) (backend : Backend Db) (site : Site) where
  on_layer : {A : Type 0} → Op Layer Error A → Op (World Db App) Error A
  on_layer m w = let (r, l) = m w.layer in (r, record w { layer = l })

  -- IdempotencyHandler(...).handle(), of a payload as `_prepare_data` gives it
  unfoldable pub handled : IdempotencyConfig → Function App → Json → Op (World Db App) Error Json
  unfolding on_layer
  handled config function payload = do
    on_layer (configure lib site.lambda_name config site.name)
    handle lib backend config function payload

  -- `function` is the handler of the event and the context
  unfoldable pub idempotent :
      Option IdempotencyConfig → Function App → Json → (ℕ → ℕ) → Op (World Db App) Error Json
  idempotent config function event context =
      if is_disabled site.disabled
      then run function
      else handled (register_lambda_context context (or_default config)) function event

  with_payload : IdempotencyConfig → Function App → Option Json → Op (World Db App) Error Json
  with_payload config function none = raise (other "RuntimeError")
  with_payload config function (some payload) = handled config function payload

  -- `function` is the call with its arguments
  unfoldable pub idempotent_function :
      Option IdempotencyConfig
      → Function App
      → String
      → Dict String Json
      → Op (World Db App) Error Json
  unfolding with_payload
  idempotent_function config function data_keyword_argument kwargs =
      if is_disabled site.disabled
      then run function
      else with_payload (or_default config) function (get data_keyword_argument kwargs)
