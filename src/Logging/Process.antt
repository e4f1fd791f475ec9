-- ===== src/Logging/Process.antt =====
-- What `logging` keeps of its loggers, the `Logger` of logging/logger.py, and the keys of a Lambda
-- context, logging/lambda_context.py.
use aws_lambda_powertools_py.Common.{
  ℕ, String, Bool, true, false, ◌||◌, Option, none, some, List, [], ◌∷◌, any, if◌then◌else◌,
}
use aws_lambda_powertools_py.Common.Eq.{◌==◌, string_eq}
use aws_lambda_powertools_py.Common.Dict.{Dict, get, store}
use aws_lambda_powertools_py.Common.Effect.{Result, ok, raised, Op}
use aws_lambda_powertools_py.Common.Json.{Json}
use aws_lambda_powertools_py.Logging.Formatter.{Formatter, new_formatter}

pub data Level : Type 0 where
  number : ℕ → Level
  named : String → Level

-- A sampling rate by what Python makes of it: the value in a log, bool(rate), and whether
-- random.random() <= float(rate), none where float raises ValueError.
pub record Rate : Type 0 where
  pub value : Json
  pub is_set : Bool
  pub sampled : Option Bool

-- A logger of `logging`: the attribute `init`, its level, its handlers by their formatters, and whether
-- it hands its records to its parent too.
pub record Registered : Type 0 where
  pub init : Bool
  pub level : Option Level
  pub handlers : List (Option Formatter)
  pub propagate : Bool

-- A call of a logger of `logging`.
pub record Entry : Type 0 where
  pub logger : String
  pub level : String
  pub msg : Json
  pub exc_info : Bool
  pub extra : Dict String Json

-- The process: what `logging` has registered, the filters of the handlers of its root, the calls made,
-- the module's `is_cold_start`, and what the Lambda handler works on.
pub record World (App : Type 0) : Type 0 where
  pub loggers : Dict String Registered
  pub root_filters : List (List String)
  pub entries : List Entry
  pub is_cold_start : Bool
  pub app : App

-- A `Logger`; `name` is that of its `_logger`.
pub record Logger : Type 0 where
  pub service : String
  pub name : String
  pub child : Bool
  pub sampling_rate : Option Rate
  pub log_level : Level
  pub logger_formatter : Option Formatter
  pub default_log_keys : Dict String Json

-- POWERTOOLS_SERVICE_NAME, POWERTOOLS_LOGGER_SAMPLE_RATE, POWERTOOLS_LOG_DEDUPLICATION_DISABLED,
-- LOG_LEVEL and POWERTOOLS_LOGGER_LOG_EVENT
pub record Environment : Type 0 where
  pub service_name : Option String
  pub sample_rate : Option Rate
  pub deduplication_disabled : Option String
  pub log_level : Option String
  pub log_event : Option String

-- str.lower and str.upper; the name of the parent of a logger in `logging`, and the levels it knows
-- by name; `jmespath.search`, none where it raises
pub record Library : Type 0 where
  pub lower : String → String
  pub upper : String → String
  pub parent : String → String
  pub knows_level : String → Bool
  pub search : String → Json → Option Json

-- `LambdaContextModel`
pub record LambdaContext : Type 0 where
  pub function_name : Json
  pub memory_limit_in_mb : Json
  pub invoked_function_arn : Json
  pub aws_request_id : Json

-- the `__dict__` of `build_lambda_context_model(context)`
abbrev pub context_keys : LambdaContext → Dict String Json
context_keys c =
    ("function_name", c.function_name)
    ∷ ("function_memory_size", c.memory_limit_in_mb)
    ∷ ("function_arn", c.invoked_function_arn)
    ∷ ("function_request_id", c.aws_request_id)
    ∷ []

-- RESERVED_FORMATTER_CUSTOM_KEYS
abbrev pub reserved_formatter_custom_keys : List String
reserved_formatter_custom_keys =
    "json_serializer" ∷ "json_deserializer" ∷ "json_default" ∷ "datefmt" ∷ "use_datetime_directive"
    ∷ "log_record_order" ∷ "utc" ∷ "use_rfc3339" ∷ []

unfoldable pub is_option : String → Bool
is_option key = any (λ k. k == key) reserved_formatter_custom_keys

unfoldable pub custom_keys : Dict String Json → Dict String Json
unfolding is_option
custom_keys [] = []
custom_keys ((k, v) ∷ d) = let rest = custom_keys d in if is_option k then rest else (k, v) ∷ rest

-- a logger that `logging.getLogger` has just made
abbrev pub fresh : Registered
fresh = record { init = false; level = none; handlers = []; propagate = true }

abbrev pub or_fresh : Option Registered → Registered
or_fresh none = fresh
or_fresh (some l) = l

abbrev pub first_formatter : List (Option Formatter) → Result String Formatter
first_formatter [] = raised "IndexError"
first_formatter (none ∷ handlers) = raised "AttributeError"
first_formatter (some f ∷ handlers) = ok f

abbrev pub no_handlers : List (Option Formatter) → Result String (Unit {0})
no_handlers [] = raised "IndexError"
no_handlers (h ∷ handlers) = ok tt

abbrev pub found : Option Json → Result String Json
found none = raised "JMESPathError"
found (some v) = ok v

-- os.getenv(name, "false")
abbrev pub or_false : Option String → String
or_false none = "false"
or_false (some s) = s

abbrev pub with_first : Formatter → List (Option Formatter) → List (Option Formatter)
with_first f [] = []
with_first f (h ∷ handlers) = some f ∷ handlers

unfoldable pub any_option : Dict String Json → Bool
unfolding is_option
any_option [] = false
any_option ((k, v) ∷ d) = is_option k || any_option d

-- LambdaPowertoolsFormatter(**formatter_options, **log_keys), by the `log_record_order` of the options;
-- without options, keys that name options are options, and what they choose is left out
unfoldable pub formatter_with :
    Option (Option (List String)) → Dict String Json → Result String Formatter
unfolding custom_keys any_option
formatter_with none log_keys = ok (new_formatter none (custom_keys log_keys))
formatter_with (some order) log_keys =
    if any_option log_keys then raised "TypeError" else ok (new_formatter order log_keys)

-- `_get_log_level`
level_text : (String → String) → Option String → Level
level_text upper none = number 20
level_text upper (some level) = named (upper level)

unfoldable pub get_log_level : Library → Environment → Option Level → Level
unfolding level_text
get_log_level lib env (some (number n)) = number n
get_log_level lib env (some (named level)) =
    level_text lib.upper (if level == "" then env.log_level else some level)
get_log_level lib env none = level_text lib.upper env.log_level

module _ {App : Type 0} where
  unfoldable pub registered : String → World App → Registered
  registered name w = or_fresh (get name w.loggers)

  unfoldable pub update : String → (Registered → Registered) → Op (World App) String (Unit {0})
  unfolding registered
  update name f w = (ok tt, record w { loggers = store name (f (registered name w)) w.loggers })

  -- `_is_cold_start`
  unfoldable pub is_cold_start : Op (World App) String Bool
  is_cold_start w = (ok w.is_cold_start, record w { is_cold_start = false })
