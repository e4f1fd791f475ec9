-- ===== src/Logging/Start.antt =====
-- logging/logger.py: the construction of a `Logger`, and logging/filters.py.
pub mod Only
pub mod Elsewhere
pub mod OneHandler
use Prim.Native.String.{[] as no_text, ◌∷◌ as prepend, ◌++◌ as join}
use package.text.Mathlib.Text.{starts_with}
use aws_lambda_powertools_py.Common.{
  String, Bool, true, false, not, ◌||◌, Option, none, some, List, [], ◌∷◌, ◌++◌, map, if◌then◌else◌,
}
use aws_lambda_powertools_py.Common.Eq.{◌==◌, string_eq}
use aws_lambda_powertools_py.Common.Dict.{Dict}
use aws_lambda_powertools_py.Common.Effect.{
  Result, ok, raised, Op, pure, lift, gets, modify, ◌>>=◌, ◌>>◌,
}
use aws_lambda_powertools_py.Common.Json.{Json, null, str}
use aws_lambda_powertools_py.Shared.{resolve_env_var_choice, resolve_truthy_env_var_choice}
use aws_lambda_powertools_py.Logging.Formatter.{Formatter}
use aws_lambda_powertools_py.Logging.Process.{
  Level, number, named, Rate, Registered, World, Logger, Environment, Library, or_false, registered,
  update, get_log_level,
}
use aws_lambda_powertools_py.Logging.Logger.{structure_logs}

-- The arguments of the constructor; `handler` is the formatter of `logger_handler`, none where it has
-- none or is made by the constructor.
pub record Arguments : Type 0 where
  pub service : Option String
  pub level : Option Level
  pub child : Bool
  pub sampling_rate : Option Rate
  pub logger_formatter : Option Formatter
  pub handler : Option Formatter
  pub log_record_order : Option (List String)
  pub keys : Dict String Json

abbrev or_undefined : Option String → String
or_undefined none = "service_undefined"
or_undefined (some s) = s

rate_value : Option Rate → Json
rate_value none = null
rate_value (some r) = r.value

-- the attributes; `caller` is what `_get_caller_filename` gives
unfoldable pub attributes : Library → Environment → String → Arguments → Logger
unfolding rate_value
attributes lib env caller a =
    let service = or_undefined (resolve_env_var_choice env.service_name a.service) in
    let rate = resolve_env_var_choice env.sample_rate a.sampling_rate in
    record {
      service = service;
      name = if a.child then join service (join "." caller) else service;
      child = a.child;
      sampling_rate = rate;
      log_level = get_log_level lib env a.level;
      logger_formatter = a.logger_formatter;
      default_log_keys = ("service", str service) ∷ ("sampling_rate", rate_value rate) ∷ [];
    }

-- `_configure_sampling`: the level that it leaves
sampled_level : Level → Option Bool → Result String Level
sampled_level level none = raised "InvalidLoggerSamplingRateError"
sampled_level level (some true) = ok (number 10)
sampled_level level (some false) = ok level

unfoldable pub configure_sampling : Logger → Result String Level
unfolding sampled_level
configure_sampling self = elim self.sampling_rate [
  | none ↦ ok self.log_level
  | some r ↦ if r.is_set then sampled_level self.log_level r.sampled else ok self.log_level
]

-- what `setLevel` takes
unfoldable pub known : (String → Bool) → Level → Result String (Unit {0})
known knows (number n) = ok tt
known knows (named s) = if knows s then ok tt else raised "ValueError"

module _ {App : Type 0} (lib : Library) where
  unfoldable pub set_level : String → Level → Op (World App) String (Unit {0})
  unfolding known
  set_level name level = do
    lift (known lib.knows_level level)
    update name (λ l. record l { level = some level })

  -- `addHandler`
  unfoldable pub add_handler : String → Option Formatter → Op (World App) String (Unit {0})
  add_handler name handler = update name (λ l. record l { handlers = l.handlers ++ handler ∷ [] })

  -- a `SuppressFilter` for each handler of the root
  suppress : String → Op (World App) String (Unit {0})
  suppress service =
      modify (λ w. record w { root_filters = map (λ fs. fs ++ service ∷ []) w.root_filters })

  -- `_init_logger` of a logger that is neither a child nor set up
  unfoldable pub set_up : Bool → Arguments → Logger → Op (World App) String Logger
  unfolding set_level add_handler suppress
  set_up deduplication_disabled a self = do
    level ← lift (configure_sampling self)
    let leveled : Logger = record self { log_level = level }
    set_level self.name level
    add_handler self.name a.handler
    structure_logs lib leveled false (some a.log_record_order) a.keys
    if deduplication_disabled then pure tt else suppress self.service
    update self.name (λ l. record l { init = true })
    pure leveled

  -- `_init_logger`
  unfoldable pub init_logger : Bool → Arguments → Logger → Op (World App) String Logger
  unfolding set_up
  init_logger deduplication_disabled a self = do
    preconfigured ← gets (λ w. (registered self.name w).init)
    if self.child || preconfigured then pure self else set_up deduplication_disabled a self

  -- `__init__`
  unfoldable pub init : Environment → String → Arguments → Op (World App) String Logger
  init env caller a = do
    disabled ←
        lift (resolve_truthy_env_var_choice lib.lower (or_false env.deduplication_disabled) none)
    let self : Logger = attributes lib env caller a
    update self.name (λ l. l)
    init_logger disabled a self

-- s in text
abbrev pub is_part : String → String → Bool
is_part s no_text = s == ""
is_part s (prepend c rest) = starts_with (prepend c rest) s || is_part s rest

-- `SuppressFilter.filter`, of the name of a record's logger
unfoldable pub filter : String → String → Bool
filter logger name = not (is_part logger name)
