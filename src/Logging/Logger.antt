-- ===== src/Logging/Logger.antt =====
-- logging/logger.py: the calls of a `Logger` that is there.
pub mod Isolated
use Prim.Native.String.{◌++◌ as join}
use aws_lambda_powertools_py.Common.{
  ℕ, String, Bool, true, false, not, ◌||◌, Option, none, some, List, [], ◌∷◌, any, map,
  if◌then◌else◌,
}
use aws_lambda_powertools_py.Common.Eq.{◌==◌, string_eq}
use aws_lambda_powertools_py.Common.Dict.{Dict, get, store, merge}
use aws_lambda_powertools_py.Common.Effect.{
  Result, ok, raised, Op, pure, raise, lift, gets, modify, ◌>>=◌, ◌>>◌,
}
use aws_lambda_powertools_py.Common.Json.{Json, null, bool, num, str}
use aws_lambda_powertools_py.Common.Int.{pos}
use aws_lambda_powertools_py.Shared.{resolve_env_var_choice, resolve_truthy_env_var_choice}
use aws_lambda_powertools_py.Logging.Formatter.{
  Formatter, new_formatter, append_keys, remove_keys, clear_state,
}
use aws_lambda_powertools_py.Logging.Process.{
  Level, number, named, Rate, Registered, Entry, World, Logger, Environment, Library, LambdaContext,
  context_keys, custom_keys, any_option, formatter_with, fresh, or_fresh, first_formatter,
  no_handlers, with_first, found, or_false, registered, update, is_cold_start,
}

-- the logger whose first handler is `registered_handler`
abbrev pub handler_name : Library → Logger → String
handler_name lib self = if self.child then lib.parent self.name else self.name

-- self.logger_formatter or LambdaPowertoolsFormatter(...)
unfoldable pub formatter_for :
    Option Formatter → Option (Option (List String)) → Dict String Json → Result String Formatter
formatter_for none options log_keys = formatter_with options log_keys
formatter_for (some f) options log_keys = ok f

module _ {App : Type 0} (lib : Library) (self : Logger) where
  -- `registered_formatter`
  unfoldable pub registered_formatter : Op (World App) String Formatter
  unfolding registered
  registered_formatter w = (first_formatter (registered (handler_name lib self) w).handlers, w)

  -- self.registered_handler.setFormatter(f), where there is a handler
  unfoldable pub set_formatter : Formatter → Op (World App) String (Unit {0})
  unfolding update
  set_formatter f =
      update (handler_name lib self) (λ l. record l { handlers = with_first f l.handlers })

  -- a method of `registered_formatter` that changes it
  unfoldable pub on_formatter : (Formatter → Formatter) → Op (World App) String (Unit {0})
  unfolding registered_formatter set_formatter
  on_formatter change = do f ← registered_formatter; set_formatter (change f)

  -- `append_keys`, `remove_keys` and `set_correlation_id`
  unfoldable pub add_keys : Dict String Json → Op (World App) String (Unit {0})
  add_keys keys = on_formatter (append_keys keys)

  unfoldable pub drop_keys : List String → Op (World App) String (Unit {0})
  drop_keys keys = on_formatter (remove_keys keys)

  unfoldable pub set_correlation_id : Json → Op (World App) String (Unit {0})
  set_correlation_id value = add_keys (("correlation_id", value) ∷ [])

  -- `get_correlation_id`, of a Powertools formatter
  unfoldable pub get_correlation_id : Op (World App) String (Option Json)
  get_correlation_id = do f ← registered_formatter; pure (get "correlation_id" f.log_format)

  -- self.registered_handler
  unfoldable pub has_handler : Op (World App) String (Unit {0})
  unfolding registered
  has_handler w = (no_handlers (registered (handler_name lib self) w).handlers, w)

  -- the first mode of `structure_logs`
  unfoldable pub register :
      Option (Option (List String)) → Dict String Json → Op (World App) String (Unit {0})
  unfolding formatter_for has_handler
  register options log_keys = do
    f ← lift (formatter_for self.logger_formatter options log_keys)
    has_handler
    set_formatter f
    add_keys (custom_keys log_keys)

  -- `structure_logs`
  unfoldable pub structure_logs :
      Bool → Option (Option (List String)) → Dict String Json → Op (World App) String (Unit {0})
  unfolding register registered
  structure_logs append options keys = do
    let log_keys : Dict String Json = merge keys self.default_log_keys
    preconfigured ← gets (λ w. (registered self.name w).init)
    if not preconfigured
        then register options log_keys
        else if append
        then add_keys keys
        else (do on_formatter clear_state; add_keys log_keys)

  -- a method that logs: `info`, `error`, `exception`, `critical`, `warning` and `debug`, by its level
  unfoldable pub log :
      String → Bool → Json → Dict String Json → Dict String Json → Op (World App) String (Unit {0})
  log level exc_info msg extra keys = modify (λ w. record w {
    entries =
        record {
          logger = self.name;
          level = level;
          msg = msg;
          exc_info = exc_info;
          extra = merge keys extra;
        }
        ∷ w.entries;
  })

  -- what `inject_lambda_context` does before the handler; `raw_event` is the event as it is logged
  correlate : Option String → Json → Op (World App) String (Unit {0})
  correlate none event = pure tt
  correlate (some path) event =
      if path == ""
      then pure tt
      else do value ← lift (found (lib.search path event)); set_correlation_id value

  unfoldable pub prepare :
      Bool → Option String → Bool → LambdaContext → Json → Json → Op (World App) String (Unit {0})
  unfolding correlate
  prepare log_event correlation_id_path clear_state context event raw_event = do
    cold ← is_cold_start
    let keys : Dict String Json = ("cold_start", bool cold) ∷ context_keys context
    if clear_state then structure_logs false none keys else add_keys keys
    correlate correlation_id_path event
    if log_event then log "INFO" false raw_event [] [] else pure tt

  decorated :
      Option String
      → Bool
      → (Json → LambdaContext → Op (World App) String Json)
      → Result String Bool
      → Result String (LambdaContext → Json → Json → Op (World App) String Json)
  decorated path clear_state handler (raised e) = raised e
  decorated path clear_state handler (ok log_event) = ok λ context event raw_event. (do
    prepare log_event path clear_state context event raw_event
    handler event context)

  -- `inject_lambda_context` of a handler, which may log and change keys itself
  unfoldable pub inject_lambda_context :
      Environment
      → Option Bool
      → Option String
      → Bool
      → (Json → LambdaContext → Op (World App) String Json)
      → Result String (LambdaContext → Json → Json → Op (World App) String Json)
  unfolding decorated
  inject_lambda_context env log_event path clear_state handler =
      decorated path clear_state handler
        (resolve_truthy_env_var_choice lib.lower (or_false env.log_event) log_event)
