-- ===== src/Tests/Logger.antt =====
-- A logger of a service, its child, and a Lambda handler under the decorator.
use aws_lambda_powertools_py.Common.{String, true, false, none, some, List, [], ◌∷◌, ◌≡◌, refl}
use aws_lambda_powertools_py.Common.Eq.{string_eq}
use aws_lambda_powertools_py.Common.Dict.{get, store, merge}
use aws_lambda_powertools_py.Common.Effect.{ok, raised, ◌>>=◌}
use aws_lambda_powertools_py.Common.Json.{null, str}
use aws_lambda_powertools_py.Common.Run.{Run}
use aws_lambda_powertools_py.Shared.{resolve_truthy_env_var_choice, strtobool}
use aws_lambda_powertools_py.Logging.Formatter.{Formatter, new_formatter, append_keys, remove_keys}
use aws_lambda_powertools_py.Logging.Formatter.Reset.{same, appended_to, removed_from}
use aws_lambda_powertools_py.Logging.Process.{
  named, World, Logger, Environment, Library, LambdaContext, fresh, registered, update, is_option,
  any_option, custom_keys, formatter_with, get_log_level,
}
use aws_lambda_powertools_py.Logging.Logger.{
  formatter_for, registered_formatter, set_formatter, on_formatter, add_keys, has_handler, register,
  structure_logs, prepare,
}
use aws_lambda_powertools_py.Logging.Logger.Isolated.{
  Has, invocation_keys, identified, prepare-isolated,
}
use aws_lambda_powertools_py.Logging.Start.{
  Arguments, attributes, configure_sampling, set_up, init_logger, init, filter,
}
use aws_lambda_powertools_py.Common.{All}
use aws_lambda_powertools_py.Common.Run.{Never}
use aws_lambda_powertools_py.Common.Eq.{◌==◌}
use aws_lambda_powertools_py.Common.Split.{split, lacks}
use aws_lambda_powertools_py.Logging.Start.{known}
use aws_lambda_powertools_py.Logging.Copy.{
  excluded, is_selected, find_registered_loggers, given_level, copy_config_to_registered_loggers,
}
use aws_lambda_powertools_py.Logging.Caller.{
  Frame, is_internal_frame, external, find_caller, find_caller-external,
}
use aws_lambda_powertools_py.Logging.Copy.Same.{with_name, IsCopied}
use aws_lambda_powertools_py.Logging.Copy.Selected.{copy_config-IsCopied}
use aws_lambda_powertools_py.Logging.Start.OneHandler.{
  IsSetUp, untouched, make_all, make_all-one_handler,
}

abbrev library : Library
library = record {
  lower = λ s. s;
  upper = λ s. s;
  parent = λ s. "order";
  knows_level = λ s. true;
  search = λ path event. some (str "id-1");
}

abbrev env : Environment
env = record {
  service_name = none;
  sample_rate = none;
  deduplication_disabled = none;
  log_level = none;
  log_event = none;
}

abbrev order : Arguments
order = record {
  service = some "order";
  level = some (named "INFO");
  child = false;
  sampling_rate = none;
  logger_formatter = none;
  handler = none;
  log_record_order = none;
  keys = ("team", str "a") ∷ [];
}

abbrev empty : World (Unit {0})
empty = record {
  loggers = [];
  root_filters = [] ∷ [];
  entries = [];
  is_cold_start = true;
  app = tt;
}

-- the same service twice, and a child of it
abbrev calls : List (String × Arguments)
calls = ("app", order) ∷ ("lib", record order { child = true }) ∷ ("app", order) ∷ []

-- a process that has imported the package, which gives its own logger a handler without formatter
abbrev imported : World (Unit {0})
imported = record empty {
  loggers =
      ("aws_lambda_powertools", record fresh { handlers = none ∷ []; propagate = false }) ∷ [];
}

abbrev started : World (Unit {0})
started = make_all library env calls imported

opened : Unit {0}
unfolding init init_logger set_up attributes configure_sampling structure_logs register
    formatter_for formatter_with has_handler set_formatter on_formatter registered_formatter
    add_keys update registered new_formatter append_keys any_option custom_keys is_option
    get_log_level resolve_truthy_env_var_choice strtobool merge store get ◌>>=◌
opened = tt

one_handler_test :
    ((registered "order" started).init ≡ true) × (started.root_filters ≡ ("order" ∷ []) ∷ [])
unfolding opened
one_handler_test = (refl, refl)

-- a service's filter drops the records of another logger whose name has the service's in it
filter_test : filter "order" "reorder" ≡ false
unfolding filter
filter_test = refl

make_all-one_handler_example : IsSetUp (registered "order" started)
unfolding any_option is_option
make_all-one_handler_example =
    make_all-one_handler library env calls imported "order" (refl, (refl, (refl, tt)))
      (unfold registered in unfold get in untouched refl refl)

abbrev self : Logger
self = record {
  service = "order";
  name = "order";
  child = false;
  sampling_rate = none;
  log_level = named "INFO";
  logger_formatter = none;
  default_log_keys = ("service", str "order") ∷ [];
}

abbrev context : LambdaContext
context = record {
  function_name = str "f";
  memory_limit_in_mb = str "128";
  invoked_function_arn = str "arn";
  aws_request_id = str "r";
}

-- the formatter after an invocation that left a key and took one away
abbrev used : Formatter
used =
    remove_keys ("team" ∷ [])
      (append_keys (("user", str "u") ∷ []) (new_formatter none (("team", str "a") ∷ [])))

abbrev warm : World (Unit {0})
warm = record empty {
  loggers = ("order", record fresh { init = true; handlers = some used ∷ [] }) ∷ [];
}

warm-Has : Has self used warm
unfolding registered get
warm-Has = record { others = []; set_up = refl; first = refl }

prepare-isolated_example :
    Run
      (λ u t.
        (g : Formatter) × (identified library (some "id") null (
            append_keys
              (invocation_keys self true context)
              (new_formatter none (("team", str "a") ∷ [])))
          ≡ ok g)
        × Has self g t)
      (λ e t.
        identified library (some "id") null (
          append_keys
            (invocation_keys self true context)
            (new_formatter none (("team", str "a") ∷ [])))
        ≡ raised e)
      (prepare library self true (some "id") true context null null warm)
prepare-isolated_example =
    prepare-isolated library self refl none (("team", str "a") ∷ []) used warm true (some "id")
      context null null (removed_from ("team" ∷ []) (appended_to (("user", str "u") ∷ []) same))
      warm-Has

-- two loggers that the setup of `order` is copied to, and a child of one
abbrev others : World (Unit {0})
others = record empty {
  loggers =
      (
        "order",
        record fresh { init = true; level = some (named "INFO"); handlers = some used ∷ [] },
      )
      ∷ ("boto3", record fresh { handlers = none ∷ [] })
      ∷ ("boto3.session", fresh)
      ∷ ("urllib3", fresh)
      ∷ [];
}

abbrev chosen : List String
chosen = find_registered_loggers [] (excluded self ("urllib3" ∷ [])) others.loggers

chosen_test : chosen ≡ "boto3" ∷ []
unfolding find_registered_loggers excluded is_selected split lacks
chosen_test = refl

copy_config-IsCopied_example :
    Run
      (λ u v.
        All
          (λ n.
            IsCopied
              (given_level none (registered "order" others).level)
              (some (with_name used) ∷ [])
              (registered n v)
            × ((self.name == n) ≡ false))
          chosen)
      (Never {A = String})
      (copy_config_to_registered_loggers library self none ("urllib3" ∷ []) [] others)
unfolding registered get lacks known given_level
copy_config-IsCopied_example =
    copy_config-IsCopied library self refl none ("urllib3" ∷ []) [] used [] others refl refl refl

abbrev app_frame : Frame
app_frame = record { filename = "app.py"; lineno = 7; function = "handler" }

abbrev logging_frame : Frame
logging_frame = record { filename = "logging.py"; lineno = 90; function = "info" }

find_caller-external_example :
    find_caller "logging.py"
      (λ f. "stack")
      true
      1
      (logging_frame ∷ logging_frame ∷ app_frame ∷ app_frame ∷ [])
    ≡ (("app.py", 7, "handler"), some "stack")
unfolding external is_internal_frame
find_caller-external_example =
    find_caller-external "logging.py" (λ f. "stack") true 0 logging_frame app_frame
      (logging_frame ∷ app_frame ∷ app_frame ∷ []) refl
