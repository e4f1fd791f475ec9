-- ===== src/Logging/Start/Elsewhere.antt =====
-- The construction of a logger that is no child leaves every logger of another name as it is.
use aws_lambda_powertools_py.Common.{
  String, Bool, true, [], ◌∷◌, ◌++◌, false, refl, ◌||◌, Option, List, ◌≡◌, ap, ◌∙◌, if◌then◌else◌,
}
use aws_lambda_powertools_py.Common.Eq.{◌==◌, string_eq}
use aws_lambda_powertools_py.Common.Dict.{Dict}
use aws_lambda_powertools_py.Common.Json.{Json}
use aws_lambda_powertools_py.Common.Effect.{pure, modify}
use aws_lambda_powertools_py.Common.Invariant.{Preserves, Preserves-bind, Preserves-if, preserving}
use aws_lambda_powertools_py.Logging.Formatter.{Formatter}
use aws_lambda_powertools_py.Logging.Process.{
  Level, Environment, Registered, World, Logger, Library, registered, update, with_first,
}
use aws_lambda_powertools_py.Logging.Logger.{
  handler_name, registered_formatter, set_formatter, on_formatter, add_keys, has_handler, register,
  structure_logs,
}
use aws_lambda_powertools_py.Logging.Logger.Isolated.{own_name}
use aws_lambda_powertools_py.Logging.Start.{
  Arguments, set_level, add_handler, suppress, set_up, init_logger, attributes, init,
}
use aws_lambda_powertools_py.Logging.Start.Only.{registered-update_other}

-- a logger of a process is given
abbrev pub Keeps : {App : Type 0} → String → Registered → World App → Type 0
Keeps n l w = registered n w ≡ l

module _ {App : Type 0} (n : String) (l : Registered) where
  pub update-Keeps :
      (name : String) (f : Registered → Registered)
      → (name == n) ≡ false
      → Preserves (Keeps {App = App} n l) (update name f)
  update-Keeps name f other = record { final = λ w h. registered-update_other name n f w other ∙ h }

  suppress-Keeps :
      (lib : Library) (service : String) → Preserves (Keeps {App = App} n l) (suppress lib service)
  unfolding suppress registered modify
  suppress-Keeps lib service = record { final = λ w h. h }

module _ {App : Type 0} (lib : Library) (self : Logger) (n : String) (l : Registered)
    (first : (handler_name lib self == n) ≡ false) where
  registered_formatter-Keeps : Preserves (Keeps {App = App} n l) (registered_formatter lib self)
  unfolding registered_formatter
  registered_formatter-Keeps = record { final = λ w h. h }

  has_handler-Keeps : Preserves (Keeps {App = App} n l) (has_handler lib self)
  unfolding has_handler
  has_handler-Keeps = record { final = λ w h. h }

  set_formatter-Keeps :
      (f : Formatter) → Preserves (Keeps {App = App} n l) (set_formatter lib self f)
  unfolding set_formatter
  set_formatter-Keeps f =
      update-Keeps n l _ (λ r. record r { handlers = with_first f r.handlers }) first

  on_formatter-Keeps :
      (change : Formatter → Formatter)
      → Preserves (Keeps {App = App} n l) (on_formatter lib self change)
  unfolding on_formatter
  on_formatter-Keeps change = search (preserving, registered_formatter-Keeps, set_formatter-Keeps)

  add_keys-Keeps :
      (keys : Dict String Json) → Preserves (Keeps {App = App} n l) (add_keys lib self keys)
  unfolding add_keys
  add_keys-Keeps keys = on_formatter-Keeps _

  register-Keeps :
      (options : Option (Option (List String))) (keys : Dict String Json)
      → Preserves (Keeps {App = App} n l) (register lib self options keys)
  unfolding register
  register-Keeps options keys =
      search (preserving, has_handler-Keeps, set_formatter-Keeps, add_keys-Keeps) depth 12

  structure_logs-Keeps :
      (append : Bool) (options : Option (Option (List String))) (keys : Dict String Json)
      → Preserves (Keeps {App = App} n l) (structure_logs lib self append options keys)
  unfolding structure_logs
  structure_logs-Keeps append options keys =
      search (preserving, register-Keeps, on_formatter-Keeps, add_keys-Keeps) depth 12

module _ {App : Type 0} (lib : Library) (n : String) (l : Registered) where
  set_level-Keeps :
      (name : String) (level : Level)
      → (name == n) ≡ false
      → Preserves (Keeps {App = App} n l) (set_level lib name level)
  unfolding set_level
  set_level-Keeps name level other = search (preserving, update-Keeps)

  add_handler-Keeps :
      (name : String) (handler : Option Formatter)
      → (name == n) ≡ false
      → Preserves (Keeps {App = App} n l) (add_handler lib name handler)
  unfolding add_handler
  add_handler-Keeps name handler other =
      update-Keeps n l _ (λ r. record r { handlers = r.handlers ++ handler ∷ [] }) other

  set_up-Keeps :
      (quiet : Bool) (a : Arguments) (self : Logger)
      → (self.name == n) ≡ false
      → (handler_name lib self == n) ≡ false
      → Preserves (Keeps {App = App} n l) (set_up lib quiet a self)
  unfolding set_up
  set_up-Keeps quiet a self other first =
      search
        (
          preserving, set_level-Keeps, add_handler-Keeps, structure_logs-Keeps, suppress-Keeps,
          update-Keeps,
        )
        depth 24

  init_logger-Keeps :
      (quiet : Bool) (a : Arguments) (self : Logger)
      → (self.name == n) ≡ false
      → Preserves (Keeps {App = App} n l) (init_logger lib quiet a self)
  unfolding init_logger
  init_logger-Keeps quiet a self other =
      Preserves-bind _ _ (search preserving)
        λ preconfigured. unless_child self.child preconfigured refl
    where
      unless_child :
          (b preconfigured : Bool)
          → self.child ≡ b
          → Preserves
              (Keeps {App = App} n l)
              (if b || preconfigured then pure self else set_up lib quiet a self)
      unless_child true preconfigured own = search preserving
      unless_child false preconfigured own =
          Preserves-if preconfigured _ _ (search preserving)
            (set_up-Keeps quiet a self other (ap (λ m. m == n) (own_name lib self own) ∙ other))

  pub init-Keeps :
      (env : Environment) (caller : String) (a : Arguments)
      → ((attributes lib env caller a).name == n) ≡ false
      → Preserves (Keeps {App = App} n l) (init lib env caller a)
  unfolding init
  init-Keeps env caller a other = search (preserving, update-Keeps, init_logger-Keeps) depth 12
