-- ===== src/Logging/Copy.antt =====
-- logging/utils.py: the setup of a logger copied to other loggers. Handlers are values here; that the
-- loggers share the source's handlers afterwards is left out, and so are the debug messages.
pub mod Same
pub mod Selected
use Prim.Native.Char.{Char}
use aws_lambda_powertools_py.Common.{
  String, Bool, true, false, not, ◌&&◌, ◌||◌, Option, none, some, List, [], ◌∷◌, ◌++◌, any,
  is_empty, eqb, if◌then◌else◌,
}
use aws_lambda_powertools_py.Common.Eq.{◌==◌, string_eq}
use aws_lambda_powertools_py.Common.Dict.{Dict}
use aws_lambda_powertools_py.Common.Effect.{Op, pure, gets, ◌>>=◌, ◌>>◌}
use aws_lambda_powertools_py.Common.Json.{str}
use aws_lambda_powertools_py.Common.Split.{split, lacks}
use aws_lambda_powertools_py.Logging.Process.{
  Level, number, named, Registered, World, Logger, Library, registered, update,
}
use aws_lambda_powertools_py.Logging.Logger.{add_keys}
use aws_lambda_powertools_py.Logging.Start.{set_level}

-- PACKAGE_LOGGER
abbrev pub package_logger : String
package_logger = "aws_lambda_powertools"

abbrev pub dot : Char
dot = "."

unfoldable pub head_of : List String → String
head_of [] = ""
head_of (p ∷ ps) = p

-- The names that are left out, by those given; `exclude` is empty where the source has None.
unfoldable pub excluded : Logger → List String → List String
unfolding head_of
excluded self exclude = exclude ++ head_of (split dot self.name) ∷ package_logger ∷ []

-- The caller's own set after the call: where it is not empty, the names are put into it in place. As
-- the code reads it no more, it is no part of the state below.
unfoldable pub callers_exclude : Logger → List String → List String
unfolding excluded
callers_exclude self exclude = if is_empty exclude then exclude else excluded self exclude

unfoldable pub is_in : List String → String → Bool
is_in names name = any (λ n. n == name) names

-- the two filters; `include` is empty where the source has None
unfoldable pub is_selected : List String → List String → String → Bool
unfolding is_in
is_selected include exclude name =
    lacks dot name && not (is_in exclude name) && (is_empty include || is_in include name)

-- `_find_registered_loggers`, of the names in the registry
unfoldable pub find_registered_loggers :
    List String → List String → Dict String Registered → List String
find_registered_loggers include exclude [] = []
find_registered_loggers include exclude ((name, l) ∷ loggers) =
    let rest = find_registered_loggers include exclude loggers in
    if is_selected include exclude name then name ∷ rest else rest

-- log_level or source_logger.level
or_not_set : Option Level → Level
or_not_set none = number 0
or_not_set (some level) = level

unfoldable pub given_level : Option Level → Option Level → Level
unfolding or_not_set
given_level none level = or_not_set level
given_level (some (number n)) level = if eqb n 0 then or_not_set level else number n
given_level (some (named s)) level = if s == "" then or_not_set level else named s

module _ {App : Type 0} (lib : Library) (self : Logger) where
  -- `_configure_logger`
  unfoldable pub configure_logger : Level → String → Op (World App) String (Unit {0})
  configure_logger level name = do
    update name (λ l. record l { handlers = [] })
    set_level lib name level
    update name (λ l. record l { propagate = false })
    add_keys lib self (("name", str "%(name)s") ∷ [])
    handlers ← gets (λ w. (registered self.name w).handlers)
    update name (λ l. record l { handlers = l.handlers ++ handlers })

  unfoldable pub configure_each : Level → List String → Op (World App) String (Unit {0})
  configure_each level [] = pure tt
  configure_each level (name ∷ names) = do configure_logger level name; configure_each level names

  -- `copy_config_to_registered_loggers`
  unfoldable pub copy_config_to_registered_loggers :
      Option Level → List String → List String → Op (World App) String (Unit {0})
  unfolding configure_each given_level
  copy_config_to_registered_loggers log_level exclude include = do
    source ← gets (registered self.name)
    loggers ← gets (λ w. w.loggers)
    configure_each (given_level log_level source.level)
        (find_registered_loggers include (excluded self exclude) loggers)
