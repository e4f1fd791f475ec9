-- ===== src/Logging/Start/OneHandler.antt =====
-- How many handlers a logger gets.
use aws_lambda_powertools_py.Common.{
  String, Bool, true, false, ◌||◌, none, some, List, [], ◌∷◌, ◌≡◌, refl, sym, All, Bool-cases, inl,
  inr, if◌then◌else◌,
}
use aws_lambda_powertools_py.Common.Eq.{◌==◌, string_eq}
use aws_lambda_powertools_py.Common.Dict.{merge}
use aws_lambda_powertools_py.Common.Effect.{Result, ok, raised, pure, lift}
use aws_lambda_powertools_py.Common.Run.{
  Run, returned, threw, Run-chain, Run-gets, Run-implies, Run-final,
}
use aws_lambda_powertools_py.Shared.{resolve_truthy_env_var_choice}
use mathlib.Core.Path.{subst}
use aws_lambda_powertools_py.Logging.Formatter.{Formatter}
use aws_lambda_powertools_py.Logging.Process.{
  Registered, World, Logger, Environment, Library, is_option, any_option, or_false, registered,
  update,
}
use aws_lambda_powertools_py.Logging.Logger.Isolated.{registered-update}
use aws_lambda_powertools_py.Logging.Start.{Arguments, attributes, set_up, init_logger, init}
use aws_lambda_powertools_py.Logging.Start.Elsewhere.{init-Keeps}
use aws_lambda_powertools_py.Logging.Start.Only.{any_option-merge, set_up-Only}

-- A logger that has no handler and that Powertools has not set up, or that Powertools has set up, with
-- one handler that has a formatter.
pub data IsSetUp (l : Registered) : Type 0 where
  untouched : l.init ≡ false → l.handlers ≡ [] → IsSetUp l
  done : (f : Formatter) → l.init ≡ true → l.handlers ≡ some f ∷ [] → IsSetUp l

default_keys-plain :
    (lib : Library) (env : Environment) (caller : String) (a : Arguments)
    → any_option (attributes lib env caller a).default_log_keys ≡ false
unfolding attributes any_option is_option
default_keys-plain lib env caller a = refl

module _ {App : Type 0} (lib : Library) (env : Environment) where
  -- the logger of a given name is set up or untouched
  abbrev At : String → World App → Type 0
  At name w = IsSetUp (registered name w)

  init_logger-At :
      (quiet : Bool) (a : Arguments) (self : Logger) (w : World App)
      → any_option (merge a.keys self.default_log_keys) ≡ false
      → At self.name w
      → Run (λ l t. At self.name t) (λ e t. At self.name t) (init_logger lib quiet a self w)
  unfolding init_logger
  init_logger-At quiet a self w plain at = elim at [
    | done f flag hs ↦ Run-gets _ _ w true flag (kept self.child)
    | untouched flag hs ↦ Run-gets _ _ w false flag (
        unless_child self.child (λ own.
          Run-implies (λ l t (f, only). done f only.flag only.handlers)
            (λ e t only. untouched only.flag only.handlers)
            (set_up-Only lib self own w quiet a w plain
              (record { flag = flag; handlers = hs; elsewhere = λ n other. refl }))))
  ]
    where
      kept :
          (b : Bool)
          → Run
              (λ l t. At self.name t)
              (λ e t. At self.name t)
              ((if b || true then pure self else set_up lib quiet a self) w)
      kept true = unfold pure in returned at
      kept false = unfold pure in returned at

      unless_child :
          (b : Bool)
          → (b ≡ false
              → Run (λ l t. At self.name t) (λ e t. At self.name t) (set_up lib quiet a self w))
          → Run
              (λ l t. At self.name t)
              (λ e t. At self.name t)
              ((if b || false then pure self else set_up lib quiet a self) w)
      unless_child true h = unfold pure in returned at
      unless_child false h = h refl

  -- the logger of the name that the constructor gives
  init-own :
      (caller : String) (a : Arguments) (w : World App)
      → any_option a.keys ≡ false
      → At (attributes lib env caller a).name w
      → At (attributes lib env caller a).name (init lib env caller a w).1
  unfolding init
  init-own caller a w plain at = Run-final (
      Run-chain {Q = λ b t. At (attributes lib env caller a).name t} _ _ w
        (lifted
          (resolve_truthy_env_var_choice lib.lower (or_false env.deduplication_disabled) none))
        λ quiet t at'.
          Run-chain {Q = λ u t. At (attributes lib env caller a).name t} _ _ t (named t at')
            λ _ u at''. init_logger-At quiet a (attributes lib env caller a) u plain_all at'')
    where
      lifted :
          (r : Result String Bool)
          → Run
              (λ b t. At (attributes lib env caller a).name t)
              (λ e t. At (attributes lib env caller a).name t)
              (lift r w)
      lifted (ok b) = unfold lift in returned at
      lifted (raised e) = unfold lift in threw at

      named :
          (t : World App)
          → At (attributes lib env caller a).name t
          → Run
              (λ u v. At (attributes lib env caller a).name v)
              (λ e v. At (attributes lib env caller a).name v)
              (update (attributes lib env caller a).name (λ l. l) t)
      named t at' =
          unfold update in
          returned (
            subst IsSetUp (sym (registered-update (attributes lib env caller a).name (λ l. l) t))
              at')

      plain_all : any_option (merge a.keys (attributes lib env caller a).default_log_keys) ≡ false
      plain_all = any_option-merge a.keys _ plain (default_keys-plain lib env caller a)

  init-At :
      (caller : String) (a : Arguments) (n : String) (w : World App)
      → any_option a.keys ≡ false
      → At n w
      → At n (init lib env caller a w).1
  init-At caller a n w plain at = elim (Bool-cases ((attributes lib env caller a).name == n)) [
    | inl same ↦
        subst (λ i. At i w → At i (init lib env caller a w).1)
          ((string_eq.same_key_iff (attributes lib env caller a).name n).0 same)
          (init-own caller a w plain) at
    | inr other ↦
        subst IsSetUp (sym ((init-Keeps lib n (registered n w) env caller a other).final w refl)) at
  ]

  -- the process after some loggers were made, each from a caller with its arguments
  abbrev pub make_all : List (String × Arguments) → World App → World App
  make_all [] w = w
  make_all ((caller, a) ∷ calls) w = make_all calls (init lib env caller a w).1

  -- Whatever loggers are constructed, of whatever services and levels, parents and children, and also
  -- where a construction raises: a logger of the process that was untouched or set up before is so
  -- afterwards, that is, it has no handler, or its attribute `init` is set and it has exactly one
  -- handler, with a formatter; if no key that is given to a constructor names an option of the
  -- formatter. Nothing is asked of the loggers of other names, such as the package's own logger with
  -- its NullHandler.
  pub make_all-one_handler :
      (calls : List (String × Arguments)) (w : World App) (n : String)
      → All (λ c. any_option c.1.keys ≡ false) calls
      → IsSetUp (registered n w)
      → IsSetUp (registered n (make_all calls w))
  make_all-one_handler [] w n plain at = at
  make_all-one_handler ((caller, a) ∷ calls) w n (plain, rest) at =
      make_all-one_handler calls _ n rest (init-At caller a n w plain at)
