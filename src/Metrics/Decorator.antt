-- ===== src/Metrics/Decorator.antt =====
-- metrics/metrics.py: `Metrics`, and `log_metrics` of metrics/base.py on it.
pub mod Published
use aws_lambda_powertools_py.Shared.{resolve_env_var_choice}
use aws_lambda_powertools_py.Common.{
  ℕ, String, Bool, true, false, Option, none, some, ◌&&◌, not, is_empty, if◌then◌else◌, [], ◌∷◌,
}
use aws_lambda_powertools_py.Common.Eq.{◌==◌, string_eq}
use aws_lambda_powertools_py.Common.Dict.{Dict, merge}
use aws_lambda_powertools_py.Common.Effect.{
  Op, Result, ok, raised, pure, lift, gets, attempt, modify, ◌>>=◌, ◌>>◌,
}
use aws_lambda_powertools_py.Metrics.Error.{Error}
use aws_lambda_powertools_py.Metrics.Unit.{MetricUnit, count, unit}
use aws_lambda_powertools_py.Metrics.Manager.{
  Manager, Process, World, number, is_set, add_dimension, clear_metrics, print,
  serialize_metric_set, single_metric, on_self,
}

-- A manager of the class `Metrics` with `default_dimensions`, and what the handler works on.
pub record Stage (Float App : Type 0) : Type 0 where
  pub world : World Float
  pub default_dimensions : Dict String String
  pub app : App

-- The arguments of `log_metrics`; no default dimensions are the empty dictionary.
pub record Options : Type 0 where
  pub capture_cold_start_metric : Bool
  pub raise_on_empty_metrics : Bool
  pub given_dimensions : Dict String String

-- what is left of `try: body finally: block`
abbrev pub leave : {A : Type 0} → Result Error A → Result Error (Unit {0}) → Result Error A
leave r (ok _) = r
leave r (raised e) = raised e

module _ {Float : Type 0} where
  -- the body of the `with` block of `_add_cold_start_metric`
  cold_start_body : String → Option String → Op (World Float) Error (Unit {0})
  unfolding add_dimension ◌>>=◌
  cold_start_body function_name none = do
    add_dimension "function_name" function_name
    modify (λ w. record w { process = record w.process { is_cold_start = false } })
  cold_start_body function_name (some service) = do
    add_dimension "function_name" function_name
    (if service == "" then pure tt else add_dimension "service" service)
    modify (λ w. record w { process = record w.process { is_cold_start = false } })

module _ {Float App : Type 0} where
  -- an operation of the manager
  on_world : {A : Type 0} → Op (World Float) Error A → Op (Stage Float App) Error A
  on_world op s = let (r, w) = op s.world in (r, record s { world = w })

  -- `__init__` of one more instance, over the sets that all instances share
  unfoldable pub init : Option String → Option String → Stage Float App → Stage Float App
  unfolding merge
  init service namespace s = record s {
    world =
        on_self
          (λ m. record m {
            dimension_set = merge s.default_dimensions m.dimension_set;
            namespace = resolve_env_var_choice s.world.process.namespace_env namespace;
            service = resolve_env_var_choice s.world.process.service_env service;
          })
          s.world;
  }

  add_each : Dict String String → Op (Stage Float App) Error (Unit {0})
  unfolding on_world add_dimension ◌>>=◌
  add_each [] = pure tt
  add_each ((name, value) ∷ dimensions) = do
    on_world (add_dimension name value)
    add_each dimensions

  unfoldable pub set_default_dimensions : Dict String String → Op (Stage Float App) Error (Unit {0})
  unfolding add_each
  set_default_dimensions dimensions = do
    add_each dimensions
    modify (λ s. record s { default_dimensions = merge dimensions s.default_dimensions })

  unfoldable pub clear_default_dimensions : Stage Float App → Stage Float App
  clear_default_dimensions s = record s { default_dimensions = [] }

  -- `Metrics.clear_metrics`
  unfoldable pub clear_all : Op (Stage Float App) Error (Unit {0})
  unfolding set_default_dimensions clear_metrics
  clear_all = do
    modify (λ s. record s { world = on_self clear_metrics s.world })
    s ← gets (λ s. s)
    set_default_dimensions s.default_dimensions

  on_process : Op (Process Float) Error (Unit {0}) → Op (Stage Float App) Error (Unit {0})
  on_process op s =
      let (r, p) = op s.world.process in (r, record s { world = record s.world { process = p } })

  -- `_add_cold_start_metric`; `one` is the number 1 and `function_name` that of the context.
  unfoldable pub add_cold_start_metric : Float → String → Op (Stage Float App) Error (Unit {0})
  unfolding cold_start_body on_process single_metric ◌>>=◌
  add_cold_start_metric one function_name = do
    s ← gets (λ s. s)
    if s.world.process.is_cold_start
        then on_process (
            single_metric "ColdStart" (unit count) (number one) s.world.self.namespace
              (cold_start_body function_name s.world.self.service))
        else pure tt

  -- the `finally` block of the decorator
  publish : Bool → Op (Stage Float App) Error (Unit {0})
  unfolding on_world serialize_metric_set clear_all print
  publish raise_on_empty = do
    s ← gets (λ s. s)
    if not raise_on_empty && is_empty s.world.self.metric_set then pure tt else (do
      blob ← on_world serialize_metric_set
      clear_all
      modify (λ t. record t { world = print (some blob) t.world }))

  -- the `try` block of the decorator
  unfoldable pub body :
      {A : Type 0}
      → Float
      → String
      → Options
      → Op (Stage Float App) Error A
      → Op (Stage Float App) Error A
  unfolding set_default_dimensions add_cold_start_metric ◌>>=◌
  body one function_name options lambda_handler = do
    (if is_empty options.given_dimensions
        then pure tt
        else set_default_dimensions options.given_dimensions)
    response ← lambda_handler
    (if options.capture_cold_start_metric then add_cold_start_metric one function_name else pure tt)
    pure response

  -- `log_metrics` over `lambda_handler`
  unfoldable pub log_metrics :
      {A : Type 0}
      → Float
      → String
      → Options
      → Op (Stage Float App) Error A
      → Op (Stage Float App) Error A
  unfolding body publish ◌>>=◌
  log_metrics one function_name options lambda_handler = do
    r ← attempt (body one function_name options lambda_handler)
    c ← attempt (publish options.raise_on_empty_metrics)
    lift (leave r c)
