-- ===== src/Metrics/Manager.antt =====
-- metrics/base.py: `MetricManager` and `SingleMetric`. Floats are a parameter, since the code only
-- keeps and prints them.
pub mod Flush
pub mod Recorded
pub mod Bound
use aws_lambda_powertools_py.Shared.{resolve_env_var_choice}
use aws_lambda_powertools_py.Common.{
  ℕ, suc, String, Bool, true, false, Option, none, some, List, [], ◌∷◌, ◌++◌, ◌||◌, ◌&&◌, not, map,
  length, is_empty, eqb, if◌then◌else◌,
}
use aws_lambda_powertools_py.Common.Eq.{◌==◌, string_eq}
use aws_lambda_powertools_py.Common.Dict.{Dict, get, store, merge}
use aws_lambda_powertools_py.Common.Effect.{
  Op, Result, ok, raised, pure, raise, lift, gets, attempt, modify, ◌>>=◌, ◌>>◌,
}
use aws_lambda_powertools_py.Common.Json.{Json}
use aws_lambda_powertools_py.Metrics.Error.{Error, metric_value_error, schema_validation_error}
use aws_lambda_powertools_py.Metrics.Unit.{UnitArgument, extract_metric_unit_value}

-- MAX_METRICS
abbrev pub max_metrics : ℕ
max_metrics = 100

-- MAX_DIMENSIONS
abbrev pub max_dimensions : ℕ
max_dimensions = 29

-- An entry of `metric_set`: "Unit" and "Value".
pub record Metric (Float : Type 0) : Type 0 where
  pub metric_unit : String
  pub metric_values : List Float

-- The value under "_aws": "CloudWatchMetrics" has one element, and its "Dimensions" has one.
pub record Aws : Type 0 where
  pub timestamp : ℕ
  pub cloud_watch_namespace : String
  pub dimensions : List String
  pub metrics : List (String × String)

-- A value of an object in the embedded metric format.
pub data Field (Float : Type 0) : Type 0 where
  aws : Aws → Field Float
  dimension : String → Field Float
  metadata : Json → Field Float
  values : List Float → Field Float

abbrev pub Blob : Type 0 → Type 0
Blob Float = Dict String (Field Float)

pub record Manager (Float : Type 0) : Type 0 where
  pub metric_set : Dict String (Metric Float)
  pub dimension_set : Dict String String
  pub namespace : Option String
  pub service : Option String
  pub metadata_set : Dict String Json

-- What all managers share: the environment variables, the clock's readings to come in milliseconds,
-- the global flag, and the lines that were printed. The line for `None` is `none`.
pub record Process (Float : Type 0) : Type 0 where
  pub namespace_env : Option String
  pub service_env : Option String
  pub clock : ℕ → ℕ
  pub is_cold_start : Bool
  pub printed : List (Option (Blob Float))

pub record World (Float : Type 0) : Type 0 where
  pub self : Manager Float
  pub process : Process Float

-- The value that `add_metric` takes, by `isinstance(value, numbers.Number)`.
pub data ValueArgument (Float : Type 0) : Type 0 where
  number : Float → ValueArgument Float
  not_a_number : ValueArgument Float

-- `x.get(...)` of texts, as a condition
abbrev pub is_set : Option String → Bool
is_set none = false
is_set (some s) = not (s == "")

module _ {Float : Type 0} where
  -- `__init__` with sets of its own
  unfoldable pub init : Option String → Option String → Process Float → Manager Float
  init namespace service process = record {
    metric_set = [];
    dimension_set = [];
    namespace = resolve_env_var_choice process.namespace_env namespace;
    service = resolve_env_var_choice process.service_env service;
    metadata_set = [];
  }

  abbrev pub on_self : (Manager Float → Manager Float) → World Float → World Float
  on_self f w = record w { self = f w.self }

  -- The argument is `str(value)`, which is the value itself for a text.
  unfoldable pub add_dimension : String → String → Op (World Float) Error (Unit {0})
  add_dimension name value w =
      if eqb (length w.self.dimension_set) max_dimensions
      then (raised schema_validation_error, w)
      else (ok tt, on_self (λ m. record m { dimension_set = store name value m.dimension_set }) w)

  -- The key is `str(key)`.
  unfoldable pub add_metadata : String → Json → World Float → World Float
  add_metadata key value = on_self (λ m. record m { metadata_set = store key value m.metadata_set })

  unfoldable pub clear_metrics : Manager Float → Manager Float
  clear_metrics m = record m { metric_set = []; dimension_set = []; metadata_set = [] }

  -- int(datetime.datetime.now().timestamp() * 1000)
  unfoldable pub now : World Float → ℕ × World Float
  now w = (
    w.process.clock 0,
    record w { process = record w.process { clock = λ i. w.process.clock (suc i) } },
  )

  -- print(json.dumps(...))
  unfoldable pub print : Option (Blob Float) → World Float → World Float
  print line w = record w {
    process = record w.process { printed = w.process.printed ++ line ∷ [] };
  }

  abbrev pub aws_entry : Manager Float → String → ℕ → Aws
  aws_entry m ns ms = record {
    timestamp = ms;
    cloud_watch_namespace = ns;
    dimensions = map (λ q. q.0) m.dimension_set;
    metrics = map (λ q. (q.0, q.1.metric_unit)) m.metric_set;
  }

  -- The object: the dimensions, the metadata and the values are stored over it in this order.
  unfoldable pub emf : Manager Float → String → ℕ → Blob Float
  emf m ns ms = merge (map (λ q. (q.0, values q.1.metric_values)) m.metric_set) (
      merge (map (λ q. (q.0, metadata q.1)) m.metadata_set) (
        merge (map (λ q. (q.0, dimension q.1)) m.dimension_set)
          (("_aws", aws (aws_entry m ns ms)) ∷ [])))

  -- the dimension for the service, unless it has one that is not empty
  add_service : Option String → Option String → Op (World Float) Error (Unit {0})
  unfolding add_dimension
  add_service none old = pure tt
  add_service (some s) old =
      if not (s == "") && not (is_set old) then add_dimension "service" s else pure tt

  serialize_in : Option String → Op (World Float) Error (Blob Float)
  unfolding emf now
  serialize_in none w = (raised schema_validation_error, w)
  serialize_in (some ns) w = let (ms, v) = now w in (ok (emf w.self ns ms), v)

  -- `serialize_metric_set` without arguments
  unfoldable pub serialize_metric_set : Op (World Float) Error (Blob Float)
  unfolding add_service serialize_in ◌>>=◌
  serialize_metric_set = do
    m ← gets (λ w. w.self)
    add_service m.service (get "service" m.dimension_set)
    if is_empty m.metric_set then raise schema_validation_error else serialize_in m.namespace

  -- the entry at `name` with one more value, or a new one
  appended : Option (Metric Float) → String → Float → Metric Float
  appended none u x = record { metric_unit = u; metric_values = x ∷ [] }
  appended (some metric) u x = record {
    metric_unit = u;
    metric_values = metric.metric_values ++ x ∷ [];
  }

  is_full : Dict String (Metric Float) → Metric Float → Bool
  is_full set metric = eqb (length set) max_metrics || eqb (length metric.metric_values) max_metrics

  pub flush : Op (World Float) Error (Unit {0})
  unfolding print
  flush = do
    blob ← serialize_metric_set
    modify (print (some blob))
    modify (on_self (λ m. record m { metric_set = [] }))

  add_value : String → String → Float → Op (World Float) Error (Unit {0})
  unfolding appended is_full flush
  add_value name u x = do
    m ← gets (λ w. w.self)
    let metric : Metric Float = appended (get name m.metric_set) u x
    modify (on_self (λ n. record n { metric_set = store name metric n.metric_set }))
    if is_full (store name metric m.metric_set) metric then flush else pure tt

  unfoldable pub add_metric :
      String → UnitArgument → ValueArgument Float → Op (World Float) Error (Unit {0})
  unfolding add_value extract_metric_unit_value
  add_metric name unit_argument not_a_number = raise metric_value_error
  add_metric name unit_argument (number x) = do
    u ← lift (extract_metric_unit_value unit_argument)
    add_value name u x

  -- `SingleMetric.add_metric`: a second metric is skipped.
  unfoldable pub add_single_metric :
      String → UnitArgument → ValueArgument Float → Op (World Float) Error (Unit {0})
  unfolding add_metric
  add_single_metric name unit_argument x = do
    m ← gets (λ w. w.self)
    if is_empty m.metric_set then add_metric name unit_argument x else pure tt

  -- the `finally` of `single_metric`: `None` is printed where no object was made
  print_single : Result Error (Blob Float) × World Float → Result Error (Unit {0}) × Process Float
  unfolding print
  print_single (ok blob, w) = (ok tt, (print (some blob) w).process)
  print_single (raised e, w) = (raised e, (print none w).process)

  -- `with single_metric(...) as metric: body`
  unfoldable pub single_metric :
      String
      → UnitArgument
      → ValueArgument Float
      → Option String
      → Op (World Float) Error (Unit {0})
      → Op (Process Float) Error (Unit {0})
  unfolding print_single init add_single_metric serialize_metric_set ◌>>=◌
  single_metric name unit_argument x namespace body p = print_single (
      (add_single_metric name unit_argument x >> (body >> serialize_metric_set))
        (record { self = init namespace none p; process = p }))

  -- `reset_cold_start_flag`
  unfoldable pub reset_cold_start_flag : Process Float → Process Float
  reset_cold_start_flag p = record p { is_cold_start = true }
