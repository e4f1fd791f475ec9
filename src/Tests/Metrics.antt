-- ===== src/Tests/Metrics.antt =====
-- A manager with two metrics, of which one lacks a single value to be full.
use aws_lambda_powertools_py.Common.{
  ℕ, zero, suc, ◌≡◌, refl, true, false, String, none, some, List, [], ◌∷◌, ◌++◌, if◌then◌else◌,
  arith,
}
use aws_lambda_powertools_py.Common.Eq.{◌==◌, string_eq}
use aws_lambda_powertools_py.Common.Dict.Merge.{HasDistinctKeys}
use aws_lambda_powertools_py.Common.Dict.{contains, get, store}
use aws_lambda_powertools_py.Common.Effect.{Op, ok, raised, ◌>>=◌}
use aws_lambda_powertools_py.Metrics.Error.{Error, escaped}
use aws_lambda_powertools_py.Metrics.Unit.{text, extract_metric_unit_value}
use aws_lambda_powertools_py.Metrics.Manager.{
  Metric, World, Process, number, add_metric, serialize_metric_set,
}
use aws_lambda_powertools_py.Metrics.Manager.Flush.{recorded}
use aws_lambda_powertools_py.Metrics.Manager.Recorded.{add_metric-recorded}
use aws_lambda_powertools_py.Metrics.Manager.Bound.{IsBounded, add_metric-IsBounded}
use aws_lambda_powertools_py.Metrics.Decorator.{Stage, Options, log_metrics, body}
use aws_lambda_powertools_py.Metrics.Decorator.Published.{published, log_metrics-published}

abbrev values_to : ℕ → List ℕ
values_to zero = []
values_to (suc n) = n ∷ values_to n

abbrev fresh_process : Process ℕ
fresh_process = record {
  namespace_env = none;
  service_env = none;
  clock = λ i. i;
  is_cold_start = true;
  printed = [];
}

abbrev orders : Metric ℕ
orders = record { metric_unit = "Count"; metric_values = values_to 99 }

abbrev errors : Metric ℕ
errors = record { metric_unit = "Count"; metric_values = 1 ∷ [] }

abbrev world : World ℕ
world = record {
  self = record {
    metric_set = ("orders", orders) ∷ ("errors", errors) ∷ [];
    dimension_set = ("stage", "prod") ∷ [];
    namespace = some "shop";
    service = some "payment";
    metadata_set = [];
  };
  process = fresh_process;
}

abbrev after : World ℕ
after = (add_metric "orders" (text "Count") (number 7) world).1

add_metric-recorded_example :
    ((add_metric "orders" (text "Count") (number 7) world).0 ≡ ok tt)
    × ((j : String) → recorded j after ≡ recorded j world ++ (if "orders" == j then 7 ∷ [] else []))
    × HasDistinctKeys after.self.metric_set
unfolding extract_metric_unit_value contains
add_metric-recorded_example =
    add_metric-recorded "orders" "Count" "shop" (text "Count") 7 world refl refl
      (λ e. ground (arith, e)) (refl, (refl, tt))

add_metric-IsBounded_example : IsBounded after.self.metric_set
unfolding extract_metric_unit_value
add_metric-IsBounded_example =
    add_metric-IsBounded "orders" "Count" "shop" (text "Count") 7 world refl refl
      (λ e. ground (arith, e)) (omega arith, (omega arith, (omega arith, tt)))

-- the full metric is printed, and the set is empty
flushed_set : after.self.metric_set ≡ []
unfolding add_metric serialize_metric_set store get ◌>>=◌
flushed_set = refl

abbrev stage : Stage ℕ ℕ
stage = record { world = world; default_dimensions = ("stage", "prod") ∷ []; app = 0 }

abbrev options : Options
options = record {
  capture_cold_start_metric = true;
  raise_on_empty_metrics = false;
  given_dimensions = [];
}

-- raises after its work is done
abbrev failing : Op (Stage ℕ ℕ) Error ℕ
failing s = (raised (escaped "ValueError"), record s { app = 1 })

abbrev failed : Stage ℕ ℕ
failed = record stage { app = 1 }

log_metrics-published_example :
    log_metrics 1 "f" options failing stage
    ≡ (raised (escaped "ValueError"), published failed "shop")
unfolding body
log_metrics-published_example =
    log_metrics-published 1 "f" options failing stage failed (raised (escaped "ValueError")) "shop"
      refl refl (λ e. ground (arith, e)) refl (omega arith)
