-- ===== src/Metrics/Manager/Bound.antt =====
-- The limit of 100: the set of metrics after `add_metric`.
use aws_lambda_powertools_py.Common.{
  ◌+◌, ◌≤◌, String, Bool, true, false, Option, none, some, [], ◌∷◌, length, is_empty, All,
  if◌then◌else◌, ◌≡◌, ◌≢◌, refl, arith, length-append,
}
use aws_lambda_powertools_py.Common.Eq.{string_eq}
use aws_lambda_powertools_py.Common.Dict.{Dict, get, store, length-store}
use aws_lambda_powertools_py.Common.Dict.Merge.{store-All, get-All}
use aws_lambda_powertools_py.Common.Effect.{ok, lift, pure, ◌>>=◌, >>=-ok}
use aws_lambda_powertools_py.Metrics.Unit.{UnitArgument, extract_metric_unit_value}
use aws_lambda_powertools_py.Metrics.Manager.{
  Metric, World, number, max_dimensions, max_metrics, appended, is_full, add_value, add_metric,
  flush,
}
use aws_lambda_powertools_py.Metrics.Manager.Flush.{flush-eq}
use aws_lambda_powertools_py.Metrics.Manager.Recorded.{stored, filled_store}

module _ {Float : Type 0} where
  abbrev pub IsBounded : Dict String (Metric Float) → Type 0
  IsBounded set =
      (length set + 1 ≤ max_metrics) × All (λ q. length q.1.metric_values + 1 ≤ max_metrics) set

  AreFew : Option (Metric Float) → Type 0
  AreFew none = Unit
  AreFew (some metric) = length metric.metric_values + 1 ≤ max_metrics

  length-appended :
      (o : Option (Metric Float)) (u : String) (x : Float)
      → AreFew o
      → length (appended o u x).metric_values ≤ max_metrics
  unfolding add_metric AreFew
  length-appended none u x h = omega arith
  length-appended (some metric) u x h =
      omega (arith, length-append metric.metric_values (x ∷ []), h)

  settle-IsBounded :
      (full : Bool) (v : World Float) (ns : String)
      → v.self.namespace ≡ some ns
      → length v.self.dimension_set ≢ max_dimensions
      → is_empty v.self.metric_set ≡ false
      → (full ≡ false → IsBounded v.self.metric_set)
      → IsBounded ((if full then flush else pure tt) v).1.self.metric_set
  unfolding pure
  settle-IsBounded false v ns h room filled bound = bound refl
  settle-IsBounded true v ns h room filled bound =
      rw (flush-eq v ns h room filled) (omega arith, tt)

  open_set :
      (name : String) (metric : Metric Float) (d : Dict String (Metric Float))
      → IsBounded d
      → length metric.metric_values ≤ max_metrics
      → is_full (store name metric d) metric ≡ false
      → IsBounded (store name metric d)
  unfolding add_metric
  open_set name metric d (size, each) small not_full = (
    ground (arith, length-store name metric d, not_full, size),
    store-All _ name metric d (λ k. ground (arith, small, not_full)) each,
  )

  add_value-IsBounded :
      (name u ns : String) (x : Float) (w : World Float)
      → w.self.namespace ≡ some ns
      → length w.self.dimension_set ≢ max_dimensions
      → IsBounded w.self.metric_set
      → IsBounded (add_value name u x w).1.self.metric_set
  unfolding add_metric AreFew ◌>>=◌
  add_value-IsBounded name u ns x w h room bound =
      let metric = appended (get name w.self.metric_set) u x in
      settle-IsBounded (is_full (store name metric w.self.metric_set) metric) (stored name metric w)
        ns h room (filled_store name metric w.self.metric_set)
        (open_set name metric w.self.metric_set bound (
          length-appended (get name w.self.metric_set) u x
            (get-All AreFew name w.self.metric_set tt bound.1)))

  -- Fewer than 100 names, each with fewer than 100 values: with a namespace, a known unit and room
  -- for the dimension of the service, a set of metrics with these bounds has them again after
  -- `add_metric`.
  pub add_metric-IsBounded :
      (name u ns : String) (unit_argument : UnitArgument) (x : Float) (w : World Float)
      → extract_metric_unit_value unit_argument ≡ ok u
      → w.self.namespace ≡ some ns
      → length w.self.dimension_set ≢ max_dimensions
      → IsBounded w.self.metric_set
      → IsBounded (add_metric name unit_argument (number x) w).1.self.metric_set
  unfolding add_metric lift
  add_metric-IsBounded name u ns unit_argument x w known h room bound =
      rw
        (>>=-ok (lift (extract_metric_unit_value unit_argument)) (λ t. add_value name t x) w
          (λ i. (known i, w)))
        (add_value-IsBounded name u ns x w h room bound)
