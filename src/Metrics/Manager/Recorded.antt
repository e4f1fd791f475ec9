-- ===== src/Metrics/Manager/Recorded.antt =====
-- `add_metric`: the values recorded under a name, those that were printed and then those in the set.
use aws_lambda_powertools_py.Common.{
  String, Bool, true, false, Option, none, some, List, [], ◌∷◌, ◌++◌, length, is_empty,
  if◌then◌else◌, ◌≡◌, ◌≢◌, refl, sym, ap, ◌∙◌, arith,
}
use mathlib.Core.List.{append-nil, append_assoc}
use aws_lambda_powertools_py.Common.Eq.{◌==◌, string_eq}
use aws_lambda_powertools_py.Common.Dict.{Dict, get, store, get-store}
use aws_lambda_powertools_py.Common.Dict.Merge.{HasDistinctKeys, store-HasDistinctKeys}
use aws_lambda_powertools_py.Common.Effect.{Result, ok, pure, lift, ◌>>=◌, >>=-ok}
use aws_lambda_powertools_py.Metrics.Error.{Error}
use aws_lambda_powertools_py.Metrics.Unit.{UnitArgument, extract_metric_unit_value}
use aws_lambda_powertools_py.Metrics.Manager.{
  Metric, World, number, appended, is_full, add_value, flush, on_self, add_metric, max_dimensions,
}
use aws_lambda_powertools_py.Metrics.Manager.Flush.{
  recorded, pending, printed_values, flush-eq, recorded-flushed,
}

module _ {Float : Type 0} where
  abbrev pub stored : String → Metric Float → World Float → World Float
  stored name metric = on_self (λ m. record m { metric_set = store name metric m.metric_set })

  appended_values :
      (o : Option (Metric Float)) (u : String) (x : Float)
      → (appended o u x).metric_values ≡ pending o ++ x ∷ []
  unfolding add_metric
  appended_values none u x = refl
  appended_values (some metric) u x = refl

  entry_values :
      (b : Bool) (o old : Option (Metric Float)) (u : String) (x : Float) (ys : List Float)
      → (b ≡ true → o ≡ old)
      → ys ++ pending (if b then some (appended o u x) else old)
        ≡ (ys ++ pending old) ++ (if b then x ∷ [] else [])
  entry_values true o old u x ys h =
      ap (λ zs. ys ++ zs) (appended_values o u x)
      ∙ ap (λ p. ys ++ (pending p ++ x ∷ [])) (h refl)
      ∙ sym (append_assoc ys (pending old) (x ∷ []))
  entry_values false o old u x ys h = sym (append-nil _)

  -- The set with one more value under `name`, before a flush.
  recorded-stored :
      (j name u : String) (x : Float) (w : World Float)
      → recorded j (stored name (appended (get name w.self.metric_set) u x) w)
        ≡ recorded j w ++ (if name == j then x ∷ [] else [])
  unfolding add_metric
  recorded-stored j name u x w =
      ap (λ o. printed_values j w.process.printed ++ pending o)
        (get-store name j (appended (get name w.self.metric_set) u x) w.self.metric_set)
      ∙ entry_values (name == j) (get name w.self.metric_set) (get j w.self.metric_set) u x
          (printed_values j w.process.printed)
          (λ same. ap (λ k. get k w.self.metric_set) ((string_eq.same_key_iff name j).0 same))

  -- a call that returned, and left what was recorded as in `v`, and the keys distinct
  abbrev Keeps : World Float → Result Error (Unit {0}) × World Float → Type 0
  Keeps v out =
      (out.0 ≡ ok tt)
      × ((j : String) → recorded j out.1 ≡ recorded j v)
      × HasDistinctKeys out.1.self.metric_set

  settle :
      (full : Bool) (v : World Float) (ns : String)
      → v.self.namespace ≡ some ns
      → length v.self.dimension_set ≢ max_dimensions
      → is_empty v.self.metric_set ≡ false
      → HasDistinctKeys v.self.metric_set
      → Keeps v ((if full then flush else pure tt) v)
  unfolding pure
  settle false v ns h room filled keys = (refl, (λ j. refl), keys)
  settle true v ns h room filled keys =
      rw (flush-eq v ns h room filled) (refl, (λ j. recorded-flushed j v ns keys), tt)

  pub filled_store :
      (k : String) (m : Metric Float) (d : Dict String (Metric Float))
      → is_empty (store k m d) ≡ false
  unfolding store
  filled_store k m [] = refl
  filled_store k m ((i, v) ∷ d) = ground arith

  add_value-Keeps :
      (name u ns : String) (x : Float) (w : World Float)
      → w.self.namespace ≡ some ns
      → length w.self.dimension_set ≢ max_dimensions
      → HasDistinctKeys w.self.metric_set
      → Keeps (stored name (appended (get name w.self.metric_set) u x) w) (add_value name u x w)
  unfolding add_metric ◌>>=◌
  add_value-Keeps name u ns x w h room keys =
      let metric = appended (get name w.self.metric_set) u x in
      settle (is_full (store name metric w.self.metric_set) metric) (stored name metric w) ns h room
        (filled_store name metric w.self.metric_set)
        (store-HasDistinctKeys name metric w.self.metric_set keys)

  -- With a namespace, room for the dimension of the service and a unit that is known, `add_metric`
  -- returns, and each name keeps the values recorded under it, in order, whether they are printed
  -- already or still in the set, with the new value after those of its name: a flush loses none and
  -- prints none twice.
  pub add_metric-recorded :
      (name u ns : String) (unit_argument : UnitArgument) (x : Float) (w : World Float)
      → extract_metric_unit_value unit_argument ≡ ok u
      → w.self.namespace ≡ some ns
      → length w.self.dimension_set ≢ max_dimensions
      → HasDistinctKeys w.self.metric_set
      → ((add_metric name unit_argument (number x) w).0 ≡ ok tt)
        × ((j : String)
            → recorded j (add_metric name unit_argument (number x) w).1
              ≡ recorded j w ++ (if name == j then x ∷ [] else []))
        × HasDistinctKeys (add_metric name unit_argument (number x) w).1.self.metric_set
  unfolding add_metric lift
  add_metric-recorded name u ns unit_argument x w known h room keys =
      let (returned, kept, still) = add_value-Keeps name u ns x w h room keys in
      rw
        (>>=-ok (lift (extract_metric_unit_value unit_argument)) (λ t. add_value name t x) w
          (λ i. (known i, w)))
        (returned, (λ j. kept j ∙ recorded-stored j name u x w), still)
