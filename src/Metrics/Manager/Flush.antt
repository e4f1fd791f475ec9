-- ===== src/Metrics/Manager/Flush.antt =====
-- `serialize_metric_set` where it returns, and the flush of a full set: what it prints of the values.
use aws_lambda_powertools_py.Common.{
  ℕ, String, Bool, true, false, Option, none, some, List, [], ◌∷◌, ◌++◌, ◌&&◌, not, map, length,
  is_empty, if◌then◌else◌, ◌≡◌, ◌≢◌, refl, sym, ap, ◌∙◌, arith, All,
}
use mathlib.Core.List.{append-nil, append_assoc}
use aws_lambda_powertools_py.Common.Eq.{◌==◌, string_eq}
use aws_lambda_powertools_py.Common.Dict.{Dict, get, store, merge}
use aws_lambda_powertools_py.Common.Dict.Merge.{
  HasDistinctKeys, get-merge, merge-All, get-All, get-map, map-HasDistinctKeys,
}
use aws_lambda_powertools_py.Common.Effect.{Op, ok, raise, modify, ◌>>◌, ◌>>=◌, >>=-ok}
use aws_lambda_powertools_py.Metrics.Error.{Error, schema_validation_error}
use aws_lambda_powertools_py.Metrics.Manager.{
  Metric, Field, values, metadata, dimension, Blob, Manager, World, add_service, flush,
  serialize_in, aws, aws_entry, is_set, emf, print, now, on_self, serialize_metric_set, add_metric,
  max_dimensions,
}

abbrev pub served_dimensions : Option String → Dict String String → Dict String String
served_dimensions none d = d
served_dimensions (some s) d =
    if not (s == "") && not (is_set (get "service" d)) then store "service" s d else d

module _ {Float : Type 0} where
  -- the numbers in a value of a printed object
  abbrev seen : Option (Field Float) → List Float
  seen (some (values xs)) = xs
  seen o = []

  abbrev line_values : String → Option (Blob Float) → List Float
  line_values j none = []
  line_values j (some blob) = seen (get j blob)

  abbrev pub printed_values : String → List (Option (Blob Float)) → List Float
  printed_values j [] = []
  printed_values j (line ∷ lines) = line_values j line ++ printed_values j lines

  abbrev pub pending : Option (Metric Float) → List Float
  pending none = []
  pending (some metric) = metric.metric_values

  -- What was ever recorded under a name: first what was printed, then what is in the set.
  abbrev pub recorded : String → World Float → List Float
  recorded j w = printed_values j w.process.printed ++ pending (get j w.self.metric_set)

  All-unseen :
      {V : Type 0} (f : V → Field Float) (d : Dict String V)
      → ((v : V) → seen (some (f v)) ≡ [])
      → All {A = String × Field Float} (λ q. seen (some q.1) ≡ []) (map (λ q. (q.0, f q.1)) d)
  All-unseen f [] h = tt
  All-unseen f ((k, v) ∷ d) h = (h v, All-unseen f d h)

  over :
      (o rest : Option (Field Float)) (p : Option (Metric Float))
      → o ≡ (elim p [ none ↦ none | some metric ↦ some (values metric.metric_values) ])
      → seen rest ≡ []
      → seen (elim o [ none ↦ rest | some v ↦ some v ]) ≡ pending p
  over none rest none h e = e
  over (some v) rest none h e = ground arith
  over none rest (some metric) h e = ground arith
  over (some v) rest (some metric) h e = ap seen h

  unseen_metadata :
      (m : Manager Float) (ns : String) (ms : ℕ) (j : String)
      → seen (
          get j (
            merge (map (λ q. (q.0, metadata q.1)) m.metadata_set) (
              merge
                (map (λ q. (q.0, dimension q.1)) m.dimension_set)
                (("_aws", aws (aws_entry m ns ms)) ∷ []))))
        ≡ []
  unseen_metadata m ns ms j =
      get-All (λ o. seen o ≡ []) j _ refl
        (merge-All (λ v. seen (some v) ≡ []) _ _ (All-unseen metadata m.metadata_set (λ v. refl))
          (merge-All (λ v. seen (some v) ≡ []) _ _
            (All-unseen dimension m.dimension_set (λ v. refl)) (refl, tt)))

  -- Under a name, the object holds the numbers of the set, whatever else has this name.
  emf_values :
      (m : Manager Float) (ns : String) (ms : ℕ) (j : String)
      → HasDistinctKeys m.metric_set
      → seen (get j (emf m ns ms)) ≡ pending (get j m.metric_set)
  unfolding emf
  emf_values m ns ms j h =
      ap seen (
        get-merge j _ _
          (map-HasDistinctKeys (λ (q : Metric Float). values q.metric_values) m.metric_set h))
      ∙ over _ _ _ (get-map (λ (q : Metric Float). values q.metric_values) j m.metric_set)
          (unseen_metadata m ns ms j)

  -- the manager after the dimension for the service is added
  abbrev pub served : Manager Float → Manager Float
  served m = record m { dimension_set = served_dimensions m.service m.dimension_set }

  add_service-eq :
      (service : Option String) (w : World Float)
      → length w.self.dimension_set ≢ max_dimensions
      → add_service service (get "service" w.self.dimension_set) w ≡ (
        ok tt,
        on_self (λ m. record m { dimension_set = served_dimensions service m.dimension_set }) w,
      )
  unfolding serialize_metric_set
  add_service-eq none w room = refl
  add_service-eq (some s) w room = ground arith

  after_service :
      (test : Bool) (o : Option String) (ns : String) (v : World Float)
      → test ≡ false
      → o ≡ some ns
      → (if test then raise schema_validation_error else serialize_in o) v
        ≡ (ok (emf v.self ns (v.process.clock 0)), (now v).1)
  unfolding serialize_metric_set
  after_service true o ns v e h = ground arith
  after_service false none ns v e h = ground arith
  after_service false (some n) ns v e h = ground arith

  abbrev pub served_world : World Float → World Float
  served_world w = record w { self = served w.self }

  pub serialize-eq :
      (w : World Float) (ns : String)
      → w.self.namespace ≡ some ns
      → length w.self.dimension_set ≢ max_dimensions
      → is_empty w.self.metric_set ≡ false
      → serialize_metric_set w
        ≡ (ok (emf (served w.self) ns (w.process.clock 0)), (now (served_world w)).1)
  unfolding serialize_metric_set
  serialize-eq w ns h room filled =
      >>=-ok (add_service w.self.service (get "service" w.self.dimension_set))
        (λ _.
          if is_empty w.self.metric_set
          then raise schema_validation_error
          else serialize_in w.self.namespace)
        w (add_service-eq w.self.service w room)
      ∙ after_service (is_empty w.self.metric_set) w.self.namespace ns (served_world w) filled h

  abbrev pub flushed : World Float → String → World Float
  flushed w ns =
      on_self (λ m. record m { metric_set = [] })
        (print (some (emf (served w.self) ns (w.process.clock 0))) (now (served_world w)).1)

  abbrev after_serialize : Blob Float → Op (World Float) Error (Unit {0})
  after_serialize blob = do
    modify (print (some blob))
    modify (on_self (λ m. record m { metric_set = [] }))

  pub flush-eq :
      (w : World Float) (ns : String)
      → w.self.namespace ≡ some ns
      → length w.self.dimension_set ≢ max_dimensions
      → is_empty w.self.metric_set ≡ false
      → flush w ≡ (ok tt, flushed w ns)
  unfolding add_metric ◌>>=◌
  flush-eq w ns h room filled =
      >>=-ok serialize_metric_set after_serialize w (serialize-eq w ns h room filled)

  printed-append :
      (j : String) (lines : List (Option (Blob Float))) (line : Option (Blob Float))
      → printed_values j (lines ++ line ∷ []) ≡ printed_values j lines ++ line_values j line
  printed-append j [] line = append-nil (line_values j line)
  printed-append j (l ∷ lines) line =
      ap (λ xs. line_values j l ++ xs) (printed-append j lines line)
      ∙ sym (append_assoc (line_values j l) (printed_values j lines) (line_values j line))

  pub recorded-flushed :
      (j : String) (w : World Float) (ns : String)
      → HasDistinctKeys w.self.metric_set
      → recorded j (flushed w ns) ≡ recorded j w
  unfolding print get now
  recorded-flushed j w ns h =
      append-nil _
      ∙ printed-append j w.process.printed (some (emf (served w.self) ns (w.process.clock 0)))
      ∙ ap (λ xs. printed_values j w.process.printed ++ xs)
          (emf_values (served w.self) ns (w.process.clock 0) j h)
