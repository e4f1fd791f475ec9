-- ===== src/Metrics/Decorator/Published.antt =====
-- `log_metrics`: what its `finally` block prints and leaves.
use aws_lambda_powertools_py.Common.{
  String, Bool, true, false, some, [], ◌∷◌, ◌&&◌, not, length, is_empty, if◌then◌else◌, ◌≡◌, ◌≢◌,
  refl, ap, ◌∙◌, arith, ◌+◌, ◌≤◌,
}
use aws_lambda_powertools_py.Common.Eq.{string_eq}
use aws_lambda_powertools_py.Common.Dict.{Dict, merge, length-store}
use aws_lambda_powertools_py.Common.Effect.{Op, Result, ok, pure, modify, ◌>>=◌, ◌>>◌, >>=-ok}
use aws_lambda_powertools_py.Metrics.Error.{Error}
use aws_lambda_powertools_py.Metrics.Manager.{
  World, max_dimensions, emf, now, print, on_self, serialize_metric_set, clear_metrics,
  add_dimension,
}
use aws_lambda_powertools_py.Metrics.Manager.Flush.{served, served_world, serialize-eq}
use aws_lambda_powertools_py.Metrics.Decorator.{
  Stage, Options, log_metrics, body, publish, add_each, on_world, clear_all, leave,
}

module _ {Float App : Type 0} where
  with_dimensions : Dict String String → Stage Float App → Stage Float App
  with_dimensions ds s = record s {
    world = on_self (λ m. record m { dimension_set = merge ds m.dimension_set }) s.world;
  }

  add_one-eq :
      (name value : String) (s : Stage Float App)
      → length s.world.self.dimension_set ≢ max_dimensions
      → on_world (add_dimension name value) s ≡ (ok tt, with_dimensions ((name, value) ∷ []) s)
  unfolding with_dimensions log_metrics merge
  add_one-eq name value s room = ground arith

  add_each-eq :
      (ds : Dict String String) (s : Stage Float App)
      → length ds + length s.world.self.dimension_set ≤ max_dimensions
      → add_each ds s ≡ (ok tt, with_dimensions ds s)
  unfolding with_dimensions log_metrics merge
  add_each-eq [] s room = refl
  add_each-eq ((name, value) ∷ ds) s room =
      >>=-ok (on_world (add_dimension name value)) (λ _. add_each ds) s
        (add_one-eq name value s (ground arith))
      ∙ add_each-eq ds (with_dimensions ((name, value) ∷ []) s)
          (ground (arith, length-store name value s.world.self.dimension_set))

  -- The stage after the block: the object printed, the sets empty but for the default dimensions.
  pub published : Stage Float App → String → Stage Float App
  published s ns = record s {
    world = print (some (emf (served s.world.self) ns (s.world.process.clock 0))) (
        on_self (λ m. record (clear_metrics m) { dimension_set = merge s.default_dimensions [] })
          (now (served_world s.world)).1);
    default_dimensions = merge s.default_dimensions s.default_dimensions;
  }

  clear_all-eq :
      (s : Stage Float App)
      → length s.default_dimensions ≤ max_dimensions
      → clear_all s ≡ (
        ok tt,
        record s {
          world =
              on_self
                (λ m. record (clear_metrics m) { dimension_set = merge s.default_dimensions [] })
                s.world;
          default_dimensions = merge s.default_dimensions s.default_dimensions;
        },
      )
  unfolding clear_all log_metrics with_dimensions ◌>>=◌ clear_metrics
  clear_all-eq s room =
      let ds = s.default_dimensions in
      >>=-ok (add_each ds)
        (λ _. modify (λ t. record t { default_dimensions = merge ds t.default_dimensions }))
        (record s { world = on_self clear_metrics s.world })
        (add_each-eq ds (record s { world = on_self clear_metrics s.world }) (omega (arith, room)))

  publish_all : Op (Stage Float App) Error (Unit {0})
  publish_all = do
    blob ← on_world serialize_metric_set
    clear_all
    modify (λ t. record t { world = print (some blob) t.world })

  on_world-ok :
      {A : Type 0} (op : Op (World Float) Error A) (s : Stage Float App) (w : World Float) (a : A)
      → op s.world ≡ (ok a, w)
      → on_world op s ≡ (ok a, record s { world = w })
  unfolding publish
  on_world-ok op s w a h = λ i. let (r, v) = h i in (r, record s { world = v })

  publish_all-eq :
      (s : Stage Float App) (ns : String)
      → s.world.self.namespace ≡ some ns
      → length s.world.self.dimension_set ≢ max_dimensions
      → is_empty s.world.self.metric_set ≡ false
      → length s.default_dimensions ≤ max_dimensions
      → publish_all s ≡ (ok tt, published s ns)
  unfolding publish_all published print ◌>>=◌
  publish_all-eq s ns h room filled fits =
      let v : Stage Float App = record s { world = (now (served_world s.world)).1 } in
      let blob = emf (served s.world.self) ns (s.world.process.clock 0) in
      >>=-ok (on_world serialize_metric_set)
        (λ b. do clear_all; modify (λ t. record t { world = print (some b) t.world })) s
        (on_world-ok serialize_metric_set s _ _ (serialize-eq s.world ns h room filled))
      ∙ >>=-ok clear_all (λ _. modify (λ t. record t { world = print (some blob) t.world })) v
          (clear_all-eq v fits)

  unguarded :
      (raise_on_empty empty : Bool) (op : Op (Stage Float App) Error (Unit {0}))
      (s : Stage Float App)
      → empty ≡ false
      → (if not raise_on_empty && empty then pure tt else op) s ≡ op s
  unguarded true empty op s h = refl
  unguarded false true op s h = ground arith
  unguarded false false op s h = refl

  publish-eq :
      (raise_on_empty : Bool) (s : Stage Float App) (ns : String)
      → s.world.self.namespace ≡ some ns
      → length s.world.self.dimension_set ≢ max_dimensions
      → is_empty s.world.self.metric_set ≡ false
      → length s.default_dimensions ≤ max_dimensions
      → publish raise_on_empty s ≡ (ok tt, published s ns)
  unfolding publish publish_all ◌>>=◌
  publish-eq raise_on_empty s ns h room filled fits =
      unguarded raise_on_empty (is_empty s.world.self.metric_set) publish_all s filled
      ∙ publish_all-eq s ns h room filled fits

  after_body :
      {A : Type 0} → Bool → Result Error A × Stage Float App → Result Error A × Stage Float App
  after_body raise_on_empty (r, t) = let (c, v) = publish raise_on_empty t in (leave r c, v)

  pub log_metrics-published :
      {A : Type 0} (one : Float) (function_name : String) (options : Options)
      (lambda_handler : Op (Stage Float App) Error A) (s t : Stage Float App) (r : Result Error A)
      (ns : String)
      → body one function_name options lambda_handler s ≡ (r, t)
      → t.world.self.namespace ≡ some ns
      → length t.world.self.dimension_set ≢ max_dimensions
      → is_empty t.world.self.metric_set ≡ false
      → length t.default_dimensions ≤ max_dimensions
      → log_metrics one function_name options lambda_handler s ≡ (r, published t ns)
  unfolding log_metrics after_body ◌>>=◌
  log_metrics-published one function_name options lambda_handler s t r ns ran h room filled fits =
      ap (after_body options.raise_on_empty_metrics) ran ∙ (λ i.
        let (c, v) = publish-eq options.raise_on_empty_metrics t ns h room filled fits i in
        (leave r c, v))
