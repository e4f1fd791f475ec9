-- ===== src/Idempotency/Decorator/Replay.antt =====
-- A handler under `idempotent`, called twice on an event.
use aws_lambda_powertools_py.Common.{
  ℕ, ◌/◌, ◌+◌, ◌≤◌, String, false, Option, none, some, ◌≡◌, refl, ap, ◌∙◌, if◌then◌else◌,
}
use aws_lambda_powertools_py.Common.Eq.{◌==◌, string_eq}
use aws_lambda_powertools_py.Common.Effect.{Result, ok, >>=-ok}
use aws_lambda_powertools_py.Common.Json.{Json}
use aws_lambda_powertools_py.Idempotency.Error.{Error}
use aws_lambda_powertools_py.Idempotency.Layer.{
  Library, Layer, IdempotencyConfig, register_lambda_context, configure,
}
use aws_lambda_powertools_py.Idempotency.Persistence.{Backend, World}
use aws_lambda_powertools_py.Idempotency.Persistence.Steps.{Payload}
use aws_lambda_powertools_py.Idempotency.Store.{IsWithin, Store}
use aws_lambda_powertools_py.Idempotency.Handler.{Function, handle, run}
use aws_lambda_powertools_py.Idempotency.Handler.Replay.{Called, Later, Later-map, handle_replays}
use aws_lambda_powertools_py.Idempotency.Decorator.{
  or_default, is_disabled, Site, on_layer, handled, idempotent,
}

module _ {Db : Type 0} (App : Type 0) (lib : Library) (backend : Backend Db) (site : Site)
    (lo hi : ℕ) (l : Layer) (event : Json) where
  -- An invocation with an event, of some function in some process and with some context, whose layer
  -- is configured the same; it finds one store and leaves another.
  pub record Invoked (d e : Db) : Type 0 where
    pub config : Option IdempotencyConfig
    pub function : Function App
    pub context : ℕ → ℕ
    pub world : World Db App
    pub configured :
        configure lib site.lambda_name
          (register_lambda_context context (or_default config))
          site.name
          world.layer
        ≡ (ok tt, l)
    pub within : IsWithin lo hi world.env.clock
    pub before : world.env.db ≡ d
    pub after : e ≡ (idempotent lib backend site config function event context world).1.env.db

module _ {Db App : Type 0} (lib : Library) (backend : Backend Db) (site : Site) (l : Layer)
    (enabled : is_disabled site.disabled ≡ false) where
  -- with a layer that the configuration makes, the decorator is the handler
  idempotent-handle :
      (config : Option IdempotencyConfig) (function : Function App) (event : Json) (context : ℕ → ℕ)
      (w : World Db App)
      → configure lib site.lambda_name
          (register_lambda_context context (or_default config))
          site.name
          w.layer
        ≡ (ok tt, l)
      → idempotent lib backend site config function event context w
        ≡ handle lib backend
            (register_lambda_context context (or_default config))
            function
            event
            (record w { layer = l })
  unfolding idempotent handled
  idempotent-handle config function event context w set =
      let c = register_lambda_context context (or_default config) in
      ap (λ b. (if b then run function else handled lib backend site c function event) w) enabled
      ∙ >>=-ok (on_layer lib backend site (configure lib site.lambda_name c site.name)) _ w
          (ap (λ (x : Result Error (Unit {0}) × Layer). (x.0, record w { layer = x.1 })) set)

  Invoked-Called :
      (lo hi : ℕ) (event : Json) {d e : Db}
      → Invoked App lib backend site lo hi l event d e
      → Called App lib backend lo hi l event d e
  Invoked-Called lo hi event i = record {
    config = register_lambda_context i.context (or_default i.config);
    function = i.function;
    world = record i.world { layer = l };
    same_layer = refl;
    within = i.within;
    before = i.before;
    after =
        i.after
        ∙ ap (λ x. x.1.env.db)
            (idempotent-handle i.config i.function event i.context i.world i.configured);
  }

  -- Where the decorator is not disabled, over a store that keeps the laws of `Store`, with a layer
  -- that keeps no local cache and gives the event a key and a hash, and while every time lies
  -- between two bounds that are no further apart than the expiry: the first invocation with an
  -- event under whose key there is nothing runs the function and returns its result, if this can be
  -- written as a text that is not empty and read back; and every later one with this event, by any
  -- function of a layer that is configured the same and with any context, returns what the saved
  -- text reads back as and runs nothing. The later one may come in another process, and after any
  -- number of other such invocations and of changes of the store that leave what is under the
  -- event's key as it is.
  pub idempotent_replays :
      (lo hi : ℕ) (store : Store backend lo hi) (event : Json) (p : Payload lib l event)
      (config : Option IdempotencyConfig) (function : Function App) (context : ℕ → ℕ)
      (result replayed : Json) (response : String) (b : App) (w : World Db App)
      → configure lib site.lambda_name
          (register_lambda_context context (or_default config))
          site.name
          w.layer
        ≡ (ok tt, l)
      → function w.app ≡ (ok result, b)
      → lib.dumps result ≡ some response
      → (response == "") ≡ false
      → lib.loads response ≡ some replayed
      → hi / 1000 ≤ lo / 1000 + l.expires_after_seconds
      → IsWithin lo hi w.env.clock
      → store.view w.env.db p.key ≡ none
      → (config' : Option IdempotencyConfig) (function' : Function App) (context' : ℕ → ℕ)
        (u : World Db App)
      → configure lib site.lambda_name
          (register_lambda_context context' (or_default config'))
          site.name
          u.layer
        ≡ (ok tt, l)
      → IsWithin lo hi u.env.clock
      → Later
          (idempotent lib backend site config function event context w).1.env.db
          (λ d. store.view d p.key)
          (Invoked App lib backend site lo hi l event)
          u.env.db
      → ((idempotent lib backend site config function event context w).0 ≡ ok result)
        × ((idempotent lib backend site config function event context w).1.app ≡ b)
        × ((idempotent lib backend site config' function' event context' u).0 ≡ ok replayed)
        × ((idempotent lib backend site config' function' event context' u).1.app ≡ u.app)
  idempotent_replays lo hi store event p config function context result replayed response b w set
        ran dumped full loads long within missing config' function' context' u set' within' later =
      rw
        (
          idempotent-handle config function event context w set,
          idempotent-handle config' function' event context' u set',
        )
        (handle_replays lib backend lo hi store l event p
          (register_lambda_context context (or_default config))
          (register_lambda_context context' (or_default config')) function result replayed response
          b (record w { layer = l }) ran dumped full loads long refl within missing function'
          (record u { layer = l }) refl within'
          (Later-map (ap (λ x. x.1.env.db) (idempotent-handle config function event context w set))
            (λ d e. Invoked-Called lo hi event) later))
