-- ===== src/Idempotency/Handler/Replay.antt =====
-- What `handle` answers to a payload that was handled before, over a store that keeps the laws.
use aws_lambda_powertools_py.Common.{
  ℕ, ◌/◌, ◌+◌, ◌≤◌, String, false, none, some, ◌≡◌, ◌⊎◌, refl, ap, ◌∙◌,
}
use aws_lambda_powertools_py.Common.Eq.{◌==◌, string_eq}
use aws_lambda_powertools_py.Common.Effect.{ok}
use aws_lambda_powertools_py.Common.Json.{Json}
use aws_lambda_powertools_py.Common.Run.{Run-returned}
use aws_lambda_powertools_py.Idempotency.Record.{DataRecord, response_json_as_dict}
use aws_lambda_powertools_py.Idempotency.Layer.{Library, Layer, IdempotencyConfig}
use aws_lambda_powertools_py.Idempotency.Persistence.{Backend, World}
use aws_lambda_powertools_py.Idempotency.Persistence.Steps.{Payload}
use aws_lambda_powertools_py.Idempotency.Store.{IsWithin, IsDone, Store}
use aws_lambda_powertools_py.Idempotency.Handler.Rounds.{
  read_back, retry-Run, first_time, once_saved,
}
use aws_lambda_powertools_py.Idempotency.Handler.{Function, handle}

-- The stores that come after a first one, by calls and by whatever else leaves what one reads there.
pub data Later {Db V : Type 0} (first : Db) (read : Db → V) (Called : Db → Db → Type 0)
    : Db → Type 0 where
  first_one : Later first read Called first
  called : {d e : Db} → Later first read Called d → Called d e → Later first read Called e
  meanwhile : {d e : Db} → Later first read Called d → read e ≡ read d → Later first read Called e

-- what is read stays as it was, if every call leaves it
pub Later-read :
    {Db V : Type 0} {first : Db} {read : Db → V} {Called : Db → Db → Type 0} (v : V)
    → ((d e : Db) → Called d e → read d ≡ v → read e ≡ v)
    → read first ≡ v
    → {d : Db} → Later first read Called d
    → read d ≡ v
Later-read v keeps h first_one = h
Later-read v keeps h (called before call) = keeps _ _ call (Later-read v keeps h before)
Later-read v keeps h (meanwhile before same) = same ∙ Later-read v keeps h before

pub Later-map :
    {Db V : Type 0} {first first' : Db} {read : Db → V} {Called Called' : Db → Db → Type 0}
    → first ≡ first'
    → ((d e : Db) → Called d e → Called' d e)
    → {d : Db} → Later first read Called d
    → Later first' read Called' d
Later-map {read} same f first_one = meanwhile first_one (ap read same)
Later-map same f (called before call) = called (Later-map same f before) (f _ _ call)
Later-map same f (meanwhile before kept) = meanwhile (Later-map same f before) kept

module _ {Db : Type 0} (App : Type 0) (lib : Library) (backend : Backend Db) (lo hi : ℕ) (l : Layer)
    (payload : Json) where
  -- A call of `handle` on a payload, by some function and configuration and in some process, which
  -- finds one store and leaves another.
  pub record Called (d e : Db) : Type 0 where
    pub config : IdempotencyConfig
    pub function : Function App
    pub world : World Db App
    pub same_layer : world.layer ≡ l
    pub within : IsWithin lo hi world.env.clock
    pub before : world.env.db ≡ d
    pub after : e ≡ (handle lib backend config function payload world).1.env.db

module _ {Db App : Type 0} (lib : Library) (backend : Backend Db) (lo hi : ℕ)
    (store : Store backend lo hi) (l : Layer) (payload : Json) (p : Payload lib l payload) where
  -- what a call does where a completed record of the payload is in the store
  replay :
      (config : IdempotencyConfig) (function : Function App) (s : DataRecord) (replayed : Json)
      (u : World Db App)
      → IsDone hi s
      → (l.payload_validation_enabled ≡ false) ⊎ (s.payload_hash ≡ some p.hash)
      → response_json_as_dict lib.loads s ≡ ok replayed
      → u.layer ≡ l
      → IsWithin lo hi u.env.clock
      → store.view u.env.db p.key ≡ some s
      → ((handle lib backend config function payload u).0 ≡ ok replayed)
        × ((handle lib backend config function payload u).1.app ≡ u.app)
        × (store.view (handle lib backend config function payload u).1.env.db p.key ≡ some s)
  unfolding handle
  replay config function s replayed u done hash loads layer_is within found =
      let (r, t, e, (at, (got, there))) = Run-returned (
        retry-Run lib backend config function payload 2 u (
          once_saved lib backend lo hi store l payload p config function s replayed u done hash
            loads (record { same_layer = layer_is; same_app = refl; within = within }) found)) in
      (
        ap (λ x. x.0) e ∙ ap ok got,
        ap (λ x. x.1.app) e ∙ at.same_app,
        ap (λ x. store.view x.1.env.db p.key) e ∙ there,
      )

  -- Over a store that keeps the laws of `Store`, with a layer that keeps no local cache and gives
  -- the payload a key and a hash, and while every time lies between two bounds that are no further
  -- apart than the expiry: the first call on a payload under whose key there is nothing runs the
  -- function and returns its result, if this can be written as a text that is not empty and read
  -- back; and every later call on the payload, by any function and with whatever configuration of
  -- the handler, returns what the saved text reads back as and runs nothing. The later call may come
  -- in another process, and after any number of other such calls and of changes of the store that
  -- leave what is under the payload's key as it is.
  pub handle_replays :
      (config config' : IdempotencyConfig) (function : Function App) (result replayed : Json)
      (response : String) (b : App) (w : World Db App)
      → function w.app ≡ (ok result, b)
      → lib.dumps result ≡ some response
      → (response == "") ≡ false
      → lib.loads response ≡ some replayed
      → hi / 1000 ≤ lo / 1000 + l.expires_after_seconds
      → w.layer ≡ l
      → IsWithin lo hi w.env.clock
      → store.view w.env.db p.key ≡ none
      → (function' : Function App) (u : World Db App) → u.layer ≡ l
      → IsWithin lo hi u.env.clock
      → Later
          (handle lib backend config function payload w).1.env.db
          (λ d. store.view d p.key)
          (Called App lib backend lo hi l payload)
          u.env.db
      → ((handle lib backend config function payload w).0 ≡ ok result)
        × ((handle lib backend config function payload w).1.app ≡ b)
        × ((handle lib backend config' function' payload u).0 ≡ ok replayed)
        × ((handle lib backend config' function' payload u).1.app ≡ u.app)
  handle_replays config config' function result replayed response b w ran dumped full loads long
        layer_is within missing function' u layer_is' within' later =
      let (r, t, e, ((at, (expiry, saved)), got)) = Run-returned (
        retry-Run lib backend config function payload 2 w (
          first_time lib backend lo hi store l payload p config function result response b w ran
            dumped long (record { same_layer = layer_is; same_app = refl; within = within })
            missing)) in
      let loaded : response_json_as_dict lib.loads saved.stored ≡ ok replayed =
        read_back lib saved.stored response replayed saved.kept.response full loads in
      let keeps : (d d' : Db)
          → Called App lib backend lo hi l payload d d'
          → store.view d p.key ≡ some saved.stored
          → store.view d' p.key ≡ some saved.stored =
        λ d d' c found.
          let (_, _, there) =
            replay c.config c.function saved.stored replayed c.world saved.done saved.kept.hash
              loaded c.same_layer c.within (ap (λ x. store.view x p.key) c.before ∙ found) in
          ap (λ x. store.view x p.key) c.after ∙ there in
      let opened : handle lib backend config function payload w ≡ (ok r, t) = unfold handle in e in
      let (returned', same', _) =
        replay config' function' saved.stored replayed u saved.done saved.kept.hash loaded layer_is'
          within'
          (Later-read (some saved.stored) keeps
            (ap (λ x. store.view x.1.env.db p.key) opened ∙ saved.found) later) in
      (ap (λ x. x.0) opened ∙ ap ok got, ap (λ x. x.1.app) opened ∙ at.same_app, returned', same')
