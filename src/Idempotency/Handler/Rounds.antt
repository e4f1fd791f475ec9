-- ===== src/Idempotency/Handler/Rounds.antt =====
-- One round of `handle` over a store that keeps the laws: for a payload that is new to the store, and
-- for one whose completed record is there.
use aws_lambda_powertools_py.Common.{
  ℕ, zero, suc, ◌/◌, ◌+◌, ◌≤◌, String, false, Option, none, some, ◌≡◌, ◌⊎◌, refl, ap, ◌∙◌,
}
use aws_lambda_powertools_py.Common.Eq.{◌==◌, string_eq}
use aws_lambda_powertools_py.Common.Effect.{Result, ok, raised, pure, lift, ◌>>=◌}
use aws_lambda_powertools_py.Common.Json.{Json}
use aws_lambda_powertools_py.Common.Run.{
  Run, returned, threw, Never, Run-bind, Run-attempt, Run-implies,
}
use aws_lambda_powertools_py.Idempotency.Error.{Error}
use aws_lambda_powertools_py.Idempotency.Record.{
  DataRecord, Env, now, completed, status, response_json_as_dict,
}
use aws_lambda_powertools_py.Idempotency.Layer.{Library, Layer, IdempotencyConfig}
use aws_lambda_powertools_py.Idempotency.Persistence.{Backend, World, on_env}
use aws_lambda_powertools_py.Idempotency.Persistence.Steps.{
  Payload, At, status-IsDone, on_env-returns,
}
use aws_lambda_powertools_py.Idempotency.Persistence.OverStore.{
  IsSaved, save_success-Run, save_inprogress-admitted, save_inprogress-denied, get_record-Run,
}
use aws_lambda_powertools_py.Idempotency.Store.{IsWithin, IsDone, Store}
use aws_lambda_powertools_py.Idempotency.Handler.{
  Function, run, remaining_at, get_remaining_time_in_millis, handle_for_status,
  get_idempotency_record, get_function_response, process_idempotency, again, retry,
}

module _ {Db App : Type 0} (lo hi : ℕ) (l : Layer) where
  remaining-Run :
      (o : Option (ℕ → ℕ)) (a : App) (w : World Db App)
      → At lo hi l a w
      → Run (λ r t. At lo hi l a t × (t.env.db ≡ w.env.db)) (Never {A = Error}) (remaining_at o w)
  unfolding get_remaining_time_in_millis on_env now ◌>>=◌
  remaining-Run none a w h = returned (h, refl)
  remaining-Run (some context) a w h = returned (
    record { same_layer = h.same_layer; same_app = h.same_app; within = λ i. h.within (suc i) },
    refl,
  )

  -- a completed record is read back, whatever the times of the two readings
  handle_for_status-IsDone :
      (lib : Library) (s : DataRecord) (response : Json) (a : App) (w : World Db App)
      → IsDone hi s
      → response_json_as_dict lib.loads s ≡ ok response
      → At lo hi l a w
      → Run
          (λ r t. At lo hi l a t × ((r ≡ response) × (t.env.db ≡ w.env.db)))
          (Never {A = Error})
          (handle_for_status lib s w)
  unfolding handle_for_status
  handle_for_status-IsDone lib s response a w done loads h =
      Run-bind _ _ w (on_env-returns lo hi l a (status s) w h (at_status w.env (h.within)))
        λ first t (at, (was, same)). rw was (
          Run-bind _ _ t (on_env-returns lo hi l a (status s) t at (at_status t.env (at.within)))
            λ second u (at', (was', same')).
              rw (was', loads) (unfold lift in returned (at', (refl, same' ∙ same))))
    where
      at_status :
          (e : Env Db)
          → IsWithin lo hi e.clock
          → Run
              (λ r t. IsWithin lo hi t.clock × ((r ≡ completed) × (t.db ≡ e.db)))
              (Never {A = Error})
              (status s e)
      at_status e within =
          Run-implies (λ r t (was, same, later). (later, (was, same))) (λ x t never. never)
            (status-IsDone lo hi s e done within)

pub read_back :
    (lib : Library) (s : DataRecord) (response : String) (replayed : Json)
    → s.response_data ≡ some response
    → (response == "") ≡ false
    → lib.loads response ≡ some replayed
    → response_json_as_dict lib.loads s ≡ ok replayed
unfolding response_json_as_dict
read_back lib s response replayed stored full loads = simp (stored, full, loads)

module _ {Db App : Type 0} (lib : Library) (backend : Backend Db) (config : IdempotencyConfig)
    (function : Function App) (payload : Json) where
  -- a round that returns is the last one
  pub retry-Run :
      {P : Json → World Db App → Type 0} (left : ℕ) (w : World Db App)
      → Run P (Never {A = Error}) (process_idempotency lib backend config function payload w)
      → Run P (Never {A = Error}) (retry lib backend left config function payload w)
  unfolding retry
  retry-Run zero w h = h
  retry-Run {P} (suc left) w h =
      let (r, t) = process_idempotency lib backend config function payload w in at r t h
    where
      at :
          (r : Result Error Json) (t : World Db App)
          → Run P (Never {A = Error}) (r, t)
          → Run P
              (Never {A = Error})
              (again lib backend (r, t) (retry lib backend left config function payload))
      at (ok v) t h = h
      at (raised e) t (threw never) = absurd never

module _ {Db App : Type 0} (lib : Library) (backend : Backend Db) (lo hi : ℕ)
    (store : Store backend lo hi) (l : Layer) (payload : Json) (p : Payload lib l payload)
    (config : IdempotencyConfig) where
  get_function_response-Run :
      (function : Function App) (result : Json) (response : String) (a b : App) (w : World Db App)
      → function a ≡ (ok result, b)
      → lib.dumps result ≡ some response
      → hi / 1000 ≤ lo / 1000 + l.expires_after_seconds
      → At lo hi l a w
      → Run
          (λ r t.
            (At lo hi l b t × IsSaved lib backend lo hi store l payload p response t)
            × (r ≡ result))
          (Never {A = Error})
          (get_function_response lib backend function payload w)
  unfolding get_function_response run
  get_function_response-Run function result response a b w ran dumped long h =
      Run-attempt {Q = λ r t. (r ≡ result) × At lo hi l b t} {Y = λ e t. ⊥} _ _ w
        (rw (ap function h.same_app ∙ ran) (returned (refl, later)))
        (λ r t (got, at). rw got (
          Run-attempt _ _ t
            (save_success-Run lib backend lo hi store l payload p result response b t dumped long
              at)
            (λ u v saved. unfold pure in returned (saved, refl)) (λ e v never. absurd never)))
        (λ e v never. absurd never)
    where
      later : At lo hi l b (record w { app = b })
      later = record { same_layer = h.same_layer; same_app = refl; within = h.within }

  -- the first time: one run, whose response is in the store afterwards
  pub first_time :
      (function : Function App) (result : Json) (response : String) (b : App) (w : World Db App)
      → function w.app ≡ (ok result, b)
      → lib.dumps result ≡ some response
      → hi / 1000 ≤ lo / 1000 + l.expires_after_seconds
      → At lo hi l w.app w
      → store.view w.env.db p.key ≡ none
      → Run
          (λ r t.
            (At lo hi l b t × IsSaved lib backend lo hi store l payload p response t)
            × (r ≡ result))
          (Never {A = Error})
          (process_idempotency lib backend config function payload w)
  unfolding process_idempotency get_remaining_time_in_millis
  first_time function result response b w ran dumped long h missing =
      Run-bind _ _ w (remaining-Run lo hi l config.lambda_context w.app w h)
        λ remaining t (at, same).
          Run-attempt _ _ t
            (save_inprogress-admitted lib backend lo hi store l payload p remaining w.app t at
              (rw same missing))
            (λ u v (at', _).
              get_function_response-Run function result response w.app b v ran dumped long at')
            (λ e v never. absurd never)

  get_idempotency_record-Run :
      (s : DataRecord) (a : App) (w : World Db App)
      → At lo hi l a w
      → store.view w.env.db p.key ≡ some s
      → (l.payload_validation_enabled ≡ false) ⊎ (s.payload_hash ≡ some p.hash)
      → Run
          (λ r t. At lo hi l a t × ((r ≡ s) × (store.view t.env.db p.key ≡ some s)))
          (Never {A = Error})
          (get_idempotency_record lib backend payload w)
  unfolding get_idempotency_record
  get_idempotency_record-Run s a w h found same_hash =
      Run-attempt _ _ w (get_record-Run lib backend lo hi store l payload p s a w h found same_hash)
        (λ r t (at, got). unfold pure in returned (at, got)) (λ e t never. absurd never)

  -- once it is there: no run, what is read back, and it is there still
  pub once_saved :
      (function : Function App) (s : DataRecord) (response : Json) (w : World Db App)
      → IsDone hi s
      → (l.payload_validation_enabled ≡ false) ⊎ (s.payload_hash ≡ some p.hash)
      → response_json_as_dict lib.loads s ≡ ok response
      → At lo hi l w.app w
      → store.view w.env.db p.key ≡ some s
      → Run
          (λ r t. At lo hi l w.app t × ((r ≡ response) × (store.view t.env.db p.key ≡ some s)))
          (Never {A = Error})
          (process_idempotency lib backend config function payload w)
  unfolding process_idempotency get_remaining_time_in_millis
  once_saved function s response w done same_hash loads h found =
      Run-bind _ _ w (remaining-Run lo hi l config.lambda_context w.app w h)
        λ remaining t (at, same).
          Run-attempt _ _ t
            (save_inprogress-denied lib backend lo hi store l payload p remaining s w.app t at
              (rw same found) done)
            (λ u v never. absurd never)
            λ e v (at', (denied, found')). rw denied (
              (Run-bind _ _ v (get_idempotency_record-Run s w.app v at' found' same_hash)
                λ r x (at'', (got, there)). rw got (
                  Run-implies
                    (λ r y (at3, (same_response, same)).
                      (at3, (same_response, ap (λ d. store.view d p.key) same ∙ there)))
                    (λ e y never. never)
                    (handle_for_status-IsDone lo hi l lib s response w.app x done loads at''))))
