-- ===== src/Idempotency/Handler.antt =====
-- idempotency/base.py: `IdempotencyHandler`.
pub mod AtMostOnce
pub mod Rounds
pub mod Replay
use aws_lambda_powertools_py.Common.{
  ℕ, zero, suc, String, Bool, true, false, Option, none, some, ltb, if◌then◌else◌,
}
use Prim.Native.String.{◌++◌}
use aws_lambda_powertools_py.Common.Eq.{◌==◌, string_eq}
use aws_lambda_powertools_py.Common.Effect.{
  Op, Result, ok, raised, pure, raise, lift, gets, attempt, ◌>>=◌, ◌>>◌,
}
use aws_lambda_powertools_py.Common.Json.{Json}
use aws_lambda_powertools_py.Idempotency.Error.{
  Error, key_error, already_in_progress, inconsistent_state, item_already_exists, item_not_found,
  validation_error, persistence_layer_error,
}
use aws_lambda_powertools_py.Idempotency.Record.{
  DataRecord, inprogress, expired, now, status, response_json_as_dict,
}
use aws_lambda_powertools_py.Idempotency.Layer.{Library, IdempotencyConfig}
use aws_lambda_powertools_py.Idempotency.Persistence.{
  Backend, World, on_env, save_success, save_inprogress, delete_record, get_record,
}

abbrev pub max_retries : ℕ
max_retries = 2

-- The decorated function with its arguments: what it returns or raises, and what it does to `App`.
abbrev pub Function : Type 0 → Type 0
Function App = App → Result Error Json × App

module _ {Db App : Type 0} where
  unfoldable pub run : Function App → Op (World Db App) Error Json
  run function w = let (r, a) = function w.app in (r, record w { app = a })

  remaining_at : Option (ℕ → ℕ) → Op (World Db App) Error (Option ℕ)
  remaining_at none = pure none
  remaining_at (some context) = do ms ← on_env now; pure (some (context ms))

  unfoldable pub get_remaining_time_in_millis :
      IdempotencyConfig → Op (World Db App) Error (Option ℕ)
  unfolding remaining_at
  get_remaining_time_in_millis config = remaining_at config.lambda_context

  timed_out : Option ℕ → Op (World Db App) Error Bool
  timed_out none = pure false
  timed_out (some t) = do ms ← on_env now; pure (ltb t ms)

  -- `data_record.status` is read twice
  unfoldable pub handle_for_status : Library → DataRecord → Op (World Db App) Error Json
  unfolding timed_out
  handle_for_status lib r = do
    first ← on_env (status r)
    if first == expired then raise inconsistent_state else do
      second ← on_env (status r)
      if second == inprogress
          then (do
            late ← timed_out r.in_progress_expiry_timestamp
            layer ← gets (λ w. w.layer)
            if late
                then raise inconsistent_state
                else raise
                    (already_in_progress (layer.event_key_jmespath ++ "=" ++ r.idempotency_key)))
          else lift (response_json_as_dict lib.loads r)

module _ {Db App : Type 0} (lib : Library) (backend : Backend Db) where
  -- the `except` clauses of `_get_idempotency_record`
  after_get : Result Error DataRecord → Op (World Db App) Error DataRecord
  after_get (ok r) = pure r
  after_get (raised item_not_found) = raise inconsistent_state
  after_get (raised validation_error) = raise validation_error
  after_get (raised e) = raise persistence_layer_error

  unfoldable pub get_idempotency_record : Json → Op (World Db App) Error DataRecord
  unfolding after_get
  get_idempotency_record payload = do
    outcome ← attempt (get_record lib backend payload)
    after_get outcome

  after_delete : Error → Result Error (Unit {0}) → Op (World Db App) Error Json
  after_delete exc (ok _) = raise exc
  after_delete exc (raised e) = raise persistence_layer_error

  after_save : Json → Result Error (Unit {0}) → Op (World Db App) Error Json
  after_save response (ok _) = pure response
  after_save response (raised e) = raise persistence_layer_error

  after_run : Json → Result Error Json → Op (World Db App) Error Json
  unfolding after_delete after_save
  after_run payload (raised exc) = do
    outcome ← attempt (delete_record lib backend payload)
    after_delete exc outcome
  after_run payload (ok response) = do
    outcome ← attempt (save_success lib backend payload response)
    after_save response outcome

  unfoldable pub get_function_response : Function App → Json → Op (World Db App) Error Json
  unfolding run after_run
  get_function_response function payload = do
    outcome ← attempt (run function)
    after_run payload outcome

  -- the clauses of `_process_idempotency` after `save_inprogress`
  after_save_inprogress :
      Function App → Json → Result Error (Unit {0}) → Op (World Db App) Error Json
  after_save_inprogress function payload (ok _) = get_function_response function payload
  after_save_inprogress function payload (raised key_error) = raise key_error
  after_save_inprogress function payload (raised item_already_exists) = do
    r ← get_idempotency_record payload
    handle_for_status lib r
  after_save_inprogress function payload (raised e) = raise persistence_layer_error

  unfoldable pub process_idempotency :
      IdempotencyConfig → Function App → Json → Op (World Db App) Error Json
  unfolding after_save_inprogress
  process_idempotency config function payload = do
    remaining ← get_remaining_time_in_millis config
    outcome ← attempt (save_inprogress lib backend payload remaining)
    after_save_inprogress function payload outcome

  -- one more round only after IdempotencyInconsistentStateError
  again :
      Result Error Json × World Db App
      → (World Db App → Result Error Json × World Db App)
      → Result Error Json × World Db App
  again (raised inconsistent_state, w) rest = rest w
  again (r, w) rest = (r, w)

  -- the loop of `handle`, by the retries that are left
  pub retry : ℕ → IdempotencyConfig → Function App → Json → Op (World Db App) Error Json
  unfolding again
  retry zero config function payload = process_idempotency config function payload
  retry (suc left) config function payload = λ w.
      again (process_idempotency config function payload w) (retry left config function payload)

  unfoldable pub handle : IdempotencyConfig → Function App → Json → Op (World Db App) Error Json
  unfolding retry
  handle config function payload = retry max_retries config function payload
