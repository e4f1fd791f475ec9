-- ===== src/Idempotency/Persistence.antt =====
-- The operations of `BasePersistenceLayer`, over the four operations that a store implements.
pub mod Frame
pub mod Steps
pub mod OverStore
use aws_lambda_powertools_py.Common.{
  ℕ, ◌+◌, ◌/◌, String, Bool, true, false, not, Option, none, some, eqb, if◌then◌else◌,
}
use aws_lambda_powertools_py.Common.Eq.{◌==◌, string_eq}
use aws_lambda_powertools_py.Common.Effect.{
  Op, Result, pure, raise, lift, gets, modify, ◌>>=◌, ◌>>◌,
}
use aws_lambda_powertools_py.Common.Json.{Json}
use aws_lambda_powertools_py.Cache
use aws_lambda_powertools_py.Idempotency.Error.{Error, item_already_exists}
use aws_lambda_powertools_py.Idempotency.Record.{
  DataRecord, Env, inprogress, completed, now, is_expired, status,
}
use aws_lambda_powertools_py.Idempotency.Layer.{
  Library, Layer, or_raise, get_hashed_idempotency_key, get_hashed_payload, validate_payload,
}

-- The abstract methods. A store may change by itself between two calls: then `Db` holds what else
-- happens to it.
pub record Backend (Db : Type 0) : Type 0 where
  pub get_record : String → Op (Env Db) Error DataRecord
  pub put_record : Layer → DataRecord → Op (Env Db) Error (Unit {0})
  pub update_record : Layer → DataRecord → Op (Env Db) Error (Unit {0})
  pub delete_record : DataRecord → Op (Env Db) Error (Unit {0})

-- The persistence layer object with its store and clock; `app` is what the decorated function works on.
pub record World (Db App : Type 0) : Type 0 where
  pub layer : Layer
  pub env : Env Db
  pub app : App

module _ {Db App : Type 0} where
  unfoldable pub on_env : {A : Type 0} → Op (Env Db) Error A → Op (World Db App) Error A
  on_env m w = let (r, e) = m w.env in (r, record w { env = e })

  -- int((now + timedelta(seconds=self.expires_after_seconds)).timestamp())
  unfoldable pub get_expiry_timestamp : Op (World Db App) Error ℕ
  get_expiry_timestamp = do
    ms ← on_env now
    seconds ← gets (λ w. w.layer.expires_after_seconds)
    pure (ms / 1000 + seconds)

  unfoldable pub on_cache :
      {A : Type 0}
      → (Cache.LruDict DataRecord → A × Cache.LruDict DataRecord)
      → Op (World Db App) Error A
  on_cache f w =
      let (a, c) = f w.layer.cache in
      (Result.ok a, record w { layer = record w.layer { cache = c } })

  unfoldable pub save_to_cache : DataRecord → Op (World Db App) Error (Unit {0})
  save_to_cache r = do
    cached ← gets (λ w. w.layer.use_local_cache)
    if not cached then pure tt else do
      s ← on_env (status r)
      if s == inprogress
          then pure tt
          else on_cache (λ c. (tt, Cache.set_item r.idempotency_key r c))

  unfoldable pub delete_from_cache : String → Op (World Db App) Error (Unit {0})
  delete_from_cache key = do
    cached ← gets (λ w. w.layer.use_local_cache)
    if not cached
        then pure tt
        else on_cache (λ c. (tt, if Cache.contains key c then Cache.delete key c else c))

  -- a cached record that has expired is dropped
  if_live : String → Option DataRecord → Op (World Db App) Error (Option DataRecord)
  unfolding delete_from_cache
  if_live key none = pure none
  if_live key (some r) = do
    gone ← on_env (is_expired r)
    if gone then (do delete_from_cache key; pure none) else pure (some r)

  unfoldable pub retrieve_from_cache : String → Op (World Db App) Error (Option DataRecord)
  unfolding if_live
  retrieve_from_cache key = do
    cached ← gets (λ w. w.layer.use_local_cache)
    if not cached
        then pure none
        else do found ← on_cache (Cache.get (λ _. true) key); if_live key found

module _ {Db App : Type 0} (lib : Library) (backend : Backend Db) where
  unfoldable pub save_success : Json → Json → Op (World Db App) Error (Unit {0})
  save_success payload result = do
    response ← lift (or_raise "TypeError" (lib.dumps result))
    layer ← gets (λ w. w.layer)
    key ← lift (get_hashed_idempotency_key lib layer payload)
    expiry ← get_expiry_timestamp
    hash ← lift (get_hashed_payload lib layer payload)
    let r : DataRecord = record {
      idempotency_key = key;
      stored_status = completed;
      expiry_timestamp = some expiry;
      in_progress_expiry_timestamp = none;
      response_data = some response;
      payload_hash = some hash;
    }
    on_env (backend.update_record layer r)
    save_to_cache r

  -- a remaining time of 0 counts as unknown
  in_progress_expiry : Option ℕ → Op (World Db App) Error (Option ℕ)
  in_progress_expiry none = pure none
  in_progress_expiry (some remaining) =
      if eqb remaining 0 then pure none else (do ms ← on_env now; pure (some (ms + remaining)))

  put_unless_cached : DataRecord → Option DataRecord → Op (World Db App) Error (Unit {0})
  put_unless_cached r (some cached) = raise item_already_exists
  put_unless_cached r none = do layer ← gets (λ w. w.layer); on_env (backend.put_record layer r)

  unfoldable pub save_inprogress : Json → Option ℕ → Op (World Db App) Error (Unit {0})
  unfolding in_progress_expiry put_unless_cached
  save_inprogress payload remaining_time_in_millis = do
    layer ← gets (λ w. w.layer)
    key ← lift (get_hashed_idempotency_key lib layer payload)
    expiry ← get_expiry_timestamp
    hash ← lift (get_hashed_payload lib layer payload)
    limit ← in_progress_expiry remaining_time_in_millis
    cached ← retrieve_from_cache key
    put_unless_cached
        (record {
          idempotency_key = key;
          stored_status = inprogress;
          expiry_timestamp = some expiry;
          in_progress_expiry_timestamp = limit;
          response_data = some "";
          payload_hash = some hash;
        })
        cached

  unfoldable pub delete_record : Json → Op (World Db App) Error (Unit {0})
  delete_record payload = do
    layer ← gets (λ w. w.layer)
    key ← lift (get_hashed_idempotency_key lib layer payload)
    on_env (
        backend.delete_record (record {
          idempotency_key = key;
          stored_status = "";
          expiry_timestamp = none;
          in_progress_expiry_timestamp = none;
          response_data = some "";
          payload_hash = none;
        }))
    delete_from_cache key

  fetch_unless_cached : Json → String → Option DataRecord → Op (World Db App) Error DataRecord
  fetch_unless_cached payload key (some cached) = do
    layer ← gets (λ w. w.layer)
    lift (validate_payload lib layer payload cached)
    pure cached
  fetch_unless_cached payload key none = do
    r ← on_env (backend.get_record key)
    save_to_cache r
    layer ← gets (λ w. w.layer)
    lift (validate_payload lib layer payload r)
    pure r

  unfoldable pub get_record : Json → Op (World Db App) Error DataRecord
  unfolding fetch_unless_cached
  get_record payload = do
    layer ← gets (λ w. w.layer)
    key ← lift (get_hashed_idempotency_key lib layer payload)
    cached ← retrieve_from_cache key
    fetch_unless_cached payload key cached
