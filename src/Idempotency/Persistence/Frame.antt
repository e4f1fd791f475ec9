-- ===== src/Idempotency/Persistence/Frame.antt =====
-- Rules for what the operations of the persistence layer keep: what says nothing of the store, the
-- clock and the local cache, and what says nothing of the store and the clock.
use aws_lambda_powertools_py.Common.{◌≡◌, Option, none, some, String, ℕ}
use aws_lambda_powertools_py.Common.Effect.{Op}
use aws_lambda_powertools_py.Common.Json.{Json}
use aws_lambda_powertools_py.Common.Invariant.{Preserves, preserving}
use aws_lambda_powertools_py.Cache.{LruDict}
use aws_lambda_powertools_py.Idempotency.Error.{Error}
use aws_lambda_powertools_py.Idempotency.Record.{DataRecord, Env}
use aws_lambda_powertools_py.Idempotency.Layer.{Library}
use aws_lambda_powertools_py.Idempotency.Persistence.{
  Backend, World, on_env, on_cache, get_expiry_timestamp, save_to_cache, delete_from_cache, if_live,
  retrieve_from_cache, save_success, in_progress_expiry, put_unless_cached, save_inprogress,
  delete_record, fetch_unless_cached, get_record,
}

module _ {Db App : Type 0} (a : App) where
  abbrev pub SameApp : World Db App → Type 0
  SameApp w = w.app ≡ a

  pub on_env-SameApp : {A : Type 0} (m : Op (Env Db) Error A) → Preserves SameApp (on_env m)
  unfolding on_env
  on_env-SameApp m = record { final = λ w h. h }

  pub on_cache-SameApp :
      {A : Type 0} (f : LruDict DataRecord → A × LruDict DataRecord)
      → Preserves SameApp (on_cache {Db = Db} f)
  unfolding on_cache
  on_cache-SameApp f = record { final = λ w h. h }

  ruleset base_rules = (preserving, on_env-SameApp, on_cache-SameApp)

  save_to_cache-SameApp : (r : DataRecord) → Preserves SameApp (save_to_cache r)
  unfolding save_to_cache
  save_to_cache-SameApp r = search base_rules

  delete_from_cache-SameApp : (k : String) → Preserves SameApp (delete_from_cache {Db = Db} k)
  unfolding delete_from_cache
  delete_from_cache-SameApp k = search base_rules

  if_live-SameApp :
      (k : String) (found : Option DataRecord) → Preserves SameApp (if_live {Db = Db} k found)
  unfolding if_live
  if_live-SameApp k none = search base_rules
  if_live-SameApp k (some r) = search (base_rules, delete_from_cache-SameApp)

  retrieve_from_cache-SameApp : (k : String) → Preserves SameApp (retrieve_from_cache {Db = Db} k)
  unfolding retrieve_from_cache
  retrieve_from_cache-SameApp k = search (base_rules, if_live-SameApp)

  get_expiry_timestamp-SameApp : Preserves SameApp (get_expiry_timestamp {Db = Db})
  unfolding get_expiry_timestamp
  get_expiry_timestamp-SameApp = search base_rules

module _ {Db App : Type 0} (lib : Library) (backend : Backend Db) (a : App) where
  ruleset layer_rules = (
    preserving, on_env-SameApp, on_cache-SameApp, save_to_cache-SameApp, delete_from_cache-SameApp,
    retrieve_from_cache-SameApp, get_expiry_timestamp-SameApp,
  )

  in_progress_expiry-SameApp :
      (o : Option ℕ) → Preserves (SameApp {Db = Db} a) (in_progress_expiry lib backend o)
  unfolding in_progress_expiry
  in_progress_expiry-SameApp none = search layer_rules
  in_progress_expiry-SameApp (some t) = search layer_rules

  put_unless_cached-SameApp :
      (r : DataRecord) (o : Option DataRecord)
      → Preserves (SameApp {Db = Db} a) (put_unless_cached lib backend r o)
  unfolding put_unless_cached
  put_unless_cached-SameApp r none = search layer_rules
  put_unless_cached-SameApp r (some c) = search layer_rules

  fetch_unless_cached-SameApp :
      (v : Json) (k : String) (o : Option DataRecord)
      → Preserves (SameApp {Db = Db} a) (fetch_unless_cached lib backend v k o)
  unfolding fetch_unless_cached
  fetch_unless_cached-SameApp v k none = search layer_rules
  fetch_unless_cached-SameApp v k (some c) = search layer_rules

  pub save_success-SameApp :
      (v r : Json) → Preserves (SameApp {Db = Db} a) (save_success lib backend v r)
  unfolding save_success
  save_success-SameApp v r = search layer_rules depth 14

  pub save_inprogress-SameApp :
      (v : Json) (o : Option ℕ) → Preserves (SameApp {Db = Db} a) (save_inprogress lib backend v o)
  unfolding save_inprogress
  save_inprogress-SameApp v o =
      search (layer_rules, in_progress_expiry-SameApp, put_unless_cached-SameApp) depth 14

  pub delete_record-SameApp :
      (v : Json) → Preserves (SameApp {Db = Db} a) (delete_record lib backend v)
  unfolding delete_record
  delete_record-SameApp v = search layer_rules depth 14

  pub get_record-SameApp : (v : Json) → Preserves (SameApp {Db = Db} a) (get_record lib backend v)
  unfolding get_record
  get_record-SameApp v = search (layer_rules, fetch_unless_cached-SameApp) depth 14
