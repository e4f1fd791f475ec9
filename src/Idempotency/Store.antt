-- ===== src/Idempotency/Store.antt =====
-- What the handler relies on in a persistence store: `Backend` with the laws of a store whose put is
-- conditional, for times that lie between two bounds.
use aws_lambda_powertools_py.Common.{ℕ, ◌/◌, ◌≤◌, String, false, Option, none, some, ◌≡◌, ◌⊎◌}
use aws_lambda_powertools_py.Common.Run.{Run, Never}
use aws_lambda_powertools_py.Idempotency.Error.{Error, item_already_exists}
use aws_lambda_powertools_py.Idempotency.Record.{DataRecord, Env, completed}
use aws_lambda_powertools_py.Idempotency.Layer.{Layer}
use aws_lambda_powertools_py.Idempotency.Persistence.{Backend}

-- every reading of the clock to come lies between two times
abbrev pub IsWithin : ℕ → ℕ → (ℕ → ℕ) → Type 0
IsWithin lo hi clock = (i : ℕ) → (lo ≤ clock i) × (clock i ≤ hi)

-- a completed record that has not expired at a time in milliseconds
pub record IsDone (hi : ℕ) (r : DataRecord) : Type 0 where
  pub expiry : ℕ
  pub expires : r.expiry_timestamp ≡ some expiry
  pub later : hi / 1000 ≤ expiry
  pub status : r.stored_status ≡ completed

-- what a store keeps of a record that was written over another one
pub record IsKept (layer : Layer) (r s : DataRecord) : Type 0 where
  pub key : s.idempotency_key ≡ r.idempotency_key
  pub response : s.response_data ≡ r.response_data
  pub hash : (layer.payload_validation_enabled ≡ false) ⊎ (s.payload_hash ≡ r.payload_hash)

pub record IsWritten {Db : Type 0} (view : Db → String → Option DataRecord) (layer : Layer) (hi : ℕ)
    (r : DataRecord) (db : Db) : Type 0 where
  pub stored : DataRecord
  pub found : view db r.idempotency_key ≡ some stored
  pub kept : IsKept layer r stored
  pub done : IsDone hi stored

pub record Store {Db : Type 0} (backend : Backend Db) (lo hi : ℕ) : Type 0 where
  pub view : Db → String → Option DataRecord
  -- a read gives the record that is there, and leaves it there
  pub fetch :
      (k : String) (r : DataRecord) (e : Env Db)
      → view e.db k ≡ some r
      → IsWithin lo hi e.clock
      → Run
          (λ s t. IsWithin lo hi t.clock × ((s ≡ r) × (view t.db k ≡ some r)))
          (Never {A = Error})
          (backend.get_record k e)
  -- a put succeeds where there is no record, and fails on a completed record that is alive
  pub admit :
      (layer : Layer) (r : DataRecord) (e : Env Db)
      → view e.db r.idempotency_key ≡ none
      → IsWithin lo hi e.clock
      → Run
          (λ u t. IsWithin lo hi t.clock × Unit {0})
          (Never {A = Error})
          (backend.put_record layer r e)
  pub deny :
      (layer : Layer) (r s : DataRecord) (e : Env Db)
      → view e.db r.idempotency_key ≡ some s
      → IsDone hi s
      → IsWithin lo hi e.clock
      → Run
          (Never {A = Unit {0}})
          (λ x t.
            IsWithin lo hi t.clock
            × ((x ≡ item_already_exists) × (view t.db r.idempotency_key ≡ some s)))
          (backend.put_record layer r e)
  -- an update writes a completed record over what is there
  pub write :
      (layer : Layer) (r : DataRecord) (e : Env Db)
      → IsDone hi r
      → IsWithin lo hi e.clock
      → Run
          (λ u t. IsWithin lo hi t.clock × IsWritten view layer hi r t.db)
          (Never {A = Error})
          (backend.update_record layer r e)
