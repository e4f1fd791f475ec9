-- ===== src/Idempotency/Record.antt =====
-- persistence/base.py: `DataRecord`. A time is a number of milliseconds; every read of the clock
-- takes the next of the readings to come, so two reads in one call may differ.
use aws_lambda_powertools_py.Common.{
  ℕ, suc, ◌/◌, String, Bool, false, ◌||◌, Option, none, some, ltb, eqb, if◌then◌else◌,
}
use aws_lambda_powertools_py.Common.Eq.{◌==◌, string_eq}
use aws_lambda_powertools_py.Common.Effect.{Op, Result, ok, pure, raise, ◌>>=◌}
use aws_lambda_powertools_py.Common.Json.{Json, null}
use aws_lambda_powertools_py.Idempotency.Error.{Error, invalid_status, other}

-- STATUS_CONSTANTS
abbrev pub inprogress : String
inprogress = "INPROGRESS"

abbrev pub completed : String
completed = "COMPLETED"

abbrev pub expired : String
expired = "EXPIRED"

-- `stored_status` is `_status`
pub record DataRecord : Type 0 where
  pub idempotency_key : String
  pub stored_status : String
  pub expiry_timestamp : Option ℕ
  pub in_progress_expiry_timestamp : Option ℕ
  pub response_data : Option String
  pub payload_hash : Option String

-- What a store's operation works on: the store and the clock.
pub record Env (Db : Type 0) : Type 0 where
  pub db : Db
  pub clock : ℕ → ℕ

-- `_status in STATUS_CONSTANTS.values()`
unfoldable pub is_known : String → Bool
is_known s = s == inprogress || (s == completed || s == expired)

module _ {Db : Type 0} where
  -- int(datetime.datetime.now().timestamp() * 1000)
  unfoldable pub now : Op (Env Db) Error ℕ
  now e = (ok (e.clock 0), record e { clock = λ i. e.clock (suc i) })

  expired_at : Option ℕ → Op (Env Db) Error Bool
  expired_at none = pure false
  expired_at (some t) = if eqb t 0 then pure false else (do ms ← now; pure (ltb t (ms / 1000)))

  -- a timestamp of None or 0 never expires, and then the clock is not read
  unfoldable pub is_expired : DataRecord → Op (Env Db) Error Bool
  unfolding expired_at now
  is_expired r = expired_at r.expiry_timestamp

  unfoldable pub status : DataRecord → Op (Env Db) Error String
  unfolding is_known
  status r = do
    gone ← is_expired r
    if gone
        then pure expired
        else if is_known r.stored_status
        then pure r.stored_status
        else raise (invalid_status r.stored_status)

decoded : Option Json → Result Error Json
decoded none = Result.raised (other "JSONDecodeError")
decoded (some v) = ok v

loaded : (String → Option Json) → Option String → Result Error Json
unfolding decoded
loaded loads none = ok null
loaded loads (some s) = if s == "" then ok null else decoded (loads s)

-- `loads` is `json.loads`
unfoldable pub response_json_as_dict : (String → Option Json) → DataRecord → Result Error Json
unfolding loaded
response_json_as_dict loads r = loaded loads r.response_data
