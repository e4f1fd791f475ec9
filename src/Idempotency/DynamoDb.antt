-- ===== src/Idempotency/DynamoDb.antt =====
-- persistence/dynamodb.py: `DynamoDBPersistenceLayer`, over the four calls of a table of boto3.
pub mod RoundTrip
use aws_lambda_powertools_py.Common.{
  ℕ, ◌/◌, String, Bool, true, false, Option, none, some, List, [], ◌∷◌, ◌++◌, if◌then◌else◌,
}
use Prim.Native.String.{◌++◌ as join}
use aws_lambda_powertools_py.Common.Eq.{◌==◌, string_eq}
use aws_lambda_powertools_py.Common.Dict.{Dict, get, store}
use aws_lambda_powertools_py.Common.Effect.{Op, Result, ok, raised, pure, raise, lift, ◌>>=◌, ◌>>◌}
use aws_lambda_powertools_py.Idempotency.Error.{Error, item_already_exists, item_not_found, other}
use aws_lambda_powertools_py.Idempotency.Record.{DataRecord, Env, now, status, inprogress}
use aws_lambda_powertools_py.Idempotency.Layer.{Layer}
use aws_lambda_powertools_py.Idempotency.Persistence.{Backend}

-- An attribute of an item; None is `null`.
pub data Attribute : Type 0 where
  null : Attribute
  text : String → Attribute
  number : ℕ → Attribute

abbrev pub Item : Type 0
Item = Dict String Attribute

-- A condition expression with its names and values put in.
pub data Condition : Type 0 where
  attribute_not_exists : String → Condition
  attribute_exists : String → Condition
  less : String → Attribute → Condition
  equal : String → Attribute → Condition
  both : Condition → Condition → Condition
  either : Condition → Condition → Condition

-- The calls of a table. `get_item` gives no item where the response has no "Item"; `put_item` gives
-- false where it raises ConditionalCheckFailedException.
pub record Table (Db : Type 0) : Type 0 where
  pub get_item : Item → Db → Result Error (Option Item) × Db
  pub put_item : Item → Condition → Db → Result Error Bool × Db
  pub update_item : Item → Item → Db → Result Error (Unit {0}) × Db
  pub delete_item : Item → Db → Result Error (Unit {0}) × Db

-- The attributes of the layer.
pub record Settings : Type 0 where
  pub key_attr : String
  pub static_pk_value : String
  pub sort_key_attr : Option String
  pub expiry_attr : String
  pub in_progress_expiry_attr : String
  pub status_attr : String
  pub data_attr : String
  pub validation_key_attr : String

is_key : Option String → String → Bool
is_key none key_attr = false
is_key (some attr) key_attr = attr == key_attr

-- the static partition key, by LAMBDA_FUNCTION_NAME_ENV where none is given
partition : Option String → Option String → String
partition (some value) function_name = value
partition none none = "idempotency#"
partition none (some name) = join "idempotency#" name

-- `__init__`, over the arguments that it keeps as they are
unfoldable pub init : Option String → Option String → Settings → Result Error Settings
unfolding is_key partition
init static_pk_value function_name settings =
    if is_key settings.sort_key_attr settings.key_attr
    then raised (other "ValueError")
    else ok (record settings { static_pk_value = partition static_pk_value function_name })

key_of : Option String → Settings → String → Item
key_of none settings idempotency_key = (settings.key_attr, text idempotency_key) ∷ []
key_of (some sort_key_attr) settings idempotency_key =
    if sort_key_attr == ""
    then (settings.key_attr, text idempotency_key) ∷ []
    else (settings.key_attr, text settings.static_pk_value)
      ∷ (sort_key_attr, text idempotency_key)
      ∷ []

-- `_get_key`
unfoldable pub get_key : Settings → String → Item
unfolding key_of
get_key settings idempotency_key = key_of settings.sort_key_attr settings idempotency_key

-- item[name] and item.get(name), for a text or a number; another type than the layer writes there
-- is left out, and raises.
abbrev required : {A : Type 0} → (Attribute → Result Error A) → Option Attribute → Result Error A
required read none = raised (other "KeyError")
required read (some a) = read a

abbrev optional :
    {A : Type 0}
    → (Attribute → Result Error (Option A))
    → Option Attribute
    → Result Error (Option A)
optional read none = ok none
optional read (some a) = read a

abbrev as_text : Attribute → Result Error (Option String)
as_text null = ok none
as_text (text s) = ok (some s)
as_text (number n) = raised (other "TypeError")

abbrev as_number : Attribute → Result Error (Option ℕ)
as_number null = ok none
as_number (number n) = ok (some n)
as_number (text s) = raised (other "TypeError")

abbrev present : Attribute → Result Error String
present (text s) = ok s
present a = raised (other "TypeError")

abbrev and_then : {A B : Type 0} → Result Error A → (A → Result Error B) → Result Error B
and_then (ok a) f = f a
and_then (raised e) f = raised e

-- `_item_to_data_record`
unfoldable pub item_to_data_record : Settings → Item → Result Error DataRecord
item_to_data_record settings item = and_then (required present (get settings.key_attr item)) λ key.
    and_then (required present (get settings.status_attr item)) λ stored.
      and_then (required as_number (get settings.expiry_attr item)) λ expiry.
        and_then (optional as_number (get settings.in_progress_expiry_attr item)) λ in_progress.
          and_then (optional as_text (get settings.data_attr item)) λ response.
            and_then (optional as_text (get settings.validation_key_attr item)) λ hash. ok (record {
              idempotency_key = key;
              stored_status = stored;
              expiry_timestamp = expiry;
              in_progress_expiry_timestamp = in_progress;
              response_data = response;
              payload_hash = hash;
            })

abbrev pub text_or_null : Option String → Attribute
text_or_null none = null
text_or_null (some s) = text s

abbrev pub number_or_null : Option ℕ → Attribute
number_or_null none = null
number_or_null (some n) = number n

with_in_progress : Settings → Option ℕ → Item → Item
with_in_progress settings none item = item
with_in_progress settings (some t) item = store settings.in_progress_expiry_attr (number t) item

-- the item of `_put_record`, by the status that was read
unfoldable pub item_of : Settings → Bool → DataRecord → String → Item
unfolding with_in_progress get_key
item_of settings validated r current =
    let base = with_in_progress settings r.in_progress_expiry_timestamp (
      store settings.status_attr (text current) (
        store settings.expiry_attr (number_or_null r.expiry_timestamp)
          (get_key settings r.idempotency_key))) in
    if validated
    then store settings.validation_key_attr (text_or_null r.payload_hash) base
    else base

-- `condition_expression` at a time in milliseconds
unfoldable pub condition_at : Settings → ℕ → Condition
condition_at settings ms = either (attribute_not_exists settings.key_attr) (
    either (less settings.expiry_attr (number (ms / 1000))) (
      both (equal settings.status_attr (text inprogress)) (
        both (attribute_exists settings.in_progress_expiry_attr)
          (less settings.in_progress_expiry_attr (number ms)))))

-- the items set by the expression of `_update_record`
unfoldable pub updates_of : Settings → Bool → DataRecord → String → Item
updates_of settings validated r current =
    let base : Item =
      (settings.data_attr, text_or_null r.response_data)
      ∷ (settings.expiry_attr, number_or_null r.expiry_timestamp)
      ∷ (settings.status_attr, text current)
      ∷ [] in
    if validated
    then base ++ (settings.validation_key_attr, text_or_null r.payload_hash) ∷ []
    else base

module _ {Db : Type 0} where
  on_db : {A : Type 0} → (Db → Result Error A × Db) → Op (Env Db) Error A
  on_db f e = let (r, d) = f e.db in (r, record e { db = d })

  found : Settings → Option Item → Op (Env Db) Error DataRecord
  found settings none = raise item_not_found
  found settings (some item) = lift (item_to_data_record settings item)

  -- `_get_record`, `_put_record`, `_update_record` and `_delete_record`
  unfoldable pub dynamodb : Settings → Table Db → Backend Db
  unfolding on_db found item_to_data_record item_of condition_at updates_of now status ◌>>=◌
  dynamodb settings table = record {
    get_record = λ key. do
      item ← on_db (table.get_item (get_key settings key))
      found settings item;
    put_record = λ layer r. do
      current ← status r
      ms ← now
      stored ← on_db (
          table.put_item (item_of settings layer.payload_validation_enabled r current)
            (condition_at settings ms))
      if stored then pure tt else raise item_already_exists;
    update_record = λ layer r. do
      current ← status r
      on_db (
          table.update_item (get_key settings r.idempotency_key)
            (updates_of settings layer.payload_validation_enabled r current));
    delete_record = λ r. on_db (table.delete_item (get_key settings r.idempotency_key));
  }
