-- ===== src/Batch/Message.antt =====
-- batch/base.py: `EventType`, the conversion of a record and the identifiers that are reported; the
-- properties of SQSRecord, KinesisStreamRecord and DynamoDBRecord that these read.
use aws_lambda_powertools_py.Common.{String, Option, none, some}
use aws_lambda_powertools_py.Common.Effect.{Result, ok, raised}
use aws_lambda_powertools_py.Common.Json.{Json, null, obj, find}

-- `sys.exc_info()`: the exception's type and its text. The traceback is left out.
pub record ExceptionInfo : Type 0 where
  pub kind : String
  pub value : String

pub data EventType : Type 0 where
  sqs : EventType
  kinesis_data_streams : EventType
  dynamodb_streams : EventType

-- A Pydantic model class of records, with the attributes that the processor reads.
pub record Model (M : Type 0) : Type 0 where
  pub parse_obj : Json → Result ExceptionInfo M
  pub message_id : M → Result ExceptionInfo Json
  pub kinesis_sequence_number : M → Result ExceptionInfo Json
  pub dynamodb_sequence_number : M → Result ExceptionInfo Json

-- A record as the handler sees it, and as it is kept.
pub data Message (M : Type 0) : Type 0 where
  wrapped : EventType → Json → Message M
  parsed : M → Message M

key_error : String → ExceptionInfo
key_error key = record { kind = "KeyError"; value = key }

type_error : ExceptionInfo
type_error = record { kind = "TypeError"; value = "not subscriptable" }

attribute_error : ExceptionInfo
attribute_error = record { kind = "AttributeError"; value = "no such attribute" }

found : String → Option Json → Result ExceptionInfo Json
unfolding key_error
found key none = raised (key_error key)
found key (some v) = ok v

-- v[key]
item : String → Json → Result ExceptionInfo Json
unfolding found type_error
item key (obj fs) = found key (find key fs)
item key v = raised type_error

-- v.get(key), with the default None
get : String → Json → Result ExceptionInfo Json
unfolding attribute_error
get key (obj fs) = ok (elim (find key fs) [ none ↦ null | some v ↦ v ])
get key v = raised attribute_error

abbrev pub then_do :
    {A B : Type 0} → Result ExceptionInfo A → (A → Result ExceptionInfo B) → Result ExceptionInfo B
then_do (ok a) f = f a
then_do (raised e) f = raised e

-- `StreamRecord.sequence_number`, of a `dynamodb` that may be None
stream_sequence_number : Json → Result ExceptionInfo Json
unfolding get attribute_error
stream_sequence_number null = raised attribute_error
stream_sequence_number v = get "SequenceNumber" v

-- what a data class of each event type answers for its identifier
identifier : EventType → Json → Result ExceptionInfo Json
unfolding item get stream_sequence_number
identifier sqs v = item "messageId" v
identifier kinesis_data_streams v = then_do (item "kinesis" v) (item "sequenceNumber")
identifier dynamodb_streams v = then_do (get "dynamodb" v) stream_sequence_number

module _ {M : Type 0} where
  -- `_to_batch_type`
  unfoldable pub to_batch_type :
      EventType → Option (Model M) → Json → Result ExceptionInfo (Message M)
  to_batch_type event_type none v = ok (wrapped event_type v)
  to_batch_type event_type (some model) v = then_do (model.parse_obj v) (λ m. ok (parsed m))

  model_identifier : EventType → Model M → M → Result ExceptionInfo Json
  model_identifier sqs model m = model.message_id m
  model_identifier kinesis_data_streams model m = model.kinesis_sequence_number m
  model_identifier dynamodb_streams model m = model.dynamodb_sequence_number m

  -- The identifier that a collector reads off a failed message. Those are made by `to_batch_type`
  -- with the same event type and model, so the last clauses meet no message of a processor's own.
  unfoldable pub message_identifier :
      EventType → Option (Model M) → Message M → Result ExceptionInfo Json
  unfolding identifier model_identifier attribute_error
  message_identifier event_type none (wrapped _ v) = identifier event_type v
  message_identifier event_type (some model) (parsed m) = model_identifier event_type model m
  message_identifier event_type model msg = raised attribute_error
