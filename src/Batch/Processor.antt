-- ===== src/Batch/Processor.antt =====
-- batch/base.py: `BasePartialProcessor` and `BatchProcessor` over a record handler, and the decorator
-- `batch_processor`.
pub mod Outcomes
pub mod Report
use aws_lambda_powertools_py.Common.{
  ℕ, String, Bool, true, false, Option, none, some, List, [], ◌∷◌, ◌++◌, length, is_empty, eqb,
  if◌then◌else◌,
}
use aws_lambda_powertools_py.Common.Effect.{
  Op, Result, ok, raised, pure, raise, lift, gets, attempt, modify, ◌>>=◌, ◌>>◌,
}
use aws_lambda_powertools_py.Common.Json.{Json}
use Prim.Native.String.{◌++◌ as join}
use aws_lambda_powertools_py.Batch.Message.{
  ExceptionInfo, EventType, Model, Message, to_batch_type, message_identifier,
}

pub data Error : Type 0 where
  -- an exception that was not caught
  escaped : ExceptionInfo → Error
  -- BatchProcessingError with its `child_exceptions`
  batch_processing_error : List ExceptionInfo → Error

-- SuccessResponse and FailureResponse
pub data Entry (M : Type 0) : Type 0 where
  success : Json → Json → Entry M
  fail : String → Message M → Entry M

-- The attributes of a processor, and what the record handler works on. The result of a handler and
-- the Lambda context are JSON values here. `batch_response` is the list under "batchItemFailures".
pub record Processor (M App : Type 0) : Type 0 where
  pub event_type : EventType
  pub model : Option (Model M)
  pub records : List Json
  pub lambda_context : Option Json
  pub handler_accepts_lambda_context : Bool
  pub success_messages : List Json
  pub fail_messages : List (Message M)
  pub exceptions : List ExceptionInfo
  pub batch_response : List Json
  pub app : App

-- The callable for a record: `accepts_lambda_context` is what its signature says.
pub record Handler (M App : Type 0) : Type 0 where
  pub accepts_lambda_context : Bool
  pub call : Message M → Option Json → App → Result ExceptionInfo Json × App

abbrev pub kept_context : Option Json → Option Json → Option Json
kept_context none old = old
kept_context (some context) old = some context

abbrev pub injects : Option Json → Bool → Bool
injects none accepts = false
injects (some context) accepts = accepts

abbrev pub collect :
    Result ExceptionInfo Json → Result ExceptionInfo (List Json) → Result ExceptionInfo (List Json)
collect (ok id) (ok ids) = ok (id ∷ ids)
collect (ok id) (raised e) = raised e
collect (raised e) rest = raised e

-- `_collect_sqs_failures` and its like, by the event type
unfoldable pub collect_failures :
    {M : Type 0}
    → EventType
    → Option (Model M)
    → List (Message M)
    → Result ExceptionInfo (List Json)
collect_failures event_type model [] = ok []
collect_failures event_type model (msg ∷ msgs) =
    collect (message_identifier event_type model msg) (collect_failures event_type model msgs)

-- what is left of a `with` block after `__exit__`: its own exception takes the place of the body's
abbrev pub leave : {A : Type 0} → Result Error A → Result Error (Unit {0}) → Result Error A
leave r (ok _) = r
leave r (raised e) = raised e

module _ {M App : Type 0} where
  -- `__init__`
  unfoldable pub init : EventType → Option (Model M) → App → Processor M App
  init event_type model app = record {
    event_type = event_type;
    model = model;
    records = [];
    lambda_context = none;
    handler_accepts_lambda_context = false;
    success_messages = [];
    fail_messages = [];
    exceptions = [];
    batch_response = [];
    app = app;
  }

  -- `__call__`; the handler itself is an argument of what follows
  unfoldable pub call : List Json → Handler M App → Option Json → Processor M App → Processor M App
  call records handler context p = record p {
    records = records;
    lambda_context = kept_context context p.lambda_context;
    handler_accepts_lambda_context = injects context handler.accepts_lambda_context;
  }

  -- `_prepare`
  unfoldable pub prepare : Processor M App → Processor M App
  prepare p = record p {
    success_messages = [];
    fail_messages = [];
    exceptions = [];
    batch_response = [];
  }

  unfoldable pub success_handler : Json → Json → Op (Processor M App) Error (Entry M)
  success_handler v result p =
      (ok (success result v), record p { success_messages = p.success_messages ++ v ∷ [] })

  unfoldable pub failure_handler : Message M → ExceptionInfo → Op (Processor M App) Error (Entry M)
  failure_handler msg exception p = (
    ok (fail (join exception.kind (join ":" exception.value)) msg),
    record p {
      exceptions = p.exceptions ++ exception ∷ [];
      fail_messages = p.fail_messages ++ msg ∷ [];
    },
  )

  -- the call of the handler, with the context if it takes one
  run_handler : Handler M App → Message M → Op (Processor M App) Error (Result ExceptionInfo Json)
  run_handler handler msg p =
      let (r, a) =
        handler.call msg (if p.handler_accepts_lambda_context then p.lambda_context else none)
          p.app in
      (ok r, record p { app = a })

  handled : Json → Message M → Result ExceptionInfo Json → Op (Processor M App) Error (Entry M)
  unfolding success_handler failure_handler
  handled v msg (ok result) = success_handler v result
  handled v msg (raised exception) = failure_handler msg exception

  escaping : {A : Type 0} → Result ExceptionInfo A → Op (Processor M App) Error A
  escaping (ok a) = pure a
  escaping (raised e) = raise (escaped e)

  -- The conversion of the record stands outside the `try`.
  unfoldable pub process_record : Handler M App → Json → Op (Processor M App) Error (Entry M)
  unfolding run_handler handled escaping ◌>>=◌
  process_record handler v = do
    p ← gets (λ p. p)
    msg ← escaping (to_batch_type p.event_type p.model v)
    r ← run_handler handler msg
    handled v msg r

  unfoldable pub process_all :
      Handler M App → List Json → Op (Processor M App) Error (List (Entry M))
  process_all handler [] = pure []
  process_all handler (v ∷ vs) = do
    entry ← process_record handler v
    entries ← process_all handler vs
    pure (entry ∷ entries)

  -- `process`
  unfoldable pub process : Handler M App → Op (Processor M App) Error (List (Entry M))
  unfolding process_all ◌>>=◌
  process handler = do records ← gets (λ p. p.records); process_all handler records

  unfoldable pub has_messages_to_report : Processor M App → Bool
  has_messages_to_report p = if is_empty p.fail_messages then false else true

  unfoldable pub entire_batch_failed : Processor M App → Bool
  entire_batch_failed p = eqb (length p.exceptions) (length p.records)

  report : Op (Processor M App) Error (Unit {0})
  report = do
    p ← gets (λ p. p)
    messages ← escaping (collect_failures p.event_type p.model p.fail_messages)
    modify (λ q. record q { batch_response = messages })

  -- `_clean`
  unfoldable pub clean : Op (Processor M App) Error (Unit {0})
  unfolding has_messages_to_report entire_batch_failed report escaping ◌>>=◌
  clean = do
    p ← gets (λ p. p)
    if has_messages_to_report p
        then if entire_batch_failed p then raise (batch_processing_error p.exceptions) else report
        else pure tt

  -- `with processor(records, handler, lambda_context=context): processor.process()`
  unfoldable pub with_processor :
      Handler M App → List Json → Option Json → Op (Processor M App) Error (List (Entry M))
  unfolding call prepare process clean ◌>>=◌
  with_processor handler records context = do
    modify (λ p. prepare (call records handler context p))
    r ← attempt (process handler)
    c ← attempt clean
    lift (leave r c)

  -- `response`
  unfoldable pub response : Processor M App → List Json
  response p = p.batch_response

  -- The decorator `batch_processor` over `lambda_handler`, which sees the processor. The argument is
  -- `event["Records"]`, and `none` where the event has no such key.
  batch_processor :
      {A : Type 0}
      → Op (Processor M App) Error A
      → Handler M App
      → Option (List Json)
      → Json
      → Op (Processor M App) Error A
  batch_processor lambda_handler handler none context =
      raise (escaped (record { kind = "KeyError"; value = "Records" }))
  batch_processor lambda_handler handler (some records) context = do
    with_processor handler records (some context)
    lambda_handler
