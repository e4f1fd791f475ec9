-- ===== src/Tests/Batch.antt =====
-- A batch of SQS records of which one fails.
use aws_lambda_powertools_py.Common.{
  ℕ, ◌≡◌, ◌≢◌, refl, true, false, some, none, String, [], ◌∷◌, List, map, ◌+◌, if◌then◌else◌,
}
use aws_lambda_powertools_py.Common.Eq.{◌==◌, string_eq}
use aws_lambda_powertools_py.Common.Effect.{Result, ok, raised}
use aws_lambda_powertools_py.Common.Json.{Json, null, str, obj, field, end}
use aws_lambda_powertools_py.Batch.Message.{
  ExceptionInfo, sqs, Model, Message, wrapped, to_batch_type, message_identifier,
}
use aws_lambda_powertools_py.Batch.Processor.{
  escaped, batch_processing_error, Processor, Handler, process_all, with_processor,
  collect_failures, response,
}
use aws_lambda_powertools_py.Batch.Processor.Outcomes.{
  Outcome, entry, outcomes, advance, process_all-escaped,
}
use aws_lambda_powertools_py.Batch.Processor.Report.{
  finished, with_processor_none_failed, with_processor_all_failed, with_processor_some_failed,
}

abbrev failure : ExceptionInfo
failure = record { kind = "ValueError"; value = "bad" }

abbrev order : String → String → Json
order id body = obj (field "messageId" (str id) (field "body" (str body) end))

abbrev outcome_of : Message ℕ → Result ExceptionInfo Json
outcome_of (wrapped t (obj (field k v (field j (str body) fs)))) =
    if body == "bad" then raised failure else ok (str body)
outcome_of m = ok null

-- counts the records that it was called with
abbrev handler : Handler ℕ ℕ
handler = record { accepts_lambda_context = true; call = λ m c n. (outcome_of m, n + 1) }

abbrev processor : Processor ℕ ℕ
processor = record {
  event_type = sqs;
  model = none;
  records = [];
  lambda_context = none;
  handler_accepts_lambda_context = false;
  success_messages = null ∷ [];
  fail_messages = [];
  exceptions = failure ∷ [];
  batch_response = null ∷ [];
  app = 0;
}

abbrev pair : String → String → Json × Message ℕ
pair id body = (order id body, wrapped sqs (order id body))

abbrev good : List (Json × Message ℕ)
good = pair "1" "a" ∷ pair "2" "b" ∷ []

abbrev mixed : List (Json × Message ℕ)
mixed = pair "1" "a" ∷ pair "2" "bad" ∷ []

abbrev bad : List (Json × Message ℕ)
bad = pair "2" "bad" ∷ []

abbrev records : List (Json × Message ℕ) → List Json
records = map (λ q. q.0)

abbrev results : List (Json × Message ℕ) → List (Outcome ℕ)
results ps = (outcomes handler (some null) ps 0).0

with_processor_none_failed_example :
    (with_processor handler (records good) (some null) processor ≡ (
      ok (map entry (results good)),
      finished handler (records good) (some null) processor (results good) 2,
    ))
    × (response (finished handler (records good) (some null) processor (results good) 2) ≡ [])
unfolding to_batch_type
with_processor_none_failed_example =
    with_processor_none_failed handler (some null) good processor (refl, (refl, tt)) refl

with_processor_all_failed_example : with_processor handler (records bad) (some null) processor ≡ (
  raised (batch_processing_error (failure ∷ [])),
  finished handler (records bad) (some null) processor (results bad) 1,
)
unfolding to_batch_type
with_processor_all_failed_example =
    with_processor_all_failed handler (some null) bad processor (refl, tt) (λ e. nonempty e) refl
  where
    nonempty : {A : Type 0} {x : A} {xs : List A} → x ∷ xs ≢ []
    nonempty e = cc

with_processor_some_failed_example :
    with_processor handler (records mixed) (some null) processor ≡ (
      ok (map entry (results mixed)),
      record (finished handler (records mixed) (some null) processor (results mixed) 2) {
        batch_response = str "2" ∷ [];
      },
    )
unfolding to_batch_type collect_failures message_identifier
with_processor_some_failed_example =
    with_processor_some_failed handler (some null) mixed processor (refl, (refl, tt))
      ((wrapped sqs (order "2" "bad"), str "2") ∷ []) (λ e. nonempty e) (λ e. nonempty e) refl
      (refl, tt)
  where
    nonempty : {A : Type 0} {x : A} {xs : List A} → x ∷ xs ≢ []
    nonempty e = cc

-- a model that refuses every record
abbrev strict : Model ℕ
strict = record {
  parse_obj = λ v. raised failure;
  message_id = λ m. ok null;
  kinesis_sequence_number = λ m. ok null;
  dynamodb_sequence_number = λ m. ok null;
}

abbrev strict_processor : Processor ℕ ℕ
strict_processor = record processor { model = some strict }

process_all-escaped_example :
    process_all handler (order "1" "a" ∷ order "2" "b" ∷ []) strict_processor
    ≡ (raised (escaped failure), advance strict_processor [] 0)
unfolding to_batch_type
process_all-escaped_example =
    process_all-escaped handler [] (order "1" "a") (order "2" "b" ∷ []) failure strict_processor tt
      refl
