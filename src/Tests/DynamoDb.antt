-- ===== src/Tests/DynamoDb.antt =====
-- A record in progress as an item of a table with the default names.
use aws_lambda_powertools_py.Common.{
  ◌≡◌, ◌≢◌, refl, true, false, String, none, some, [], ◌∷◌, arith,
}
use aws_lambda_powertools_py.Common.Effect.{ok}
use aws_lambda_powertools_py.Common.Eq.{◌==◌, string_eq}
use aws_lambda_powertools_py.Common.Dict.{store}
use aws_lambda_powertools_py.Idempotency.Record.{DataRecord, inprogress}
use aws_lambda_powertools_py.Idempotency.DynamoDb.{
  Settings, text, number, item_of, item_to_data_record,
}
use aws_lambda_powertools_py.Idempotency.DynamoDb.RoundTrip.{
  AreApart, names, restored, item_to_data_record-item_of,
}

abbrev settings : Settings
settings = record {
  key_attr = "id";
  static_pk_value = "idempotency#f";
  sort_key_attr = none;
  expiry_attr = "expiration";
  in_progress_expiry_attr = "in_progress_expiration";
  status_attr = "status";
  data_attr = "data";
  validation_key_attr = "validation";
}

abbrev started : DataRecord
started = record {
  idempotency_key = "f#1";
  stored_status = inprogress;
  expiry_timestamp = some 3600;
  in_progress_expiry_timestamp = some 900;
  response_data = none;
  payload_hash = some "h";
}

item_started :
    item_of settings true started inprogress
    ≡ ("id", text "f#1")
      ∷ ("expiration", number 3600)
      ∷ ("status", text "INPROGRESS")
      ∷ ("in_progress_expiration", number 900)
      ∷ ("validation", text "h")
      ∷ []
unfolding item_of store
item_started = refl

differ : {a b : String} → (a == b) ≡ false → a ≢ b
differ {a = a} {b = b} h e = ground (arith, string_eq.same_key_iff a b)

apart : AreApart (names settings)
apart = (
  (differ refl, (differ refl, (differ refl, (differ refl, (differ refl, tt))))),
  (
    (differ refl, (differ refl, (differ refl, (differ refl, tt)))),
    (
      (differ refl, (differ refl, (differ refl, tt))),
      ((differ refl, (differ refl, tt)), ((differ refl, tt), (tt, tt))),
    ),
  ),
)

item_to_data_record-item_of_example :
    item_to_data_record settings (item_of settings true started inprogress)
    ≡ ok (restored settings true started inprogress)
item_to_data_record-item_of_example =
    item_to_data_record-item_of settings true started inprogress refl apart
