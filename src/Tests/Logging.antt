-- ===== src/Tests/Logging.antt =====
-- A formatter with a key of its own.
use aws_lambda_powertools_py.Common.{String, false, none, some, [], ◌∷◌, ◌≡◌, refl}
use aws_lambda_powertools_py.Common.Eq.{string_eq}
use aws_lambda_powertools_py.Common.Dict.{Dict, get, contains, store, merge}
use aws_lambda_powertools_py.Common.Effect.{Result, ok, raised}
use aws_lambda_powertools_py.Common.Json.{Json, null, str}
use aws_lambda_powertools_py.Common.Split.{split}
use aws_lambda_powertools_py.Logging.Formatter.{
  is_reserved, Formatter, LogRecord, Library, refused, new_formatter, log_of, get_latest_trace_id,
}
use aws_lambda_powertools_py.Common.{arith}
use aws_lambda_powertools_py.Logging.Formatter.Kept.{log_of-kept}

abbrev library : Library
library = record {
  percent = λ v attributes. ok (str "filled");
  json_deserializer = λ s. raised refused;
  json_serializer = λ d. ok "{}";
}

abbrev formatter : Formatter
formatter = new_formatter none (("service", str "payment") ∷ [])

abbrev hello : LogRecord
hello = record {
  attributes = ("name", str "root") ∷ ("order", str "7") ∷ ("user", null) ∷ [];
  msg = str "hello";
  has_args = false;
  formatted_message = "hello";
  asctime = "2021";
  exception = none;
}

abbrev or_nothing : Result String (Dict String Json) → Dict String Json
or_nothing (ok d) = d
or_nothing (raised e) = []

abbrev logged : Dict String Json
logged = or_nothing (log_of library none formatter hello)

hello_logged :
    logged
    ≡ ("level", str "filled")
      ∷ ("location", str "filled")
      ∷ ("message", str "hello")
      ∷ ("timestamp", str "filled")
      ∷ ("service", str "payment")
      ∷ ("order", str "7")
      ∷ []
unfolding log_of new_formatter store merge is_reserved
hello_logged = refl

log_of-kept_example : get "service" logged ≡ some (str "payment")
unfolding log_of new_formatter store merge get contains is_reserved
log_of-kept_example =
    log_of-kept library "service" none formatter hello (str "payment") logged
      (refl, (refl, (refl, (refl, (refl, tt))))) refl (λ e. ground (arith, e)) refl refl refl refl

trace_id : get_latest_trace_id (some "Root=1-5;Parent=53;Sampled=1") ≡ str "1-5"
unfolding get_latest_trace_id split
trace_id = refl
