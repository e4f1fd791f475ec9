-- ===== src/Logging/Formatter/NoNone.antt =====
-- `format`: a key whose value is None is not in the log.
use aws_lambda_powertools_py.Common.{String, Option, [], ◌∷◌, ◌≡◌, ◌≢◌, arith, All}
use aws_lambda_powertools_py.Common.Dict.{Dict}
use aws_lambda_powertools_py.Common.Effect.{Result, ok, raised}
use aws_lambda_powertools_py.Common.Ends.{Ends, returns, raises, Any, Ends-returned}
use aws_lambda_powertools_py.Common.Json.{Json, null, bool, num, str, arr, obj}
use aws_lambda_powertools_py.Logging.Formatter.{
  Formatter, LogRecord, Library, strip_none_records, and_then, completed, log_of, extract_log_keys,
  extract_log_message,
}

abbrev pub IsPresent : String × Json → Type 0
IsPresent p = p.1 ≢ null

strip_none_records-IsPresent : (d : Dict String Json) → All IsPresent (strip_none_records d)
unfolding strip_none_records
strip_none_records-IsPresent [] = tt
strip_none_records-IsPresent ((k, null) ∷ d) = strip_none_records-IsPresent d
strip_none_records-IsPresent ((k, bool b) ∷ d) =
    ((λ e. ground (arith, e)), strip_none_records-IsPresent d)
strip_none_records-IsPresent ((k, num n) ∷ d) =
    ((λ e. ground (arith, e)), strip_none_records-IsPresent d)
strip_none_records-IsPresent ((k, str s) ∷ d) =
    ((λ e. ground (arith, e)), strip_none_records-IsPresent d)
strip_none_records-IsPresent ((k, arr vs) ∷ d) =
    ((λ e. ground (arith, e)), strip_none_records-IsPresent d)
strip_none_records-IsPresent ((k, obj fs) ∷ d) =
    ((λ e. ground (arith, e)), strip_none_records-IsPresent d)

pub and_then-Ends :
    {A B : Type 0} {P : B → Type 0} (r : Result String A) (f : A → Result String B)
    → ((a : A) → Ends P Any (f a))
    → Ends P Any (and_then r f)
and_then-Ends (ok a) f h = h a
and_then-Ends (raised e) f h = raises tt

-- What a formatter serializes has no key whose value is None, whatever the keys, the extra
-- attributes, the message and the trace are.
pub log_of-IsPresent :
    (lib : Library) (trace_id : Option String) (f : Formatter) (r : LogRecord)
    (log : Dict String Json)
    → log_of lib trace_id f r ≡ ok log
    → All IsPresent log
unfolding log_of
log_of-IsPresent lib trace_id f r log e =
    Ends-returned {P = All IsPresent}
      (and_then-Ends (extract_log_keys lib f r) _ (λ keys.
        and_then-Ends (extract_log_message lib r) _ (λ message.
          returns (strip_none_records-IsPresent (completed lib trace_id r message keys)))))
      e
