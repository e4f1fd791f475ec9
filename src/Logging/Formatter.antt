-- ===== src/Logging/Formatter.antt =====
-- `LambdaPowertoolsFormatter`. What `logging` and `time` make of a record is part of the record here.
pub mod Reset
pub mod NoNone
pub mod Kept
use Prim.Native.Char.{Char}
use Prim.Native.String.{[] as no_text, ◌∷◌ as prepend}
use package.text.Mathlib.Text.{starts_with}
use aws_lambda_powertools_py.Common.{
  ℕ, zero, suc, String, Bool, true, false, ◌&&◌, not, Option, none, some, List, [], ◌∷◌, any,
  is_empty, if◌then◌else◌,
}
use aws_lambda_powertools_py.Common.Eq.{◌==◌, string_eq}
use aws_lambda_powertools_py.Common.Dict.{Dict, contains, store, delete, merge}
use aws_lambda_powertools_py.Common.Effect.{Result, ok, raised}
use aws_lambda_powertools_py.Common.Json.{Json, null, str, obj, truthy}
use aws_lambda_powertools_py.Common.Split.{split}

-- RESERVED_LOG_ATTRS
abbrev pub reserved_log_attrs : List String
reserved_log_attrs =
    "name" ∷ "msg" ∷ "args" ∷ "level" ∷ "levelname" ∷ "levelno" ∷ "pathname" ∷ "filename" ∷ "module"
    ∷ "exc_info" ∷ "exc_text" ∷ "stack_info" ∷ "lineno" ∷ "funcName" ∷ "created" ∷ "msecs"
    ∷ "relativeCreated" ∷ "thread" ∷ "threadName" ∷ "processName" ∷ "process" ∷ "asctime"
    ∷ "location" ∷ "timestamp" ∷ []

unfoldable pub is_reserved : String → Bool
is_reserved key = any (λ a. a == key) reserved_log_attrs

-- The keys of a formatter: their order, those of all records, and those of the constructor.
pub record Formatter : Type 0 where
  pub log_record_order : List String
  pub log_format : Dict String Json
  pub keys_combined : Dict String Json

-- A log record: its attributes, its message, whether it has arguments, and what `getMessage`,
-- `formatTime` and `formatException` give for it, the last with the name of the exception.
pub record LogRecord : Type 0 where
  pub attributes : Dict String Json
  pub msg : Json
  pub has_args : Bool
  pub formatted_message : String
  pub asctime : String
  pub exception : Option (String × String)

pub data DeserializeError : Type 0 where
  -- JSONDecodeError, TypeError or ValueError
  refused : DeserializeError
  another : String → DeserializeError

-- The `%` of a value with a dict, `json_deserializer` and `json_serializer`, with the names of their
-- exceptions.
pub record Library : Type 0 where
  pub percent : Json → Dict String Json → Result String Json
  pub json_deserializer : String → Result DeserializeError Json
  pub json_serializer : Dict String Json → Result String String

-- dict.fromkeys
from_keys : List String → Dict String Json → Dict String Json
from_keys [] done = done
from_keys (k ∷ ks) done = from_keys ks (store k null done)

-- `_build_default_keys`
abbrev pub default_keys : Dict String Json
default_keys =
    ("level", str "%(levelname)s")
    ∷ ("location", str "%(funcName)s:%(lineno)d")
    ∷ ("timestamp", str "%(asctime)s")
    ∷ []

-- log_record_order or ["level", "location", "message", "timestamp"]
or_default_order : Option (List String) → List String
or_default_order none = "level" ∷ "location" ∷ "message" ∷ "timestamp" ∷ []
or_default_order (some []) = "level" ∷ "location" ∷ "message" ∷ "timestamp" ∷ []
or_default_order (some order) = order

-- `__init__`, with the keys that are given by name
unfoldable pub new_formatter : Option (List String) → Dict String Json → Formatter
unfolding from_keys or_default_order
new_formatter log_record_order keys =
    let order = or_default_order log_record_order in
    let combined = merge keys default_keys in
    record {
      log_record_order = order;
      log_format = merge combined (from_keys order []);
      keys_combined = combined;
    }

-- `append_keys`
unfoldable pub append_keys : Dict String Json → Formatter → Formatter
append_keys additional_keys f = record f { log_format = merge additional_keys f.log_format }

delete_each : List String → Dict String Json → Dict String Json
delete_each [] d = d
delete_each (k ∷ ks) d = delete_each ks (delete k d)

-- `remove_keys`
unfoldable pub remove_keys : List String → Formatter → Formatter
unfolding delete_each
remove_keys keys f = record f { log_format = delete_each keys f.log_format }

-- `clear_state`
unfoldable pub clear_state : Formatter → Formatter
unfolding from_keys
clear_state f = record f { log_format = merge f.keys_combined (from_keys f.log_record_order []) }

-- s.replace("Root=", ""), where `skip` characters of a "Root=" are left
remove_root : ℕ → String → String
remove_root skip no_text = no_text
remove_root (suc skip) (prepend c s) = remove_root skip s
remove_root zero (prepend c s) =
    let rest = remove_root zero s in
    let behind = remove_root 4 s in
    if starts_with (prepend c s) "Root=" then behind else prepend c rest

first_or : String → List String → String
first_or s [] = s
first_or s (p ∷ ps) = p

-- `_get_latest_trace_id`, by the value of the environment variable
unfoldable pub get_latest_trace_id : Option String → Json
unfolding remove_root first_or
get_latest_trace_id none = null
get_latest_trace_id (some s) =
    let semicolon : Char = ";" in
    if s == "" then null else str (remove_root 0 (first_or s (split semicolon s)))

-- the records whose key is no attribute of `logging`
extras_of : Dict String Json → Dict String Json
extras_of [] = []
extras_of ((k, v) ∷ d) = let rest = extras_of d in if is_reserved k then rest else (k, v) ∷ rest

-- `_strip_none_records`
unfoldable pub strip_none_records : Dict String Json → Dict String Json
strip_none_records [] = []
strip_none_records ((k, null) ∷ d) = strip_none_records d
strip_none_records ((k, v) ∷ d) = (k, v) ∷ strip_none_records d

abbrev and_then : {A B : Type 0} → Result String A → (A → Result String B) → Result String B
and_then (ok a) f = f a
and_then (raised e) f = raised e

module _ (lib : Library) where
  deserialized : Json → Result DeserializeError Json → Result String Json
  deserialized msg (ok v) = ok v
  deserialized msg (raised refused) = ok msg
  deserialized msg (raised (another e)) = raised e

  json_message : Json → Result String Json
  unfolding deserialized
  json_message (str s) = deserialized (str s) (lib.json_deserializer s)
  json_message msg = ok msg

  -- `_extract_log_message`
  unfoldable pub extract_log_message : LogRecord → Result String Json
  unfolding json_message
  extract_log_message r = elim r.msg [
    | obj fs ↦ ok (obj fs)
    | _ ↦ if r.has_args then ok (str r.formatted_message) else json_message r.msg
  ]

  -- one key of the log: an attribute of `logging` is filled in
  fill : String → Json → Dict String Json → Result String Json
  fill key v attributes = if truthy v && is_reserved key then lib.percent v attributes else ok v

  -- the loop over the keys of the formatter
  fill_each :
      Dict String Json → Dict String Json → Dict String Json → Result String (Dict String Json)
  unfolding fill
  fill_each [] attributes done = ok done
  fill_each ((k, v) ∷ keys) attributes done =
      and_then (fill k v attributes) λ w. fill_each keys attributes (store k w done)

  -- `_extract_log_keys`
  unfoldable pub extract_log_keys : Formatter → LogRecord → Result String (Dict String Json)
  unfolding fill_each extras_of
  extract_log_keys f r =
      let attributes = store "asctime" (str r.asctime) r.attributes in
      and_then (fill_each f.log_format attributes []) λ log. ok (merge (extras_of attributes) log)

  exception_text : Option (String × String) → Json
  exception_text none = null
  exception_text (some (text, name)) = str text

  exception_name : Option (String × String) → Json
  exception_name none = null
  exception_name (some (text, name)) = str name

  -- the log with what `format` adds to it
  completed : Option String → LogRecord → Json → Dict String Json → Dict String Json
  unfolding exception_text exception_name get_latest_trace_id
  completed trace_id r message log = store "xray_trace_id" (get_latest_trace_id trace_id) (
      store "exception_name" (exception_name r.exception)
        (store "exception" (exception_text r.exception) (store "message" message log)))

  -- the dict that `format` serializes
  unfoldable pub log_of : Option String → Formatter → LogRecord → Result String (Dict String Json)
  unfolding extract_log_keys extract_log_message completed strip_none_records
  log_of trace_id f r = and_then (extract_log_keys f r) λ keys.
      and_then (extract_log_message r)
        λ message. ok (strip_none_records (completed trace_id r message keys))

  -- `format`, with the value of the environment variable of the trace
  unfoldable pub format : Option String → Formatter → LogRecord → Result String String
  unfolding log_of
  format trace_id f r = and_then (log_of trace_id f r) lib.json_serializer
