-- ===== src/EventHandler/Request.antt =====
-- utilities/data_classes: what the resolver reads of an event, with the exceptions of an event that
-- lacks it. The classes are those of common.py, api_gateway_proxy_event.py, alb_event.py and
-- lambda_function_url_event.py.
use Prim.Native.String.{◌++◌ as join}
use aws_lambda_powertools_py.Common.{String, Bool, true, false, Option, none, some, if◌then◌else◌}
use aws_lambda_powertools_py.Common.Eq.{◌==◌, string_eq}
use aws_lambda_powertools_py.Common.Effect.{Result, ok, raised}
use aws_lambda_powertools_py.Common.Json.{Json, null, str, obj, Fields, field, end, find, truthy}
use aws_lambda_powertools_py.Common.Text.{drop_like}
use aws_lambda_powertools_py.FeatureFlags.Operators.{member}
use aws_lambda_powertools_py.EventHandler.Header.{Serializer, http_api, multi_value, single_value}
use aws_lambda_powertools_py.EventHandler.Response.{Exception, builtin}

-- ProxyEventType
pub data ProxyEventType : Type 0 where
  api_gateway_proxy_event : ProxyEventType
  api_gateway_proxy_event_v2 : ProxyEventType
  alb_event : ProxyEventType
  lambda_function_url_event : ProxyEventType

-- An event in the class that `_to_proxy_event` gives it.
pub record Event : Type 0 where
  pub proxy_type : ProxyEventType
  pub event_fields : Fields

abbrev pub and_then :
    {A B : Type 0} → Result Exception A → (A → Result Exception B) → Result Exception B
and_then (ok a) f = f a
and_then (raised e) f = raised e

-- d[key]
item : String → Json → Result Exception Json
item key (obj fs) = elim (find key fs) [ none ↦ raised (builtin "KeyError") | some v ↦ ok v ]
item key v = raised (builtin "TypeError")

-- a value on which a method of texts is called
as_str : Json → Result Exception String
as_str (str s) = ok s
as_str v = raised (builtin "AttributeError")

is_v2 : ProxyEventType → Bool
is_v2 api_gateway_proxy_event_v2 = true
is_v2 lambda_function_url_event = true
is_v2 t = false

-- `http_method`
unfoldable pub http_method : Event → Result Exception String
unfolding item as_str is_v2
http_method e =
    if is_v2 e.proxy_type
    then (and_then (item "requestContext" (obj e.event_fields))
        λ context. and_then (item "http" context) λ http. and_then (item "method" http) as_str)
    else and_then (item "httpMethod" (obj e.event_fields)) as_str

-- raw_path[len("/" + stage):] for a stage that is not $default
abbrev pub without_stage : String → String → String
without_stage stage raw_path =
    if stage == "$default" then raw_path else drop_like (join "/" stage) raw_path

-- `path`
unfoldable pub path : Event → Result Exception String
unfolding item as_str is_v2
path e =
    if is_v2 e.proxy_type
    then (and_then (item "requestContext" (obj e.event_fields)) λ context.
        and_then (item "stage" context) λ stage. and_then (as_str stage) λ name.
          and_then (item "rawPath" (obj e.event_fields))
            λ raw_path. and_then (as_str raw_path) λ raw. ok (without_stage name raw))
    else and_then (item "path" (obj e.event_fields)) as_str

-- the first header whose name agrees but for case
find_header : (String → String) → String → Fields → Option Json
find_header lower name end = none
find_header lower name (field key v fs) =
    if lower key == name then some v else find_header lower name fs

or_else : Option Json → Json → Json
or_else none default_value = default_value
or_else (some v) default_value = v

-- `get_header_value` for headers that are an object, or nothing
unfoldable pub get_header_value :
    (String → String) → Json → String → Json → Bool → Result Exception Json
unfolding find_header or_else
get_header_value lower (obj fs) name default_value true = ok (or_else (find name fs) default_value)
get_header_value lower (obj fs) name default_value false =
    ok (or_else (find_header lower (lower name) fs) default_value)
get_header_value lower headers name default_value case_sensitive =
    if truthy headers then raised (builtin "AttributeError") else ok default_value

-- "gzip" in (value or "")
abbrev contains_gzip : Json → Result Exception Bool
contains_gzip v = elim (member (str "gzip") (if truthy v then v else str "")) [
  | none ↦ raised (builtin "TypeError")
  | some b ↦ ok b
]

unfoldable pub accepts_gzip : (String → String) → Event → Result Exception Bool
unfolding item get_header_value
accepts_gzip lower e = and_then (item "headers" (obj e.event_fields)) λ headers.
    and_then (get_header_value lower headers "accept-encoding" (str "") false) contains_gzip

get_optional : String → Fields → Json
get_optional key fs = elim (find key fs) [ none ↦ null | some v ↦ v ]

-- `header_serializer`
unfoldable pub header_serializer : Event → Serializer
unfolding get_optional
header_serializer e = elim e.proxy_type [
  | api_gateway_proxy_event ↦ multi_value
  | api_gateway_proxy_event_v2 ↦ http_api
  | alb_event ↦
      if truthy (get_optional "multiValueHeaders" e.event_fields) then multi_value else single_value
  | lambda_function_url_event ↦ http_api
]
