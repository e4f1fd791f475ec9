-- ===== src/EventHandler/Resolver.antt =====
-- event_handler/api_gateway.py: `ApiGatewayResolver` and its subclasses. A handler works on a state of
-- its own beside the context of the router; it registers no routes.
pub mod Registered
pub mod Prefix
use Prim.Native.String.{◌++◌ as join}
use package.text.Mathlib.Text.{starts_with}
use aws_lambda_powertools_py.Shared.{strtobool}
use aws_lambda_powertools_py.Common.{
  ℕ, String, Bool, true, false, ◌||◌, ◌&&◌, not, Option, none, some, List, [], ◌∷◌, ◌++◌, any,
  if◌then◌else◌,
}
use aws_lambda_powertools_py.Common.Eq.{◌==◌, string_eq}
use aws_lambda_powertools_py.Common.Dict.{Dict, get, store, merge}
use aws_lambda_powertools_py.Common.Effect.{
  Op, Result, ok, raised, pure, raise, lift, gets, attempt, modify, ◌>>=◌, ◌>>◌,
}
use aws_lambda_powertools_py.Common.Int.{ℤ, pos}
use aws_lambda_powertools_py.Common.Json.{Json, str, num, obj, Fields, field, end}
use aws_lambda_powertools_py.Common.Text.{drop_like, rstrip_slashes, insert_text, join_with}
use aws_lambda_powertools_py.EventHandler.Rule.{
  Unicode, Rule, Ending, exact, slashes, Args, compile_regex, match_rule,
}
use aws_lambda_powertools_py.EventHandler.Header.{Headers, one}
use aws_lambda_powertools_py.EventHandler.Response.{
  Exception, builtin, Cors, cors_headers, Response, Body, text, init, Encoding, Options, Reply,
  build,
}
use aws_lambda_powertools_py.EventHandler.Request.{
  ProxyEventType, Event, http_method, path, accepts_gzip, header_serializer,
}

-- content_types.py
abbrev pub application_json : String
application_json = "application/json"

abbrev pub text_plain : String
text_plain = "text/plain"

-- What a route's function returns.
pub data Outcome (Bytes Date : Type 0) : Type 0 where
  response : Response Bytes Date → Outcome Bytes Date
  json_value : Json → Outcome Bytes Date

-- The context of the router, the lines printed in debug mode, and what the handlers work on.
pub record Stage (App : Type 0) : Type 0 where
  pub context : Dict String Json
  pub printed : List String
  pub app : App

pub record Functions (Bytes Date App : Type 0) : Type 0 where
  -- a route's function, which reads `current_event`, and is called with the arguments of the path
  pub call : Event → Args → Op (Stage App) Exception (Outcome Bytes Date)

abbrev pub ExceptionHandler : Type 0 → Type 0 → Type 0 → Type 0
ExceptionHandler Bytes Date App = Exception → Op (Stage App) Exception (Response Bytes Date)

pub record Route (Bytes Date App : Type 0) : Type 0 where
  pub method : String
  pub rule : Rule
  pub func : Functions Bytes Date App
  pub options : Options

-- The attributes of a resolver. `_cors_enabled` is whether `cors` is given.
pub record Resolver (Bytes Date App : Type 0) : Type 0 where
  pub proxy_type : ProxyEventType
  pub is_rest : Bool
  pub routes : List (Route Bytes Date App)
  pub route_keys : List String
  pub exception_handlers : Dict String (ExceptionHandler Bytes Date App)
  pub cors : Option Cors
  pub cors_methods : List String
  pub debug : Bool
  pub strip_prefixes : Option (List String)

-- What the code calls of Python and of the user: `serializer` and `format_exc` of `traceback`.
pub record Runtime (Bytes Date : Type 0) : Type 0 where
  pub unicode : Unicode
  pub encoding : Encoding Bytes Date
  pub serializer : Json → Result Exception String
  pub format_exc : Exception → String

abbrev pub is_given : {A : Type 0} → Option A → Bool
is_given none = false
is_given (some a) = true

-- `_has_debug`, by the value of POWERTOOLS_DEV
unfoldable pub has_debug : (String → String) → Option Bool → Option String → Result Exception Bool
unfolding strtobool
has_debug lower (some debug) dev = ok debug
has_debug lower none none = strtobool (builtin "ValueError") lower "0"
has_debug lower none (some dev) = strtobool (builtin "ValueError") lower dev

-- `_path_starts_with`
path_starts_with : String → String → Bool
path_starts_with path prefix = not (prefix == "") && starts_with path (join prefix "/")

strip_one : List String → String → String
unfolding path_starts_with
strip_one [] path = path
strip_one (prefix ∷ prefixes) path =
    let rest = strip_one prefixes path in
    if path == prefix
    then "/"
    else if path_starts_with path prefix
    then drop_like prefix path
    else rest

-- `_remove_prefix`
unfoldable pub remove_prefix : Option (List String) → String → String
unfolding strip_one
remove_prefix none path = path
remove_prefix (some prefixes) path = strip_one prefixes path

-- the first of the types that has a handler
unfoldable pub lookup_mro : {H : Type 0} → List String → Dict String H → Option H
lookup_mro [] handlers = none
lookup_mro (t ∷ ts) handlers =
    let rest = lookup_mro ts handlers in elim (get t handlers) [ none ↦ rest | some h ↦ some h ]

abbrev pub not_found_error : Exception
not_found_error = record {
  mro = "NotFoundError" ∷ "ServiceError" ∷ "Exception" ∷ "BaseException" ∷ "object" ∷ [];
  service = some (404, "Not found");
}

abbrev pub message : ℕ → String → Json
message status msg = obj (field "statusCode" (num (pos status)) (field "message" (str msg) end))

module _ {App : Type 0} where
  -- `append_context` and `clear_context`
  unfoldable pub append_context : Dict String Json → Stage App → Stage App
  append_context additional s = record s { context = merge additional s.context }

  unfoldable pub clear_context : Stage App → Stage App
  clear_context s = record s { context = [] }

module _ {Bytes Date App : Type 0} where
  -- `__init__`, with the flag of `_has_debug`
  unfoldable pub init_resolver :
      ProxyEventType → Bool → Option Cors → Bool → Option (List String) → Resolver Bytes Date App
  init_resolver proxy_type is_rest cors debug strip_prefixes = record {
    proxy_type = proxy_type;
    is_rest = is_rest;
    routes = [];
    route_keys = [];
    exception_handlers = [];
    cors = cors;
    cors_methods = "OPTIONS" ∷ [];
    debug = debug;
    strip_prefixes = strip_prefixes;
  }

  -- `exception_handler` for a list of types; `not_found` is that of NotFoundError.
  unfoldable pub exception_handler :
      List String
      → ExceptionHandler Bytes Date App
      → Resolver Bytes Date App
      → Resolver Bytes Date App
  exception_handler [] func r = r
  exception_handler (t ∷ ts) func r =
      exception_handler ts func
        (record r { exception_handlers = store t func r.exception_handlers })

  unfoldable pub not_found :
      ExceptionHandler Bytes Date App → Resolver Bytes Date App → Resolver Bytes Date App
  unfolding exception_handler
  not_found func r = exception_handler ("NotFoundError" ∷ []) func r

module _ {Bytes Date App : Type 0} (run : Runtime Bytes Date) where
  -- one round of the loop of `register_resolver`, for a rule that is compiled
  add_route :
      String
      → String
      → Rule
      → Functions Bytes Date App
      → Options
      → Resolver Bytes Date App
      → Resolver Bytes Date App
  add_route item rule compiled func options r = record r {
    routes =
        r.routes
        ++ (record {
          method = run.unicode.upper item;
          rule = compiled;
          func = func;
          options = options;
        })
          ∷ [];
    route_keys = r.route_keys ++ join item rule ∷ [];
    cors_methods =
        if options.cors
        then insert_text (run.unicode.upper item) r.cors_methods
        else r.cors_methods;
  }

  register :
      List String
      → String
      → Option Rule
      → Functions Bytes Date App
      → Options
      → Resolver Bytes Date App
      → Option (Resolver Bytes Date App)
  unfolding add_route
  register [] rule compiled func options r = some r
  register (item ∷ items) rule none func options r = none
  register (item ∷ items) rule (some c) func options r =
      register items rule (some c) func options (add_route item rule c func options r)

  abbrev cors_of : Option Bool → Resolver Bytes Date App → Bool
  cors_of none r = is_given r.cors
  cors_of (some b) r = b

  -- `route` with the function it decorates: for the REST resolver the rule loses the slashes at its
  -- end and may match them. `none` is re.error.
  unfoldable pub route :
      String
      → List String
      → Option Bool
      → Bool
      → Option String
      → Functions Bytes Date App
      → Resolver Bytes Date App
      → Option (Resolver Bytes Date App)
  unfolding register compile_regex
  route rule methods cors compress cache_control func r =
      let written = if r.is_rest then rstrip_slashes rule else rule in
      register methods written
        (compile_regex run.unicode (if r.is_rest then slashes else exact) written) func
        (record { cors = cors_of cors r; compress = compress; cache_control = cache_control }) r
