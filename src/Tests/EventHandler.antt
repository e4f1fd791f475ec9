-- ===== src/Tests/EventHandler.antt =====
-- A REST resolver with two routes, called with an event of API Gateway.
use aws_lambda_powertools_py.Common.{
  ℕ, String, true, false, Option, List, none, some, [], ◌∷◌, ◌≡◌, refl,
}
use aws_lambda_powertools_py.Common.Eq.{string_eq}
use aws_lambda_powertools_py.Common.Dict.{contains, get, store, merge}
use aws_lambda_powertools_py.Common.Effect.{Result, ok, raised}
use aws_lambda_powertools_py.Common.Json.{Json, null, str, Fields, field, end}
use aws_lambda_powertools_py.EventHandler.Rule.{slashes, lit, group, Args, match_rule}
use aws_lambda_powertools_py.EventHandler.Header.{one, multi, serialize}
use aws_lambda_powertools_py.EventHandler.Response.{
  Exception, builtin, default_cors, Encoding, Reply, build,
}
use aws_lambda_powertools_py.EventHandler.Request.{
  Event, api_gateway_proxy_event, http_method, path, header_serializer,
}
use aws_lambda_powertools_py.EventHandler.Resolver.{
  json_value, Stage, Functions, Route, Resolver, Runtime, init_resolver, route, remove_prefix,
  append_context, lookup_mro,
}
use aws_lambda_powertools_py.EventHandler.Resolver.Registered.{created, routed, Built}
use aws_lambda_powertools_py.EventHandler.Dispatch.{
  Builder, find_route, call_route, call_function, resolve,
}
use aws_lambda_powertools_py.EventHandler.Dispatch.Selection.{
  find_route-first, resolve-returned, resolve-raised,
}
use aws_lambda_powertools_py.EventHandler.Dispatch.Preflight.{IsComplete, find_route-preflight}
use aws_lambda_powertools_py.Common.Text.{join_with}
use aws_lambda_powertools_py.Common.Dict.{get}
use aws_lambda_powertools_py.EventHandler.Dispatch.Errors.{IsEscape, call_route-IsEscape}
use aws_lambda_powertools_py.EventHandler.Router.{RouteKey, new_router, include_router}
use aws_lambda_powertools_py.EventHandler.Router.Included.{
  inner, add_all, route_all, include_router-route_all,
}
use aws_lambda_powertools_py.Tests.Rules.{ascii}

abbrev encoding : Encoding String String
encoding = record {
  str = λ n. "0";
  utf8 = λ s. s;
  gzip = λ b. b;
  b64encode = λ b. b;
  texts = record { format_date = λ d. d; str = λ n. "0" };
}

abbrev dumped : Json → String
dumped (str s) = s
dumped v = "{}"

abbrev runtime : Runtime String String
runtime = record {
  unicode = ascii;
  encoding = encoding;
  serializer = λ v. ok (dumped v);
  format_exc = λ e. "";
}

-- answers with its first argument
abbrev first_value : Args → Json
first_value [] = null
first_value ((name, v) ∷ args) = str v

abbrev show_user : Functions String String ℕ
show_user = record {
  call = λ event args stage.
      (ok (json_value (first_value args)), append_context (("user", first_value args) ∷ []) stage);
}

abbrev failing : Functions String String ℕ
failing = record {
  call = λ event args stage.
      (raised (builtin "ValueError"), append_context (("user", null) ∷ []) stage);
}

abbrev empty : Resolver String String ℕ
empty = init_resolver api_gateway_proxy_event true (some default_cors) false (some ("/api" ∷ []))

abbrev or_empty_one : Option (Resolver String String ℕ) → Resolver String String ℕ
or_empty_one none = empty
or_empty_one (some r) = r

abbrev with_user : Option (Resolver String String ℕ)
with_user = route runtime "/users/<id>" ("get" ∷ []) none false none show_user empty

abbrev resolver_option : Option (Resolver String String ℕ)
resolver_option =
    route runtime "/fails/" ("get" ∷ []) none false none failing (or_empty_one with_user)

abbrev resolver : Resolver String String ℕ
resolver = or_empty_one resolver_option

abbrev stage : Stage ℕ
stage = record { context = []; printed = []; app = 0 }

abbrev request : String → Fields
request at = field "httpMethod" (str "get") (field "path" (str at) (field "headers" null end))

abbrev event_at : String → Event
event_at at = record { proxy_type = api_gateway_proxy_event; event_fields = request at }

abbrev users_route : Route String String ℕ
users_route = record {
  method = "GET";
  rule = record {
    tokens = lit "/" ∷ lit "u" ∷ lit "s" ∷ lit "e" ∷ lit "r" ∷ lit "s" ∷ lit "/" ∷ group "id" ∷ [];
    ending = slashes;
  };
  func = show_user;
  options = record { cors = true; compress = false; cache_control = none };
}

abbrev fails_route : Route String String ℕ
fails_route = record {
  method = "GET";
  rule = record {
    tokens = lit "/" ∷ lit "f" ∷ lit "a" ∷ lit "i" ∷ lit "l" ∷ lit "s" ∷ [];
    ending = slashes;
  };
  func = failing;
  options = record { cors = true; compress = false; cache_control = none };
}

built_routes : resolver.routes ≡ users_route ∷ fails_route ∷ []
unfolding route init_resolver
built_routes = refl

abbrev built : Built runtime resolver
unfolding route init_resolver
built =
    routed "/fails/" ("get" ∷ []) none false none failing
      (routed "/users/<id>" ("get" ∷ []) none false none show_user
        (created api_gateway_proxy_event true (some default_cors) false (some ("/api" ∷ []))) refl)
      refl

abbrev options_event : Event
options_event = record {
  proxy_type = api_gateway_proxy_event;
  event_fields =
      field "httpMethod" (str "options")
        (field "path" (str "/api/fails/") (field "headers" null end));
}

find_route-preflight_example :
    (b : Builder String String) × (methods : List String) × (find_route runtime resolver
        options_event stage
      ≡ (ok b, stage))
    × (b.reply.status_code ≡ 204)
    × (get "Access-Control-Allow-Methods" b.reply.headers ≡ some (one (join_with "," methods)))
    × IsComplete methods resolver.routes
unfolding http_method path remove_prefix match_rule route init_resolver
find_route-preflight_example =
    find_route-preflight runtime resolver default_cors options_event "options" "/api/fails/" stage
      built refl refl refl refl (refl, (refl, tt))

-- the trailing slash belongs to the path
find_route-first_example :
    find_route runtime resolver (event_at "/api/fails/") stage
    ≡ call_route runtime resolver (event_at "/api/fails/") fails_route [] stage
unfolding http_method path remove_prefix match_rule route init_resolver
find_route-first_example =
    find_route-first runtime resolver (event_at "/api/fails/") "get" "/api/fails/" stage
      (users_route ∷ []) [] fails_route [] refl refl built_routes (refl, tt) refl

abbrev reply_in : Result Exception Reply → Reply
reply_in (ok reply) = reply
reply_in (raised e) = record {
  status = 0;
  reply_body = none;
  is_base64_encoded = false;
  payload = multi [];
}

abbrev user_reply : Reply
user_reply = reply_in (resolve runtime resolver (request "/api/users/7") stage).0

user_body : (user_reply.status ≡ 200) × (user_reply.reply_body ≡ some "7")
unfolding resolve build route init_resolver remove_prefix match_rule http_method path serialize
    header_serializer
user_body = (refl, refl)

resolve-returned_example : (resolve runtime resolver (request "/api/users/7") stage).1.context ≡ []
unfolding resolve build route init_resolver remove_prefix match_rule http_method path serialize
    header_serializer
resolve-returned_example =
    resolve-returned runtime resolver (request "/api/users/7") stage user_reply refl refl

resolve-raised_example :
    (resolve runtime resolver (request "/api/fails") stage).1
    ≡ (find_route runtime resolver (event_at "/api/fails") stage).1
unfolding resolve build route init_resolver remove_prefix match_rule http_method path lookup_mro get
resolve-raised_example =
    resolve-raised runtime resolver (request "/api/fails") stage (builtin "ValueError") refl refl

-- what such an invocation leaves
leaked_context :
    (resolve runtime resolver (request "/api/fails") stage).1.context ≡ ("user", null) ∷ []
unfolding resolve build route init_resolver remove_prefix match_rule http_method path append_context
    lookup_mro get merge store
leaked_context = refl

call_route-IsEscape_example :
    IsEscape runtime resolver
      (call_function runtime resolver failing (event_at "/fails") [] stage)
      (builtin "ValueError")
      (append_context (("user", null) ∷ []) stage)
unfolding call_route init_resolver route lookup_mro get
call_route-IsEscape_example =
    call_route-IsEscape runtime resolver (event_at "/fails") fails_route [] stage
      (append_context (("user", null) ∷ []) stage) (builtin "ValueError") (λ v. (dumped v, refl))
      refl

abbrev user_key : RouteKey
user_key = ("/users/<id>", ("get" ∷ [], (none, (false, none))))

include_router-route_all_example :
    (include_router runtime
      (some "/v1")
      (add_all ((user_key, show_user) ∷ []) new_router)
      []
      empty).0
    ≡ route_all runtime (((user_key, show_user), "/v1/users/<id>") ∷ []) empty
unfolding contains
include_router-route_all_example =
    include_router-route_all runtime (some "/v1") (((user_key, show_user), "/v1/users/<id>") ∷ [])
      [] empty (inner "/v1" "/users/<id>" (λ e. cc) (λ e. cc), tt) (refl, tt)
