-- ===== src/EventHandler/Dispatch.antt =====
-- event_handler/api_gateway.py: `resolve` of `ApiGatewayResolver`, from the event to the reply.
pub mod Selection
pub mod Errors
pub mod Preflight
use Prim.Native.String.{◌++◌ as join}
use aws_lambda_powertools_py.Common.{
  ℕ, String, Bool, true, false, Option, none, some, List, [], ◌∷◌, ◌++◌, if◌then◌else◌,
}
use aws_lambda_powertools_py.Common.Eq.{◌==◌, string_eq}
use aws_lambda_powertools_py.Common.Dict.{Dict, store}
use aws_lambda_powertools_py.Common.Effect.{
  Op, Result, ok, raised, pure, raise, lift, gets, attempt, modify, ◌>>=◌, ◌>>◌,
}
use aws_lambda_powertools_py.Common.Json.{Json, obj, Fields}
use aws_lambda_powertools_py.Common.Text.{join_with}
use aws_lambda_powertools_py.EventHandler.Rule.{Args, match_rule}
use aws_lambda_powertools_py.EventHandler.Header.{Headers, one}
use aws_lambda_powertools_py.EventHandler.Response.{
  Exception, builtin, Cors, cors_headers, Response, Body, text, init, Options, Reply, build,
}
use aws_lambda_powertools_py.EventHandler.Request.{
  Event, http_method, path, accepts_gzip, header_serializer,
}
use aws_lambda_powertools_py.EventHandler.Resolver.{
  application_json, text_plain, Outcome, response, json_value, Stage, Functions, ExceptionHandler,
  Route, Resolver, Runtime, remove_prefix, lookup_mro, not_found_error, message, clear_context,
}

-- `ResponseBuilder`: a response with the options of its route, if it has one.
pub record Builder (Bytes Date : Type 0) : Type 0 where
  pub reply : Response Bytes Date
  pub options : Option Options

-- a route with its arguments, if it has any
abbrev pub pick : {R : Type 0} → R → Option Args → Option (R × Args) → Option (R × Args)
pick route none rest = rest
pick route (some args) rest = some (route, args)

module _ {Bytes Date : Type 0} where
  json_response : ℕ → Headers → Result Exception String → Result Exception (Response Bytes Date)
  unfolding init
  json_response status headers (ok s) = ok (init status (some application_json) (text s) headers [])
  json_response status headers (raised e) = raised e

module _ {Bytes Date App : Type 0} (run : Runtime Bytes Date) (r : Resolver Bytes Date App) where
  respond : ℕ → Json → Headers → Result Exception (Response Bytes Date)
  unfolding json_response
  respond status body headers = json_response status headers (run.serializer body)

  -- `_to_response`
  unfoldable pub to_response : Outcome Bytes Date → Result Exception (Response Bytes Date)
  unfolding respond init
  to_response (response x) = ok x
  to_response (json_value v) = respond 200 v []

  builder : Option Options → Response Bytes Date → Builder Bytes Date
  builder options x = record { reply = x; options = options }

  with_options :
      Option Options
      → Op (Stage App) Exception (Response Bytes Date)
      → Op (Stage App) Exception (Builder Bytes Date)
  unfolding builder ◌>>=◌
  with_options options op = do x ← op; pure (builder options x)

  -- the end of `_call_exception_handler`: a ServiceError has a response of its own
  service_response :
      Option Options → Option (ℕ × String) → Op (Stage App) Exception (Option (Builder Bytes Date))
  unfolding respond builder init ◌>>=◌
  service_response options none = pure none
  service_response options (some (status, msg)) = do
    x ← lift (respond status (message status msg) [])
    pure (some (builder options x))

  after_raised :
      Option Options
      → Exception
      → Option (ℕ × String)
      → Op (Stage App) Exception (Option (Builder Bytes Date))
  unfolding service_response
  after_raised options e none = raise e
  after_raised options e (some s) = service_response options (some s)

  -- what a handler returns, or raises: a ServiceError goes on in place of the exception
  after_handler :
      Option Options
      → Result Exception (Response Bytes Date)
      → Op (Stage App) Exception (Option (Builder Bytes Date))
  unfolding builder after_raised
  after_handler options (ok x) = pure (some (builder options x))
  after_handler options (raised e) = after_raised options e e.service

  handle_with :
      Option Options
      → Exception
      → Option (ExceptionHandler Bytes Date App)
      → Op (Stage App) Exception (Option (Builder Bytes Date))
  unfolding after_handler service_response ◌>>=◌
  handle_with options e none = service_response options e.service
  handle_with options e (some handler) = do
    outcome ← attempt (handler e)
    after_handler options outcome

  -- `_call_exception_handler`
  unfoldable pub call_exception_handler :
      Exception → Option Options → Op (Stage App) Exception (Option (Builder Bytes Date))
  unfolding handle_with
  call_exception_handler e options = handle_with options e (lookup_mro e.mro r.exception_handlers)

  -- the `except` clause of `_call_route`
  unhandled :
      Exception
      → Options
      → Option (Builder Bytes Date)
      → Op (Stage App) Exception (Builder Bytes Date)
  unfolding builder init
  unhandled e options (some b) = pure b
  unhandled e options none =
      if r.debug
      then pure
          (builder (some options) (init 500 (some text_plain) (text (run.format_exc e)) [] []))
      else raise e

  after_call :
      Options
      → Result Exception (Response Bytes Date)
      → Op (Stage App) Exception (Builder Bytes Date)
  unfolding builder call_exception_handler unhandled ◌>>=◌
  after_call options (ok x) = pure (builder (some options) x)
  after_call options (raised e) = do
    handled ← call_exception_handler e (some options)
    unhandled e options handled

  -- `route.func(**args)` and `_to_response`, under one `try`
  pub call_function :
      Functions Bytes Date App → Event → Args → Op (Stage App) Exception (Response Bytes Date)
  unfolding to_response ◌>>=◌
  call_function func event args = do x ← func.call event args; lift (to_response x)

  -- `_call_route`
  unfoldable pub call_route :
      Event → Route Bytes Date App → Args → Op (Stage App) Exception (Builder Bytes Date)
  unfolding call_function after_call ◌>>=◌
  call_route event route args = do
    outcome ← attempt (call_function route.func event args)
    after_call route.options outcome

  cors_part : Option Cors → Headers
  cors_part none = []
  cors_part (some cors) = cors_headers run.encoding.str cors

  -- the answer where nothing else is: the handler of NotFoundError, or status 404
  missing : Headers → Op (Stage App) Exception (Builder Bytes Date)
  unfolding with_options respond init
  missing headers = elim (lookup_mro not_found_error.mro r.exception_handlers) [
    | some handler ↦ with_options none (handler not_found_error)
    | none ↦ with_options none (lift (respond 404 (message 404 "Not found") headers))
  ]

  pub preflight : Cors → Builder Bytes Date
  unfolding builder init
  preflight cors = builder none (
      init 204 none (text "")
        (store "Access-Control-Allow-Methods" (one (join_with "," r.cors_methods))
          (cors_headers run.encoding.str cors))
        [])

  answer_missing : String → Option Cors → Op (Stage App) Exception (Builder Bytes Date)
  unfolding missing preflight cors_part
  answer_missing method none = missing []
  answer_missing method (some cors) =
      if method == "OPTIONS" then pure (preflight cors) else missing (cors_part (some cors))

  -- `_not_found`
  unfoldable pub answer_not_found : String → Op (Stage App) Exception (Builder Bytes Date)
  unfolding answer_missing
  answer_not_found method = answer_missing method r.cors

  -- the match of a route: its arguments, if method and path are its own
  abbrev pub match_route : String → String → Route Bytes Date App → Option Args
  match_route method p route =
      if method == route.method then match_rule run.unicode route.rule p else none

  abbrev pub first_match :
      String → String → List (Route Bytes Date App) → Option (Route Bytes Date App × Args)
  first_match method p [] = none
  first_match method p (route ∷ routes) =
      pick route (match_route method p route) (first_match method p routes)

  answer :
      Event
      → String
      → Option (Route Bytes Date App × Args)
      → Op (Stage App) Exception (Builder Bytes Date)
  unfolding call_route answer_not_found
  answer event method (some (route, args)) = call_route event route args
  answer event method none = answer_not_found method

  -- `_resolve`
  unfoldable pub find_route : Event → Op (Stage App) Exception (Builder Bytes Date)
  unfolding answer ◌>>=◌
  find_route event = do
    name ← lift (http_method event)
    p ← lift (path event)
    let method : String = run.unicode.upper name
    answer event method (first_match method (remove_prefix r.strip_prefixes p) r.routes)

  print_event : Fields → Op (Stage App) Exception (Unit {0})
  unfolding ◌>>=◌
  print_event fields = do
    s ← lift (run.serializer (obj fields))
    modify (λ stage. record stage { printed = stage.printed ++ s ∷ [] })

  reply_of : Event → Builder Bytes Date → Result Exception Reply
  unfolding build
  reply_of event b =
      build run.encoding b.options r.cors (accepts_gzip run.unicode.lower event)
        (header_serializer event) b.reply

  -- `resolve`: the context is cleared after a reply, and left after an exception.
  unfoldable pub resolve : Fields → Op (Stage App) Exception Reply
  unfolding print_event find_route reply_of ◌>>=◌
  resolve fields = do
    (if r.debug then print_event fields else pure tt)
    let event : Event = record { proxy_type = r.proxy_type; event_fields = fields }
    b ← find_route event
    reply ← lift (reply_of event b)
    modify clear_context
    pure reply
