-- ===== src/EventHandler/Dispatch/Preflight.antt =====
-- `_not_found` of a resolver that a program has built: what a preflight is answered with.
use aws_lambda_powertools_py.Common.{String, true, some, List, ◌≡◌, refl, ap, ◌∙◌, All}
use aws_lambda_powertools_py.Common.Eq.{string_eq}
use aws_lambda_powertools_py.Common.Dict.{get, get-store}
use aws_lambda_powertools_py.Common.Effect.{ok, pure}
use aws_lambda_powertools_py.Common.Text.{join_with}
use aws_lambda_powertools_py.EventHandler.Header.{one}
use aws_lambda_powertools_py.EventHandler.Response.{Cors, cors_headers, init}
use aws_lambda_powertools_py.EventHandler.Request.{Event, http_method, path}
use aws_lambda_powertools_py.EventHandler.Resolver.{Stage, Route, Resolver, Runtime, remove_prefix}
use aws_lambda_powertools_py.EventHandler.Resolver.Registered.{is_listed, Built, Built-IsListed}
use aws_lambda_powertools_py.EventHandler.Dispatch.{
  Builder, preflight, answer_missing, answer_not_found, find_route,
}
use aws_lambda_powertools_py.EventHandler.Dispatch.Selection.{IsPassed, find_route-missing}

module _ {Bytes Date App : Type 0} where
  -- the methods of the routes with CORS, and OPTIONS, are among some methods
  abbrev pub IsComplete : List String → List (Route Bytes Date App) → Type 0
  IsComplete methods routes =
      (is_listed "OPTIONS" methods ≡ true)
      × All
          (λ (q : Route Bytes Date App). q.options.cors ≡ true → is_listed q.method methods ≡ true)
          routes

module _ {Bytes Date App : Type 0} (run : Runtime Bytes Date) (r : Resolver Bytes Date App) where
  answer_not_found-preflight :
      (cors : Cors) (stage : Stage App)
      → r.cors ≡ some cors
      → answer_not_found run r "OPTIONS" stage ≡ (ok (preflight run r cors), stage)
  unfolding answer_not_found pure
  answer_not_found-preflight cors stage set = ap (λ o. answer_missing run r "OPTIONS" o stage) set

  preflight-methods :
      (cors : Cors)
      → ((preflight run r cors).reply.status_code ≡ 204)
        × (get "Access-Control-Allow-Methods" (preflight run r cors).reply.headers
            ≡ some (one (join_with "," r.cors_methods)))
  unfolding answer_not_found init
  preflight-methods cors = (
    refl,
    get-store "Access-Control-Allow-Methods" "Access-Control-Allow-Methods"
        (one (join_with "," r.cors_methods)) (cors_headers run.encoding.str cors),
  )

  -- In a resolver with a CORS configuration that is built by registering routes and exception
  -- handlers, an OPTIONS event that no route matches is answered with status 204, and the header
  -- Access-Control-Allow-Methods of the answer lists, with commas between them, methods among which
  -- are OPTIONS and the method of every route with CORS.
  pub find_route-preflight :
      (cors : Cors) (event : Event) (name p : String) (stage : Stage App)
      → Built run r
      → r.cors ≡ some cors
      → http_method event ≡ ok name
      → run.unicode.upper name ≡ "OPTIONS"
      → path event ≡ ok p
      → All (IsPassed run r (run.unicode.upper name) (remove_prefix r.strip_prefixes p)) r.routes
      → (b : Builder Bytes Date) × (methods : List String) × (find_route run r event stage
          ≡ (ok b, stage))
        × (b.reply.status_code ≡ 204)
        × (get "Access-Control-Allow-Methods" b.reply.headers ≡ some (one (join_with "," methods)))
        × IsComplete methods r.routes
  find_route-preflight cors event name p stage built set named options at passed =
      let (status, allowed) = preflight-methods cors in
      (
        preflight run r cors,
        r.cors_methods,
        find_route-missing run r event name p stage named at passed
            ∙ ap (λ m. answer_not_found run r m stage) options
            ∙ answer_not_found-preflight cors stage set,
        status,
        allowed,
        Built-IsListed run r built,
      )
