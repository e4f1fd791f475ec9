-- ===== src/EventHandler/Router.antt =====
-- event_handler/api_gateway.py: `Router`, which keeps routes for a resolver to include.
pub mod Included
use Prim.Native.String.{◌++◌ as join}
use aws_lambda_powertools_py.Common.{String, Bool, Option, none, some, List, [], ◌∷◌, if◌then◌else◌}
use aws_lambda_powertools_py.Common.Eq.{Hashable, ◌==◌, string_eq}
use aws_lambda_powertools_py.Common.Keys.{bool_eq, option_eq, list_eq, pair_eq}
use aws_lambda_powertools_py.Common.Dict.{Dict, store, merge}
use aws_lambda_powertools_py.Common.Json.{Json}
use aws_lambda_powertools_py.EventHandler.Resolver.{Functions, Resolver, Runtime, route}

-- rule, methods, cors, compress and cache_control of a call of `route`
abbrev pub RouteKey : Type 0
RouteKey = String × (List String × (Option Bool × (Bool × Option String)))

instance abbrev pub route_key_eq : Hashable RouteKey
route_key_eq = pair_eq

-- `_routes` and the context of a router
pub record Router (Bytes Date App : Type 0) : Type 0 where
  pub routes : Dict RouteKey (Functions Bytes Date App)
  pub context : Dict String Json

-- the rule of a route under a prefix
abbrev pub prefixed : Option String → String → String
prefixed none rule = rule
prefixed (some prefix) rule =
    if prefix == "" then rule else if rule == "/" then prefix else join prefix rule

module _ {Bytes Date App : Type 0} where
  -- `__init__`
  unfoldable pub new_router : Router Bytes Date App
  new_router = record { routes = []; context = [] }

  -- `Router.route` with the function it decorates
  unfoldable pub add :
      RouteKey → Functions Bytes Date App → Router Bytes Date App → Router Bytes Date App
  add key func router = record router { routes = store key func router.routes }

module _ {Bytes Date App : Type 0} (run : Runtime Bytes Date) where
  -- `self.route(*route)(func)`
  route_by :
      RouteKey
      → Functions Bytes Date App
      → Resolver Bytes Date App
      → Option (Resolver Bytes Date App)
  route_by (rule, (methods, (cors, (compress, cache_control)))) func r =
      route run rule methods cors compress cache_control func r

  abbrev then_all :
      Option (Resolver Bytes Date App)
      → (Resolver Bytes Date App → Option (Resolver Bytes Date App))
      → Option (Resolver Bytes Date App)
  then_all none next = none
  then_all (some r) next = next r

  -- the loop over the routes of a router
  include_routes :
      Option String
      → Dict RouteKey (Functions Bytes Date App)
      → Resolver Bytes Date App
      → Option (Resolver Bytes Date App)
  unfolding route_by
  include_routes prefix [] r = some r
  include_routes prefix (((rule, options), func) ∷ routes) r =
      then_all (route_by (prefixed prefix rule, options) func r) (include_routes prefix routes)

  -- `include_router`, with the context of the resolver, which the router shares from then on
  unfoldable pub include_router :
      Option String
      → Router Bytes Date App
      → Dict String Json
      → Resolver Bytes Date App
      → Option (Resolver Bytes Date App) × Dict String Json
  unfolding include_routes
  include_router prefix router context r =
      (include_routes prefix router.routes r, merge router.context context)
