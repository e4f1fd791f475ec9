-- ===== src/EventHandler/Router/Included.antt =====
-- `include_router` against registering the routes directly.
use Prim.Native.String.{◌++◌ as join}
use aws_lambda_powertools_py.Common.{
  String, false, Option, none, some, List, [], ◌∷◌, ◌≡◌, ◌≢◌, refl, ap, ◌∙◌, All, map, Bool-cases,
  inl, inr,
}
use aws_lambda_powertools_py.Common.Eq.{◌==◌, string_eq}
use std.Path.{fun_ext}
use aws_lambda_powertools_py.Common.Dict.{Dict, merge}
use aws_lambda_powertools_py.Common.Dict.Merge.{HasDistinctKeys, merge-nil}
use aws_lambda_powertools_py.Common.Json.{Json}
use aws_lambda_powertools_py.EventHandler.Resolver.{Functions, Resolver, Runtime, route}
use aws_lambda_powertools_py.EventHandler.Router.{
  RouteKey, route_key_eq, route_by, Router, new_router, add, prefixed, include_router,
  include_routes, then_all,
}

module _ {Bytes Date App : Type 0} where
  -- the routes added to a router, in their order
  abbrev pub add_all :
      Dict RouteKey (Functions Bytes Date App) → Router Bytes Date App → Router Bytes Date App
  add_all [] router = router
  add_all ((key, func) ∷ routes) router = add_all routes (add key func router)

  add_all-merge :
      (routes : Dict RouteKey (Functions Bytes Date App)) (router : Router Bytes Date App)
      → (add_all routes router).routes ≡ merge routes router.routes
  unfolding add merge
  add_all-merge [] router = refl
  add_all-merge ((key, func) ∷ routes) router = add_all-merge routes (add key func router)

-- The rule that a route gets under a prefix: its own where there is no prefix or an empty one, the
-- prefix where its own is "/", and otherwise the prefix before its own.
pub data IsUnder : Option String → String → String → Type 0 where
  no_prefix : (rule : String) → IsUnder none rule rule
  empty_prefix : (rule : String) → IsUnder (some "") rule rule
  root : (prefix : String) → prefix ≢ "" → IsUnder (some prefix) "/" prefix
  inner :
      (prefix rule : String)
      → prefix ≢ ""
      → rule ≢ "/"
      → IsUnder (some prefix) rule (join prefix rule)

unlike : (s t : String) → s ≢ t → (s == t) ≡ false
unlike s t h = elim (Bool-cases (s == t)) [
  | inl same ↦ absurd (h ((string_eq.same_key_iff s t).0 same))
  | inr other ↦ other
]

prefixed-IsUnder :
    (prefix : Option String) (rule full : String)
    → IsUnder prefix rule full
    → prefixed prefix rule ≡ full
prefixed-IsUnder _ _ _ (no_prefix rule) = refl
prefixed-IsUnder _ _ _ (empty_prefix rule) = refl
prefixed-IsUnder _ _ _ (root prefix some_text) = rw (unlike prefix "" some_text) refl
prefixed-IsUnder _ _ _ (inner prefix rule some_text no_root) =
    rw (unlike prefix "" some_text, unlike rule "/" no_root) refl

-- a route of a router with its function, and the rule that a resolver is to know it by
abbrev pub Placed : Type 0 → Type 0 → Type 0 → Type 0
Placed Bytes Date App = (RouteKey × Functions Bytes Date App) × String

module _ {Bytes Date App : Type 0} where
  abbrev pub own : Placed Bytes Date App → RouteKey × Functions Bytes Date App
  own q = q.0

  -- the routes registered with a resolver, in their order, each by the rule that is given for it
  abbrev pub route_all :
      Runtime Bytes Date
      → List (Placed Bytes Date App)
      → Resolver Bytes Date App
      → Option (Resolver Bytes Date App)
  route_all run [] r = some r
  route_all run ((((rule, (methods, (cors, (compress, cache_control)))), func), full) ∷ placed) r =
      then_all run (route run full methods cors compress cache_control func r)
        (route_all run placed)

module _ {Bytes Date App : Type 0} (run : Runtime Bytes Date) where
  include_routes-route_all :
      (prefix : Option String) (placed : List (Placed Bytes Date App)) (r : Resolver Bytes Date App)
      → All (λ q. IsUnder prefix q.0.0.0 q.1) placed
      → include_routes run prefix (map own placed) r ≡ route_all run placed r
  unfolding include_router route_by
  include_routes-route_all prefix [] r under = refl
  include_routes-route_all prefix ((((rule, options), func), full) ∷ placed) r (one, under) =
      ap
        (λ s.
          then_all run (route_by run (s, options) func r)
            (include_routes run prefix (map own placed)))
        (prefixed-IsUnder prefix rule full one)
      ∙ ap (then_all run (route_by run (full, options) func r))
          (fun_ext (λ s. include_routes-route_all prefix placed s under))

  -- Including a router to which routes were added, no two with the same arguments, is registering
  -- these routes with the resolver itself, in the same order and with their other arguments, each by
  -- its own rule where there is no prefix or an empty one, by the prefix where its rule is "/", and
  -- otherwise by the prefix before its rule.
  pub include_router-route_all :
      (prefix : Option String) (placed : List (Placed Bytes Date App)) (context : Dict String Json)
      (r : Resolver Bytes Date App)
      → All (λ q. IsUnder prefix q.0.0.0 q.1) placed
      → HasDistinctKeys (map own placed)
      → (include_router run prefix (add_all (map own placed) new_router) context r).0
        ≡ route_all run placed r
  unfolding include_router new_router
  include_router-route_all prefix placed context r under h =
      ap (λ d. include_routes run prefix d r)
        (add_all-merge (map own placed) new_router ∙ merge-nil (map own placed) h)
      ∙ include_routes-route_all prefix placed r under
