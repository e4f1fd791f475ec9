-- ===== src/EventHandler/Resolver/Registered.antt =====
-- The methods that a preflight answers with: an invariant of the registration of routes.
use package.text.Mathlib.TextEquality.{path_by_compare}
use mathlib.Core.Path.{subst}
use aws_lambda_powertools_py.Common.{
  String, Bool, true, false, Option, none, some, List, [], ◌∷◌, any, if◌then◌else◌, ◌≡◌, refl,
  arith, All, All-append,
}
use aws_lambda_powertools_py.Common.Eq.{◌==◌, string_eq}
use aws_lambda_powertools_py.Common.Text.{insert_text}
use aws_lambda_powertools_py.EventHandler.Rule.{Rule}
use aws_lambda_powertools_py.EventHandler.Response.{Cors, Options}
use aws_lambda_powertools_py.EventHandler.Request.{ProxyEventType}
use aws_lambda_powertools_py.EventHandler.Resolver.{
  Functions, Route, Resolver, Runtime, init_resolver, exception_handler, ExceptionHandler, route,
  register, add_route,
}

abbrev pub is_listed : String → List String → Bool
is_listed m xs = any (λ x. x == m) xs

listed-insert_text :
    (m t : String) (xs : List String)
    → is_listed m xs ≡ true
    → is_listed m (insert_text t xs) ≡ true
listed-insert_text m t [] h = ground (arith, h)
listed-insert_text m t (v ∷ vs) h = ground (arith, h, listed-insert_text m t vs)

insert_text_self : (t : String) (xs : List String) → is_listed t (insert_text t xs) ≡ true
insert_text_self t [] = ground (arith, string_eq.same_key_iff t t)
insert_text_self t (v ∷ vs) =
    ground (arith, string_eq.same_key_iff t t, insert_text_self t vs, path_by_compare t v)

grown :
    (b : Bool) (m t : String) (xs : List String)
    → is_listed m xs ≡ true
    → is_listed m (if b then insert_text t xs else xs) ≡ true
grown true m t xs h = listed-insert_text m t xs h
grown false m t xs h = h

module _ {Bytes Date App : Type 0} where
  -- The methods of a preflight's answer: OPTIONS, and the method of each route with CORS.
  abbrev pub IsListed : Resolver Bytes Date App → Type 0
  IsListed r =
      (is_listed "OPTIONS" r.cors_methods ≡ true)
      × All
          (λ (q : Route Bytes Date App).
            q.options.cors ≡ true → is_listed q.method r.cors_methods ≡ true)
          r.routes

  All-implies :
      {P Q : Route Bytes Date App → Type 0} (routes : List (Route Bytes Date App))
      → ((q : Route Bytes Date App) → P q → Q q)
      → All P routes
      → All Q routes
  All-implies [] f h = tt
  All-implies (q ∷ routes) f (p, h) = (f q p, All-implies routes f h)

module _ {Bytes Date App : Type 0} (run : Runtime Bytes Date) where
  add_route-IsListed :
      (item rule : String) (compiled : Rule) (func : Functions Bytes Date App) (options : Options)
      (r : Resolver Bytes Date App)
      → IsListed r
      → IsListed (add_route run item rule compiled func options r)
  unfolding route
  add_route-IsListed item rule compiled func options r (first, each) =
      let m = run.unicode.upper item in
      (
        grown options.cors "OPTIONS" m r.cors_methods first,
        All-append _ r.routes _
            (All-implies r.routes (λ q h c. grown options.cors q.method m r.cors_methods (h c))
              each)
            ((λ c. rw c (insert_text_self m r.cors_methods)), tt),
      )

  abbrev ListedOr : Option (Resolver Bytes Date App) → Type 0
  ListedOr none = Unit
  ListedOr (some r) = IsListed r

  register-IsListed :
      (items : List String) (rule : String) (compiled : Option Rule)
      (func : Functions Bytes Date App) (options : Options) (r : Resolver Bytes Date App)
      → IsListed r
      → ListedOr (register run items rule compiled func options r)
  unfolding route
  register-IsListed [] rule compiled func options r h = h
  register-IsListed (item ∷ items) rule none func options r h = tt
  register-IsListed (item ∷ items) rule (some c) func options r h =
      register-IsListed items rule (some c) func options (add_route run item rule c func options r)
        (add_route-IsListed item rule c func options r h)

  route-IsListed :
      (rule : String) (methods : List String) (cors : Option Bool) (compress : Bool)
      (cache_control : Option String) (func : Functions Bytes Date App)
      (r r' : Resolver Bytes Date App)
      → IsListed r
      → route run rule methods cors compress cache_control func r ≡ some r'
      → IsListed r'
  unfolding route
  route-IsListed rule methods cors compress cache_control func r r' h e =
      subst ListedOr e (register-IsListed methods _ _ func _ r h)

  exception_handler-IsListed :
      (types : List String) (func : ExceptionHandler Bytes Date App) (r : Resolver Bytes Date App)
      → IsListed r
      → IsListed (exception_handler types func r)
  unfolding exception_handler
  exception_handler-IsListed [] func r h = h
  exception_handler-IsListed (t ∷ types) func r h = exception_handler-IsListed types func _ h

  -- The resolvers that a program can build.
  pub data Built : Resolver Bytes Date App → Type 0 where
    created :
        (proxy_type : ProxyEventType) (is_rest : Bool) (cors : Option Cors) (debug : Bool)
        (strip_prefixes : Option (List String))
        → Built (init_resolver proxy_type is_rest cors debug strip_prefixes)
    routed :
        {r r' : Resolver Bytes Date App} (rule : String) (methods : List String)
        (cors : Option Bool) (compress : Bool) (cache_control : Option String)
        (func : Functions Bytes Date App)
        → Built r
        → route run rule methods cors compress cache_control func r ≡ some r'
        → Built r'
    handled :
        {r : Resolver Bytes Date App} (types : List String) (func : ExceptionHandler Bytes Date App)
        → Built r
        → Built (exception_handler types func r)

  -- In every resolver that is built by registering routes and exception handlers, OPTIONS and the
  -- method of each route with CORS are among the methods that a preflight answers with.
  pub Built-IsListed : (r : Resolver Bytes Date App) → Built r → IsListed r
  unfolding init_resolver
  Built-IsListed r (created proxy_type is_rest cors debug strip_prefixes) = (refl, tt)
  Built-IsListed r (routed {r = q} rule methods cors compress cache_control func b e) =
      route-IsListed rule methods cors compress cache_control func q r (Built-IsListed q b) e
  Built-IsListed r (handled {r = q} types func b) =
      exception_handler-IsListed types func q (Built-IsListed q b)
