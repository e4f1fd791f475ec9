-- ===== src/EventHandler/Dispatch/Errors.antt =====
-- `_call_route`: which exceptions escape from it.
use aws_lambda_powertools_py.Common.{
  ℕ, String, Bool, true, false, Option, none, some, [], ◌≡◌, ◌≢◌, ◌⊎◌, inl, inr, refl, sym, ap, ◌∙◌,
  arith,
}
use aws_lambda_powertools_py.Common.Effect.{
  Result, ok, raised, pure, raise, attempt, continue, ◌>>=◌,
}
use aws_lambda_powertools_py.Common.Json.{Json}
use aws_lambda_powertools_py.EventHandler.Rule.{Args}
use aws_lambda_powertools_py.EventHandler.Response.{Exception, Response, Options, init, text}
use aws_lambda_powertools_py.EventHandler.Request.{Event}
use aws_lambda_powertools_py.EventHandler.Resolver.{
  Stage, Route, Resolver, Runtime, ExceptionHandler, lookup_mro, message, application_json,
}
use aws_lambda_powertools_py.EventHandler.Dispatch.{
  Builder, builder, json_response, call_route, call_function, service_response, after_raised,
  after_handler, after_call, handle_with, unhandled,
}

module _ {Bytes Date App : Type 0} (run : Runtime Bytes Date) (r : Resolver Bytes Date App) where
  -- `serializer` returns for every value
  abbrev pub IsTotal : Type 0
  IsTotal = (v : Json) → (s : String) × (run.serializer v ≡ ok s)

  -- Where an exception that escapes was raised: in a registered handler, or in the route's function,
  -- and then no handler is registered for it and debug mode is off. It is no ServiceError.
  abbrev pub IsEscape :
      Result Exception (Response Bytes Date) × Stage App → Exception → Stage App → Type 0
  IsEscape call e t =
      (e.service ≡ none)
      × (((x : Exception) × (h : ExceptionHandler Bytes Date App) × (u : Stage App) × (lookup_mro
                x.mro r.exception_handlers
              ≡ some h)
            × (h x u ≡ (raised e, t)))
          ⊎ ((call ≡ (raised e, t))
              × (lookup_mro e.mro r.exception_handlers ≡ none)
              × (r.debug ≡ false)))

  -- the end of the `except` clause
  abbrev ending :
      Exception
      → Options
      → Result Exception (Option (Builder Bytes Date)) × Stage App
      → Result Exception (Builder Bytes Date) × Stage App
  ending e options (out, u) = continue out (unhandled run r e options) u

  abbrev exception_of :
      Exception → Result Exception (Builder Bytes Date) × Stage App → Exception × Stage App
  exception_of d (ok b, t) = (d, t)
  exception_of d (raised e, t) = (e, t)

  abbrev is_raised : Result Exception (Builder Bytes Date) → Bool
  is_raised (ok b) = false
  is_raised (raised e) = true

  respond_ok :
      IsTotal
      → (options : Options) (status : ℕ) (msg : String) (u : Stage App)
      → (b : Builder Bytes Date) × (service_response run r (some options) (some (status, msg)) u
          ≡ (ok (some b), u))
  unfolding call_route ◌>>=◌
  respond_ok total options status msg u =
      let (s, e) = total (message status msg) in
      (
        builder run r (some options) (init status (some application_json) (text s) [] []),
        λ i.
            continue (json_response status [] (e i))
              (λ x v. (ok (some (builder run r (some options) x)), v)) u,
      )

  escaped_unhandled :
      (f e : Exception) (options : Options) (u t : Stage App)
      → unhandled run r f options none u ≡ (raised e, t)
      → (f ≡ e) × (u ≡ t) × (r.debug ≡ false)
  unfolding call_route pure raise
  escaped_unhandled f e options u t h = ground (arith, h)

  not_escaping :
      (x e : Exception) (options : Options) (b : Builder Bytes Date) (u t : Stage App)
      (out : Result Exception (Option (Builder Bytes Date)) × Stage App)
      → out ≡ (ok (some b), u)
      → ending x options out ≢ (raised e, t)
  unfolding call_route pure
  not_escaping x e options b u t out p h = absurd (
      ground
        (arith, sym (ap (λ o. is_raised (ending x options o).0) p) ∙ ap (λ o. is_raised o.0) h))

  -- no handler for the exception
  without_handler :
      IsTotal
      → (service : Option (ℕ × String)) (x e : Exception) (options : Options) (u t : Stage App)
      → x.service ≡ service
      → ending x options (service_response run r (some options) service u) ≡ (raised e, t)
      → (x ≡ e) × (u ≡ t) × (r.debug ≡ false) × (service ≡ none)
  unfolding call_route pure
  without_handler total none x e options u t s h =
      let (f, v, d) = escaped_unhandled x e options u t h in (f, v, d, refl)
  without_handler total (some (status, msg)) x e options u t s h =
      let (b, p) = respond_ok total options status msg u in
      absurd (not_escaping x e options b u t _ p h)

  -- a handler for the exception, and what it raises
  with_handler :
      IsTotal
      → (service : Option (ℕ × String)) (x f e : Exception) (options : Options) (u t : Stage App)
      → f.service ≡ service
      → ending x options (after_raised run r (some options) f service u) ≡ (raised e, t)
      → (f ≡ e) × (u ≡ t) × (service ≡ none)
  unfolding call_route raise
  with_handler total none x f e options u t s h =
      (ap (λ o. (exception_of f o).0) h, ap (λ o. o.1) h, refl)
  with_handler total (some (status, msg)) x f e options u t s h =
      let (b, p) = respond_ok total options status msg u in
      absurd (not_escaping x e options b u t _ p h)

  after_run :
      IsTotal
      → (call : Result Exception (Response Bytes Date) × Stage App) (x e : Exception)
        (options : Options) (h : ExceptionHandler Bytes Date App) (u t : Stage App)
        (out : Result Exception (Response Bytes Date) × Stage App)
      → lookup_mro x.mro r.exception_handlers ≡ some h
      → h x u ≡ out
      → ending x options (after_handler run r (some options) out.0 out.1) ≡ (raised e, t)
      → IsEscape call e t
  unfolding call_route pure
  after_run total call x e options h u t (ok y, v) l run_h k =
      absurd (not_escaping x e options (builder run r (some options) y) v t _ refl k)
  after_run total call x e options h u t (raised f, v) l run_h k =
      let (same, at, plain) = with_handler total f.service x f e options v t refl k in
      (
        ap (λ y. y.service) (sym same) ∙ plain,
        inl (x, h, u, l, run_h ∙ (λ i. (raised (same i), at i))),
      )

  after_lookup :
      IsTotal
      → (call : Result Exception (Response Bytes Date) × Stage App) (x e : Exception)
        (options : Options) (o : Option (ExceptionHandler Bytes Date App)) (u t : Stage App)
      → lookup_mro x.mro r.exception_handlers ≡ o
      → call ≡ (raised x, u)
      → ending x options (handle_with run r (some options) x o u) ≡ (raised e, t)
      → IsEscape call e t
  unfolding call_route attempt ◌>>=◌
  after_lookup total call x e options (some h) u t l called k =
      after_run total call x e options h u t (h x u) l refl k
  after_lookup total call x e options none u t l called k =
      let (same, at, d, plain) = without_handler total x.service x e options u t refl k in
      (
        ap (λ y. y.service) (sym same) ∙ plain,
        inr (
          called ∙ (λ i. (raised (same i), at i)),
          ap (λ y. lookup_mro y.mro r.exception_handlers) (sym same) ∙ l,
          d,
        ),
      )

  after_function :
      IsTotal
      → (call : Result Exception (Response Bytes Date) × Stage App) (e : Exception)
        (options : Options) (t : Stage App)
      → after_call run r options call.0 call.1 ≡ (raised e, t)
      → IsEscape call e t
  unfolding call_route pure ◌>>=◌
  after_function total (ok x, u) e options t k = absurd (ground (arith, ap (λ o. is_raised o.0) k))
  after_function total (raised x, u) e options t k =
      after_lookup total (raised x, u) x e options (lookup_mro x.mro r.exception_handlers) u t refl
        refl k

  -- If the serializer returns for every value, then an exception that escapes from the call of a
  -- route is no ServiceError, and either a registered handler raised it, or the route's function did,
  -- there is no handler for it, and debug mode is off.
  pub call_route-IsEscape :
      (event : Event) (route : Route Bytes Date App) (args : Args) (s t : Stage App) (e : Exception)
      → IsTotal
      → call_route run r event route args s ≡ (raised e, t)
      → IsEscape (call_function run r route.func event args s) e t
  unfolding call_route attempt ◌>>=◌
  call_route-IsEscape event route args s t e total h =
      after_function total (call_function run r route.func event args s) e route.options t h
