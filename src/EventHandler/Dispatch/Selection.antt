-- ===== src/EventHandler/Dispatch/Selection.antt =====
-- `_resolve`: which route answers an event, and what `resolve` leaves of the context.
use aws_lambda_powertools_py.Common.{
  String, false, none, some, List, [], ◌∷◌, ◌++◌, if◌then◌else◌, ◌≡◌, refl, ap, ◌∙◌, arith, All,
}
use aws_lambda_powertools_py.Common.Eq.{string_eq}
use aws_lambda_powertools_py.Common.Effect.{Result, ok, raised, pure, continue, ◌>>=◌}
use aws_lambda_powertools_py.Common.Json.{Fields}
use aws_lambda_powertools_py.EventHandler.Rule.{Args}
use aws_lambda_powertools_py.EventHandler.Response.{Exception, Reply}
use aws_lambda_powertools_py.EventHandler.Request.{Event, http_method, path}
use aws_lambda_powertools_py.EventHandler.Resolver.{
  Stage, Route, Resolver, Runtime, remove_prefix, clear_context,
}
use aws_lambda_powertools_py.EventHandler.Dispatch.{
  Builder, print_event, match_route, pick, first_match, find_route, call_route, answer_not_found,
  resolve, reply_of, answer,
}

module _ {Bytes Date App : Type 0} (run : Runtime Bytes Date) (r : Resolver Bytes Date App) where
  -- a route that does not answer
  abbrev pub IsPassed : String → String → Route Bytes Date App → Type 0
  IsPassed method p route = match_route run r method p route ≡ none

  first_match-append :
      (method p : String) (before after : List (Route Bytes Date App))
      (route : Route Bytes Date App) (args : Args)
      → All (IsPassed method p) before
      → match_route run r method p route ≡ some args
      → first_match run r method p (before ++ route ∷ after) ≡ some (route, args)
  first_match-append method p [] after route args h found =
      ap (λ o. pick route o (first_match run r method p after)) found
  first_match-append method p (b ∷ before) after route args (passed, h) found =
      ap (λ o. pick b o (first_match run r method p (before ++ route ∷ after))) passed
      ∙ first_match-append method p before after route args h found

  first_match-none :
      (method p : String) (routes : List (Route Bytes Date App))
      → All (IsPassed method p) routes
      → first_match run r method p routes ≡ none
  first_match-none method p [] h = refl
  first_match-none method p (b ∷ routes) (passed, h) =
      ap (λ o. pick b o (first_match run r method p routes)) passed
      ∙ first_match-none method p routes h

  find_route-answer :
      (event : Event) (name p : String) (stage : Stage App)
      → http_method event ≡ ok name
      → path event ≡ ok p
      → find_route run r event stage
        ≡ answer run r event
            (run.unicode.upper name)
            (first_match run r (run.unicode.upper name) (remove_prefix r.strip_prefixes p) r.routes)
            stage
  unfolding find_route ◌>>=◌
  find_route-answer event name p stage named at = λ i.
      continue (named i)
        (λ n t.
          continue (at i)
            (λ q.
              answer run r event (run.unicode.upper n) (
                first_match run r (run.unicode.upper n) (remove_prefix r.strip_prefixes q)
                  r.routes))
            t)
        stage

  -- An event is answered by the first of the registered routes, in their order, whose method and rule
  -- match its method in upper case and its path without the prefix, with the arguments of that match.
  pub find_route-first :
      (event : Event) (name p : String) (stage : Stage App)
      (before after : List (Route Bytes Date App)) (route : Route Bytes Date App) (args : Args)
      → http_method event ≡ ok name
      → path event ≡ ok p
      → r.routes ≡ before ++ route ∷ after
      → All (IsPassed (run.unicode.upper name) (remove_prefix r.strip_prefixes p)) before
      → match_route run r (run.unicode.upper name) (remove_prefix r.strip_prefixes p) route
        ≡ some args
      → find_route run r event stage ≡ call_route run r event route args stage
  unfolding find_route
  find_route-first event name p stage before after route args named at listed passed found =
      find_route-answer event name p stage named at
      ∙ ap (λ o. answer run r event (run.unicode.upper name) o stage)
          (ap (first_match run r (run.unicode.upper name) (remove_prefix r.strip_prefixes p)) listed
            ∙ first_match-append _ _ before after route args passed found)

  -- An event that no registered route matches is answered by `_not_found` for its method.
  pub find_route-missing :
      (event : Event) (name p : String) (stage : Stage App)
      → http_method event ≡ ok name
      → path event ≡ ok p
      → All (IsPassed (run.unicode.upper name) (remove_prefix r.strip_prefixes p)) r.routes
      → find_route run r event stage ≡ answer_not_found run r (run.unicode.upper name) stage
  unfolding find_route
  find_route-missing event name p stage named at passed =
      find_route-answer event name p stage named at
      ∙ ap (λ o. answer run r event (run.unicode.upper name) o stage)
          (first_match-none _ _ r.routes passed)

  abbrev close : Result Exception Reply → Stage App → Result Exception Reply × Stage App
  close y t = continue y (λ reply s. (ok reply, clear_context s)) t

  abbrev closing :
      Event → Result Exception (Builder Bytes Date) × Stage App → Result Exception Reply × Stage App
  closing event (out, t) = continue out (λ b s. close (reply_of run r event b) s) t

  resolve-closing :
      (fields : Fields) (stage : Stage App)
      → r.debug ≡ false
      → let event : Event = record { proxy_type = r.proxy_type; event_fields = fields } in
        resolve run r fields stage ≡ closing event (find_route run r event stage)
  unfolding resolve ◌>>=◌
  resolve-closing fields stage quiet =
      let event : Event = record { proxy_type = r.proxy_type; event_fields = fields } in
      λ i.
        let (out, t) = (if quiet i then print_event run r fields else pure tt) stage in
        continue out (λ _ s. closing event (find_route run r event s)) t

  close-returned :
      (y : Result Exception Reply) (t : Stage App) (reply : Reply)
      → (close y t).0 ≡ ok reply
      → (close y t).1.context ≡ []
  unfolding clear_context
  close-returned (ok x) t reply h = refl
  close-returned (raised e) t reply h = absurd (ground (arith, h))

  close-raised :
      (y : Result Exception Reply) (t : Stage App) (e : Exception)
      → (close y t).0 ≡ raised e
      → (close y t).1 ≡ t
  close-raised (ok x) t e h = absurd (ground (arith, h))
  close-raised (raised f) t e h = refl

  closing_cases :
      (event : Event) (out : Result Exception (Builder Bytes Date)) (t : Stage App)
      → ((reply : Reply)
          → (closing event (out, t)).0 ≡ ok reply
          → (closing event (out, t)).1.context ≡ [])
        × ((e : Exception) → (closing event (out, t)).0 ≡ raised e → (closing event (out, t)).1 ≡ t)
  closing_cases event (ok b) t =
      (close-returned (reply_of run r event b) t, close-raised (reply_of run r event b) t)
  closing_cases event (raised f) t = (λ reply h. absurd (ground (arith, h)), λ e h. refl)

  -- With debug mode off, an invocation that gives a reply leaves an empty context.
  pub resolve-returned :
      (fields : Fields) (stage : Stage App) (reply : Reply)
      → r.debug ≡ false
      → (resolve run r fields stage).0 ≡ ok reply
      → (resolve run r fields stage).1.context ≡ []
  resolve-returned fields stage reply quiet =
      let event : Event = record { proxy_type = r.proxy_type; event_fields = fields } in
      let (out, t) = find_route run r event stage in
      rw (resolve-closing fields stage quiet) ((closing_cases event out t).0 reply)

  -- With debug mode off, an invocation that raises leaves the context as the handlers left it, for
  -- the next invocation to find.
  pub resolve-raised :
      (fields : Fields) (stage : Stage App) (e : Exception)
      → r.debug ≡ false
      → (resolve run r fields stage).0 ≡ raised e
      → (resolve run r fields stage).1
        ≡ (find_route run r (record { proxy_type = r.proxy_type; event_fields = fields }) stage).1
  resolve-raised fields stage e quiet =
      let event : Event = record { proxy_type = r.proxy_type; event_fields = fields } in
      let (out, t) = find_route run r event stage in
      rw (resolve-closing fields stage quiet) ((closing_cases event out t).1 e)
