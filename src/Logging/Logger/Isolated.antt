-- ===== src/Logging/Logger/Isolated.antt =====
-- What a Lambda handler finds in the formatter when the decorator clears the state.
use aws_lambda_powertools_py.Common.{
  String, Bool, true, false, Option, none, some, List, [], ◌∷◌, ◌≡◌, refl, ap, ◌∙◌, Bool-cases, inl,
  inr, if◌then◌else◌,
}
use aws_lambda_powertools_py.Common.Eq.{◌==◌, string_eq}
use aws_lambda_powertools_py.Common.Dict.{Dict, get, merge, get-store}
use aws_lambda_powertools_py.Common.Effect.{Result, ok, raised, pure, lift, modify, ◌>>=◌}
use aws_lambda_powertools_py.Common.Json.{Json, bool}
use aws_lambda_powertools_py.Common.Run.{
  Run, returned, threw, Never, Run-bind, Run-chain, Run-lift, Run-gets, Run-implies,
}
use aws_lambda_powertools_py.Logging.Formatter.{Formatter, new_formatter, append_keys, clear_state}
use aws_lambda_powertools_py.Logging.Formatter.Reset.{Reached, clear_state-new_formatter}
use aws_lambda_powertools_py.Logging.Process.{
  Registered, World, Logger, Library, LambdaContext, context_keys, or_fresh, found, registered,
  update, is_cold_start, first_formatter, with_first,
}
use aws_lambda_powertools_py.Logging.Logger.{
  handler_name, registered_formatter, set_formatter, on_formatter, add_keys, set_correlation_id,
  correlate, structure_logs, log, prepare,
}

pub registered-update :
    {App : Type 0} (name : String) (f : Registered → Registered) (w : World App)
    → registered name (update name f w).1 ≡ f (registered name w)
unfolding registered update
registered-update name f w = ap or_fresh (
    get-store name name (f (registered name w)) w.loggers
    ∙ ap (λ b. if b then some (f (registered name w)) else get name w.loggers)
        ((string_eq.same_key_iff name name).1 refl))

pub own_name :
    (lib : Library) (self : Logger) → self.child ≡ false → handler_name lib self ≡ self.name
own_name lib self own = ap (λ b. if b then lib.parent self.name else self.name) own

-- The logger is set up, and the formatter of its first handler is given.
pub record Has {App : Type 0} (self : Logger) (f : Formatter) (w : World App) : Type 0 where
  pub others : List (Option Formatter)
  pub set_up : (registered self.name w).init ≡ true
  pub first : (registered self.name w).handlers ≡ some f ∷ others

-- the keys that are put in for an invocation
abbrev pub invocation_keys : Logger → Bool → LambdaContext → Dict String Json
invocation_keys self cold context =
    merge (("cold_start", bool cold) ∷ context_keys context) self.default_log_keys

-- the formatter with the correlation id of an event, where a path to it is given
abbrev pub with_value : Formatter → Option Json → Result String Formatter
with_value f none = raised "JMESPathError"
with_value f (some v) = ok (append_keys (("correlation_id", v) ∷ []) f)

abbrev pub identified : Library → Option String → Json → Formatter → Result String Formatter
identified lib none event f = ok f
identified lib (some path) event f =
    if path == "" then ok f else with_value f (lib.search path event)

module _ {App : Type 0} (lib : Library) (self : Logger) (own : self.child ≡ false) where
  registered_formatter-Has :
      (f : Formatter) (w : World App)
      → Has self f w
      → Run (λ x t. (x ≡ f) × (t ≡ w)) (Never {A = String}) (registered_formatter lib self w)
  registered_formatter-Has f w h = rw found_one (returned (refl, refl))
    where
      found_one : registered_formatter lib self w ≡ (ok f, w)
      found_one =
          unfold registered_formatter in
          (ap (λ n. (first_formatter (registered n w).handlers, w)) (own_name lib self own)
            ∙ ap (λ hs. (first_formatter hs, w)) h.first)

  set_formatter-Has :
      (f g : Formatter) (w : World App)
      → Has self f w
      → Run (λ u t. Has self g t) (Never {A = String}) (set_formatter lib self g w)
  unfolding set_formatter
  set_formatter-Has f g w h = rw (own_name lib self own) (
      unfold update in
      returned (record {
        others = h.others;
        set_up = ap (λ (l : Registered). l.init) (registered-update self.name put w) ∙ h.set_up;
        first =
            ap (λ (l : Registered). l.handlers) (registered-update self.name put w)
            ∙ ap (with_first g) h.first;
      }))
    where
      put : Registered → Registered
      put l = record l { handlers = with_first g l.handlers }

  on_formatter-Has :
      (change : Formatter → Formatter) (f : Formatter) (w : World App)
      → Has self f w
      → Run (λ u t. Has self (change f) t) (Never {A = String}) (on_formatter lib self change w)
  unfolding on_formatter
  on_formatter-Has change f w h =
      Run-bind _ _ w (registered_formatter-Has f w h)
        λ x t (got, same). rw (got, same) (set_formatter-Has f (change f) w h)

  structure_logs-Has :
      (keys : Dict String Json) (f : Formatter) (w : World App)
      → Has self f w
      → Run
          (λ u t. Has self (append_keys (merge keys self.default_log_keys) (clear_state f)) t)
          (Never {A = String})
          (structure_logs lib self false none keys w)
  unfolding structure_logs
  structure_logs-Has keys f w h = Run-gets _ _ w true h.set_up (
      Run-bind _ _ w (on_formatter-Has clear_state f w h) λ u t has.
        unfold add_keys in
        on_formatter-Has (append_keys (merge keys self.default_log_keys)) (clear_state f) t has)

  unmoved : {f : Formatter} (w t : World App) → Has self f w → t.loggers ≡ w.loggers → Has self f t
  unfolding registered
  unmoved w t h e = record {
    others = h.others;
    set_up = ap (λ d. (or_fresh (get self.name d)).init) e ∙ h.set_up;
    first = ap (λ d. (or_fresh (get self.name d)).handlers) e ∙ h.first;
  }

  -- what the formatter becomes, or what is raised
  abbrev Becomes : Result String Formatter → Result String (Unit {0}) × World App → Type 0
  Becomes r = Run (λ u t. (g : Formatter) × (r ≡ ok g) × Has self g t) (λ e t. r ≡ raised e)

  correlate-Becomes :
      (path : Option String) (event : Json) (f : Formatter) (w : World App)
      → Has self f w
      → Becomes (identified lib path event f) (correlate lib self path event w)
  unfolding correlate
  correlate-Becomes none event f w h = unfold pure in returned (f, refl, h)
  correlate-Becomes (some path) event f w h = elim (Bool-cases (path == "")) [
    | inl empty ↦ rw empty (unfold pure in returned (f, refl, h))
    | inr full ↦ rw full (searched (lib.search path event))
  ]
    where
      searched :
          (o : Option Json)
          → Becomes (with_value f o) ((lift (found o) >>= set_correlation_id lib self) w)
      searched none = unfold ◌>>=◌ in threw refl
      searched (some v) = Run-lift _ _ w v refl (
          Run-implies (λ u t has. (append_keys (("correlation_id", v) ∷ []) f, refl, has))
            (λ e t never. absurd never)
            (unfold set_correlation_id add_keys in
              on_formatter-Has (append_keys (("correlation_id", v) ∷ [])) f w h))

  logged-Becomes :
      {r : Result String Formatter} (b : Bool) (msg : Json) (g : Formatter) (w : World App)
      → r ≡ ok g
      → Has self g w
      → Becomes r ((if b then log lib self "INFO" false msg [] [] else pure tt) w)
  logged-Becomes true msg g w is h =
      unfold log in unfold modify in returned (g, is, unmoved w _ h refl)
  logged-Becomes false msg g w is h = unfold pure in returned (g, is, h)

  -- For a logger that is no child and is set up, whose first handler has a formatter that came from a
  -- constructed one by appending and removing keys and clearing its state: where the decorator clears
  -- the state, a handler finds the formatter as it was constructed, with the logger's own keys, those
  -- of this invocation and the correlation id, whatever keys were appended and removed before; unless
  -- the search for the correlation id raises, and then the handler does not run.
  pub prepare-isolated :
      (order : Option (List String)) (keys : Dict String Json) (f : Formatter) (w : World App)
      (log_event : Bool) (path : Option String) (context : LambdaContext) (event raw_event : Json)
      → Reached (new_formatter order keys) f
      → Has self f w
      → Run
          (λ u t.
            (g : Formatter) × (identified lib path event (
                append_keys
                  (invocation_keys self w.is_cold_start context)
                  (new_formatter order keys))
              ≡ ok g)
            × Has self g t)
          (λ e t.
            identified lib path event (
              append_keys (invocation_keys self w.is_cold_start context) (new_formatter order keys))
            ≡ raised e)
          (prepare lib self log_event path true context event raw_event w)
  unfolding prepare
  prepare-isolated order keys f w log_event path context event raw_event reached h =
      rw (← clear_state-new_formatter order keys f reached) (
        Run-bind {Q = λ cold t. (cold ≡ w.is_cold_start) × Has self f t} _ _ w
          (unfold is_cold_start in returned (refl, unmoved w _ h refl))
          λ cold t (was, has). rw (← was) (
            Run-bind _ _ t
              (structure_logs-Has (("cold_start", bool cold) ∷ context_keys context) f t has)
              λ u t' has'.
                Run-chain _ _ t' (correlate-Becomes path event _ t' has')
                  λ v t'' (g, is, has''). logged-Becomes log_event raw_event g t'' is has''))
