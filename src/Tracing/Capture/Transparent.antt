-- ===== src/Tracing/Capture/Transparent.antt =====
-- A traced function as its caller sees it.
use aws_lambda_powertools_py.Common.{
  Option, some, none, String, Bool, true, false, not, ◌≡◌, refl, ◌∙◌, if◌then◌else◌,
}
use Prim.Native.String.{◌++◌}
use aws_lambda_powertools_py.Common.Eq.{◌==◌, string_eq}
use aws_lambda_powertools_py.Common.Effect.{
  Op, Result, ok, raised, pure, raise, lift, modify, ◌>>=◌,
}
use aws_lambda_powertools_py.Common.Json.{Json, null}
use aws_lambda_powertools_py.Common.Run.{
  Run, returned, threw, Never, Run-bind, Run-chain, Run-attempt, Run-gets, Run-implies,
}
use aws_lambda_powertools_py.Tracing.Provider.{Value, Provider, Tracer, World, on_recorder, on_app}
use aws_lambda_powertools_py.Tracing.Capture.{
  add_response_as_metadata, add_full_exception_as_metadata, except, traced, with_subsegment,
  annotate_service, finish, decorate_handler, decorate_sync_function,
}

-- the calls of the provider on subsegments raise nothing
pub record IsQuiet {Seg S : Type 0} (p : Provider Seg S) : Type 0 where
  pub enters :
      (name : String) (s : S) → Run (λ x t. Unit {0}) (Never {A = String}) (p.in_subsegment name s)
  pub enters_async :
      (name : String) (s : S)
      → Run (λ x t. Unit {0}) (Never {A = String}) (p.in_subsegment_async name s)
  pub leaves : (seg : Seg) (s : S) → Run (λ x t. Unit {0}) (Never {A = String}) (p.leave seg s)
  pub annotates :
      (seg : Seg) (key : String) (v : Value) (s : S)
      → Run (λ x t. Unit {0}) (Never {A = String}) (p.annotate seg key v s)
  pub adds :
      (seg : Seg) (key : String) (v : Value) (namespace : String) (s : S)
      → Run (λ x t. Unit {0}) (Never {A = String}) (p.add_metadata seg key v namespace s)

module _ {Seg S App : Type 0} where
  -- the outcome of the traced code, with what it left
  abbrev Gives : Result String Json → App → Bool → Result String Json × World Seg S App → Type 0
  Gives r a c =
      Run (λ v t. (ok v ≡ r) × (t.app ≡ a) × (t.is_cold_start ≡ c))
        (λ e t. (raised e ≡ r) × (t.app ≡ a) × (t.is_cold_start ≡ c))

  -- nothing has changed but what is recorded
  abbrev Same : World Seg S App → World Seg S App → Type 0
  Same w t = (t.app ≡ w.app) × (t.is_cold_start ≡ w.is_cold_start)

  on_recorder-Same :
      {A : Type 0} (m : Op S String A) (w : World Seg S App)
      → Run (λ x t. Unit {0}) (Never {A = String}) (m w.recorded)
      → Run (λ x t. Same w t) (Never {A = String}) (on_recorder m w)
  unfolding on_recorder
  on_recorder-Same {A} m w h = let (r, s) = m w.recorded in at r s h
    where
      at :
          (r : Result String A) (s : S)
          → Run (λ x t. Unit {0}) (Never {A = String}) (r, s)
          → Run (λ x t. Same w t) (Never {A = String}) (r, record w { recorded = s })
      at (ok x) s h = returned (refl, refl)
      at (raised e) s (threw never) = absurd never

  on_app-Gives :
      (m : Op App String Json) (w : World Seg S App)
      → Gives (m w.app).0 (m w.app).1 w.is_cold_start (on_app m w)
  unfolding on_app
  on_app-Gives m w = let (r, a) = m w.app in at r a
    where
      at : (r : Result String Json) (a : App) → Gives r a w.is_cold_start (r, record w { app = a })
      at (ok v) a = returned (refl, refl, refl)
      at (raised e) a = threw (refl, refl, refl)

  lift-Gives :
      {r : Result String Json} {a : App} {c : Bool} (r' : Result String Json) (t : World Seg S App)
      → r' ≡ r
      → t.app ≡ a
      → t.is_cold_start ≡ c
      → Gives r a c (lift r' t)
  unfolding lift
  lift-Gives (ok v) t got at cold = returned (got, at, cold)
  lift-Gives (raised e) t got at cold = threw (got, at, cold)

  -- the whole as equations
  as_equations :
      {r : Result String Json} {a : App} {c : Bool} {x : Result String Json × World Seg S App}
      → Gives r a c x
      → (x.0 ≡ r) × (x.1.app ≡ a) × (x.1.is_cold_start ≡ c)
  as_equations (returned h) = h
  as_equations (threw h) = h

module _ {Seg S App : Type 0} (tracer : Tracer Seg S) (quiet : IsQuiet tracer.provider) where
  if-Same :
      (b : Bool) (m : Op (World Seg S App) String (Unit {0})) (w : World Seg S App)
      → Run (λ u t. Same w t) (Never {A = String}) (m w)
      → Run (λ u t. Same w t) (Never {A = String}) ((if b then pure tt else m) w)
  unfolding pure
  if-Same true m w h = returned (refl, refl)
  if-Same false m w h = h

  add-Same :
      (seg : Seg) (key : String) (v : Value) (namespace : String) (w : World Seg S App)
      → Run
          (λ u t. Same w t)
          (Never {A = String})
          (on_recorder (tracer.provider.add_metadata seg key v namespace) w)
  add-Same seg key v namespace w =
      on_recorder-Same (tracer.provider.add_metadata seg key v namespace) w
        (quiet.adds seg key v namespace w.recorded)

  annotate-Same :
      (seg : Seg) (key : String) (v : Value) (w : World Seg S App)
      → Run
          (λ u t. Same w t)
          (Never {A = String})
          (on_recorder (tracer.provider.annotate seg key v) w)
  annotate-Same seg key v w =
      on_recorder-Same (tracer.provider.annotate seg key v) w (quiet.annotates seg key v w.recorded)

  response-Same :
      (name : String) (v : Json) (o : Option Seg) (b : Bool) (w : World Seg S App)
      → Run (λ u t. Same w t) (Never {A = String}) (add_response_as_metadata tracer name v o b w)
  unfolding add_response_as_metadata pure
  response-Same name null o b w = returned (refl, refl)
  response-Same name v none b w = returned (refl, refl)
  response-Same name v (some seg) b w = if-Same (not b) _ w (add-Same seg _ _ _ w)

  exception-Same :
      (name e : String) (seg : Seg) (b : Bool) (w : World Seg S App)
      → Run
          (λ u t. Same w t)
          (Never {A = String})
          (add_full_exception_as_metadata tracer name e seg b w)
  unfolding add_full_exception_as_metadata
  exception-Same name e seg b w = if-Same (not b) _ w (add-Same seg _ _ _ w)

  except-Gives :
      (name : String) (seg : Seg) (b : Bool) (r : Result String Json) (w : World Seg S App)
      → Gives r w.app w.is_cold_start (except tracer name seg b r w)
  unfolding traced
  except-Gives name seg b (ok v) w = unfold pure in returned (refl, refl, refl)
  except-Gives name seg b (raised e) w =
      Run-bind _ _ w (exception-Same name e seg b w)
        λ u t (same, cold). unfold raise in threw (refl, same, cold)

  traced-Gives :
      (method : Op App String Json) (name : String) (seg : Seg) (b c : Bool) (w : World Seg S App)
      → Gives
          (method w.app).0
          (method w.app).1
          w.is_cold_start
          (traced tracer method name seg b c w)
  unfolding traced
  traced-Gives method name seg b c w =
      Run-attempt
        {Q = λ v t.
          (ok v ≡ (method w.app).0)
          × (t.app ≡ (method w.app).1)
          × (t.is_cold_start ≡ w.is_cold_start)}
        {Y = λ e t.
          (raised e ≡ (method w.app).0)
          × (t.app ≡ (method w.app).1)
          × (t.is_cold_start ≡ w.is_cold_start)}
        _ _ w
        (Run-chain _ _ w (on_app-Gives method w) λ v t (got, at, cold).
          Run-bind _ _ t (response-Same name v (some seg) b t)
            λ u t' (same, cold'). unfold pure in returned (got, same ∙ at, cold' ∙ cold))
        (λ v t (got, at, cold). rw (← got, ← at, ← cold) (except-Gives name seg c (ok v) t))
        (λ e t (got, at, cold). rw (← got, ← at, ← cold) (except-Gives name seg c (raised e) t))

  with_subsegment-Gives :
      (enter : Op S String Seg) (body : Seg → Op (World Seg S App) String Json)
      (r : Result String Json) (a : App) (c : Bool) (w : World Seg S App)
      → Run (λ x t. Unit {0}) (Never {A = String}) (enter w.recorded)
      → ((seg : Seg) (t : World Seg S App) → Same w t → Gives r a c (body seg t))
      → Gives r a c (with_subsegment tracer enter body w)
  unfolding with_subsegment
  with_subsegment-Gives enter body r a c w entered inside =
      Run-bind _ _ w (on_recorder-Same enter w entered) λ seg t same.
        Run-attempt _ _ t (inside seg t same)
          (λ v t' (got, at, cold). after seg (ok v) t' got at cold)
          (λ e t' (got, at, cold). after seg (raised e) t' got at cold)
    where
      after :
          (seg : Seg) (r' : Result String Json) (t : World Seg S App)
          → r' ≡ r
          → t.app ≡ a
          → t.is_cold_start ≡ c
          → Gives r a c ((on_recorder (tracer.provider.leave seg) >>= λ _. lift r') t)
      after seg r' t got at cold =
          Run-bind _ _ t
            (on_recorder-Same (tracer.provider.leave seg) t (quiet.leaves seg t.recorded))
            λ u t' (same, cold'). lift-Gives r' t' got (same ∙ at) (cold' ∙ cold)

  finish-Run :
      (seg : Seg) (w : World Seg S App)
      → Run
          (λ u t. (t.app ≡ w.app) × (t.is_cold_start ≡ false))
          (Never {A = String})
          (finish tracer seg w)
  unfolding finish
  finish-Run seg w = Run-gets _ _ w w.is_cold_start refl (
      Run-bind _ _ w (annotate-Same seg "ColdStart" _ w) λ u t (same, _).
        Run-bind {Q = λ u t. (t.app ≡ w.app) × (t.is_cold_start ≡ false)} _ _ t
          (unfold modify in returned (same, refl))
          λ u t (same', cold).
            Run-implies (λ u t' (same'', cold'). (same'' ∙ same', cold' ∙ cold))
              (λ e t' never. never) (service t))
    where
      service :
          (t : World Seg S App)
          → Run (λ u t'. Same t t') (Never {A = String}) (annotate_service tracer seg t)
      service t = if-Same (tracer.service == "") _ t (annotate-Same seg "Service" _ t)

  -- If the calls of the provider on subsegments raise nothing, a decorated handler ends as the handler
  -- does, with the same response or exception; it ran once; and the next invocation is no cold start,
  -- also where the handler raised.
  pub decorate_handler-transparent :
      (handler : Op App String Json) (name : String) (capture_response capture_error : Bool)
      (w : World Seg S App)
      → ((decorate_handler tracer handler name capture_response capture_error w).0
          ≡ (handler w.app).0)
        × ((decorate_handler tracer handler name capture_response capture_error w).1.app
            ≡ (handler w.app).1)
        × ((decorate_handler tracer handler name capture_response capture_error w).1.is_cold_start
            ≡ false)
  unfolding decorate_handler
  decorate_handler-transparent handler name b c w = as_equations (
      with_subsegment-Gives _ _ (handler w.app).0 (handler w.app).1 false w
        (quiet.enters ("## " ++ name) w.recorded)
        λ seg t (same, cold). rw (← same) (
          Run-attempt _ _ t (traced-Gives handler name seg b c t)
            (λ v u (got, at, _). finished seg (ok v) u got at)
            (λ e u (got, at, _). finished seg (raised e) u got at)))
    where
      finished :
          {r : Result String Json} {a : App} (seg : Seg) (r' : Result String Json)
          (t : World Seg S App)
          → r' ≡ r
          → t.app ≡ a
          → Gives r a false ((finish tracer seg >>= λ _. lift r') t)
      finished seg r' t got at =
          Run-bind _ _ t (finish-Run seg t)
            λ u t' (same, cold). lift-Gives r' t' got (same ∙ at) cold

  -- The same of a decorated method, which leaves the cold start as it was.
  pub decorate_sync_function-transparent :
      (method : Op App String Json) (name : String) (capture_response capture_error : Bool)
      (w : World Seg S App)
      → ((decorate_sync_function tracer method name capture_response capture_error w).0
          ≡ (method w.app).0)
        × ((decorate_sync_function tracer method name capture_response capture_error w).1.app
            ≡ (method w.app).1)
        × ((decorate_sync_function tracer method name capture_response capture_error
              w).1.is_cold_start
            ≡ w.is_cold_start)
  unfolding decorate_sync_function
  decorate_sync_function-transparent method name b c w = as_equations (
      with_subsegment-Gives _ _ (method w.app).0 (method w.app).1 w.is_cold_start w
        (quiet.enters ("## " ++ name) w.recorded)
        λ seg t (same, cold). rw (← same, ← cold) (traced-Gives method name seg b c t))
