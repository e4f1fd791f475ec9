-- ===== src/Tracing/Capture.antt =====
-- tracing/tracer.py: what `capture_lambda_handler` and `capture_method` make of a function.
pub mod Transparent
use aws_lambda_powertools_py.Common.{
  String, Bool, true, false, not, ◌||◌, Option, none, some, List, [], ◌∷◌, is_empty, if◌then◌else◌,
}
use Prim.Native.String.{◌++◌}
use aws_lambda_powertools_py.Common.Eq.{◌==◌, string_eq}
use aws_lambda_powertools_py.Common.Effect.{
  Result, ok, raised, Op, pure, raise, lift, gets, attempt, modify, ◌>>=◌, ◌>>◌,
}
use aws_lambda_powertools_py.Common.Json.{Json, null, bool, str}
use aws_lambda_powertools_py.Shared.{resolve_truthy_env_var_choice}
use aws_lambda_powertools_py.Tracing.Provider.{
  Value, value_of, error_of, Provider, Sdk, Environment, Config, Tracer, World, on_recorder, on_app,
}
use aws_lambda_powertools_py.Tracing.Tracer.{getenv}

-- the choices of `capture_lambda_handler` and `capture_method`
unfoldable pub choices :
    (String → String) → Environment → Option Bool → Option Bool → Result String (Bool × Bool)
choices lower env capture_response capture_error =
    elim (resolve_truthy_env_var_choice lower (getenv env.capture_response "true")
      capture_response) [
        | raised e ↦ raised e
        | ok response ↦
            elim (resolve_truthy_env_var_choice lower (getenv env.capture_error "true")
              capture_error) [ raised e ↦ raised e | ok error ↦ ok (response, error) ]
      ]

module _ {Seg S App : Type 0} (tracer : Tracer Seg S) where
  -- `_add_response_as_metadata`
  unfoldable pub add_response_as_metadata :
      String → Json → Option Seg → Bool → Op (World Seg S App) String (Unit {0})
  unfolding on_recorder
  add_response_as_metadata method_name null subsegment capture_response = pure tt
  add_response_as_metadata method_name response none capture_response = pure tt
  add_response_as_metadata method_name response (some seg) capture_response =
      if not capture_response
      then pure tt
      else on_recorder (
          tracer.provider.add_metadata seg (method_name ++ " response") (value_of response)
            tracer.service)

  -- `_add_full_exception_as_metadata`
  unfoldable pub add_full_exception_as_metadata :
      String → String → Seg → Bool → Op (World Seg S App) String (Unit {0})
  unfolding on_recorder
  add_full_exception_as_metadata method_name error seg capture_error =
      if not capture_error
      then pure tt
      else on_recorder (
          tracer.provider.add_metadata seg (method_name ++ " error") (error_of error)
            tracer.service)

  -- the `except` clause, which raises again
  except : String → Seg → Bool → Result String Json → Op (World Seg S App) String Json
  except method_name seg capture_error (ok response) = pure response
  except method_name seg capture_error (raised error) = do
    add_full_exception_as_metadata method_name error seg capture_error
    raise error

  -- the call with the response's metadata, and the `except` clause
  unfoldable pub traced :
      Op App String Json → String → Seg → Bool → Bool → Op (World Seg S App) String Json
  unfolding on_app except
  traced method method_name seg capture_response capture_error = do
    outcome ← attempt (do
      response ← on_app method
      add_response_as_metadata method_name response (some seg) capture_response
      pure response)
    except method_name seg capture_error outcome

  -- a `with` block: what follows the block follows its outcome, unless the end raises
  unfoldable pub with_subsegment :
      Op S String Seg → (Seg → Op (World Seg S App) String Json) → Op (World Seg S App) String Json
  unfolding on_recorder
  with_subsegment enter body = do
    seg ← on_recorder enter
    outcome ← attempt (body seg)
    on_recorder (tracer.provider.leave seg)
    lift outcome

  annotate_service : Seg → Op (World Seg S App) String (Unit {0})
  unfolding on_recorder
  annotate_service seg =
      if tracer.service == ""
      then pure tt
      else on_recorder (tracer.provider.annotate seg "Service" (value_of (str tracer.service)))

  -- the `finally` clause of the handler's decorator
  unfoldable pub finish : Seg → Op (World Seg S App) String (Unit {0})
  unfolding on_recorder annotate_service
  finish seg = do
    cold ← gets (λ w. w.is_cold_start)
    on_recorder (tracer.provider.annotate seg "ColdStart" (value_of (bool cold)))
    modify (λ w. record w { is_cold_start = false })
    annotate_service seg

  handler_body : Op App String Json → String → Bool → Bool → Seg → Op (World Seg S App) String Json
  handler_body lambda_handler name capture_response capture_error seg = do
    outcome ← attempt (traced lambda_handler name seg capture_response capture_error)
    finish seg
    lift outcome

  -- what `capture_lambda_handler` makes of a handler, once the two choices are made
  unfoldable pub decorate_handler :
      Op App String Json → String → Bool → Bool → Op (World Seg S App) String Json
  unfolding handler_body
  decorate_handler lambda_handler name capture_response capture_error =
      with_subsegment (tracer.provider.in_subsegment ("## " ++ name))
        (handler_body lambda_handler name capture_response capture_error)

  -- `_decorate_sync_function`
  unfoldable pub decorate_sync_function :
      Op App String Json → String → Bool → Bool → Op (World Seg S App) String Json
  decorate_sync_function method method_name capture_response capture_error =
      with_subsegment (tracer.provider.in_subsegment ("## " ++ method_name))
        λ seg. traced method method_name seg capture_response capture_error

  -- `_decorate_async_function`, as it runs when it is awaited
  unfoldable pub decorate_async_function :
      Op App String Json → String → Bool → Bool → Op (World Seg S App) String Json
  decorate_async_function method method_name capture_response capture_error =
      with_subsegment (tracer.provider.in_subsegment_async ("## " ++ method_name))
        λ seg. traced method method_name seg capture_response capture_error
