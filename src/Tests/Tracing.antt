-- ===== src/Tests/Tracing.antt =====
-- The tracer over a provider that lists what it is given.
use aws_lambda_powertools_py.Common.{
  ℕ, ◌+◌, String, true, false, none, some, List, [], ◌∷◌, ◌≡◌, refl,
}
use aws_lambda_powertools_py.Common.Eq.{string_eq}
use aws_lambda_powertools_py.Common.Effect.{Op, ok, raised, ◌>>=◌}
use aws_lambda_powertools_py.Common.Json.{Json, null, bool, str}
use aws_lambda_powertools_py.Common.Run.{Run, returned}
use aws_lambda_powertools_py.Tracing.Provider.{
  Value, value_of, error_of, Provider, Sdk, Environment, Tracer, World, on_recorder, on_app,
}
use aws_lambda_powertools_py.Tracing.Tracer.{default_config}
use aws_lambda_powertools_py.Tracing.Tracer.Disabled.{
  Arguments, make, make_all, make-stays_disabled,
}
use aws_lambda_powertools_py.Tracing.Capture.{
  decorate_handler, with_subsegment, traced, finish, add_response_as_metadata,
  add_full_exception_as_metadata,
}
use aws_lambda_powertools_py.Tracing.Capture.Transparent.{IsQuiet, decorate_handler-transparent}

abbrev Log : Type 0
Log = List (String × Value)

abbrev noted : String → Value → Op Log String (Unit {0})
noted key v l = (ok tt, (key, v) ∷ l)

abbrev opened : String → Op Log String (Unit {0})
opened name l = (ok tt, (name, value_of null) ∷ l)

abbrev listing : Provider (Unit {0}) Log
listing = record {
  is_xray = false;
  put_annotation = noted;
  put_metadata = λ key v namespace. noted key v;
  patch = λ modules l. (ok tt, l);
  patch_all = λ l. (ok tt, l);
  in_subsegment = opened;
  in_subsegment_async = opened;
  leave = λ seg. noted "end" (value_of null);
  annotate = λ seg. noted;
  add_metadata = λ seg key v namespace. noted key v;
}

abbrev sdk : Sdk (Unit {0}) Log
sdk = record {
  recorder = listing;
  disable = λ l. (ok tt, l);
  no_streaming = λ l. (ok tt, l);
  lower = λ s. s;
}

abbrev env : Environment
env = record {
  task_root = some "/var/task";
  trace_disabled = none;
  service_name = some "booking";
  capture_response = none;
  capture_error = none;
}

abbrev tracer : Tracer (Unit {0}) Log
tracer = record { service = "booking"; disabled = false; auto_patch = true; provider = listing }

abbrev world : World (Unit {0}) Log ℕ
world = record { config = default_config; is_cold_start = true; recorded = []; app = 0 }

listing-IsQuiet : IsQuiet listing
listing-IsQuiet = record {
  enters = λ name s. returned tt;
  enters_async = λ name s. returned tt;
  leaves = λ seg s. returned tt;
  annotates = λ seg key v s. returned tt;
  adds = λ seg key v namespace s. returned tt;
}

-- a handler that counts its runs and fails
abbrev failing : Op ℕ String Json
failing n = (raised "KeyError", n + 1)

recorded_test :
    (decorate_handler tracer failing "handler" true true world).1.recorded
    ≡ ("end", value_of null)
      ∷ ("Service", value_of (str "booking"))
      ∷ ("ColdStart", value_of (bool true))
      ∷ ("handler error", error_of "KeyError")
      ∷ ("## handler", value_of null)
      ∷ []
unfolding decorate_handler with_subsegment traced finish add_full_exception_as_metadata
    add_response_as_metadata on_recorder on_app ◌>>=◌
recorded_test = refl

decorate_handler-transparent_example :
    ((decorate_handler tracer failing "handler" true true world).0 ≡ raised "KeyError")
    × ((decorate_handler tracer failing "handler" true true world).1.app ≡ 1)
    × ((decorate_handler tracer failing "handler" true true world).1.is_cold_start ≡ false)
decorate_handler-transparent_example =
    decorate_handler-transparent tracer listing-IsQuiet failing "handler" true true world

abbrev off : Arguments (Unit {0}) Log
off = record {
  service = none;
  disabled = some true;
  auto_patch = none;
  patch_modules = none;
  provider = none;
}

-- asks to be enabled
abbrev on : Arguments (Unit {0}) Log
on = record off { disabled = some false }

make-stays_disabled_example :
    Run
      (λ t _. t.disabled ≡ true)
      (λ e _. Unit {0})
      (make sdk env on (make_all sdk env (on ∷ []) (make sdk env off world).1))
make-stays_disabled_example = make-stays_disabled sdk env off (on ∷ []) on world refl
