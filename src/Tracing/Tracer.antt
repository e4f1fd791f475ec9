-- ===== src/Tracing/Tracer.antt =====
-- tracing/tracer.py: the configuration of a `Tracer`, and its calls outside the decorators.
pub mod Disabled
use aws_lambda_powertools_py.Common.{
  String, Bool, true, false, not, ◌||◌, Option, none, some, List, [], ◌∷◌, is_empty, if◌then◌else◌,
}
use Prim.Native.String.{◌++◌}
use aws_lambda_powertools_py.Common.Eq.{◌==◌, string_eq}
use aws_lambda_powertools_py.Common.Effect.{
  Result, ok, raised, Op, pure, raise, lift, gets, attempt, modify, ◌>>=◌, ◌>>◌,
}
use aws_lambda_powertools_py.Common.Json.{Json, null, bool, str}
use aws_lambda_powertools_py.Shared.{resolve_env_var_choice, resolve_truthy_env_var_choice}
use aws_lambda_powertools_py.Tracing.Provider.{
  Value, value_of, error_of, Provider, Sdk, Environment, Config, Tracer, World, on_recorder, on_app,
}

abbrev pub default_config : {Seg S : Type 0} → Config Seg S
default_config = record {
  service = "";
  disabled = false;
  auto_patch = true;
  patch_modules = none;
  provider = none;
}

-- a or b
abbrev or_else : {A : Type 0} → Option A → A → A
or_else none b = b
or_else (some a) b = a

-- os.getenv(name, default)
abbrev pub getenv : Option String → String → String
getenv v default = or_else v default

-- an absent or an empty text or list is false
abbrev pub full_text : Option String → String → String
full_text none other = other
full_text (some s) other = if s == "" then other else s

abbrev full_list : Option (List String) → Option (List String) → Option (List String)
full_list none other = other
full_list (some l) other = if is_empty l then other else some l

is_unset : Option String → Bool
is_unset none = true
is_unset (some s) = s == ""

-- `_is_tracer_disabled`
unfoldable pub is_tracer_disabled : (String → String) → Environment → Result String Bool
unfolding is_unset
is_tracer_disabled lower env =
    elim (resolve_truthy_env_var_choice lower (getenv env.trace_disabled "false") none) [
      | raised e ↦ raised e
      | ok true ↦ ok true
      | ok false ↦ ok (is_unset env.task_root)
    ]

module _ {Seg S App : Type 0} where
  -- `put_annotation`, `put_metadata` and `patch`: nothing where the tracer is disabled
  unfoldable pub put_annotation :
      Tracer Seg S → String → Value → Op (World Seg S App) String (Unit {0})
  unfolding on_recorder
  put_annotation tracer key value =
      if tracer.disabled then pure tt else on_recorder (tracer.provider.put_annotation key value)

  unfoldable pub put_metadata :
      Tracer Seg S → String → Value → Option String → Op (World Seg S App) String (Unit {0})
  unfolding on_recorder
  put_metadata tracer key value namespace =
      if tracer.disabled
      then pure tt
      else on_recorder (tracer.provider.put_metadata key value (full_text namespace tracer.service))

  patch_by : Tracer Seg S → Option (List String) → Op (World Seg S App) String (Unit {0})
  unfolding on_recorder
  patch_by tracer none = on_recorder tracer.provider.patch_all
  patch_by tracer (some modules) = on_recorder (tracer.provider.patch modules)

  unfoldable pub patch :
      Tracer Seg S → Option (List String) → Op (World Seg S App) String (Unit {0})
  unfolding patch_by
  patch tracer modules = if tracer.disabled then pure tt else patch_by tracer modules

module _ {Seg S : Type 0} (sdk : Sdk Seg S) (env : Environment) where
  -- disabled if disabled is not None else self._is_tracer_disabled()
  unfoldable pub wanted : Option Bool → Result String Bool
  wanted none = is_tracer_disabled sdk.lower env
  wanted (some b) = ok b

  -- the configuration that `__build_config` leaves
  unfoldable pub configured :
      Option String
      → Bool
      → Option Bool
      → Option (List String)
      → Option (Provider Seg S)
      → Config Seg S
      → Config Seg S
  configured service is_disabled auto_patch patch_modules provider c = record {
    service = full_text (resolve_env_var_choice env.service_name service) c.service;
    disabled = is_disabled || c.disabled;
    auto_patch = or_else auto_patch c.auto_patch;
    patch_modules = full_list patch_modules c.patch_modules;
    provider = some (or_else provider (or_else c.provider sdk.recorder));
  }

  tracer_of : Config Seg S → Tracer Seg S
  tracer_of c = record {
    service = c.service;
    disabled = c.disabled;
    auto_patch = c.auto_patch;
    provider = or_else c.provider sdk.recorder;
  }

module _ {Seg S App : Type 0} (sdk : Sdk Seg S) (env : Environment) where
  -- the calls of `__init__` once the configuration is there
  start : Tracer Seg S → Option (List String) → Op (World Seg S App) String (Tracer Seg S)
  unfolding on_recorder
  start tracer patch_modules = do
    if tracer.disabled then on_recorder sdk.disable else pure tt
    if tracer.auto_patch then patch tracer patch_modules else pure tt
    if tracer.provider.is_xray
        then (if tracer.disabled then pure tt else on_recorder sdk.no_streaming)
        else pure tt
    pure tracer

  -- `__init__`
  unfoldable pub init :
      Option String
      → Option Bool
      → Option Bool
      → Option (List String)
      → Option (Provider Seg S)
      → Op (World Seg S App) String (Tracer Seg S)
  unfolding tracer_of start
  init service disabled auto_patch patch_modules provider = do
    is_disabled ← lift (wanted sdk env disabled)
    modify (λ w. record w {
      config = configured sdk env service is_disabled auto_patch patch_modules provider w.config;
    })
    config ← gets (λ w. w.config)
    start (tracer_of sdk env config) patch_modules
