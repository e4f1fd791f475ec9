-- ===== src/Tracing/Provider.antt =====
-- What the tracer works on: a provider of subsegments, the SDK, the environment, and the process.
use aws_lambda_powertools_py.Common.{String, Bool, Option, List}
use aws_lambda_powertools_py.Common.Eq.{string_eq}
use aws_lambda_powertools_py.Common.Effect.{Op}
use aws_lambda_powertools_py.Common.Json.{Json}

-- What is recorded: a value, or an exception by its type's name.
pub data Value : Type 0 where
  value_of : Json → Value
  error_of : String → Value

-- A provider with its subsegments, as what it does to a state of its own. `leave` is the end of the
-- `with` block of a subsegment, which lets an exception through; `is_xray` is whether the provider's
-- module names the SDK.
pub record Provider (Seg S : Type 0) : Type 0 where
  pub is_xray : Bool
  pub put_annotation : String → Value → Op S String (Unit {0})
  pub put_metadata : String → Value → String → Op S String (Unit {0})
  pub patch : List String → Op S String (Unit {0})
  pub patch_all : Op S String (Unit {0})
  pub in_subsegment : String → Op S String Seg
  pub in_subsegment_async : String → Op S String Seg
  pub leave : Seg → Op S String (Unit {0})
  pub annotate : Seg → String → Value → Op S String (Unit {0})
  pub add_metadata : Seg → String → Value → String → Op S String (Unit {0})

-- The SDK's own provider and its global switches, and str.lower.
pub record Sdk (Seg S : Type 0) : Type 0 where
  pub recorder : Provider Seg S
  pub disable : Op S String (Unit {0})
  pub no_streaming : Op S String (Unit {0})
  pub lower : String → String

-- the environment: LAMBDA_TASK_ROOT, POWERTOOLS_TRACE_DISABLED, POWERTOOLS_SERVICE_NAME,
-- POWERTOOLS_TRACER_CAPTURE_RESPONSE and POWERTOOLS_TRACER_CAPTURE_ERROR
pub record Environment : Type 0 where
  pub task_root : Option String
  pub trace_disabled : Option String
  pub service_name : Option String
  pub capture_response : Option String
  pub capture_error : Option String

-- `_config`, which all tracers of the process share
pub record Config (Seg S : Type 0) : Type 0 where
  pub service : String
  pub disabled : Bool
  pub auto_patch : Bool
  pub patch_modules : Option (List String)
  pub provider : Option (Provider Seg S)

pub record Tracer (Seg S : Type 0) : Type 0 where
  pub service : String
  pub disabled : Bool
  pub auto_patch : Bool
  pub provider : Provider Seg S

-- The process: the shared configuration, the module's `is_cold_start`, the state of the providers, and
-- what the traced code works on.
pub record World (Seg S App : Type 0) : Type 0 where
  pub config : Config Seg S
  pub is_cold_start : Bool
  pub recorded : S
  pub app : App

module _ {Seg S App : Type 0} where
  -- a call of the provider, and of the traced code
  unfoldable pub on_recorder : {A : Type 0} → Op S String A → Op (World Seg S App) String A
  on_recorder m w = let (r, s) = m w.recorded in (r, record w { recorded = s })

  unfoldable pub on_app : {A : Type 0} → Op App String A → Op (World Seg S App) String A
  on_app m w = let (r, a) = m w.app in (r, record w { app = a })
