-- ===== src/EventHandler/AppSync.antt =====
-- event_handler/appsync.py: `AppSyncResolver`, and `Router`, whose resolvers it includes.
pub mod Lookup
use Prim.Native.String.{◌++◌ as join}
use aws_lambda_powertools_py.Common.{String, Option, none, some, []}
use aws_lambda_powertools_py.Common.Eq.{string_eq}
use aws_lambda_powertools_py.Common.Dict.{Dict, get, store, merge}
use aws_lambda_powertools_py.Common.Effect.{Op, Result, ok, raised, pure, lift, modify, ◌>>=◌, ◌>>◌}
use aws_lambda_powertools_py.Common.Json.{Json, Fields}

-- What the resolver reads of an event, which the class given as `data_model` takes from it.
pub record AppSyncEvent : Type 0 where
  pub type_name : String
  pub field_name : String
  pub arguments : Fields

-- the context that the resolvers share, and what they work on
pub record Shared (App : Type 0) : Type 0 where
  pub context : Dict String Json
  pub app : App

-- A function that is registered, called with the event and its arguments, and its exceptions.
pub record Field (App E : Type 0) : Type 0 where
  pub func : AppSyncEvent → Op (Shared App) E Json

abbrev pub Resolvers : Type 0 → Type 0 → Type 0
Resolvers App E = Dict String (Field App E)

-- f"{type_name}.{field_name}"
abbrev pub full_name : String → String → String
full_name type_name field_name = join type_name (join "." field_name)

-- the text of a field name in such a name
abbrev pub field_text : Option String → String
field_text none = "None"
field_text (some name) = name

module _ {App E : Type 0} where
  -- `resolver` with the function that it decorates
  unfoldable pub resolver : String → Option String → Field App E → Resolvers App E → Resolvers App E
  resolver type_name field_name field resolvers =
      store (full_name type_name (field_text field_name)) field resolvers

  -- the entry of a dict, or another default
  abbrev pub get_or : Option (Field App E) → Option (Field App E) → Option (Field App E)
  get_or none default_value = default_value
  get_or (some field) default_value = some field

  -- `_get_resolver`; `none` is the ValueError.
  unfoldable pub get_resolver : String → String → Resolvers App E → Option (Field App E)
  get_resolver type_name field_name resolvers =
      get_or (get (full_name type_name field_name) resolvers)
        (get (full_name "*" field_name) resolvers)

  call_field : E → AppSyncEvent → Option (Field App E) → Op (Shared App) E Json
  call_field value_error event none = lift (raised value_error)
  call_field value_error event (some field) = field.func event

  -- `resolve`, with the ValueError for a missing resolver
  unfoldable pub resolve :
      E → (Fields → Result E AppSyncEvent) → Resolvers App E → Fields → Op (Shared App) E Json
  unfolding get_resolver call_field ◌>>=◌
  resolve value_error data_model resolvers fields = do
    event ← lift (data_model fields)
    reply ← call_field value_error event (get_resolver event.type_name event.field_name resolvers)
    modify (λ s. record s { context = [] })
    pure reply

  -- `include_router`: the resolvers and the context of both
  unfoldable pub include_router :
      Resolvers App E
      → Dict String Json
      → Resolvers App E
      → Dict String Json
      → Resolvers App E × Dict String Json
  include_router router_resolvers router_context resolvers context =
      (merge router_resolvers resolvers, merge router_context context)
