-- ===== src/Shared.antt =====
-- shared/functions.py: choices over environment variables.
use Prim.Native.String.{String}
use mathlib.Core.Bool.{Bool, true, false}
use mathlib.Core.Option.{Option, none, some}
use aws_lambda_powertools_py.Common.{[], ◌∷◌, any, if◌then◌else◌}
use aws_lambda_powertools_py.Common.Eq.{◌==◌, string_eq}
use aws_lambda_powertools_py.Common.Effect.{Result, ok, raised}

-- `lower` is str.lower, and the first argument a ValueError
unfoldable pub strtobool : {E : Type 0} → E → (String → String) → String → Result E Bool
strtobool value_error lower value =
    let s = lower value in
    if any (λ t. t == s) ("1" ∷ "y" ∷ "yes" ∷ "t" ∷ "true" ∷ "on" ∷ [])
    then ok true
    else if any (λ t. t == s) ("0" ∷ "n" ∷ "no" ∷ "f" ∷ "false" ∷ "off" ∷ [])
    then ok false
    else raised value_error

unfoldable pub resolve_truthy_env_var_choice :
    (String → String) → String → Option Bool → Result String Bool
unfolding strtobool
resolve_truthy_env_var_choice lower env none = strtobool "ValueError" lower env
resolve_truthy_env_var_choice lower env (some choice) = ok choice

-- `choice if choice is not None else env`
abbrev pub resolve_env_var_choice : {A : Type 0} → Option A → Option A → Option A
resolve_env_var_choice env none = env
resolve_env_var_choice env (some choice) = some choice
