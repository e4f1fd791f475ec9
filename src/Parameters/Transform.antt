-- ===== src/Parameters/Transform.antt =====
-- parameters/base.py: `get_transform_method` and `transform_value`.
pub mod Partial
use Prim.Native.Char.{code}
use Prim.Native.String.{[] as no_text, ◌∷◌ as prepend}
use aws_lambda_powertools_py.Common.{
  ℕ, zero, suc, String, Bool, true, false, Option, none, some, [], ◌∷◌, ◌||◌, eqb, if◌then◌else◌,
}
use aws_lambda_powertools_py.Common.Eq.{◌==◌, string_eq}
use aws_lambda_powertools_py.Common.Dict.{Dict, store}
use aws_lambda_powertools_py.Common.Effect.{Result, ok, raised}

-- exceptions.py; the text is that of the exception that is wrapped.
pub data Error : Type 0 where
  get_parameter_error : String → Error
  transform_parameter_error : String → Error
  -- an exception that is not wrapped
  escaped : String → Error

-- What a provider answers and what a transform gives. A single value is `none` where Python has None.
pub data Value (V : Type 0) : Type 0 where
  single : Option V → Value V
  dict : Dict String (Option V) → Value V

-- `bytes.decode`, which leaves a text as it is, `json.loads` and `base64.b64decode`, with the text of
-- the exception.
pub record Library (V : Type 0) : Type 0 where
  pub decode : V → Result String V
  pub loads : Option V → Result String (Option V)
  pub b64decode : Option V → Result String (Option V)

-- the functions of TRANSFORM_METHOD_MAPPING, and what `.get` gives for another name
pub data Method : Type 0 where
  json : Method
  binary : Method
  echo : Method
  missing : Method

-- TRANSFORM_METHOD_MAPPING[name], and `rest` where there is no such name
unfoldable pub method_named : String → Method → Method
method_named name rest =
    if name == "json" || name == ".json"
    then json
    else if name == "binary" || name == ".binary"
    then binary
    else rest

-- the text behind the last dot of the second, or the first where it has none
last_part : String → String → String
last_part part no_text = part
last_part part (prepend c s) = last_part (if eqb (code c) 46 then s else part) s

-- value.rsplit(".")[-1]
unfoldable pub key_suffix : String → String
unfolding last_part
key_suffix s = last_part s s

unfoldable pub get_transform_method : String → Option String → Method
unfolding method_named key_suffix
get_transform_method value none = echo
get_transform_method value (some transform) =
    if transform == "auto"
    then method_named (key_suffix value) echo
    else method_named transform missing

module _ {V : Type 0} (lib : Library V) where
  -- The call of the method; None is not callable.
  unfoldable pub apply_method : Method → Option V → Result String (Option V)
  apply_method json v = lib.loads v
  apply_method binary v = lib.b64decode v
  apply_method echo v = ok v
  apply_method missing v = raised "'NoneType' object is not callable"

  -- the clauses of `except Exception`
  soften : Bool → Result String (Option V) → Result Error (Option V)
  soften raise_on_transform_error (ok v) = ok v
  soften true (raised e) = raised (transform_parameter_error e)
  soften false (raised e) = ok none

  -- the value in place of one item of a dict
  unfoldable pub transform_item : Option String → Bool → String → Option V → Result Error (Option V)
  unfolding soften get_transform_method apply_method
  transform_item transform raise_on_transform_error key v =
      soften raise_on_transform_error (apply_method (get_transform_method key transform) v)

  abbrev put :
      String
      → Result Error (Option V)
      → (Dict String (Option V) → Result Error (Dict String (Option V)))
      → Dict String (Option V)
      → Result Error (Dict String (Option V))
  put k (ok v) rest done = rest (store k v done)
  put k (raised e) rest done = raised e

  -- the loop over the items, with what is transformed so far
  unfoldable pub transform_items :
      Option String
      → Bool
      → Dict String (Option V)
      → Dict String (Option V)
      → Result Error (Dict String (Option V))
  transform_items transform raise_on_transform_error [] done = ok done
  transform_items transform raise_on_transform_error ((k, v) ∷ items) done =
      put k (transform_item transform raise_on_transform_error k v)
        (transform_items transform raise_on_transform_error items) done

  as_single : Result Error (Option V) → Result Error (Value V)
  as_single (ok v) = ok (single v)
  as_single (raised e) = raised e

  as_dict : Result Error (Dict String (Option V)) → Result Error (Value V)
  as_dict (ok d) = ok (dict d)
  as_dict (raised e) = raised e

  decoded : Option V → Result String (Option V)
  decoded none = ok none
  decoded (some v) = elim (lib.decode v) [ ok t ↦ ok (some t) | raised e ↦ raised e ]

  transform_decoded : Method → Bool → Result String (Option V) → Result Error (Value V)
  unfolding as_single soften apply_method
  transform_decoded method raise_on_transform_error (raised e) = raised (escaped e)
  transform_decoded method raise_on_transform_error (ok v) =
      as_single (soften raise_on_transform_error (apply_method method v))

  -- Bytes are decoded outside the `try`. The name is read for the transform "auto" alone.
  unfoldable pub transform_value : Option String → Bool → String → Value V → Result Error (Value V)
  unfolding transform_decoded as_dict decoded transform_items transform_item
  transform_value transform raise_on_transform_error key (single v) =
      transform_decoded (get_transform_method key transform) raise_on_transform_error (decoded v)
  transform_value transform raise_on_transform_error key (dict d) =
      as_dict (transform_items transform raise_on_transform_error d [])
