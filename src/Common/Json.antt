-- ===== src/Common/Json.antt =====
-- Values that `json.loads` returns: Python's None, bool, int, str, list and dict. Floats are left out.
use Prim.Native.String.{String}
use mathlib.Core.Bool.{Bool, true, false, not}
use mathlib.Core.Option.{Option, none, some}
use mathlib.Core.List.{List, [], ◌∷◌}
use aws_lambda_powertools_py.Common.Tests.{if◌then◌else◌}
use aws_lambda_powertools_py.Common.Int.{ℤ, pos, eqb_ℤ}
use aws_lambda_powertools_py.Common.Eq.{◌==◌, string_eq}

mutual
  pub data Json : Type 0 where
    null : Json
    bool : Bool → Json
    num : ℤ → Json
    str : String → Json
    arr : Items → Json
    obj : Fields → Json

  pub data Items : Type 0 where
    nil : Items
    cons : Json → Items → Items

  pub data Fields : Type 0 where
    end : Fields
    field : String → Json → Fields → Fields

abbrev pub items : Items → List Json
items nil = []
items (cons v vs) = v ∷ items vs

abbrev pub fields : Fields → List (String × Json)
fields end = []
fields (field k v fs) = (k, v) ∷ fields fs

-- bool(v)
abbrev pub truthy : Json → Bool
truthy null = false
truthy (bool b) = b
truthy (num n) = not (eqb_ℤ n (pos 0))
truthy (str s) = not (s == "")
truthy (arr nil) = false
truthy (arr (cons v vs)) = true
truthy (obj end) = false
truthy (obj (field k v fs)) = true

-- d.get(k), for the fields of a dict
abbrev pub find : String → Fields → Option Json
find k end = none
find k (field j v fs) = if j == k then some v else find k fs
