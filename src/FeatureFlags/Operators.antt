-- ===== src/FeatureFlags/Operators.antt =====
-- Python's operators on JSON values, as the actions of feature_flags.py use them. `none` is an
-- exception, such as a TypeError of `<` between a number and a text.
use Prim.Native.String.{compare, len, slice}
use text.Mathlib.Text.{is_eq, is_lt, starts_with, find?}
use aws_lambda_powertools_py.Common.{
  ◌-◌, Bool, true, false, not, ◌&&◌, Option, none, some, any, eqb, length, leb,
}
use aws_lambda_powertools_py.Common.Eq.{◌==◌, string_eq}
use aws_lambda_powertools_py.Common.Int.{ℤ, pos, eqb_ℤ, ltb_ℤ}
use aws_lambda_powertools_py.Common.Json.{
  Json, null, bool, num, str, arr, obj, Items, nil, cons, Fields, end, field, items, fields, find,
}

-- a bool is an int
number : Json → Option ℤ
number (bool false) = some (pos 0)
number (bool true) = some (pos 1)
number (num n) = some n
number _ = none

both : (ℤ → ℤ → Bool) → Option ℤ → Option ℤ → Option Bool
both test (some a) (some b) = some (test a b)
both test _ _ = none

or_false : Option Bool → Bool
or_false none = false
or_false (some b) = b

is_some {ℓ} : {A : Type ℓ} → Option A → Bool
is_some none = false
is_some (some a) = true

-- a == b
unfoldable mutual
  unfolding number both or_false

  pub py_eq : Json → Json → Bool
  py_eq null null = true
  py_eq (str s) (str t) = s == t
  py_eq (arr xs) (arr ys) = items_eq xs ys
  py_eq (obj fs) (obj gs) = eqb (length (fields fs)) (length (fields gs)) && fields_eq fs gs
  py_eq (bool a) v = or_false (both eqb_ℤ (number (bool a)) (number v))
  py_eq (num a) v = or_false (both eqb_ℤ (some a) (number v))
  py_eq _ _ = false

  pub items_eq : Items → Items → Bool
  items_eq nil nil = true
  items_eq (cons v vs) (cons w ws) = py_eq v w && items_eq vs ws
  items_eq _ _ = false

  pub fields_eq : Fields → Fields → Bool
  fields_eq end gs = true
  fields_eq (field k v fs) gs =
      (elim (find k gs) [ none ↦ false | some w ↦ py_eq v w ]) && fields_eq fs gs

-- a < b
unfoldable mutual
  unfolding number both py_eq

  pub less : Json → Json → Option Bool
  less (str s) (str t) = some (is_lt (compare s t))
  less (arr xs) (arr ys) = items_less xs ys
  less (bool a) v = both ltb_ℤ (number (bool a)) (number v)
  less (num a) v = both ltb_ℤ (some a) (number v)
  less _ _ = none

  pub items_less : Items → Items → Option Bool
  items_less nil nil = some false
  items_less nil (cons w ws) = some true
  items_less (cons v vs) nil = some false
  items_less (cons v vs) (cons w ws) = elim (py_eq v w) [
    | true ↦ items_less vs ws
    | false ↦ less v w
  ]

abbrev pub negated : Option Bool → Option Bool
negated none = none
negated (some b) = some (not b)

-- a in b; an unhashable key of a dict is a TypeError
unfoldable pub member : Json → Json → Option Bool
unfolding py_eq is_some
member (str s) (str t) = some (is_some (find? t s))
member v (str t) = none
member v (arr ws) = some (any (py_eq v) (items ws))
member (str s) (obj fs) = some (is_some (find s fs))
member (arr vs) (obj fs) = none
member (obj gs) (obj fs) = none
member v (obj fs) = some false
member v w = none

-- a.startswith(b), a.endswith(b)
unfoldable pub startswith : Json → Json → Option Bool
startswith (str s) (str t) = some (starts_with s t)
startswith _ _ = none

unfoldable pub endswith : Json → Json → Option Bool
endswith (str s) (str t) =
    some (leb (len t) (len s) && is_eq (compare (slice s (len s - len t) (len s)) t))
endswith _ _ = none
