-- ===== src/Parameters/Transform/Partial.antt =====
-- `transform_value` of a dict with `raise_on_transform_error` off.
use aws_lambda_powertools_py.Common.{String, false, Option, none, [], ◌∷◌, ◌≡◌, refl, ap, map}
use aws_lambda_powertools_py.Common.Eq.{string_eq}
use aws_lambda_powertools_py.Common.Dict.{Dict, store, merge}
use aws_lambda_powertools_py.Common.Effect.{Result, ok, raised}
use aws_lambda_powertools_py.Parameters.Transform.{
  dict, Library, get_transform_method, apply_method, transform_value, transform_items,
  transform_item, soften, as_dict,
}

module _ {V : Type 0} (lib : Library V) where
  -- the value that the method gives, and None where it raises
  abbrev kept : Result String (Option V) → Option V
  kept (ok v) = v
  kept (raised e) = none

  abbrev pub attempted : Option String → String × Option V → String × Option V
  attempted transform (k, v) = (k, kept (apply_method lib (get_transform_method k transform) v))

  soft : (r : Result String (Option V)) → soften lib false r ≡ ok (kept r)
  unfolding transform_item
  soft (ok v) = refl
  soft (raised e) = refl

  item-kept :
      (transform : Option String) (k : String) (v : Option V)
      → transform_item lib transform false k v ≡ ok (attempted transform (k, v)).1
  unfolding transform_item
  item-kept transform k v = soft (apply_method lib (get_transform_method k transform) v)

  items-merge :
      (transform : Option String) (d done : Dict String (Option V))
      → transform_items lib transform false d done ≡ ok (merge (map (attempted transform) d) done)
  unfolding transform_items merge
  items-merge transform [] done = refl
  items-merge transform ((k, v) ∷ d) done =
      rw (item-kept transform k v) (items-merge transform d (store k _ done))

  -- With `raise_on_transform_error` off a dict is always transformed, item by item: each key has what
  -- its own method gives, chosen by the transform or by the end of the key, or None where the method
  -- raises, and a failing item changes no other.
  pub transform_value-partial :
      (transform : Option String) (name : String) (d : Dict String (Option V))
      → transform_value lib transform false name (dict d)
        ≡ ok (dict (merge (map (attempted transform) d) []))
  unfolding transform_value
  transform_value-partial transform name d = ap (as_dict lib) (items-merge transform d [])
