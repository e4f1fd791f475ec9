-- ===== src/Cache.antt =====
-- shared/cache_dict.py: `LRUDict`, an `OrderedDict` with a maximum number of items. The oldest item
-- stands first.
mod Order
pub mod Bound
pub mod Recency
use aws_lambda_powertools_py.Common.{
  ℕ, String, Bool, Option, none, some, [], ◌∷◌, ◌++◌, length, ltb, if◌then◌else◌,
}
use aws_lambda_powertools_py.Common.Eq.{string_eq}
use aws_lambda_powertools_py.Common.Dict
use aws_lambda_powertools_py.Common.Dict.{Dict}

pub record LruDict {ℓ} (V : Type ℓ) : Type ℓ where
  pub max_items : ℕ
  pub items : Dict String V

module _ {ℓ} {V : Type ℓ} where
  -- `__init__`, with the bound alone: no initial items, of which the package passes none
  unfoldable pub init : ℕ → LruDict V
  init max_items = record { max_items = max_items; items = [] }

  unfoldable pub place_last : String → Option V → Dict String V → Dict String V
  place_last key none d = d
  place_last key (some value) d = Dict.delete key d ++ (key, value) ∷ []

  -- `OrderedDict.move_to_end`
  unfoldable pub move_to_end : String → Dict String V → Dict String V
  unfolding place_last
  move_to_end key d = place_last key (Dict.get key d) d

  -- the oldest item goes when there are too many
  unfoldable pub evict : ℕ → Dict String V → Dict String V
  evict max_items [] = []
  evict max_items ((oldest, value) ∷ d) =
      if ltb max_items (length ((oldest, value) ∷ d))
      then Dict.delete oldest ((oldest, value) ∷ d)
      else (oldest, value) ∷ d

  -- `__getitem__`: `none` is the KeyError
  unfoldable pub get_item : String → LruDict V → Option V × LruDict V
  unfolding move_to_end
  get_item key c = (Dict.get key c.items, record c { items = move_to_end key c.items })

  -- `__setitem__`
  unfoldable pub set_item : String → V → LruDict V → LruDict V
  unfolding move_to_end evict
  set_item key value c =
      let moved = if Dict.contains key c.items then move_to_end key c.items else c.items in
      record c { items = evict c.max_items (Dict.store key value moved) }

  -- `get`, with the default None; `truthy` is `bool` at the items
  unfoldable pub get : (V → Bool) → String → LruDict V → Option V × LruDict V
  unfolding move_to_end
  get truthy key c = elim (Dict.get key c.items) [
    | none ↦ (none, c)
    | some item ↦
        (some item, if truthy item then record c { items = move_to_end key c.items } else c)
  ]

  -- `del c[key]`
  unfoldable pub delete : String → LruDict V → LruDict V
  delete key c = record c { items = Dict.delete key c.items }

  -- `key in c`
  unfoldable pub contains : String → LruDict V → Bool
  contains key c = Dict.contains key c.items
