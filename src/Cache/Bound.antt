-- ===== src/Cache/Bound.antt =====
-- The number of items of a `LruDict`.
use text.Mathlib.TextPositions.{eq_refl}
use aws_lambda_powertools_py.Common.{
  ℕ, ◌+◌, ◌≤◌, String, Bool, refl, [], ◌∷◌, ◌++◌, arith, length, length-append, Option-cases, inl,
  inr,
}
use aws_lambda_powertools_py.Common.Eq.{string_eq}
use aws_lambda_powertools_py.Common.Dict
use aws_lambda_powertools_py.Common.Dict.{
  Dict, length-delete-le, length-delete_of_contains, contains-eq-get,
}
use aws_lambda_powertools_py.Cache.{
  LruDict, init, evict, move_to_end, get_item, set_item, get, delete,
}
use aws_lambda_powertools_py.Cache.Order.{stored_last}

module _ {ℓ} {V : Type ℓ} where
  abbrev pub IsBounded : LruDict V → Type 0
  IsBounded c = length c.items ≤ c.max_items

  evict-le : (n : ℕ) (d : Dict String V) → length d ≤ n + 1 → length (evict n d) ≤ n
  unfolding evict Dict.contains
  evict-le n [] h = omega arith
  evict-le n ((k, v) ∷ d) h = ground (arith, length-delete_of_contains k ((k, v) ∷ d), eq_refl k)

  pub length-stored-le :
      (k : String) (v : V) (d : Dict String V)
      → length (Dict.delete k d ++ (k, v) ∷ []) ≤ length d + 1
  length-stored-le k v d =
      omega (arith, length-append (Dict.delete k d) ((k, v) ∷ []), length-delete-le k d)

  pub set_item-IsBounded :
      (k : String) (v : V) (c : LruDict V) → IsBounded c → IsBounded (set_item k v c)
  unfolding set_item
  set_item-IsBounded k v c h =
      rw stored_last (evict-le c.max_items _ (omega (arith, length-stored-le k v c.items)))

  length-move_to_end-le : (k : String) (d : Dict String V) → length (move_to_end k d) ≤ length d
  unfolding move_to_end
  length-move_to_end-le k d = elim (Option-cases (Dict.get k d)) [
    | inl absent ↦ rw absent (omega arith)
    | inr (v, present) ↦ rw present (
        omega (
          arith,
          length-append (Dict.delete k d) ((k, v) ∷ []),
          length-delete_of_contains k d (rw (contains-eq-get, present) refl),
        ))
  ]

  pub delete-IsBounded : (k : String) (c : LruDict V) → IsBounded c → IsBounded (delete k c)
  unfolding delete
  delete-IsBounded k c h = omega (arith, length-delete-le k c.items)

  pub get-IsBounded :
      (truthy : V → Bool) (k : String) (c : LruDict V) → IsBounded c → IsBounded (get truthy k c).1
  unfolding get
  get-IsBounded truthy k c h = ground (arith, length-move_to_end-le k c.items)

  -- No operation, in whatever order, takes the cache past its maximum: a new cache is within it, and
  -- each operation keeps it there.
  pub lru-IsBounded :
      (n : ℕ) (truthy : V → Bool) (k : String) (v : V) (c : LruDict V)
      → IsBounded c
      → IsBounded (init {V = V} n)
        × IsBounded (set_item k v c)
        × IsBounded (get truthy k c).1
        × IsBounded (get_item k c).1
        × IsBounded (delete k c)
  unfolding init get_item
  lru-IsBounded n truthy k v c h = (
    omega arith,
    set_item-IsBounded k v c h,
    get-IsBounded truthy k c h,
    omega (arith, length-move_to_end-le k c.items),
    delete-IsBounded k c h,
  )
