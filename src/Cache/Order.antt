-- ===== src/Cache/Order.antt =====
-- The order of the items when one is stored.
use aws_lambda_powertools_py.Common.{
  String, ◌≡◌, refl, true, false, [], ◌∷◌, ◌++◌, arith, if◌then◌else◌, inl, inr, Option-cases,
}
use aws_lambda_powertools_py.Common.Eq.{string_eq}
use text.Mathlib.TextPositions.{eq_refl}
use aws_lambda_powertools_py.Common.Dict
use aws_lambda_powertools_py.Common.Dict.{Dict, get-delete, length-delete-le, contains-eq-get}
use aws_lambda_powertools_py.Cache.{move_to_end}

module _ {ℓ} {V : Type ℓ} where
  pub contains-delete : (k : String) (d : Dict String V) → Dict.contains k (Dict.delete k d) ≡ false
  contains-delete k d =
      ground (arith, contains-eq-get k (Dict.delete k d), get-delete k k d, eq_refl k)

  delete_of_absent :
      (k : String) (d : Dict String V) → Dict.contains k d ≡ false → Dict.delete k d ≡ d
  unfolding Dict.contains Dict.delete
  delete_of_absent k [] h = refl
  delete_of_absent k ((j, v) ∷ d) h = ground (arith, delete_of_absent k d)

  store_of_absent :
      (k : String) (v : V) (d : Dict String V)
      → Dict.contains k d ≡ false
      → Dict.store k v d ≡ d ++ (k, v) ∷ []
  unfolding Dict.contains Dict.store
  store_of_absent k v [] h = refl
  store_of_absent k v ((j, w) ∷ d) h = ground (arith, store_of_absent k v d)

  store_at_end :
      (k : String) (v w : V) (d : Dict String V)
      → Dict.contains k d ≡ false
      → Dict.store k v (d ++ (k, w) ∷ []) ≡ d ++ (k, v) ∷ []
  unfolding Dict.contains Dict.store
  store_at_end k v w [] h = rw (eq_refl k)
  store_at_end k v w ((j, u) ∷ d) h = ground (arith, store_at_end k v w d)

  -- The item that is stored comes last, and the others keep their order.
  pub stored_last :
      (k : String) (v : V) (d : Dict String V)
      → Dict.store k v (if Dict.contains k d then move_to_end k d else d)
        ≡ Dict.delete k d ++ (k, v) ∷ []
  unfolding move_to_end
  stored_last k v d = elim (Option-cases (Dict.get k d)) [
    | inl absent ↦
        let missing : Dict.contains k d ≡ false = rw (contains-eq-get, absent) refl in
        rw (missing, store_of_absent k v d missing, delete_of_absent k d missing)
    | inr (w, present) ↦
        let there : Dict.contains k d ≡ true = rw (contains-eq-get, present) refl in
        rw (there, present) (store_at_end k v w (Dict.delete k d) (contains-delete k d))
  ]
