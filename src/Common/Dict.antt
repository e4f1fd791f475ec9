-- ===== src/Common/Dict.antt =====
-- Python's `dict` and `OrderedDict`: an association list in the order of insertion. Storing at a key
-- that is there keeps the key's place.
pub mod Merge
use mathlib.Core.Path.{◌≡◌, refl}
use mathlib.Core.Bool.{Bool, true, false}
use mathlib.Core.Option.{Option, none, some}
use mathlib.Core.List.{List, [], ◌∷◌}
use Prim.Native.Nat.{◌+◌, ◌≤◌}
use native.Mathlib.Omega.{arith}
use aws_lambda_powertools_py.Common.Eq.{Hashable, ◌==◌}
use aws_lambda_powertools_py.Common.Tests.{if◌then◌else◌}
use aws_lambda_powertools_py.Common.Lists.{length}

abbrev pub Dict {ℓ κ} : Type ℓ → Type κ → Type (ℓ ⊔ κ)
Dict K V = List (K × V)

module _ {ℓ κ} {K : Type ℓ} {V : Type κ} ⦃e : Hashable K⦄ where
  -- d.get(k)
  unfoldable pub get : K → Dict K V → Option V
  get k [] = none
  get k ((j, v) ∷ d) = if j == k then some v else get k d

  -- k in d
  unfoldable pub contains : K → Dict K V → Bool
  contains k [] = false
  contains k ((j, v) ∷ d) = if j == k then true else contains k d

  -- d[k] = v
  unfoldable pub store : K → V → Dict K V → Dict K V
  store k v [] = (k, v) ∷ []
  store k v ((j, w) ∷ d) = let rest = store k v d in if j == k then (j, v) ∷ d else (j, w) ∷ rest

  -- del d[k]
  unfoldable pub delete : K → Dict K V → Dict K V
  delete k [] = []
  delete k ((j, w) ∷ d) = let rest = delete k d in if j == k then rest else (j, w) ∷ rest

  -- d.update(items)
  unfoldable pub merge : Dict K V → Dict K V → Dict K V
  merge [] d = d
  merge ((k, v) ∷ items) d = merge items (store k v d)

  pub get-store :
      (k j : K) (v : V) (d : Dict K V) → get j (store k v d) ≡ (if k == j then some v else get j d)
  unfolding get store
  get-store k j v [] = refl
  get-store k j v ((i, w) ∷ d) =
      ground (arith, e.same_key_iff k j, e.same_key_iff i k, e.same_key_iff i j, get-store k j v d)

  pub get-delete :
      (k j : K) (d : Dict K V) → get j (delete k d) ≡ (if k == j then none else get j d)
  unfolding get delete
  get-delete k j [] = ground arith
  get-delete k j ((i, w) ∷ d) =
      ground (arith, e.same_key_iff k j, e.same_key_iff i k, e.same_key_iff i j, get-delete k j d)

  pub length-delete-le : (k : K) (d : Dict K V) → length (delete k d) ≤ length d
  unfolding delete
  length-delete-le k [] = omega arith
  length-delete-le k ((i, w) ∷ d) = ground (arith, length-delete-le k d)

  pub length-delete_of_contains :
      (k : K) (d : Dict K V) → contains k d ≡ true → length (delete k d) + 1 ≤ length d
  unfolding delete contains
  length-delete_of_contains k [] h = ground arith
  length-delete_of_contains k ((i, w) ∷ d) h =
      ground (arith, length-delete-le k d, length-delete_of_contains k d)

  -- A store adds one item at most.
  pub length-store :
      (k : K) (v : V) (d : Dict K V)
      → length (store k v d) ≡ (if contains k d then length d else length d + 1)
  unfolding store contains
  length-store k v [] = refl
  length-store k v ((i, w) ∷ d) = ground (arith, length-store k v d)

  pub contains-eq-get :
      (k : K) (d : Dict K V) → contains k d ≡ (elim (get k d) [ none ↦ false | some _ ↦ true ])
  unfolding get contains
  contains-eq-get k [] = refl
  contains-eq-get k ((i, w) ∷ d) = ground (arith, contains-eq-get k d)
