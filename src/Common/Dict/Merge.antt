-- ===== src/Common/Dict/Merge.antt =====
-- Dictionaries whose keys are distinct, and `update` of one by another.
use aws_lambda_powertools_py.Common.Dict.{
  Dict, get, contains, store, merge, get-store, contains-eq-get,
}
use mathlib.Core.Path.{◌≡◌, refl, sym, ap, ◌∙◌}
use mathlib.Core.Bool.{true, false}
use mathlib.Core.Option.{Option, none, some}
use mathlib.Core.List.{[], ◌∷◌, ◌++◌, map, append-nil, append_assoc}
use native.Mathlib.Omega.{arith}
use aws_lambda_powertools_py.Common.Eq.{Hashable, ◌==◌}
use aws_lambda_powertools_py.Common.Tests.{if◌then◌else◌, Bool-cases}
use mathlib.Core.Logic.{inl, inr}
use aws_lambda_powertools_py.Common.Lists.{All}

module _ {ℓ κ} {K : Type ℓ} {V : Type κ} ⦃e : Hashable K⦄ where
  abbrev pub HasDistinctKeys : Dict K V → Type 0
  HasDistinctKeys [] = Unit
  HasDistinctKeys ((k, v) ∷ d) = (contains k d ≡ false) × HasDistinctKeys d

  pub contains-store :
      (k j : K) (v : V) (d : Dict K V)
      → contains j (store k v d) ≡ (if k == j then true else contains j d)
  unfolding contains store
  contains-store k j v [] = refl
  contains-store k j v ((i, w) ∷ d) =
      ground
        (arith, e.same_key_iff k j, e.same_key_iff i k, e.same_key_iff i j, contains-store k j v d)

  still_fresh :
      (k i : K) (d : Dict K V)
      → (i == k) ≡ false
      → contains i d ≡ false
      → (if k == i then true else contains i d) ≡ false
  still_fresh k i d other fresh = ground (arith, e.same_key_iff k i, e.same_key_iff i k)

  pub store-HasDistinctKeys :
      (k : K) (v : V) (d : Dict K V) → HasDistinctKeys d → HasDistinctKeys (store k v d)
  unfolding store contains
  store-HasDistinctKeys k v [] h = (refl, tt)
  store-HasDistinctKeys k v ((i, w) ∷ d) (fresh, h) = elim (Bool-cases (i == k)) [
    | inl same ↦ rw same (fresh, h)
    | inr other ↦
        rw other
          (contains-store k i v d ∙ still_fresh k i d other fresh, store-HasDistinctKeys k v d h)
  ]

  -- An update by distinct keys gives its values, and leaves the others.
  pub get-merge :
      (j : K) (items d : Dict K V)
      → HasDistinctKeys items
      → get j (merge items d) ≡ (elim (get j items) [ none ↦ get j d | some v ↦ some v ])
  unfolding get merge
  get-merge j [] d h = refl
  get-merge j ((k, v) ∷ items) d (fresh, h) = ground (
    arith,
    get-merge j items (store k v d) h,
    get-store k j v d,
    contains-eq-get k items,
    e.same_key_iff k j,
  )

  pub store-All :
      (P : K × V → Type 0) (k : K) (v : V) (d : Dict K V)
      → ((k : K) → P (k, v))
      → All P d
      → All P (store k v d)
  unfolding store
  store-All P k v [] p h = (p k, tt)
  store-All P k v ((i, w) ∷ d) p (q, h) = elim (Bool-cases (i == k)) [
    | inl same ↦ rw same (p i, h)
    | inr other ↦ rw other (q, store-All P k v d p h)
  ]

  pub merge-All :
      (P : V → Type 0) (items d : Dict K V)
      → All (λ q. P q.1) items
      → All (λ q. P q.1) d
      → All (λ q. P q.1) (merge items d)
  unfolding merge
  merge-All P [] d p h = h
  merge-All P ((k, v) ∷ items) d (q, p) h =
      merge-All P items (store k v d) p (store-All (λ r. P r.1) k v d (λ _. q) h)

  -- What holds of all values holds of one that is got.
  pub get-All :
      (P : Option V → Type 0) (k : K) (d : Dict K V)
      → P none
      → All (λ q. P (some q.1)) d
      → P (get k d)
  unfolding get
  get-All P k [] p h = p
  get-All P k ((i, w) ∷ d) p (q, h) = elim (Bool-cases (i == k)) [
    | inl same ↦ rw same q
    | inr other ↦ rw other (get-All P k d p h)
  ]

  contains_middle :
      (i k : K) (v : V) (d rest : Dict K V)
      → (k == i) ≡ true
      → contains i (d ++ (k, v) ∷ rest) ≡ true
  unfolding contains
  contains_middle i k v [] rest h = ground (arith, h)
  contains_middle i k v ((j, w) ∷ d) rest h = ground (arith, contains_middle i k v d rest h)

  fresh_before :
      (k : K) (v : V) (d rest : Dict K V)
      → HasDistinctKeys (d ++ (k, v) ∷ rest)
      → contains k d ≡ false
  unfolding contains
  fresh_before k v [] rest h = refl
  fresh_before k v ((i, w) ∷ d) rest (fresh, h) = ground (
    arith,
    fresh,
    fresh_before k v d rest h,
    contains_middle i k v d rest,
    e.same_key_iff k i,
    e.same_key_iff i k,
  )

  store-fresh :
      (k : K) (v : V) (d : Dict K V) → contains k d ≡ false → store k v d ≡ d ++ (k, v) ∷ []
  unfolding store contains
  store-fresh k v [] h = refl
  store-fresh k v ((i, w) ∷ d) h = ground (arith, h, store-fresh k v d)

  merge-append : (items d : Dict K V) → HasDistinctKeys (d ++ items) → merge items d ≡ d ++ items
  unfolding merge
  merge-append [] d h = sym (append-nil d)
  merge-append ((k, v) ∷ items) d h =
      ap (merge items) (store-fresh k v d (fresh_before k v d items h))
      ∙ merge-append items (d ++ (k, v) ∷ []) (rw (append_assoc d ((k, v) ∷ []) items) h)
      ∙ append_assoc d ((k, v) ∷ []) items

  -- Distinct keys are stored one after another.
  pub merge-nil : (items : Dict K V) → HasDistinctKeys items → merge items [] ≡ items
  merge-nil items h = merge-append items [] h

module _ {ℓ κ μ} {K : Type ℓ} {V : Type κ} {W : Type μ} ⦃e : Hashable K⦄ (f : V → W) where
  pub get-map :
      (k : K) (d : Dict K V)
      → get k (map (λ q. (q.0, f q.1)) d) ≡ (elim (get k d) [ none ↦ none | some v ↦ some (f v) ])
  unfolding get
  get-map k [] = refl
  get-map k ((i, v) ∷ d) = ground (arith, get-map k d)

  contains-map : (k : K) (d : Dict K V) → contains k (map (λ q. (q.0, f q.1)) d) ≡ contains k d
  unfolding contains
  contains-map k [] = refl
  contains-map k ((i, v) ∷ d) = ground (arith, contains-map k d)

  pub map-HasDistinctKeys :
      (d : Dict K V) → HasDistinctKeys d → HasDistinctKeys (map (λ q. (q.0, f q.1)) d)
  map-HasDistinctKeys [] h = tt
  map-HasDistinctKeys ((k, v) ∷ d) (fresh, h) = (contains-map k d ∙ fresh, map-HasDistinctKeys d h)
