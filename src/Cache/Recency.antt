-- ===== src/Cache/Recency.antt =====
-- Which items of a `LruDict` survive.
use text.Mathlib.TextPositions.{eq_refl}
use aws_lambda_powertools_py.Common.{
  ℕ, ◌+◌, ◌≤◌, ◌<◌, String, Bool, true, false, ◌≡◌, ◌≢◌, refl, List, [], ◌∷◌, ◌++◌, arith, length,
  length-append, some, none, Bool-cases, inl, inr, if◌then◌else◌, eq_iff, All, ◌∙◌,
}
use aws_lambda_powertools_py.Common.Eq.{string_eq, ◌==◌}
use aws_lambda_powertools_py.Common.Dict
use aws_lambda_powertools_py.Common.Dict.{Dict, length-delete-le, get-delete, contains-eq-get}
use aws_lambda_powertools_py.Cache.{LruDict, evict, move_to_end, set_item, get}
use aws_lambda_powertools_py.Cache.Order.{stored_last, contains-delete}

module _ {ℓ} {V : Type ℓ} where
  get-append :
      (k : String) (d b : Dict String V)
      → Dict.get k (d ++ b) ≡ (elim (Dict.get k d) [ none ↦ Dict.get k b | some v ↦ some v ])
  unfolding Dict.get
  get-append k [] b = refl
  get-append k ((j, v) ∷ d) b = ground (arith, get-append k d b)

  -- How many items are newer than that of a key.
  after : String → Dict String V → ℕ
  after k [] = 0
  after k ((j, v) ∷ d) = if j == k then length d else after k d

  after-le-length : (k : String) (d : Dict String V) → after k d ≤ length d
  unfolding after
  after-le-length k [] = omega arith
  after-le-length k ((j, v) ∷ d) = ground (arith, after-le-length k d)

  after-delete-le :
      (k j : String) (d : Dict String V) → j ≢ k → after k (Dict.delete j d) ≤ after k d
  unfolding after Dict.delete
  after-delete-le k j [] h = omega arith
  after-delete-le k j ((i, v) ∷ d) h =
      ground (arith, after-delete-le k j d h, eq_iff i j, eq_iff i k, length-delete-le j d)

  after-append :
      (k : String) (d b : Dict String V)
      → Dict.contains k d ≡ true
      → after k (d ++ b) ≡ after k d + length b
  unfolding after Dict.contains
  after-append k [] b h = ground arith
  after-append k ((j, v) ∷ d) b h = ground (arith, after-append k d b, length-append d b)

  contains-delete_ne :
      (k j : String) (d : Dict String V)
      → j ≢ k
      → Dict.contains k (Dict.delete j d) ≡ Dict.contains k d
  contains-delete_ne k j d h = ground (
    arith,
    contains-eq-get k d,
    contains-eq-get k (Dict.delete j d),
    get-delete j k d,
    eq_iff j k,
  )

  -- A key with fewer newer items than the maximum is not the one that goes.
  evict-keeps :
      (n : ℕ) (k : String) (d : Dict String V)
      → after k d < n
      → (Dict.get k (evict n d) ≡ Dict.get k d) × (after k (evict n d) ≤ after k d)
  unfolding evict
  evict-keeps n k [] h = (refl, omega arith)
  evict-keeps n k ((j, v) ∷ d) h = elim (Bool-cases (j == k)) [
    | inl e ↦ unfold after in ground arith
    | inr e ↦
        ground (arith, get-delete j k ((j, v) ∷ d), after-delete-le k j ((j, v) ∷ d), eq_iff j k)
  ]

  set_item-max : (k : String) (v : V) (c : LruDict V) → (set_item k v c).max_items ≡ c.max_items
  unfolding set_item
  set_item-max k v c = refl

  module _ (k j : String) (v w : V) (d : Dict String V) (ne : j ≢ k)
      (h : Dict.get k d ≡ some w) where
    get-stored : Dict.get k (Dict.delete j d ++ (j, v) ∷ []) ≡ some w
    get-stored =
        ground (arith, get-append k (Dict.delete j d) ((j, v) ∷ []), get-delete j k d, eq_iff j k)

    after-stored-le : after k (Dict.delete j d ++ (j, v) ∷ []) ≤ after k d + 1
    after-stored-le = omega (
      arith,
      after-append k (Dict.delete j d) ((j, v) ∷ [])
          (rw (contains-delete_ne k j d ne, contains-eq-get, h) refl),
      after-delete-le k j d ne,
    )

  -- Storing at another key leaves an item alone that has room behind it, and makes it older by one.
  set_item-keeps :
      (k j : String) (v w : V) (c : LruDict V)
      → j ≢ k
      → after k c.items + 1 < c.max_items
      → Dict.get k c.items ≡ some w
      → (Dict.get k (set_item j v c).items ≡ some w)
        × (after k (set_item j v c).items ≤ after k c.items + 1)
  unfolding set_item
  set_item-keeps k j v w c ne room present =
      let d = Dict.delete j c.items ++ (j, v) ∷ [] in
      let older = after-stored-le k j v w c.items ne present in
      let kept = evict-keeps c.max_items k d (omega arith) in
      rw stored_last (kept.0 ∙ get-stored k j v w c.items ne present, omega arith)

  abbrev pub set_items : List (String × V) → LruDict V → LruDict V
  set_items [] c = c
  set_items ((j, v) ∷ more) c = set_items more (set_item j v c)

  set_items-keeps :
      (k : String) (w : V) (more : List (String × V)) (c : LruDict V)
      → All (λ p. p.0 ≢ k) more
      → after k c.items + length more < c.max_items
      → Dict.get k c.items ≡ some w
      → Dict.get k (set_items more c).items ≡ some w
  set_items-keeps k w [] c ne room present = present
  set_items-keeps k w ((j, v) ∷ more) c (ne, nes) room present =
      let (kept, older) = set_item-keeps k j v w c ne (omega arith) present in
      set_items-keeps k w more (set_item j v c) nes (rw set_item-max (omega arith)) kept

  after_end :
      (k : String) (v : V) (d : Dict String V)
      → Dict.contains k d ≡ false
      → after k (d ++ (k, v) ∷ []) ≡ 0
  unfolding after Dict.contains
  after_end k v [] h = ground (arith, eq_refl k)
  after_end k v ((j, w) ∷ d) h = ground (arith, after_end k v d)

  after-last :
      (k : String) (v : V) (d : Dict String V) → after k (Dict.delete k d ++ (k, v) ∷ []) ≡ 0
  after-last k v d = after_end k v (Dict.delete k d) (contains-delete k d)

  get-last :
      (k : String) (v : V) (d : Dict String V)
      → Dict.get k (Dict.delete k d ++ (k, v) ∷ []) ≡ some v
  unfolding Dict.get
  get-last k v d =
      ground (arith, get-append k (Dict.delete k d) ((k, v) ∷ []), get-delete k k d, eq_refl k)

  get-moves :
      (truthy : V → Bool) (k : String) (w : V) (c : LruDict V)
      → truthy w ≡ true
      → Dict.get k c.items ≡ some w
      → get truthy k c ≡ (some w, record c { items = Dict.delete k c.items ++ (k, w) ∷ [] })
  unfolding get move_to_end
  get-moves truthy k w c t present = ground arith

  -- What was just stored is found again, if the maximum is positive.
  pub get-set_item :
      (k : String) (v : V) (c : LruDict V)
      → 0 < c.max_items
      → Dict.get k (set_item k v c).items ≡ some v
  unfolding set_item
  get-set_item k v c room =
      let d = Dict.delete k c.items ++ (k, v) ∷ [] in
      let last = after-last k v c.items in
      rw stored_last ((evict-keeps c.max_items k d (omega arith)).0 ∙ get-last k v c.items)

  pub get-recent :
      (truthy : V → Bool) (k : String) (w : V) (more : List (String × V)) (c : LruDict V)
      → truthy w ≡ true
      → Dict.get k c.items ≡ some w
      → All (λ p. p.0 ≢ k) more
      → length more < c.max_items
      → Dict.get k (set_items more (get truthy k c).1).items ≡ some w
  get-recent truthy k w more c t present ne room = rw (get-moves truthy k w c t present) (
      set_items-keeps k w more (record c { items = Dict.delete k c.items ++ (k, w) ∷ [] }) ne
        (omega (arith, after-last k w c.items)) (get-last k w c.items))
