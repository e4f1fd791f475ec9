-- ===== src/Parameters/Provider/Cached.antt =====
-- `get`: what is fetched and cached, and the next call for it.
use aws_lambda_powertools_py.Common.{
  ℕ, suc, ◌+◌, ◌*◌, ◌≤◌, String, Bool, true, false, Option, none, some, ◌≡◌, ◌≢◌, refl, sym, ap,
  ◌∙◌, leb, if◌then◌else◌, arith,
}
use aws_lambda_powertools_py.Common.Eq.{◌==◌}
use aws_lambda_powertools_py.Common.Dict.{get, store, get-store}
use aws_lambda_powertools_py.Common.Effect.{Op, Result, ok, raised, lift, continue, ◌>>=◌}
use aws_lambda_powertools_py.Parameters.Transform.{Error, Value, single, dict, Library}
use aws_lambda_powertools_py.Parameters.Provider.{
  Key, key_eq, ExpirableValue, Methods, World, get_parameter, keep, fetch, transformed, wrapped,
  fresh, or_fetch,
}

module _ {V : Type 0} where
  abbrev outcome_value : Value V → Result Error (Value V) → Value V
  outcome_value d (ok v) = v
  outcome_value d (raised e) = d

  abbrev returned : Result Error (Value V) → Bool
  returned (ok v) = true
  returned (raised e) = false

  abbrev entry_or : ExpirableValue V → Option (ExpirableValue V) → ExpirableValue V
  entry_or e none = e
  entry_or e (some f) = f

module _ {V Db : Type 0} where
  -- the world after a value is stored
  abbrev pub with_value : Key → Value V → ℕ → World V Db → World V Db
  with_value key v max_age w = record w {
    clock = λ i. w.clock (suc i);
    cache = store key (record { value = v; ttl = w.clock 0 + max_age * 1000 }) w.cache;
  }

  keep-with_value :
      (key : Key) (t v : Value V) (max_age : ℕ) (u w : World V Db)
      → keep key t max_age u ≡ (ok v, w)
      → v ≢ single none
      → w ≡ with_value key v max_age u
  unfolding get_parameter
  keep-with_value key (single none) v max_age u w h some_value =
      absurd (some_value (sym (ap (λ o. outcome_value v o.0) h)))
  keep-with_value key (single (some x)) v max_age u w h some_value =
      sym (ap (λ o. o.1) h) ∙ ap (λ t. with_value key t max_age u) (ap (λ o. outcome_value v o.0) h)
  keep-with_value key (dict d) v max_age u w h some_value =
      sym (ap (λ o. o.1) h) ∙ ap (λ t. with_value key t max_age u) (ap (λ o. outcome_value v o.0) h)

  after_transform :
      (key : Key) (q : Result Error (Value V)) (v : Value V) (max_age : ℕ) (u w : World V Db)
      → continue q (λ t. keep key t max_age) u ≡ (ok v, w)
      → v ≢ single none
      → w ≡ with_value key v max_age u
  after_transform key (ok t) v max_age u w h some_value =
      keep-with_value key t v max_age u w h some_value
  after_transform key (raised e) v max_age u w h some_value =
      absurd (ground (arith, ap (λ o. returned o.0) h))

module _ {V Db : Type 0} (lib : Library V) (methods : Methods V Db) where
  after_call :
      (name : String) (transform : Option String) (r : Result String (Value V)) (v : Value V)
      (max_age : ℕ) (u w : World V Db)
      → continue
          (wrapped r)
          (λ x.
            lift (transformed lib transform true name x) >>= λ t. keep (name, transform) t max_age)
          u
        ≡ (ok v, w)
      → v ≢ single none
      → w ≡ with_value (name, transform) v max_age u
  unfolding get_parameter lift ◌>>=◌
  after_call name transform (ok x) v max_age u w h some_value =
      after_transform (name, transform) (transformed lib transform true name x) v max_age u w h
        some_value
  after_call name transform (raised e) v max_age u w h some_value =
      absurd (ground (arith, ap (λ o. returned o.0) h))

  forced-with_value :
      (name : String) (max_age : ℕ) (transform : Option String) (v : Value V) (w u : World V Db)
      → get_parameter lib methods name max_age transform true w ≡ (ok v, u)
      → v ≢ single none
      → u ≡ with_value (name, transform) v max_age (record w { db = (methods.get_one name w.db).1 })
  unfolding get_parameter ◌>>=◌
  forced-with_value name max_age transform v w u h some_value =
      after_call name transform (methods.get_one name w.db).0 v max_age
        (record w { db = (methods.get_one name w.db).1 }) u h some_value

  after_test :
      (b : Bool) (x : Value V) (otherwise : Op (World V Db) Error (Value V)) (t : World V Db)
      → b ≡ true
      → or_fetch lib methods (if b then some x else none) otherwise t ≡ (ok x, t)
  unfolding get_parameter
  after_test true x otherwise t h = refl
  after_test false x otherwise t h = absurd (ground (arith, h))

  le→leb : (a b : ℕ) → a ≤ b → leb a b ≡ true
  le→leb a b h = ground arith

  found_in_time :
      (o : Option (ExpirableValue V)) (e : ExpirableValue V)
      (otherwise : Op (World V Db) Error (Value V)) (u : World V Db)
      → o ≡ some e
      → u.clock 0 ≤ e.ttl
      → (fresh o >>= λ found. or_fetch lib methods found otherwise) u
        ≡ (ok e.value, record u { clock = λ i. u.clock (suc i) })
  unfolding get_parameter ◌>>=◌
  found_in_time none e otherwise u h in_time = absurd (ground (arith, h))
  found_in_time (some f) e otherwise u h in_time =
      let p = ap (entry_or e) h in
      let late : World V Db = record u { clock = λ i. u.clock (suc i) } in
      after_test (leb (u.clock 0) f.ttl) f.value otherwise late
        (le→leb (u.clock 0) f.ttl (omega (arith, in_time, ap (λ x. x.ttl) p)))
      ∙ (λ i. (ok (p i).value, late))

  same : (key : Key) → (key == key) ≡ true
  same key = (key_eq.same_key_iff key key).1 refl

  -- A value that was fetched, and is not None, is returned by the next `get` for the same name and
  -- transform as long as the clock has not passed the age given at the fetch: the provider is not
  -- called again, and only the clock is read.
  pub get_parameter-cached :
      (name : String) (max_age later_age : ℕ) (transform : Option String) (v : Value V)
      (w u : World V Db)
      → get_parameter lib methods name max_age transform true w ≡ (ok v, u)
      → v ≢ single none
      → u.clock 0 ≤ w.clock 0 + max_age * 1000
      → get_parameter lib methods name later_age transform false u
        ≡ (ok v, record u { clock = λ i. u.clock (suc i) })
  unfolding get_parameter ◌>>=◌
  get_parameter-cached name max_age later_age transform v w u h some_value in_time =
      let key : Key = (name, transform) in
      let entry : ExpirableValue V = record { value = v; ttl = w.clock 0 + max_age * 1000 } in
      found_in_time (get key u.cache) entry (fetch lib methods name later_age transform) u
        (ap (λ x. get key x.cache) (forced-with_value name max_age transform v w u h some_value)
          ∙ get-store key key entry w.cache
          ∙ ap (λ b. if b then some entry else get key w.cache) (same key))
        in_time
