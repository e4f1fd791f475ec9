-- ===== src/Parameters/Provider.antt =====
-- parameters/base.py: `BaseProvider`, over the two methods of a provider. A time is a number of
-- milliseconds, and each read of the clock takes the next of the readings to come; ages are natural
-- numbers of seconds.
pub mod Cached
use aws_lambda_powertools_py.Common.{
  ℕ, suc, ◌+◌, ◌*◌, String, Bool, true, false, ◌&&◌, not, Option, none, some, [], ◌≡◌, ◌↔◌, refl,
  ap, leb, eqb, if◌then◌else◌, arith,
}
use aws_lambda_powertools_py.Common.Eq.{Hashable, ◌==◌, string_eq}
use aws_lambda_powertools_py.Common.Keys.{option_eq, pair_eq}
use aws_lambda_powertools_py.Common.Dict.{Dict, get, store, merge}
use aws_lambda_powertools_py.Common.Effect.{
  Op, Result, ok, raised, pure, raise, lift, gets, attempt, modify, ◌>>=◌, ◌>>◌,
}
use aws_lambda_powertools_py.Parameters.Transform.{
  Error, get_parameter_error, Value, single, dict, Library, transform_value,
}

-- the key of the cache: the name or path, and the transform
abbrev pub Key : Type 0
Key = String × Option String

instance abbrev pub key_eq : Hashable Key
key_eq = pair_eq

-- ExpirableValue
pub record ExpirableValue (V : Type 0) : Type 0 where
  pub value : Value V
  pub ttl : ℕ

-- `_get` and `_get_multiple` of a provider with their options, and the text of their exceptions.
pub record Methods (V Db : Type 0) : Type 0 where
  pub get_one : String → Db → Result String (Value V) × Db
  pub get_all : String → Db → Result String (Dict String (Option V)) × Db

pub record World (V Db : Type 0) : Type 0 where
  pub cache : Dict Key (ExpirableValue V)
  pub clock : ℕ → ℕ
  pub db : Db

abbrev pub is_set : Option String → Bool
is_set none = false
is_set (some s) = not (s == "")

wrapped : {A : Type 0} → Result String A → Result Error A
wrapped (ok a) = ok a
wrapped (raised e) = raised (get_parameter_error e)

module _ {V Db : Type 0} where
  -- datetime.now()
  unfoldable pub now : Op (World V Db) Error ℕ
  now w = (ok (w.clock 0), record w { clock = λ i. w.clock (suc i) })

  fresh : Option (ExpirableValue V) → Op (World V Db) Error (Option (Value V))
  fresh none = pure none
  fresh (some e) = do ms ← now; pure (if leb ms e.ttl then some e.value else none)

  -- `has_not_expired_in_cache`, with the value if it has not: the clock is read if the key is there.
  unfoldable pub has_not_expired_in_cache : Key → Op (World V Db) Error (Option (Value V))
  unfolding fresh now
  has_not_expired_in_cache key = do w ← gets (λ w. w); fresh (get key w.cache)

  put : Key → Value V → ℕ → Op (World V Db) Error (Unit {0})
  unfolding now
  put key v max_age = do
    ms ← now
    modify (λ w. record w {
      cache = store key (record { value = v; ttl = ms + max_age * 1000 }) w.cache;
    })

  -- `add_to_cache`
  unfoldable pub add_to_cache : Key → Value V → ℕ → Op (World V Db) Error (Unit {0})
  unfolding put
  add_to_cache key v max_age = if eqb max_age 0 then pure tt else put key v max_age

  -- `clear_cache`
  unfoldable pub clear_cache : World V Db → World V Db
  clear_cache w = record w { cache = [] }

  -- None is not cached.
  keep : Key → Value V → ℕ → Op (World V Db) Error (Value V)
  unfolding put
  keep key (single none) max_age = pure (single none)
  keep key v max_age = do put key v max_age; pure v

  -- a call of a method of the provider under its `try`
  call : {A : Type 0} → (Db → Result String A × Db) → Op (World V Db) Error A
  unfolding wrapped
  call method w = let (r, d) = method w.db in (wrapped r, record w { db = d })

-- d.update(t) for a dict of transformed items
abbrev updated : {V : Type 0} → Dict String (Option V) → Value V → Value V
updated d (dict t) = dict (merge t d)
updated d (single v) = single v

module _ {V : Type 0} (lib : Library V) where
  unfoldable pub transformed : Option String → Bool → String → Value V → Result Error (Value V)
  transformed transform raise_on_transform_error name v =
      if is_set transform
      then transform_value lib transform raise_on_transform_error name v
      else ok v

module _ {V Db : Type 0} (lib : Library V) (methods : Methods V Db) where
  fetch : String → ℕ → Option String → Op (World V Db) Error (Value V)
  unfolding call keep transformed
  fetch name max_age transform = do
    v ← call (methods.get_one name)
    t ← lift (transformed lib transform true name v)
    keep (name, transform) t max_age

  or_fetch : Option (Value V) → Op (World V Db) Error (Value V) → Op (World V Db) Error (Value V)
  or_fetch (some v) otherwise = pure v
  or_fetch none otherwise = otherwise

  -- `get`
  unfoldable pub get_parameter : String → ℕ → Option String → Bool → Op (World V Db) Error (Value V)
  unfolding fetch or_fetch has_not_expired_in_cache ◌>>=◌
  get_parameter name max_age transform force_fetch = do
    found ← (if force_fetch then pure none else has_not_expired_in_cache (name, transform))
    or_fetch found (fetch name max_age transform)

  fetch_all : String → ℕ → Option String → Bool → Op (World V Db) Error (Value V)
  unfolding call put transformed
  fetch_all path max_age transform raise_on_transform_error = do
    d ← call (methods.get_all path)
    t ← lift (transformed lib transform raise_on_transform_error "" (dict d))
    let v : Value V = updated d t
    put (path, transform) v max_age
    pure v

  -- `get_multiple`
  unfoldable pub get_multiple :
      String → ℕ → Option String → Bool → Bool → Op (World V Db) Error (Value V)
  unfolding fetch_all or_fetch has_not_expired_in_cache ◌>>=◌
  get_multiple path max_age transform raise_on_transform_error force_fetch = do
    found ← (if force_fetch then pure none else has_not_expired_in_cache (path, transform))
    or_fetch found (fetch_all path max_age transform raise_on_transform_error)
