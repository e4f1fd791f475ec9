-- ===== src/Tests/Cache.antt =====
-- `LruDict` on small caches.
use aws_lambda_powertools_py.Common.{ℕ, ◌≡◌, ◌≢◌, refl, true, some, String, [], ◌∷◌, arith, eq_iff}
use aws_lambda_powertools_py.Common.Dict
use aws_lambda_powertools_py.Common.Eq.{string_eq}
use mathlib.Core.Bool.{false≢true}
use aws_lambda_powertools_py.Cache
use aws_lambda_powertools_py.Cache.{LruDict}
use aws_lambda_powertools_py.Cache.Bound.{IsBounded, lru-IsBounded}
use aws_lambda_powertools_py.Cache.Recency.{set_items, get-recent, get-set_item}

abbrev two : LruDict ℕ
two = record { max_items = 2; items = ("a", 1) ∷ ("b", 2) ∷ [] }

lru-IsBounded_example :
    IsBounded (Cache.init {V = ℕ} 2)
    × IsBounded (Cache.set_item "c" 3 two)
    × IsBounded (Cache.get (λ _. true) "c" two).1
    × IsBounded (Cache.get_item "c" two).1
    × IsBounded (Cache.delete "c" two)
lru-IsBounded_example = lru-IsBounded 2 (λ _. true) "c" 3 two (omega arith)

get-set_item_example : Dict.get "c" (Cache.set_item "c" 3 two).items ≡ some 3
get-set_item_example = get-set_item "c" 3 two (omega arith)

c_ne_a : ◌≢◌ {A = String} "c" "a"
c_ne_a p = false≢true ((eq_iff "c" "a").1 p)

get-recent_example :
    Dict.get "a" (set_items (("c", 3) ∷ []) (Cache.get (λ _. true) "a" two).1).items ≡ some 1
unfolding Dict.get
get-recent_example =
    get-recent (λ _. true) "a" 1 (("c", 3) ∷ []) two refl refl (c_ne_a, tt) (omega arith)

set_item_test : (Cache.set_item "c" 3 two).items ≡ ("b", 2) ∷ ("c", 3) ∷ []
unfolding Cache.set_item Cache.evict Dict.get Dict.store Dict.contains Dict.delete
set_item_test = refl
