-- ===== src/Tests/AppSync.antt =====
-- Resolvers of two names, and a router with one of them.
use aws_lambda_powertools_py.Common.{ℕ, String, [], ◌∷◌, ◌≡◌, refl}
use aws_lambda_powertools_py.Common.Eq.{string_eq}
use aws_lambda_powertools_py.Common.Dict.{get, store, merge}
use aws_lambda_powertools_py.Common.Effect.{Result, ok, ◌>>=◌}
use aws_lambda_powertools_py.Common.Json.{str, Fields, end}
use aws_lambda_powertools_py.EventHandler.AppSync.{
  AppSyncEvent, Field, Resolvers, get_resolver, resolve, include_router,
}

abbrev answering : String → Field ℕ String
answering s = record {
  func = λ event stage. (ok (str s), record stage { context = ("a", str s) ∷ [] });
}

abbrev own : Resolvers ℕ String
own = ("*.name", answering "any") ∷ []

abbrev included : Resolvers ℕ String
included = ("User.name", answering "user") ∷ []

abbrev data_model : Fields → Result String AppSyncEvent
data_model fields = ok (record { type_name = "User"; field_name = "name"; arguments = fields })

-- the resolver for the type answers before that for any, and the context is cleared
answered :
    resolve "ValueError" data_model
      (include_router included [] own []).0
      end
      (record { context = []; app = 0 })
    ≡ (ok (str "user"), record { context = []; app = 0 })
unfolding resolve get_resolver include_router get store merge ◌>>=◌
answered = refl
