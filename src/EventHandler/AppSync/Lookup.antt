-- ===== src/EventHandler/AppSync/Lookup.antt =====
-- Which resolver answers a field.
use aws_lambda_powertools_py.Common.{String, ◌≡◌, arith}
use aws_lambda_powertools_py.Common.Eq.{string_eq}
use aws_lambda_powertools_py.Common.Dict.{Dict, get}
use aws_lambda_powertools_py.Common.Dict.Merge.{HasDistinctKeys, get-merge}
use aws_lambda_powertools_py.Common.Json.{Json}
use aws_lambda_powertools_py.EventHandler.AppSync.{
  Resolvers, full_name, get_or, get_resolver, include_router,
}

module _ {App E : Type 0} where
  -- After a router is included, a field is answered by a resolver for its type, the router's before
  -- that of the including one, and if neither has one, by a resolver for any type in the same order.
  pub get_resolver-include_router :
      (type_name field_name : String) (included resolvers : Resolvers App E)
      (included_context context : Dict String Json)
      → HasDistinctKeys included
      → get_resolver type_name field_name
          (include_router included included_context resolvers context).0
        ≡ get_or
            (get_or
              (get (full_name type_name field_name) included)
              (get (full_name type_name field_name) resolvers))
            (get_or
              (get (full_name "*" field_name) included)
              (get (full_name "*" field_name) resolvers))
  unfolding get_resolver include_router
  get_resolver-include_router type_name field_name included resolvers included_context context h =
      ground (
        arith,
        get-merge (full_name type_name field_name) included resolvers h,
        get-merge (full_name "*" field_name) included resolvers h,
      )
