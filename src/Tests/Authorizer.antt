-- ===== src/Tests/Authorizer.antt =====
-- An authorizer for the API of a route's ARN.
use aws_lambda_powertools_py.Common.{none, some, [], ◌∷◌, ◌++◌, map, ◌≡◌, refl}
use mathlib.Core.List.{Perm}
use aws_lambda_powertools_py.Common.Effect.{Result, ok, raised}
use aws_lambda_powertools_py.Common.Json.{obj, end}
use aws_lambda_powertools_py.Common.Split.{lacks}
use aws_lambda_powertools_py.Authorizer.Arn.{
  Error, value_error, RouteArn, arn, lstrip_slashes, parse_api_gateway_arn,
}
use aws_lambda_powertools_py.Authorizer.Arn.RoundTrip.{parse_api_gateway_arn-arn}
use aws_lambda_powertools_py.Authorizer.Policy.{
  matches_path, allow, deny, AuthorizerResponse, new_response, add_route, all_routes, Policy,
  asdict,
}
use aws_lambda_powertools_py.Authorizer.Policy.Statements.{grants, wanted, asdict-wanted}

abbrev request_arn : RouteArn
request_arn = record {
  region = "us-east-1";
  aws_account_id = "123";
  api_id = "abc";
  stage = "test";
  http_method = "GET";
  resource = "users/1";
}

parse_api_gateway_arn-arn_example : parse_api_gateway_arn (arn request_arn) ≡ ok request_arn
unfolding lacks lstrip_slashes
parse_api_gateway_arn-arn_example =
    parse_api_gateway_arn-arn request_arn
      ((refl, (refl, (refl, (refl, (refl, (refl, tt)))))), (refl, (refl, (refl, tt))), refl)

-- what follows a colon in the resource is lost, and the partition is always "aws"
abbrev cut_arn : RouteArn
cut_arn = record request_arn { resource = "a" }

cut_at_colon :
    parse_api_gateway_arn "arn:aws-cn:execute-api:us-east-1:123:abc/test/GET/a:b" ≡ ok cut_arn
unfolding parse_api_gateway_arn
cut_at_colon = refl

abbrev response_or : AuthorizerResponse → Result Error AuthorizerResponse → AuthorizerResponse
response_or r (ok s) = s
response_or r (raised e) = r

abbrev start : AuthorizerResponse
start = new_response "user" "us-east-1" "123" "abc" "test" none none

abbrev with_get : AuthorizerResponse
with_get = response_or start (add_route allow "GET" "/users" (some (obj end ∷ [])) start)

abbrev with_deny : AuthorizerResponse
with_deny = response_or with_get (all_routes deny "*" with_get)

asdict-wanted_example :
    (p : Policy) × (asdict with_deny ≡ ok p)
    × Perm
        (grants p.statements)
        (map (wanted allow) with_deny.allow_routes ++ map (wanted deny) with_deny.deny_routes)
unfolding add_route all_routes new_response matches_path
asdict-wanted_example = asdict-wanted with_deny refl

-- the name ALL of the member for "*" is taken for a method
named_all :
    (response_or start (all_routes deny "ALL" start)).deny_routes
    ≡ (record {
      resource_arn = "arn:aws:execute-api:us-east-1:123:abc/test/ALL/*";
      conditions = none;
    })
      ∷ []
unfolding add_route all_routes new_response matches_path
named_all = refl

no_statements : asdict start ≡ raised value_error
unfolding asdict new_response
no_statements = refl
