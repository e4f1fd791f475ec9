-- ===== src/Authorizer/Arn/RoundTrip.antt =====
-- Parsing the ARN that is built for a route.
use Prim.Native.String.{◌++◌ as join}
use aws_lambda_powertools_py.Common.{String, All, true, [], ◌∷◌, ◌≡◌, refl, ap, ◌∙◌}
use aws_lambda_powertools_py.Common.Effect.{ok}
use aws_lambda_powertools_py.Common.Split.{
  split, lacks, split-join, split-lacks, join_with-split, lacks-join,
}
use aws_lambda_powertools_py.Authorizer.Arn.{
  RouteArn, colon, slash, arn, lstrip_slashes, with_slash, from_parts, from_api,
  parse_api_gateway_arn,
}

-- the last part of the ARN
abbrev api_part : RouteArn → String
api_part r = with_slash r.api_id (with_slash r.stage (with_slash r.http_method r.resource))

split-api_part :
    (r : RouteArn)
    → lacks slash r.api_id ≡ true
    → lacks slash r.stage ≡ true
    → lacks slash r.http_method ≡ true
    → split slash (api_part r) ≡ r.api_id ∷ r.stage ∷ r.http_method ∷ split slash r.resource
split-api_part r a s m =
    split-join slash r.api_id _ a
    ∙ ap (λ xs. r.api_id ∷ xs)
        (split-join slash r.stage _ s
          ∙ ap (λ xs. r.stage ∷ xs) (split-join slash r.http_method r.resource m))

split-arn :
    (r : RouteArn)
    → lacks colon r.region ≡ true
    → lacks colon r.aws_account_id ≡ true
    → lacks colon (api_part r) ≡ true
    → split colon (arn r)
      ≡ "arn" ∷ "aws" ∷ "execute-api" ∷ r.region ∷ r.aws_account_id ∷ api_part r ∷ []
unfolding arn lacks
split-arn r g a p =
    split-join colon "arn" _ refl
    ∙ ap (λ xs. "arn" ∷ xs)
        (split-join colon "aws" _ refl
          ∙ ap (λ xs. "aws" ∷ xs)
              (split-join colon "execute-api" _ refl
                ∙ ap (λ xs. "execute-api" ∷ xs)
                    (split-join colon r.region _ g
                      ∙ ap (λ xs. r.region ∷ xs)
                          (split-join colon r.aws_account_id _ a
                            ∙ ap (λ xs. r.aws_account_id ∷ xs)
                                (split-lacks colon (api_part r) p)))))

-- a route whose parts can be told apart in its ARN
abbrev pub IsPlain : RouteArn → Type 0
IsPlain r =
    All (λ t. lacks colon t ≡ true)
      (r.region ∷ r.aws_account_id ∷ r.api_id ∷ r.stage ∷ r.http_method ∷ r.resource ∷ [])
    × All (λ t. lacks slash t ≡ true) (r.api_id ∷ r.stage ∷ r.http_method ∷ [])
    × (lstrip_slashes r.resource ≡ r.resource)

with_slash-lacks :
    (a b : String)
    → lacks colon a ≡ true
    → lacks colon b ≡ true
    → lacks colon (with_slash a b) ≡ true
unfolding lacks
with_slash-lacks a b h k = lacks-join colon a (join "/" b) h (lacks-join colon "/" b refl k)

api_part-lacks :
    (r : RouteArn)
    → All (λ t. lacks colon t ≡ true) (r.api_id ∷ r.stage ∷ r.http_method ∷ r.resource ∷ [])
    → lacks colon (api_part r) ≡ true
api_part-lacks r (i, (t, (m, (e, _)))) =
    with_slash-lacks r.api_id (with_slash r.stage (with_slash r.http_method r.resource)) i (
      with_slash-lacks r.stage (with_slash r.http_method r.resource) t
        (with_slash-lacks r.http_method r.resource m e))

-- The ARN of a route is parsed as this route, if no part has a colon, the api, stage and method have
-- no slash, and the resource does not begin with one.
pub parse_api_gateway_arn-arn : (r : RouteArn) → IsPlain r → parse_api_gateway_arn (arn r) ≡ ok r
unfolding parse_api_gateway_arn
parse_api_gateway_arn-arn r ((g, (a, others)), (i, (t, (m, _))), plain) =
    ap from_parts (split-arn r g a (api_part-lacks r others))
    ∙ ap (from_api r.region r.aws_account_id) (split-api_part r i t m)
    ∙ ap (λ x. ok (record r { resource = x }))
        (ap lstrip_slashes (join_with-split slash r.resource) ∙ plain)
