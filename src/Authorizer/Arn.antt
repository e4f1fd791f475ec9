-- ===== src/Authorizer/Arn.antt =====
-- `APIGatewayRouteArn` and `parse_api_gateway_arn`.
pub mod RoundTrip
use Prim.Native.Char.{Char}
use Prim.Native.String.{[] as no_text, ◌∷◌ as prepend, ◌++◌ as join}
use aws_lambda_powertools_py.Common.{String, Bool, List, [], ◌∷◌, eqb, if◌then◌else◌}
use Prim.Native.Char.{code}
use aws_lambda_powertools_py.Common.Effect.{Result, ok, raised}
use aws_lambda_powertools_py.Common.Split.{split}
use aws_lambda_powertools_py.Common.Text.{join_with}

-- the exceptions of the component
pub data Error : Type 0 where
  index_error : Error
  value_error : Error

-- `partition` is "aws" for each of them.
pub record RouteArn : Type 0 where
  pub region : String
  pub aws_account_id : String
  pub api_id : String
  pub stage : String
  pub http_method : String
  pub resource : String

abbrev pub colon : Char
colon = ":"

abbrev pub slash : Char
slash = "/"

-- s.lstrip("/")
unfoldable pub lstrip_slashes : String → String
lstrip_slashes no_text = no_text
lstrip_slashes (prepend c s) =
    let rest = lstrip_slashes s in if eqb (code c) (code slash) then rest else prepend c s

-- `__init__`
unfoldable pub route_arn : String → String → String → String → String → String → RouteArn
unfolding lstrip_slashes
route_arn region aws_account_id api_id stage http_method resource = record {
  region = region;
  aws_account_id = aws_account_id;
  api_id = api_id;
  stage = stage;
  http_method = http_method;
  resource = lstrip_slashes resource;
}

abbrev pub with_colon : String → String → String
with_colon a rest = join a (join ":" rest)

abbrev pub with_slash : String → String → String
with_slash a rest = join a (join "/" rest)

-- `arn`
unfoldable pub arn : RouteArn → String
arn r = with_colon "arn" (
    with_colon "aws" (
      with_colon "execute-api" (
        with_colon r.region (
          with_colon r.aws_account_id
            (with_slash r.api_id (with_slash r.stage (with_slash r.http_method r.resource)))))))

-- the texts of the last part: arn_parts[5].split("/")
from_api : String → String → List String → Result Error RouteArn
unfolding route_arn
from_api region aws_account_id (api_id ∷ (stage ∷ (http_method ∷ rest))) =
    ok (route_arn region aws_account_id api_id stage http_method (join_with "/" rest))
from_api region aws_account_id parts = raised index_error

-- the texts of the ARN: arn.split(":")
from_parts : List String → Result Error RouteArn
unfolding from_api split
from_parts (a ∷ (b ∷ (c ∷ (region ∷ (aws_account_id ∷ (last ∷ more)))))) =
    from_api region aws_account_id (split slash last)
from_parts parts = raised index_error

-- `parse_api_gateway_arn`
unfoldable pub parse_api_gateway_arn : String → Result Error RouteArn
unfolding from_parts split
parse_api_gateway_arn text = from_parts (split colon text)
