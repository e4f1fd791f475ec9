-- ===== src/Authorizer/Policy.antt =====
-- `APIGatewayAuthorizerResponse`: the routes that are allowed and denied, and the policy for them.
pub mod Statements
use Prim.Native.Char.{Char, code}
use Prim.Native.String.{[] as no_text, ◌∷◌ as prepend}
use aws_lambda_powertools_py.Common.{
  String, Bool, true, false, ◌&&◌, ◌||◌, not, Option, none, some, List, [], ◌∷◌, ◌++◌, any,
  is_empty, leb, eqb, if◌then◌else◌,
}
use aws_lambda_powertools_py.Common.Eq.{◌==◌, string_eq}
use aws_lambda_powertools_py.Common.Effect.{Result, ok, raised}
use aws_lambda_powertools_py.Common.Json.{Json, Fields, field, end}
use aws_lambda_powertools_py.Authorizer.Arn.{
  Error, value_error, RouteArn, route_arn, arn, parse_api_gateway_arn,
}

pub data Effect : Type 0 where
  allow : Effect
  deny : Effect

-- an item of `_allow_routes` or `_deny_routes`
pub record Route : Type 0 where
  pub resource_arn : String
  pub conditions : Option (List Json)

-- The attributes of the response.
pub record AuthorizerResponse : Type 0 where
  pub principal_id : String
  pub region_name : String
  pub account : String
  pub api : String
  pub api_stage : String
  pub context : Option Fields
  pub usage_identifier_key : Option String
  pub allow_routes : List Route
  pub deny_routes : List Route

-- A statement with "Action" execute-api:Invoke: "Effect", "Resource" and "Condition".
pub record Statement : Type 0 where
  pub effect : Effect
  pub resource : List String
  pub condition : Option (List Json)

-- What `asdict` returns, of "Version" 2012-10-17. The entries that may be missing are options.
pub record Policy : Type 0 where
  pub principal : String
  pub statements : List Statement
  pub usage_key : Option String
  pub policy_context : Option Fields

-- the names of the members of HttpVerb
abbrev pub http_verbs : List String
http_verbs = "GET" ∷ "POST" ∷ "PUT" ∷ "PATCH" ∷ "HEAD" ∷ "DELETE" ∷ "OPTIONS" ∷ "ALL" ∷ []

abbrev between : Char → Char → Char → Bool
between c first last = leb (code first) (code c) && leb (code c) (code last)

abbrev is_char : Char → Char → Bool
is_char c d = eqb (code c) (code d)

-- [/.a-zA-Z0-9-_\*]
is_resource_char : Char → Bool
is_resource_char c =
    is_char c "/"
    || (is_char c "."
        || (between c "a" "z"
            || (between c "A" "Z"
                || (between c "0" "9" || (is_char c "-" || (is_char c "_" || is_char c "*"))))))

-- the rest of a text after a character of the pattern: more of them, or the end, perhaps behind a line
-- feed
rest_matches : String → Bool
unfolding is_resource_char
rest_matches no_text = true
rest_matches (prepend c s) =
    let rest = rest_matches s in if is_resource_char c then rest else is_char c "\n" && s == ""

-- `path_regex`
unfoldable pub matches_path : String → Bool
unfolding rest_matches
matches_path no_text = false
matches_path (prepend c s) = is_resource_char c && rest_matches s

-- `__init__`
unfoldable pub new_response :
    String → String → String → String → String → Option Fields → Option String → AuthorizerResponse
new_response principal_id region_name account api api_stage context usage_identifier_key = record {
  principal_id = principal_id;
  region_name = region_name;
  account = account;
  api = api;
  api_stage = api_stage;
  context = context;
  usage_identifier_key = usage_identifier_key;
  allow_routes = [];
  deny_routes = [];
}

-- `from_route_arn`
unfoldable pub from_route_arn :
    String → String → Option Fields → Option String → Result Error AuthorizerResponse
unfolding new_response
from_route_arn text principal_id context usage_identifier_key = elim (parse_api_gateway_arn text) [
  | ok r ↦ ok (
      new_response principal_id r.region r.aws_account_id r.api_id r.stage context
        usage_identifier_key)
  | raised e ↦ raised e
]

abbrev append_route : Effect → Route → AuthorizerResponse → AuthorizerResponse
append_route allow route r = record r { allow_routes = r.allow_routes ++ route ∷ [] }
append_route deny route r = record r { deny_routes = r.deny_routes ++ route ∷ [] }

-- `_add_route`
unfoldable pub add_route :
    Effect
    → String
    → String
    → Option (List Json)
    → AuthorizerResponse
    → Result Error AuthorizerResponse
unfolding route_arn arn
add_route effect http_method resource conditions r =
    let route : Route = record {
      resource_arn = arn (route_arn r.region_name r.account r.api r.api_stage http_method resource);
      conditions = conditions;
    } in
    if not (http_method == "*") && not (any (λ v. v == http_method) http_verbs)
    then raised value_error
    else if matches_path resource
    then ok (append_route effect route r)
    else raised value_error

-- `allow_all_routes` and `deny_all_routes`
unfoldable pub all_routes : Effect → String → AuthorizerResponse → Result Error AuthorizerResponse
unfolding add_route
all_routes effect http_method r = add_route effect http_method "*" none r

abbrev pub is_given : Option (List Json) → Bool
is_given none = false
is_given (some conditions) = not (is_empty conditions)

-- the routes so far without conditions, as one statement
abbrev pub plain_statement : Effect → List String → List Statement
plain_statement effect [] = []
plain_statement effect (a ∷ arns) =
    (record { effect = effect; resource = a ∷ arns; condition = none }) ∷ []

-- the loop of `_get_statement_for_effect`, with "Resource" of the statement that it fills
statements_from : Effect → List Route → List String → List Statement
statements_from effect [] arns = plain_statement effect arns
statements_from effect (route ∷ routes) arns =
    let plain = statements_from effect routes (arns ++ route.resource_arn ∷ []) in
    let conditional =
      (record { effect = effect; resource = route.resource_arn ∷ []; condition = route.conditions })
      ∷ statements_from effect routes arns in
    if is_given route.conditions then conditional else plain

-- `_get_statement_for_effect`
unfoldable pub statement_for_effect : Effect → List Route → List Statement
unfolding statements_from
statement_for_effect effect routes = statements_from effect routes []

abbrev text_or_none : Option String → Option String
text_or_none none = none
text_or_none (some s) = if s == "" then none else some s

abbrev fields_or_none : Option Fields → Option Fields
fields_or_none none = none
fields_or_none (some end) = none
fields_or_none (some fs) = some fs

-- `asdict`
unfoldable pub asdict : AuthorizerResponse → Result Error Policy
unfolding statement_for_effect
asdict r =
    if is_empty r.allow_routes && is_empty r.deny_routes
    then raised value_error
    else ok (record {
      principal = r.principal_id;
      statements =
          statement_for_effect allow r.allow_routes ++ statement_for_effect deny r.deny_routes;
      usage_key = text_or_none r.usage_identifier_key;
      policy_context = fields_or_none r.context;
    })
