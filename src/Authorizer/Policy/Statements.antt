-- ===== src/Authorizer/Policy/Statements.antt =====
-- `asdict`: what the statements of the policy grant, as a collection without order.
use mathlib.Core.List.{append-nil, append_assoc, map-append, Perm, perm_middle}
use mathlib.Core.List.Perm
use mathlib.Core.Path.{subst}
use aws_lambda_powertools_py.Common.{
  String, false, ◌&&◌, Option, none, List, [], ◌∷◌, ◌++◌, map, is_empty, ◌≡◌, refl, sym, ap, ◌∙◌,
  if◌then◌else◌, Bool-cases, inl, inr,
}
use aws_lambda_powertools_py.Common.Effect.{ok}
use aws_lambda_powertools_py.Common.Json.{Json}
use aws_lambda_powertools_py.Authorizer.Policy.{
  Effect, allow, deny, Route, AuthorizerResponse, Statement, Policy, is_given, plain_statement,
  statements_from, statement_for_effect, asdict,
}

-- an effect on a resource under conditions
abbrev pub Grant : Type 0
Grant = Effect × (String × Option (List Json))

abbrev grants_of : Statement → List Grant
grants_of s = map (λ a. (s.effect, (a, s.condition))) s.resource

-- all that the statements grant
unfoldable pub grants : List Statement → List Grant
grants [] = []
grants (s ∷ ss) = grants_of s ++ grants ss

abbrev if_given : Option (List Json) → Option (List Json)
if_given conditions = if is_given conditions then conditions else none

-- what a route that was added asks for: no conditions are none
abbrev pub wanted : Effect → Route → Grant
wanted effect route = (effect, (route.resource_arn, if_given route.conditions))

abbrev plain : Effect → String → Grant
plain effect a = (effect, (a, none))

perm_of_eq : {xs ys : List Grant} → xs ≡ ys → Perm xs ys
perm_of_eq {xs} e = subst (Perm xs) e (Perm.refl xs)

grants-plain_statement :
    (effect : Effect) (arns : List String)
    → grants (plain_statement effect arns) ≡ map (plain effect) arns
unfolding grants
grants-plain_statement effect [] = refl
grants-plain_statement effect (a ∷ arns) = append-nil _

grants-append : (xs ys : List Statement) → grants (xs ++ ys) ≡ grants xs ++ grants ys
unfolding grants
grants-append [] ys = refl
grants-append (x ∷ xs) ys =
    ap (λ g. grants_of x ++ g) (grants-append xs ys)
    ∙ sym (append_assoc (grants_of x) (grants xs) (grants ys))

-- the ARN of the first route, after those before it
moved :
    (effect : Effect) (route : Route) (arns : List String) (routes : List Route)
    → map (plain effect) (arns ++ route.resource_arn ∷ []) ++ map (wanted effect) routes
      ≡ map (plain effect) arns ++ plain effect route.resource_arn ∷ map (wanted effect) routes
moved effect route arns routes =
    ap (λ xs. xs ++ map (wanted effect) routes)
      (map-append (plain effect) arns (route.resource_arn ∷ []))
    ∙ append_assoc (map (plain effect) arns) (plain effect route.resource_arn ∷ [])
        (map (wanted effect) routes)

statements_from-wanted :
    (effect : Effect) (routes : List Route) (arns : List String)
    → Perm
        (grants (statements_from effect routes arns))
        (map (plain effect) arns ++ map (wanted effect) routes)
unfolding statement_for_effect grants
statements_from-wanted effect [] arns =
    perm_of_eq (grants-plain_statement effect arns ∙ sym (append-nil _))
statements_from-wanted effect (route ∷ routes) arns =
    elim (Bool-cases (is_given route.conditions)) [
      | inl given ↦ rw given (
          Perm.trans
            (Perm.cons (effect, (route.resource_arn, route.conditions))
              (statements_from-wanted effect routes arns))
            (Perm.symm (perm_middle (map (plain effect) arns) (map (wanted effect) routes))))
      | inr not_given ↦ rw not_given (
          Perm.trans (statements_from-wanted effect routes (arns ++ route.resource_arn ∷ []))
            (perm_of_eq (moved effect route arns routes)))
    ]

-- Where a route was added, the policy can be written, and its statements grant, as a collection
-- without order, exactly what was asked for: for each allowed and each denied route its ARN, under its
-- conditions if it has any.
pub asdict-wanted :
    (r : AuthorizerResponse)
    → (is_empty r.allow_routes && is_empty r.deny_routes) ≡ false
    → (p : Policy) × (asdict r ≡ ok p)
      × Perm
          (grants p.statements)
          (map (wanted allow) r.allow_routes ++ map (wanted deny) r.deny_routes)
unfolding asdict
asdict-wanted r some_route =
    let allowed = statement_for_effect allow r.allow_routes in
    let denied = statement_for_effect deny r.deny_routes in
    rw some_route (
      _,
      refl,
      Perm.trans (perm_of_eq (grants-append allowed denied)) (
          Perm.append (statements_from-wanted allow r.allow_routes [])
            (statements_from-wanted deny r.deny_routes [])),
    )
