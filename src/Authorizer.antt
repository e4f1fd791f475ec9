-- ===== src/Authorizer.antt =====
-- utilities/data_classes/api_gateway_authorizer_event.py: the ARN of a route, and the policy with which
-- an authorizer answers.
pub mod Arn
pub mod Policy
