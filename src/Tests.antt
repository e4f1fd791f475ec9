-- ===== src/Tests.antt =====
-- The theorems at concrete inputs, and the code run on such inputs.
mod Cache
mod Idempotency
mod DynamoDb
mod Authorizer
mod Batch
mod EventHandler
mod Rules
mod FeatureFlags
mod AppSync
mod Logging
mod Logger
mod Metrics
mod Parameters
mod Ssm
mod Tracing
