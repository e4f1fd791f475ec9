-- ===== src/Idempotency.antt =====
-- utilities/idempotency: records of executions in a persistence store, and the handler that runs a
-- function at most once for each idempotency key.
pub mod Error
pub mod Record
pub mod Layer
pub mod Persistence
pub mod Store
pub mod Handler
pub mod Decorator
pub mod DynamoDb
