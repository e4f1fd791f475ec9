-- ===== src/Batch.antt =====
-- utilities/batch: a batch of records handed to a record handler one by one, and the report of those
-- that failed.
pub mod Message
pub mod Processor
