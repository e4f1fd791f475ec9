-- ===== src/FeatureFlags.antt =====
-- utilities/feature_flags: the schema of a configuration, its validation, and the evaluation of the
-- rules of a feature in a context.
pub mod Operators
pub mod Schema
pub mod Evaluation
