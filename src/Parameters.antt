-- ===== src/Parameters.antt =====
-- utilities/parameters/base.py: transforms, and the provider with its cache.
pub mod Transform
pub mod Provider
pub mod Ssm
