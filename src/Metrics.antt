-- ===== src/Metrics.antt =====
-- metrics: the state of a manager and of the process, units, the operations of `MetricManager`, and the
-- decorator.
pub mod Error
pub mod Unit
pub mod Manager
pub mod Decorator
