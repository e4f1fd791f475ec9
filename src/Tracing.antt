-- ===== src/Tracing.antt =====
-- tracing/: what the tracer records of handlers and methods with a provider of subsegments.
pub mod Provider
pub mod Tracer
pub mod Capture
