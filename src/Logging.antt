-- ===== src/Logging.antt =====
-- logging/: the formatter of the log records, with the keys that are kept for all of them, and the
-- logger over the loggers of the standard library.
pub mod Formatter
pub mod Process
pub mod Logger
pub mod Start
pub mod Copy
pub mod Caller
