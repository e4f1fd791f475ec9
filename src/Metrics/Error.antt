-- ===== src/Metrics/Error.antt =====
-- metrics/exceptions.py, and what the decorated function raises.
use aws_lambda_powertools_py.Common.{String}

pub data Error : Type 0 where
  metric_unit_error : Error
  metric_value_error : Error
  schema_validation_error : Error
  -- an exception of the decorated function, by its name
  escaped : String → Error
