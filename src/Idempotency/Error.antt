-- ===== src/Idempotency/Error.antt =====
-- utilities/idempotency/exceptions.py. `other` is any exception of code outside the utility, by its
-- type's name: of the decorated function, of a store's client, of `json` or `jmespath`.
use aws_lambda_powertools_py.Common.{String}

pub data Error : Type 0 where
  key_error : Error
  already_in_progress : String → Error
  inconsistent_state : Error
  item_already_exists : Error
  item_not_found : Error
  validation_error : Error
  persistence_layer_error : Error
  invalid_status : String → Error
  other : String → Error
