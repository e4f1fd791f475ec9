-- ===== src/Lib.antt =====
-- Powertools for AWS Lambda (Python): a model of the parts of aws_lambda_powertools that carry logic
-- of their own, and what is proved of them.
--
-- The program is a set of utilities around a Lambda handler. They hardly call one another: each is a
-- folder here with the name of its part, and the shared ones come first.
--
--   Common          Python's dicts, effects with exceptions, JSON values and integers. `Op S E A` is code
--                   that reads and writes a state and returns or raises; what was written before a
--                   raise stays written.
--   Cache           aws_lambda_powertools/shared/cache_dict.py: `LRUDict` as a maximum and the items,
--                   the oldest first; `__getitem__` is get_item, `__setitem__` set_item.
--   Idempotency     utilities/idempotency (below aws_lambda_powertools): Record is `DataRecord`,
--                   Layer the attributes, `configure` and the keys of `BasePersistenceLayer`,
--                   Persistence its operations over the four abstract methods, Handler is
--                   `IdempotencyHandler`, Decorator the two decorators. It uses Cache for its local
--                   cache. Its state is a `World`: the layer, the store with the clock, and what
--                   the decorated function works on. DynamoDb is persistence/dynamodb.py, over the
--                   calls of a table. Store states the laws of a store that the replay of a
--                   response relies on; Handler.Rounds is one round of `handle` over it, and
--                   Handler.Replay what every later call answers.
--   Batch           utilities/batch/base.py: Message converts a record and reads its identifier,
--                   Processor holds the attributes and methods of `BatchProcessor`.
--   FeatureFlags    utilities/feature_flags: Operators are Python's operators on JSON values,
--                   Schema the validators of schema.py, Evaluation the methods of feature_flags.py.
--   Metrics         metrics: Unit is `MetricUnit`, Manager the operations of `MetricManager` and
--                   `SingleMetric`, Decorator the class `Metrics` with `log_metrics`. The printed
--                   lines are part of the state; the floats are a parameter.
--   Parameters      utilities/parameters/base.py: Transform chooses and applies the transforms,
--                   Provider is `BaseProvider` with its cache, over the two methods of a provider,
--                   Ssm is `get_parameters_by_name` of parameters/ssm.py with `slice_dictionary`.
--   EventHandler    event_handler/api_gateway.py: Rule compiles the rules of routes, with a matcher
--                   for them that stands for Python's `re`, Resolver holds the attributes of
--                   `ApiGatewayResolver` and registers, Dispatch goes from an event to the reply, Router is `Router` with `include_router`,
--                   Response `Response`, `CORSConfig` and `ResponseBuilder`. Request is what it
--                   reads of the event (utilities/data_classes), Header
--                   shared/headers_serializer.py and Cookie shared/cookies.py. A handler works on a
--                   `Stage`: the context, the printed lines and a state of its own. AppSync is
--                   event_handler/appsync.py.
--   Authorizer      utilities/data_classes/api_gateway_authorizer_event.py: Arn parses and builds
--                   the ARN of a route, Policy is `APIGatewayAuthorizerResponse`.
--   Logging         logging: Formatter is `LambdaPowertoolsFormatter`, from a log record to the
--                   dict that is serialized. Process is what the library `logging` keeps, with
--                   `LambdaContextModel` of lambda_context.py, Logger the methods of `Logger`,
--                   Start its construction, with filters.py, Copy is utils.py, Caller `findCaller`.
--                   A logger's handlers are the formatters that they hold; a formatter that a
--                   customer gives is used for one logger only.
--   Tracing         tracing/tracer.py: Provider is what a tracer works on, Tracer its shared
--                   configuration and calls, Capture the decorators of handlers and methods. Both
--                   this part and Logging read the environment through Shared, shared/functions.py.
--   Tests           the theorems at concrete inputs, and runs of the code.
--
-- What is taken as a parameter: json, jmespath, base64 and hashlib (`Library`), the store behind
-- the persistence layer (`Backend`, with the laws of `Store` where a theorem needs them), the calls
-- of a DynamoDB table (`Table`), the methods of a provider of parameters (`Methods`), the calls of
-- the SSM client (`Client`), Pydantic model classes (`Model`), record handlers, routes and
-- decorated functions, which work on a state of their own, the serializer of replies, the Unicode
-- tables that `re` and `str` read (`Unicode`), zlib and base64 (`Encoding`), what `logging` and
-- `time` make of a log record, the provider of subsegments and the X-Ray SDK (`Provider`, `Sdk`),
-- the type of floats that metrics hold, and Python's `str` on values that are no texts. The clock
-- is a sequence of readings in milliseconds, of which each read takes the next. DynamoDB's answer
-- to a condition is the table's; the condition itself is a data type, of which the layer builds the
-- value that its text denotes.
--
-- Left out: warnings and debug messages, the tracing of generators and context managers, calls of
-- the AWS clients, the parsing and validation libraries, operators of regular expressions in the
-- rules of routes but for the dot, the names and defaults that copy_config_to_registered_loggers and
-- get_parameters_by_name write into a caller's set and dicts (callers_exclude and callers_overrides
-- say what these hold afterwards), reflection on Python objects, tracebacks, and arithmetic on
-- floats. Loops are recursions on lists and texts; the retries of the idempotency handler are a
-- recursion on the number that is left, 2 at the start as MAX_RETRIES says, so nothing runs on
-- fuel.
pub mod Common
pub mod Authorizer
pub mod Batch
pub mod Cache
pub mod EventHandler
pub mod FeatureFlags
pub mod Idempotency
pub mod Logging
pub mod Metrics
pub mod Parameters
pub mod Shared
pub mod Tracing
pub mod Tests
