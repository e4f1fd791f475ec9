-- ===== src/Tests/Idempotency.antt =====
-- The idempotency handler over a store in memory.
use aws_lambda_powertools_py.Common.{
  ℕ, ◌≡◌, ◌⊎◌, ◌≢◌, refl, ap, sym, true, false, some, none, String, Option, [], ◌∷◌, ◌+◌, inr,
  arith,
}
use aws_lambda_powertools_py.Common.Dict
use aws_lambda_powertools_py.Common.Dict.{Dict}
use aws_lambda_powertools_py.Common.Eq.{string_eq}
use aws_lambda_powertools_py.Common.Effect.{Result, ok, raised, ◌>>=◌}
use aws_lambda_powertools_py.Common.Json.{Json, str}
use aws_lambda_powertools_py.Idempotency.Error.{
  Error, inconsistent_state, persistence_layer_error, item_already_exists, item_not_found,
}
use aws_lambda_powertools_py.Idempotency.Record.{
  DataRecord, Env, status, is_expired, is_known, now, response_json_as_dict,
}
use aws_lambda_powertools_py.Idempotency.Layer.{
  Library, IdempotencyConfig, initial, get_hashed_idempotency_key, get_hashed_payload,
  validate_payload, generate_hash, is_missing_idempotency_key,
}
use aws_lambda_powertools_py.Idempotency.Persistence.{
  Backend, World, save_success, save_inprogress, delete_record, get_record, on_env, on_cache,
  get_expiry_timestamp, save_to_cache, delete_from_cache, retrieve_from_cache,
}
use aws_lambda_powertools_py.Idempotency.Handler.{
  Function, handle, process_idempotency, get_function_response, get_idempotency_record,
  handle_for_status, get_remaining_time_in_millis,
}
use aws_lambda_powertools_py.Idempotency.Handler.AtMostOnce.{handle_at_most_once}
use aws_lambda_powertools_py.Idempotency.Handler.Replay.{
  Later, first_one, called, meanwhile, handle_replays,
}
use aws_lambda_powertools_py.Idempotency.Decorator.{Site, handled, idempotent}
use aws_lambda_powertools_py.Idempotency.Decorator.Replay.{Invoked, idempotent_replays}
use aws_lambda_powertools_py.Idempotency.Layer.{Layer, powertools_functions, configure}
use aws_lambda_powertools_py.Idempotency.Store.{Store}
use aws_lambda_powertools_py.Common.Run.{returned, threw}
use aws_lambda_powertools_py.Common.Dict.{get-store}

abbrev text_of : Json → Option String
text_of (str s) = some s
text_of _ = some "?"

abbrev library : Library
library = record {
  dumps = text_of;
  loads = λ s. some (str s);
  compiles = λ _. true;
  search = λ _ _ v. some v;
  has_hash = λ _. true;
  hexdigest = λ _ s. s;
}

abbrev config : IdempotencyConfig
config = record {
  event_key_jmespath = "";
  payload_validation_jmespath = "";
  jmespath_options = none;
  raise_on_no_idempotency_key = false;
  expires_after_seconds = 3600;
  use_local_cache = false;
  local_cache_max_items = 256;
  hash_function = "md5";
  lambda_context = some (λ _. 1000);
}

abbrev Records : Type 0
Records = Dict String DataRecord

abbrev fetched : Option DataRecord → Env Records → Result Error DataRecord × Env Records
fetched none e = (raised item_not_found, e)
fetched (some r) e = (ok r, e)

abbrev added : DataRecord → Option DataRecord → Env Records → Result Error (Unit {0}) × Env Records
added r none e = (ok tt, record e { db = Dict.store r.idempotency_key r e.db })
added r (some _) e = (raised item_already_exists, e)

-- expiry is left to the records' readers here
abbrev memory : Backend Records
memory = record {
  get_record = λ key e. fetched (Dict.get key e.db) e;
  put_record = λ layer r e. added r (Dict.get r.idempotency_key e.db) e;
  update_record = λ layer r e. (ok tt, record e { db = Dict.store r.idempotency_key r e.db });
  delete_record = λ r e. (ok tt, record e { db = Dict.delete r.idempotency_key e.db });
}

-- counts its runs
abbrev counting : Function ℕ
counting n = (ok (str "done"), n + 1)

abbrev world : World Records ℕ
world = record {
  layer = record initial { function_name = "f"; configured = true; hash_function = "md5" };
  env = record { db = []; clock = λ i. 5000 + i };
  app = 0;
}

-- the laws of a store hold of the store in memory
memory_store : Store memory 5000 6000
unfolding Dict.get Dict.store
memory_store = record {
  view = λ d k. Dict.get k d;
  fetch = λ k r e found within. rw found (returned (within, (refl, found)));
  admit = λ layer r e missing within. rw missing (returned (within, tt));
  deny = λ layer r s e found done within. rw found (threw (within, (refl, found)));
  write = λ layer r e done within. returned (
    within,
    record {
      stored = r;
      found = ground (
        arith,
        get-store r.idempotency_key r.idempotency_key r e.db,
        string_eq.same_key_iff r.idempotency_key r.idempotency_key,
      );
      kept = record { key = refl; response = refl; hash = inr refl };
      done = done;
    },
  );
}

handle_at_most_once_example :
    ((handle library memory config counting (str "order") world).1.app ≡ 0)
    ⊎ ((handle library memory config counting (str "order") world).1.app ≡ 1)
      × (((handle library memory config counting (str "order") world).0 ≡ ok (str "done"))
          ⊎ ((handle library memory config counting (str "order") world).0
              ≡ raised persistence_layer_error))
handle_at_most_once_example =
    handle_at_most_once library memory config counting (str "order") world (λ e. ok_ne_raised e)
  where
    ok_ne_raised : ◌≢◌ {A = Result Error Json} (ok (str "done")) (raised inconsistent_state)
    ok_ne_raised e = cc

abbrev first : Result Error Json × World Records ℕ
first = handle library memory config counting (str "order") world

-- a world whose clock stands still
abbrev still : World Records ℕ
still = record world { env = record { db = []; clock = λ i. 5000 } }

opened : Unit {0}
unfolding handle process_idempotency get_function_response get_idempotency_record handle_for_status
    get_remaining_time_in_millis save_success save_inprogress delete_record get_record on_env
    on_cache get_expiry_timestamp save_to_cache delete_from_cache retrieve_from_cache
    get_hashed_idempotency_key get_hashed_payload validate_payload generate_hash
    is_missing_idempotency_key initial status is_expired is_known now response_json_as_dict ◌>>=◌
    Dict.get Dict.store Dict.delete Dict.contains
opened = tt

second_run_test :
    ((handle library memory config counting (str "order") first.1).0 ≡ ok (str "done"))
    × ((handle library memory config counting (str "order") first.1).1.app ≡ 1)
unfolding opened
second_run_test = (refl, refl)

abbrev handled_once : World Records ℕ
handled_once = (handle library memory config counting (str "order") still).1

abbrev handled_twice : World Records ℕ
handled_twice = (handle library memory config counting (str "order") handled_once).1

abbrev other_record : DataRecord
other_record = record {
  idempotency_key = "f#other";
  stored_status = "INPROGRESS";
  expiry_timestamp = some 9;
  in_progress_expiry_timestamp = none;
  response_data = none;
  payload_hash = none;
}

-- another process, which starts when there is a record of another payload in the store too
abbrev elsewhere : World Records ℕ
elsewhere = record still {
  env = record still.env { db = Dict.store "f#other" other_record handled_twice.env.db };
  app = 7;
}

handle_replays_example :
    ((handle library memory config counting (str "order") still).0 ≡ ok (str "done"))
    × (handled_once.app ≡ 1)
    × ((handle library memory config counting (str "order") elsewhere).0 ≡ ok (str "done"))
    × ((handle library memory config counting (str "order") elsewhere).1.app ≡ 7)
unfolding opened memory_store
handle_replays_example =
    handle_replays library memory 5000 6000 memory_store still.layer (str "order")
      (record { key = "f#order"; hash = ""; keyed = refl; hashed = refl; uncached = refl }) config
      config counting (str "done") (str "done") "done" 1 still refl refl refl refl (omega arith)
      refl (λ i. (omega arith, omega arith)) refl counting elsewhere refl
      (λ i. (omega arith, omega arith))
      (meanwhile
        (called first_one (record {
          config = config;
          function = counting;
          world = handled_once;
          same_layer = refl;
          within = λ i. (omega arith, omega arith);
          before = refl;
          after = refl;
        }))
        refl)

abbrev site : Site
site = record { lambda_name = "app"; name = "handler"; disabled = none }

-- the layer as its first configuration leaves it
abbrev set_layer : Layer
set_layer = record initial {
  function_name = "app.handler";
  configured = true;
  jmespath_options = some powertools_functions;
  hash_function = "md5";
}

abbrev new_world : World Records ℕ
new_world = record still { layer = initial }

abbrev after_first : World Records ℕ
after_first = (idempotent library memory site none counting (str "order") (λ i. 900) new_world).1

-- the store with the completed record of the event
abbrev completed_db : Records
completed_db =
    (
      "app.handler#order",
      record {
        idempotency_key = "app.handler#order";
        stored_status = "COMPLETED";
        expiry_timestamp = some 3605;
        in_progress_expiry_timestamp = none;
        response_data = some "done";
        payload_hash = some "";
      },
    )
    ∷ []

first_db_test : after_first.env.db ≡ completed_db
unfolding opened idempotent handled configure
first_db_test = refl

-- another process, whose layer is not configured yet, when the first has returned
abbrev second_world : World Records ℕ
second_world = record new_world { env = record new_world.env { db = completed_db } }

second_db_test :
    completed_db
    ≡ (idempotent library memory site none counting (str "order") (λ i. 800) second_world).1.env.db
unfolding opened idempotent handled configure
second_db_test = refl

-- a third one, when there is a record of another event in the store too
abbrev third_world : World Records ℕ
third_world = record new_world {
  env = record new_world.env { db = Dict.store "f#other" other_record completed_db };
}

third-Later :
    Later after_first.env.db
      (λ d. Dict.get "app.handler#order" d)
      (Invoked ℕ library memory site 5000 6000 set_layer (str "order"))
      third_world.env.db
unfolding configure Dict.get Dict.store opened
third-Later =
    meanwhile {d = completed_db}
      (called {d = completed_db}
        (meanwhile first_one (ap (Dict.get "app.handler#order") (sym first_db_test)))
        (record {
          config = none;
          function = counting;
          context = λ i. 800;
          world = second_world;
          configured = refl;
          within = λ i. (omega arith, omega arith);
          before = refl;
          after = second_db_test;
        }))
      refl

idempotent_replays_example :
    ((idempotent library memory site none counting (str "order") (λ i. 900) new_world).0
      ≡ ok (str "done"))
    × (after_first.app ≡ 1)
    × ((idempotent library memory site none counting (str "order") (λ i. 700) third_world).0
        ≡ ok (str "done"))
    × ((idempotent library memory site none counting (str "order") (λ i. 700) third_world).1.app
        ≡ 0)
unfolding opened memory_store configure
idempotent_replays_example =
    idempotent_replays library memory site set_layer refl 5000 6000 memory_store (str "order")
      (record {
        key = "app.handler#order";
        hash = "";
        keyed = refl;
        hashed = refl;
        uncached = refl;
      })
      none counting (λ i. 900) (str "done") (str "done") "done" 1 new_world refl refl refl refl refl
      (omega arith) (λ i. (omega arith, omega arith)) refl none counting (λ i. 700) third_world refl
      (λ i. (omega arith, omega arith)) third-Later
