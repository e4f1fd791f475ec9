-- ===== src/Batch/Processor/Report.antt =====
-- What a `with` block over a processor reports, in each of the three cases of `_clean`.
use aws_lambda_powertools_py.Common.{
  ◌+◌, ◌≡◌, ◌≢◌, refl, ap, ◌∙◌, Option, none, some, List, [], ◌∷◌, map, length, if◌then◌else◌,
  arith, length-map, All,
}
use aws_lambda_powertools_py.Common.Effect.{Result, ok, raised}
use aws_lambda_powertools_py.Common.Json.{Json}
use aws_lambda_powertools_py.Batch.Message.{EventType, Model, Message, message_identifier}
use aws_lambda_powertools_py.Batch.Processor.{
  Error, batch_processing_error, Entry, Processor, Handler, call, prepare, process, clean, collect,
  collect_failures, leave, with_processor, response,
}
use aws_lambda_powertools_py.Batch.Processor.Outcomes.{
  Outcome, succeeded, failed, errors, entry, Converts, outcomes, process_all-eq, length-errors,
  length-succeeded, length-outcomes,
}

-- where every message has an identifier, these are collected in the order of the messages
collect_failures-read :
    {M : Type 0} (event_type : EventType) (model : Option (Model M)) (qs : List (Message M × Json))
    → All (λ q. message_identifier event_type model q.0 ≡ ok q.1) qs
    → collect_failures event_type model (map (λ q. q.0) qs) ≡ ok (map (λ q. q.1) qs)
unfolding collect_failures
collect_failures-read event_type model [] read = refl
collect_failures-read event_type model ((msg, id) ∷ qs) (one, read) =
    ap (λ r. collect r (collect_failures event_type model (map (λ q. q.0) qs))) one
    ∙ ap (collect (ok id)) (collect_failures-read event_type model qs read)

module _ {M App : Type 0} where
  clean_none : (p : Processor M App) → p.fail_messages ≡ [] → clean p ≡ (ok tt, p)
  unfolding clean
  clean_none p h = ground arith

  clean_all :
      (p : Processor M App)
      → p.fail_messages ≢ []
      → length p.exceptions ≡ length p.records
      → clean p ≡ (raised (batch_processing_error p.exceptions), p)
  unfolding clean
  clean_all p h e = ground arith

  clean_some :
      (p : Processor M App) (ids : List Json)
      → p.fail_messages ≢ []
      → length p.exceptions ≢ length p.records
      → collect_failures p.event_type p.model p.fail_messages ≡ ok ids
      → clean p ≡ (ok tt, record p { batch_response = ids })
  unfolding clean
  clean_some p ids h e c = ground arith

  -- The processor as a `with` block enters it.
  abbrev pub started : Handler M App → List Json → Option Json → Processor M App → Processor M App
  started handler records context p = prepare (call records handler context p)

  -- The context that the handler is called with.
  abbrev pub passed : Handler M App → Option Json → Option Json
  passed handler none = none
  passed handler (some context) = if handler.accepts_lambda_context then some context else none

  -- The processor at the end of a run, when nothing of an earlier run is left in it.
  abbrev pub finished :
      Handler M App
      → List Json
      → Option Json
      → Processor M App
      → List (Outcome M)
      → App
      → Processor M App
  finished handler records context p os a = record (call records handler context p) {
    success_messages = succeeded os;
    fail_messages = failed os;
    exceptions = errors os;
    batch_response = [];
    app = a;
  }

  process-eq :
      (handler : Handler M App) (context : Option Json) (ps : List (Json × Message M))
      (p : Processor M App)
      → Converts p.event_type p.model ps
      → process handler (started handler (map (λ q. q.0) ps) context p) ≡ (
          let (os, a) = outcomes handler (passed handler context) ps p.app in
          (ok (map entry os), finished handler (map (λ q. q.0) ps) context p os a))
  unfolding process call prepare
  process-eq handler none ps p h =
      process_all-eq handler ps (started handler (map (λ q. q.0) ps) none p) h
  process-eq handler (some c) ps p h =
      process_all-eq handler ps (started handler (map (λ q. q.0) ps) (some c) p) h

  with_processor-eq :
      (handler : Handler M App) (records : List Json) (context : Option Json) (p : Processor M App)
      (r : Result Error (List (Entry M))) (c : Result Error (Unit {0})) (q s : Processor M App)
      → process handler (started handler records context p) ≡ (r, q)
      → clean q ≡ (c, s)
      → with_processor handler records context p ≡ (leave r c, s)
  unfolding with_processor
  with_processor-eq handler records context p r c q s h k =
      ap (λ t. let (d, u) = clean t.1 in (leave t.0 d, u)) h ∙ ap (λ t. (leave r t.0, t.1)) k

  module _ (handler : Handler M App) (context : Option Json) (ps : List (Json × Message M))
      (p : Processor M App) (converts : Converts p.event_type p.model ps) where
    abbrev run : List (Outcome M) × App
    run = outcomes handler (passed handler context) ps p.app

    abbrev records : List Json
    records = map (λ q. q.0) ps

    abbrev after_run : Processor M App
    after_run = finished handler records context p run.0 run.1

    counts : length (succeeded run.0) + length (errors run.0) ≡ length records
    counts = omega (
      arith,
      length-succeeded run.0,
      length-errors run.0,
      length-outcomes handler (passed handler context) ps p.app,
      length-map (λ (q : Json × Message M). q.0) ps,
    )

    ran : process handler (started handler records context p) ≡ (ok (map entry run.0), after_run)
    ran = process-eq handler context ps p converts

    no_length : {A : Type 0} (xs : List A) → length xs ≡ 0 → xs ≡ []
    no_length [] h = refl
    no_length (x ∷ xs) h = absurd (omega arith)

    -- Every record converts to the processor's event type, and the handler fails on none: the entries of the records come back in order, and nothing is reported,
    -- whatever an earlier run left.
    pub with_processor_none_failed :
        failed run.0 ≡ []
        → (with_processor handler records context p ≡ (ok (map entry run.0), after_run))
          × (response after_run ≡ [])
    unfolding response
    with_processor_none_failed h =
        (with_processor-eq handler records context p _ _ _ _ ran (clean_none after_run h), refl)

    -- Every record converts to the processor's event type, there is one, and the handler fails on
    -- each: BatchProcessingError, with the exception of each in order.
    pub with_processor_all_failed :
        failed run.0 ≢ []
        → succeeded run.0 ≡ []
        → with_processor handler records context p
          ≡ (raised (batch_processing_error (errors run.0)), after_run)
    unfolding call
    with_processor_all_failed h none_left =
        with_processor-eq handler records context p _ _ _ _ ran
          (clean_all after_run h (omega (arith, counts, ap length none_left)))

    -- Every record converts to the processor's event type, the handler fails on some and not on
    -- others, and each message that failed has an identifier: the entries come back, and the report
    -- holds exactly the identifiers of the messages that failed, in their order.
    pub with_processor_some_failed :
        (qs : List (Message M × Json))
        → failed run.0 ≢ []
        → succeeded run.0 ≢ []
        → failed run.0 ≡ map (λ q. q.0) qs
        → All (λ q. message_identifier p.event_type p.model q.0 ≡ ok q.1) qs
        → with_processor handler records context p
          ≡ (ok (map entry run.0), record after_run { batch_response = map (λ q. q.1) qs })
    unfolding call
    with_processor_some_failed qs h left which read =
        with_processor-eq handler records context p _ _ _ _ ran (
          clean_some after_run (map (λ q. q.1) qs) h
            (λ e. left (no_length (succeeded run.0) (omega (arith, counts))))
            (ap (collect_failures p.event_type p.model) which
              ∙ collect_failures-read p.event_type p.model qs read))
