-- ===== src/Batch/Processor/Outcomes.antt =====
-- What `process` makes of a batch: a reference run of the handler on the converted records in order,
-- and the processor's lists as selections from it.
use mathlib.Core.List.{append_assoc, append-nil}
use aws_lambda_powertools_py.Common.{
  suc, ◌+◌, ◌≡◌, refl, ap, ◌∙◌, Option, none, List, [], ◌∷◌, ◌++◌, map, length, All, if◌then◌else◌,
  arith,
}
use aws_lambda_powertools_py.Common.Effect.{Result, ok, raised, pure, >>=-ok, >>=-raised}
use aws_lambda_powertools_py.Common.Json.{Json}
use Prim.Native.String.{◌++◌ as join}
use aws_lambda_powertools_py.Batch.Message.{ExceptionInfo, EventType, Model, Message, to_batch_type}
use aws_lambda_powertools_py.Batch.Processor.{
  escaped, Entry, success, fail, Processor, Handler, handled, process_record, process_all,
}

-- One record with its converted form and what the handler made of it.
pub record Outcome (M : Type 0) : Type 0 where
  pub source : Json
  pub message : Message M
  pub result : Result ExceptionInfo Json

module _ {M : Type 0} where
  abbrev pub succeeded : List (Outcome M) → List Json
  succeeded [] = []
  succeeded (o ∷ os) = elim o.result [ ok _ ↦ o.source ∷ succeeded os | raised _ ↦ succeeded os ]

  abbrev pub failed : List (Outcome M) → List (Message M)
  failed [] = []
  failed (o ∷ os) = elim o.result [ ok _ ↦ failed os | raised _ ↦ o.message ∷ failed os ]

  abbrev pub errors : List (Outcome M) → List ExceptionInfo
  errors [] = []
  errors (o ∷ os) = elim o.result [ ok _ ↦ errors os | raised e ↦ e ∷ errors os ]

  abbrev pub entry : Outcome M → Entry M
  entry o = elim o.result [
    | ok result ↦ success result o.source
    | raised e ↦ fail (join e.kind (join ":" e.value)) o.message
  ]

  abbrev pub Converts : EventType → Option (Model M) → List (Json × Message M) → Type 0
  Converts event_type model = All (λ p. to_batch_type event_type model p.0 ≡ ok p.1)

  pub length-errors : (os : List (Outcome M)) → length (errors os) ≡ length (failed os)
  length-errors [] = refl
  length-errors (o ∷ os) = ground (arith, length-errors os)

  -- The handler on each message in turn, and nothing else.
  abbrev pub outcomes :
      {App : Type 0}
      → Handler M App
      → Option Json
      → List (Json × Message M)
      → App
      → List (Outcome M) × App
  outcomes handler context [] a = ([], a)
  outcomes handler context ((v, m) ∷ ps) a =
      let (r, b) = handler.call m context a in
      let (os, c) = outcomes handler context ps b in
      (record { source = v; message = m; result = r } ∷ os, c)

module _ {M : Type 0} where
  pub length-outcomes :
      {App : Type 0} (handler : Handler M App) (context : Option Json)
      (ps : List (Json × Message M)) (a : App)
      → length (outcomes handler context ps a).0 ≡ length ps
  length-outcomes handler context [] a = refl
  length-outcomes handler context ((v, m) ∷ ps) a =
      ap suc (length-outcomes handler context ps (handler.call m context a).1)

  pub length-succeeded :
      (os : List (Outcome M)) → length (succeeded os) + length (failed os) ≡ length os
  length-succeeded [] = refl
  length-succeeded (o ∷ os) = ground (arith, length-succeeded os)

module _ {M App : Type 0} where
  -- The processor after these outcomes.
  abbrev pub advance : Processor M App → List (Outcome M) → App → Processor M App
  advance p os a = record p {
    app = a;
    success_messages = p.success_messages ++ succeeded os;
    fail_messages = p.fail_messages ++ failed os;
    exceptions = p.exceptions ++ errors os;
  }

  abbrev pub context_of : Processor M App → Option Json
  context_of p = if p.handler_accepts_lambda_context then p.lambda_context else none

  handled-eq :
      (v : Json) (m : Message M) (r : Result ExceptionInfo Json) (p : Processor M App) (b : App)
      → handled v m r (record p { app = b }) ≡ (
        ok (entry (record { source = v; message = m; result = r })),
        advance p (record { source = v; message = m; result = r } ∷ []) b,
      )
  unfolding handled
  handled-eq v m (ok result) p b = simp append-nil
  handled-eq v m (raised e) p b = simp append-nil

  process_record-eq :
      (handler : Handler M App) (v : Json) (m : Message M) (p : Processor M App)
      → to_batch_type p.event_type p.model v ≡ ok m
      → process_record handler v p ≡ (
          let (r, b) = handler.call m (context_of p) p.app in
          let o : Outcome M = record { source = v; message = m; result = r } in
          (ok (entry o), advance p (o ∷ []) b))
  unfolding process_record
  process_record-eq handler v m p h =
      let (r, b) = handler.call m (context_of p) p.app in rw h (handled-eq v m r p b)

  advance-advance :
      (p : Processor M App) (v : Json) (m : Message M) (r : Result ExceptionInfo Json)
      (os : List (Outcome M)) (b a : App)
      → advance (advance p (record { source = v; message = m; result = r } ∷ []) b) os a
        ≡ advance p (record { source = v; message = m; result = r } ∷ os) a
  advance-advance p v m (ok _) os b a = simp (append_assoc, append-nil)
  advance-advance p v m (raised _) os b a = simp (append_assoc, append-nil)

  pub process_all-eq :
      (handler : Handler M App) (ps : List (Json × Message M)) (p : Processor M App)
      → Converts p.event_type p.model ps
      → process_all handler (map (λ q. q.0) ps) p ≡ (
          let (os, a) = outcomes handler (context_of p) ps p.app in
          (ok (map entry os), advance p os a))
  unfolding process_all pure
  process_all-eq handler [] p h = simp append-nil
  process_all-eq handler ((v, m) ∷ ps) p (h, hs) =
      let (r, b) = handler.call m (context_of p) p.app in
      let o : Outcome M = record { source = v; message = m; result = r } in
      let q = advance p (o ∷ []) b in
      let (os, a) = outcomes handler (context_of p) ps b in
      >>=-ok (process_record handler v) _ p (process_record-eq handler v m p h)
      ∙ (>>=-ok (process_all handler (map (λ q. q.0) ps)) _ q (process_all-eq handler ps q hs)
          ∙ ap (λ t. (ok (entry o ∷ map entry os), t)) (advance-advance p v m r os b a))

  -- A record that cannot be converted ends the whole loop: its exception escapes, the records before
  -- it have been handled and none after it is.
  pub process_all-escaped :
      (handler : Handler M App) (ps : List (Json × Message M)) (v : Json) (vs : List Json)
      (e : ExceptionInfo) (p : Processor M App)
      → Converts p.event_type p.model ps
      → to_batch_type p.event_type p.model v ≡ raised e
      → process_all handler (map (λ q. q.0) ps ++ v ∷ vs) p ≡ (
          let (os, a) = outcomes handler (context_of p) ps p.app in
          (raised (escaped e), advance p os a))
  unfolding process_all pure
  process_all-escaped handler [] v vs e p h bad =
      >>=-raised (process_record handler v) _ p (unfold process_record in rw bad (simp append-nil))
  process_all-escaped handler ((w, m) ∷ ps) v vs e p (h, hs) bad =
      let (r, b) = handler.call m (context_of p) p.app in
      let o : Outcome M = record { source = w; message = m; result = r } in
      let q = advance p (o ∷ []) b in
      let (os, a) = outcomes handler (context_of p) ps b in
      >>=-ok (process_record handler w) _ p (process_record-eq handler w m p h)
      ∙ (>>=-raised (process_all handler (map (λ q. q.0) ps ++ v ∷ vs)) _ q
            (process_all-escaped handler ps v vs e q hs bad)
          ∙ ap (λ t. (raised (escaped e), t)) (advance-advance p w m r os b a))
