-- ===== src/Idempotency/Handler/AtMostOnce.antt =====
-- How often `handle` runs the decorated function.
use mathlib.Core.Path.{subst}
use aws_lambda_powertools_py.Common.{
  ◌≡◌, ◌≢◌, ◌⊎◌, inl, inr, refl, ◌∙◌, sym, Option, none, some, ℕ, zero, suc,
}
use aws_lambda_powertools_py.Common.Effect.{Result, ok, raised, ◌>>=◌, attempt, continue}
use aws_lambda_powertools_py.Common.Json.{Json}
use aws_lambda_powertools_py.Common.Invariant.{
  Preserves, preserving, Preserves-bind, Preserves-attempt,
}
use aws_lambda_powertools_py.Idempotency.Error.{
  Error, inconsistent_state, item_already_exists, item_not_found, persistence_layer_error,
}
use aws_lambda_powertools_py.Idempotency.Record.{DataRecord}
use aws_lambda_powertools_py.Idempotency.Layer.{Library, IdempotencyConfig}
use aws_lambda_powertools_py.Idempotency.Persistence.{
  Backend, World, save_success, save_inprogress, delete_record,
}
use aws_lambda_powertools_py.Idempotency.Persistence.Frame.{
  SameApp, on_env-SameApp, save_success-SameApp, save_inprogress-SameApp, delete_record-SameApp,
  get_record-SameApp,
}
use aws_lambda_powertools_py.Idempotency.Handler.{
  Function, remaining_at, get_remaining_time_in_millis, timed_out, handle_for_status, after_get,
  get_idempotency_record, after_delete, after_save, after_run, get_function_response,
  after_save_inprogress, process_idempotency, again, retry, handle,
}

module _ {Db App : Type 0} (lib : Library) (backend : Backend Db) (a : App) where
  remaining_time-SameApp :
      (config : IdempotencyConfig)
      → Preserves (SameApp {Db = Db} a) (get_remaining_time_in_millis config)
  unfolding get_remaining_time_in_millis
  remaining_time-SameApp config = at config.lambda_context
    where
      at : (o : Option (ℕ → ℕ)) → Preserves (SameApp {Db = Db} a) (remaining_at o)
      at none = search preserving
      at (some context) = search (preserving, on_env-SameApp)

  timed_out-SameApp : (o : Option ℕ) → Preserves (SameApp {Db = Db} a) (timed_out o)
  unfolding timed_out
  timed_out-SameApp none = search preserving
  timed_out-SameApp (some t) = search (preserving, on_env-SameApp)

  handle_for_status-SameApp :
      (r : DataRecord) → Preserves (SameApp {Db = Db} a) (handle_for_status lib r)
  unfolding handle_for_status
  handle_for_status-SameApp r = search (preserving, on_env-SameApp, timed_out-SameApp) depth 12

abbrev pub Answers : Result Error Json → Result Error Json → Type 0
Answers r out = (out ≡ r) ⊎ (out ≡ raised persistence_layer_error)

module _ {Db App : Type 0} (lib : Library) (backend : Backend Db) where
  after_save-Answers :
      (response : Json) (o : Result Error (Unit {0})) (w : World Db App)
      → ((after_save lib backend response o w).1.app ≡ w.app)
        × Answers (ok response) (after_save lib backend response o w).0
  unfolding after_save ◌>>=◌
  after_save-Answers response (ok u) w = (refl, inl refl)
  after_save-Answers response (raised e) w = (refl, inr refl)

  after_delete-Answers :
      (exc : Error) (o : Result Error (Unit {0})) (w : World Db App)
      → ((after_delete lib backend exc o w).1.app ≡ w.app)
        × Answers (raised exc) (after_delete lib backend exc o w).0
  unfolding after_delete ◌>>=◌
  after_delete-Answers exc (ok u) w = (refl, inl refl)
  after_delete-Answers exc (raised e) w = (refl, inr refl)

  after_run-Answers :
      (payload : Json) (r : Result Error Json) (w : World Db App)
      → ((after_run lib backend payload r w).1.app ≡ w.app)
        × Answers r (after_run lib backend payload r w).0
  unfolding after_run ◌>>=◌
  after_run-Answers payload (ok response) w =
      let (o, w') = save_success lib backend payload response w in
      let (same, answer) = after_save-Answers response o w' in
      (same ∙ (save_success-SameApp lib backend w.app payload response).final w refl, answer)
  after_run-Answers payload (raised exc) w =
      let (o, w') = delete_record lib backend payload w in
      let (same, answer) = after_delete-Answers exc o w' in
      (same ∙ (delete_record-SameApp lib backend w.app payload).final w refl, answer)

  -- The function ran once, and its outcome is the outcome, unless the store could not be written.
  abbrev RanOnce : Function App → App → Result Error Json × World Db App → Type 0
  RanOnce function a t = (t.1.app ≡ (function a).1) × Answers (function a).0 t.0

  get_function_response-RanOnce :
      (function : Function App) (payload : Json) (w : World Db App)
      → RanOnce function w.app (get_function_response lib backend function payload w)
  unfolding get_function_response ◌>>=◌
  get_function_response-RanOnce function payload w =
      let (r, a) = function w.app in after_run-Answers payload r (record w { app = a })

  after_get-SameApp :
      (a : App) (o : Result Error DataRecord)
      → Preserves (SameApp {Db = Db} a) (after_get lib backend o)
  unfolding after_get
  after_get-SameApp a (ok r) = search preserving
  after_get-SameApp a (raised item_not_found) = search preserving
  after_get-SameApp a (raised e) = search preserving

  get_idempotency_record-SameApp :
      (a : App) (payload : Json)
      → Preserves (SameApp {Db = Db} a) (get_idempotency_record lib backend payload)
  unfolding get_idempotency_record
  get_idempotency_record-SameApp a payload =
      Preserves-bind _ _ (Preserves-attempt _ (get_record-SameApp lib backend a payload))
        (after_get-SameApp a)

  abbrev IsOnce : Function App → App → Result Error Json × World Db App → Type 0
  IsOnce function a t = (t.1.app ≡ a) ⊎ RanOnce function a t

  after_save_inprogress-IsOnce :
      (function : Function App) (payload : Json) (o : Result Error (Unit {0})) (w : World Db App)
      → IsOnce function w.app (after_save_inprogress lib backend function payload o w)
  unfolding after_save_inprogress
  after_save_inprogress-IsOnce function payload (ok u) w =
      inr (get_function_response-RanOnce function payload w)
  after_save_inprogress-IsOnce function payload (raised item_already_exists) w =
      let kept =
        Preserves-bind (get_idempotency_record lib backend payload) (handle_for_status lib)
          (get_idempotency_record-SameApp w.app payload)
          (handle_for_status-SameApp lib backend w.app) in
      inl (kept.final w refl)
  after_save_inprogress-IsOnce function payload (raised e) w = inl (unfold ◌>>=◌ in refl)

  process_idempotency-IsOnce :
      (config : IdempotencyConfig) (function : Function App) (payload : Json) (w : World Db App)
      → IsOnce function w.app (process_idempotency lib backend config function payload w)
  unfolding process_idempotency ◌>>=◌
  process_idempotency-IsOnce config function payload w =
      let (r, u) = get_remaining_time_in_millis config w in
      go r u ((remaining_time-SameApp lib backend w.app config).final w refl)
    where
      go :
          (r : Result Error (Option ℕ)) (u : World Db App)
          → u.app ≡ w.app
          → IsOnce function w.app (
              continue r
                (λ remaining.
                  attempt (save_inprogress lib backend payload remaining)
                  >>= after_save_inprogress lib backend function payload)
                u)
      go (raised e) u same = inl same
      go (ok remaining) u same =
          let (out, v) = save_inprogress lib backend payload remaining u in
          let kept =
            (save_inprogress-SameApp lib backend u.app payload remaining).final u refl ∙ same in
          subst (λ a. IsOnce function a (after_save_inprogress lib backend function payload out v))
            kept (after_save_inprogress-IsOnce function payload out v)

  again-IsOnce :
      (function : Function App) (a : App) (r : Result Error Json) (w : World Db App)
      (rest : World Db App → Result Error Json × World Db App)
      → (function a).0 ≢ raised inconsistent_state
      → ((u : World Db App) → u.app ≡ a → IsOnce function a (rest u))
      → IsOnce function a (r, w)
      → IsOnce function a (again lib backend (r, w) rest)
  unfolding again
  again-IsOnce function a (raised inconsistent_state) w rest calm later (inl same) = later w same
  again-IsOnce function a (raised inconsistent_state) w rest calm later (inr (_, inl e)) =
      absurd (calm (sym e))
  again-IsOnce function a (raised inconsistent_state) w rest calm later (inr (_, inr e)) = cc
  again-IsOnce function a r w rest calm later h = h

  retry-IsOnce :
      (left : ℕ) (config : IdempotencyConfig) (function : Function App) (payload : Json)
      (w : World Db App)
      → (function w.app).0 ≢ raised inconsistent_state
      → IsOnce function w.app (retry lib backend left config function payload w)
  unfolding retry
  retry-IsOnce zero config function payload w calm =
      process_idempotency-IsOnce config function payload w
  retry-IsOnce (suc left) config function payload w calm =
      let (r, u) = process_idempotency lib backend config function payload w in
      again-IsOnce function w.app r u (retry lib backend left config function payload) calm
        (λ v same.
          subst (λ a. IsOnce function a (retry lib backend left config function payload v)) same
            (retry-IsOnce left config function payload v (rw same calm)))
        (process_idempotency-IsOnce config function payload w)

  -- Whatever the store answers and whatever happens to it between the calls, and however many rounds
  -- are needed, one call of `handle` runs the function at most once, if the function itself does not
  -- raise IdempotencyInconsistentStateError: what the function works on is as it was, or as one run
  -- leaves it, and then the outcome is that of the run or IdempotencyPersistenceLayerError.
  pub handle_at_most_once :
      (config : IdempotencyConfig) (function : Function App) (payload : Json) (w : World Db App)
      → (function w.app).0 ≢ raised inconsistent_state
      → ((handle lib backend config function payload w).1.app ≡ w.app)
        ⊎ ((handle lib backend config function payload w).1.app ≡ (function w.app).1)
          × (((handle lib backend config function payload w).0 ≡ (function w.app).0)
              ⊎ ((handle lib backend config function payload w).0 ≡ raised persistence_layer_error))
  unfolding handle
  handle_at_most_once config function payload w calm = retry-IsOnce 2 config function payload w calm
