-- ===== src/Idempotency/Persistence/OverStore.antt =====
-- The persistence layer's operations over a store that keeps the laws, without a local cache.
use aws_lambda_powertools_py.Common.{
  ℕ, suc, ◌/◌, ◌+◌, ◌≤◌, String, false, ap, Option, none, some, ◌≡◌, ◌⊎◌, inl, inr, refl, ◌∙◌,
  arith, eqb, Bool-cases,
}
use aws_lambda_powertools_py.Common.Eq.{string_eq}
use aws_lambda_powertools_py.Common.Effect.{pure, ◌>>=◌}
use aws_lambda_powertools_py.Common.Json.{Json}
use aws_lambda_powertools_py.Common.Run.{Run, returned, Never, Run-bind, Run-lift, Run-gets}
use aws_lambda_powertools_py.Idempotency.Error.{Error, item_already_exists}
use aws_lambda_powertools_py.Idempotency.Record.{DataRecord, completed, now}
use aws_lambda_powertools_py.Idempotency.Layer.{Library, Layer, same_hash}
use aws_lambda_powertools_py.Idempotency.Persistence.{
  Backend, World, on_env, get_expiry_timestamp, retrieve_from_cache, save_to_cache, save_success,
  in_progress_expiry, save_inprogress, get_record,
}
use aws_lambda_powertools_py.Idempotency.Store.{IsDone, IsWritten, Store}
use aws_lambda_powertools_py.Idempotency.Persistence.Steps.{
  Payload, At, validate_payload-IsKept, if_off, on_env-returns, on_env-raises,
}

-- the record of `save_success`
abbrev pub saved_record : String → String → String → ℕ → DataRecord
saved_record key hash response expiry = record {
  idempotency_key = key;
  stored_status = completed;
  expiry_timestamp = some expiry;
  in_progress_expiry_timestamp = none;
  response_data = some response;
  payload_hash = some hash;
}

module _ {Db App : Type 0} (lib : Library) (backend : Backend Db) (lo hi : ℕ)
    (store : Store backend lo hi) (l : Layer) (payload : Json) (p : Payload lib l payload) where
  off : (w : World Db App) → w.layer ≡ l → w.layer.use_local_cache ≡ false
  off w h = ap (λ (m : Layer). m.use_local_cache) h ∙ p.uncached

  get_expiry-Run :
      (a : App) (w : World Db App)
      → At lo hi l a w
      → Run
          (λ n t.
            (lo / 1000 + l.expires_after_seconds ≤ n) × (t.env.db ≡ w.env.db) × At lo hi l a t)
          (Never {A = Error})
          (get_expiry_timestamp w)
  unfolding get_expiry_timestamp on_env now ◌>>=◌
  get_expiry-Run a w h = returned (rw h.same_layer (at_least (h.within 0).0), refl, later)
    where
      at_least :
          lo ≤ w.env.clock 0
          → lo / 1000 + l.expires_after_seconds ≤ w.env.clock 0 / 1000 + l.expires_after_seconds
      at_least low = omega arith

      later : At lo hi l a (record w { env = record w.env { clock = λ i. w.env.clock (suc i) } })
      later = record {
        same_layer = h.same_layer;
        same_app = h.same_app;
        within = λ i. h.within (suc i);
      }

  retrieve-Run :
      (k : String) (a : App) (w : World Db App)
      → At lo hi l a w
      → Run
          (λ found t. (found ≡ none) × (t.env.db ≡ w.env.db) × At lo hi l a t)
          (Never {A = Error})
          (retrieve_from_cache k w)
  unfolding retrieve_from_cache ◌>>=◌
  retrieve-Run k a w h = if_off _ _ _ w (off w h.same_layer) (returned (refl, refl, h))

  save_to_cache-Run :
      (r : DataRecord) {Q : World Db App → Type 0} (a : App) (w : World Db App)
      → At lo hi l a w
      → Q w
      → Run (λ u t. Q t) (Never {A = Error}) (save_to_cache r w)
  unfolding save_to_cache ◌>>=◌
  save_to_cache-Run r a w h q = if_off _ _ _ w (off w h.same_layer) (returned q)

  -- what the store holds once a response has been saved
  abbrev pub IsSaved : String → World Db App → Type 0
  IsSaved response t =
      (expiry : ℕ) × IsWritten store.view l hi (saved_record p.key p.hash response expiry) t.env.db

  pub save_success-Run :
      (result : Json) (response : String) (a : App) (w : World Db App)
      → lib.dumps result ≡ some response
      → hi / 1000 ≤ lo / 1000 + l.expires_after_seconds
      → At lo hi l a w
      → Run
          (λ u t. At lo hi l a t × IsSaved response t)
          (Never {A = Error})
          (save_success lib backend payload result w)
  unfolding save_success
  save_success-Run result response a w dumped long h = Run-lift _ _ w response (rw dumped refl) (
      Run-gets _ _ w l h.same_layer (
        Run-lift _ _ w p.key p.keyed (
          Run-bind _ _ w (get_expiry-Run a w h) λ expiry t (least, _, at).
            Run-lift _ _ t p.hash p.hashed (
              Run-bind _ _ t
                (on_env-returns lo hi l a _ t at (
                  store.write l (saved_record p.key p.hash response expiry) t.env
                    (done expiry least) at.within))
                λ u v (at', written).
                  save_to_cache-Run (saved_record p.key p.hash response expiry)
                    {Q = λ v. At lo hi l a v × IsSaved response v} a v at'
                    (at', (expiry, written))))))
    where
      done :
          (expiry : ℕ)
          → lo / 1000 + l.expires_after_seconds ≤ expiry
          → IsDone hi (saved_record p.key p.hash response expiry)
      done expiry least = record {
        expiry = expiry;
        expires = refl;
        later = omega arith;
        status = refl;
      }

  in_progress_expiry-Run :
      (remaining : Option ℕ) (a : App) (w : World Db App)
      → At lo hi l a w
      → Run
          (λ o t. At lo hi l a t × (t.env.db ≡ w.env.db))
          (Never {A = Error})
          (in_progress_expiry lib backend remaining w)
  unfolding in_progress_expiry on_env now ◌>>=◌
  in_progress_expiry-Run none a w h = returned (h, refl)
  in_progress_expiry-Run (some t) a w h = elim (Bool-cases (eqb t 0)) [
    | inl zero_time ↦ rw zero_time (returned (h, refl))
    | inr other_time ↦ rw other_time (
        returned (
          record {
            same_layer = h.same_layer;
            same_app = h.same_app;
            within = λ i. h.within (suc i);
          },
          refl,
        ))
  ]

  -- what the put of `save_inprogress` does is what `save_inprogress` does
  save_inprogress-Run :
      {P : Unit {0} → World Db App → Type 0} {X : Error → World Db App → Type 0}
      (remaining : Option ℕ) (a : App) (w : World Db App)
      → At lo hi l a w
      → ((r : DataRecord) (t : World Db App)
          → r.idempotency_key ≡ p.key
          → At lo hi l a t
          → t.env.db ≡ w.env.db
          → Run P X (on_env (backend.put_record t.layer r) t))
      → Run P X (save_inprogress lib backend payload remaining w)
  unfolding save_inprogress
  save_inprogress-Run remaining a w h put = Run-gets _ _ w l h.same_layer (
      Run-lift _ _ w p.key p.keyed (
        Run-bind _ _ w (get_expiry-Run a w h) λ expiry t (_, same, at).
          Run-lift _ _ t p.hash p.hashed (
            Run-bind _ _ t (in_progress_expiry-Run remaining a t at) λ limit u (at', same').
              Run-bind _ _ u (retrieve-Run p.key a u at') λ found v (missed, same'', at'').
                rw missed
                  (Run-gets _ _ v v.layer refl (put _ v refl at'' (same'' ∙ same' ∙ same))))))

  pub save_inprogress-admitted :
      (remaining : Option ℕ) (a : App) (w : World Db App)
      → At lo hi l a w
      → store.view w.env.db p.key ≡ none
      → Run
          (λ u t. At lo hi l a t × Unit {0})
          (Never {A = Error})
          (save_inprogress lib backend payload remaining w)
  save_inprogress-admitted remaining a w h missing =
      save_inprogress-Run remaining a w h λ r t key at same.
        on_env-returns lo hi l a _ t at
          (store.admit t.layer r t.env (rw (key, same) missing) at.within)

  pub save_inprogress-denied :
      (remaining : Option ℕ) (s : DataRecord) (a : App) (w : World Db App)
      → At lo hi l a w
      → store.view w.env.db p.key ≡ some s
      → IsDone hi s
      → Run
          (Never {A = Unit {0}})
          (λ x t.
            At lo hi l a t × ((x ≡ item_already_exists) × (store.view t.env.db p.key ≡ some s)))
          (save_inprogress lib backend payload remaining w)
  save_inprogress-denied remaining s a w h found done =
      save_inprogress-Run remaining a w h λ r t key at same.
        on_env-raises lo hi l a
          {X = λ x e. (x ≡ item_already_exists) × (store.view e.db p.key ≡ some s)}
          (backend.put_record t.layer r) t at
          (rw (← key) (store.deny t.layer r s t.env (rw (key, same) found) done at.within))

  pub get_record-Run :
      (s : DataRecord) (a : App) (w : World Db App)
      → At lo hi l a w
      → store.view w.env.db p.key ≡ some s
      → (l.payload_validation_enabled ≡ false) ⊎ (s.payload_hash ≡ some p.hash)
      → Run
          (λ r t. At lo hi l a t × ((r ≡ s) × (store.view t.env.db p.key ≡ some s)))
          (Never {A = Error})
          (get_record lib backend payload w)
  unfolding get_record
  get_record-Run s a w h found same_hash = Run-gets _ _ w l h.same_layer (
      Run-lift _ _ w p.key p.keyed (
        Run-bind _ _ w (retrieve-Run p.key a w h) λ o t (missed, same, at). rw missed (
          Run-bind _ _ t
            (on_env-returns lo hi l a {P = λ r e. (r ≡ s) × (store.view e.db p.key ≡ some s)} _ t at
              (store.fetch p.key s t.env (rw same found) at.within))
            λ r u (at', (got, there)).
              Run-bind _ _ u
                (save_to_cache-Run r
                  {Q = λ v. At lo hi l a v × (store.view v.env.db p.key ≡ some s)} a u at'
                  (at', there))
                λ _ v (at'', there'). Run-gets _ _ v l at''.same_layer (
                  Run-lift _ _ v tt (rw got (validate_payload-IsKept lib l payload p s same_hash))
                    (unfold pure in returned (at'', (got, there')))))))
