-- ===== src/Idempotency/Persistence/Steps.antt =====
-- Rules for the steps of the persistence layer's operations over a store: reading the clock and a
-- record's status, the validation of a payload, and the calls of the store.
use aws_lambda_powertools_py.Common.{
  ℕ, suc, ◌/◌, String, Bool, true, false, not, ap, some, ◌≡◌, ◌⊎◌, inl, inr, refl, ◌∙◌, arith, ltb,
  eqb, Bool-cases, if◌then◌else◌,
}
use aws_lambda_powertools_py.Common.Eq.{string_eq}
use aws_lambda_powertools_py.Common.Effect.{Op, Result, ok, raised, ◌>>=◌}
use aws_lambda_powertools_py.Common.Json.{Json}
use aws_lambda_powertools_py.Common.Run.{Run, returned, threw, Never}
use aws_lambda_powertools_py.Idempotency.Error.{Error, validation_error}
use aws_lambda_powertools_py.Idempotency.Record.{
  DataRecord, Env, completed, now, is_expired, is_known, status,
}
use aws_lambda_powertools_py.Idempotency.Layer.{
  Library, Layer, get_hashed_idempotency_key, get_hashed_payload, validate_payload, then_do,
  same_hash,
}
use aws_lambda_powertools_py.Idempotency.Persistence.{World, on_env}
use aws_lambda_powertools_py.Idempotency.Store.{IsWithin, IsDone}

pub status-IsDone :
    {Db : Type 0} (lo hi : ℕ) (r : DataRecord) (e : Env Db)
    → IsDone hi r
    → IsWithin lo hi e.clock
    → Run
        (λ s t. (s ≡ completed) × (t.db ≡ e.db) × IsWithin lo hi t.clock)
        (Never {A = Error})
        (status r e)
unfolding status is_expired is_known now ◌>>=◌
status-IsDone lo hi r e h w = elim (Bool-cases (eqb h.expiry 0)) [
  | inl zero_time ↦ rw (h.expires, h.status, zero_time) (returned (refl, refl, w))
  | inr other_time ↦
      let late : ltb h.expiry (e.clock 0 / 1000) ≡ false = ground (arith, w 0, h.later) in
      rw (h.expires, h.status, other_time, late) (returned (refl, refl, λ i. w (suc i)))
]

pub if_off :
    {S E A : Type 0} {P : A → S → Type 0} {X : E → S → Type 0} (b : Bool) (m n : Op S E A) (s : S)
    → b ≡ false
    → Run P X (m s)
    → Run P X ((if not b then m else n) s)
if_off true m n s h r = cc
if_off false m n s h r = r

-- What both calls share: the payload's key, hash and text, and a layer that keeps no local cache.
pub record Payload (lib : Library) (l : Layer) (payload : Json) : Type 0 where
  pub key : String
  pub hash : String
  pub keyed : get_hashed_idempotency_key lib l payload ≡ ok key
  pub hashed : get_hashed_payload lib l payload ≡ ok hash
  pub uncached : l.use_local_cache ≡ false

pub validate_payload-IsKept :
    (lib : Library) (l : Layer) (payload : Json) (p : Payload lib l payload) (s : DataRecord)
    → (l.payload_validation_enabled ≡ false) ⊎ (s.payload_hash ≡ some p.hash)
    → validate_payload lib l payload s ≡ ok tt
unfolding validate_payload
validate_payload-IsKept lib l payload p s h = elim (Bool-cases l.payload_validation_enabled) [
  | inr disabled ↦ rw_enabled disabled
  | inl enabled ↦ elim h [
    | inl disabled ↦ rw_enabled disabled
    | inr same ↦
        rw_enabled enabled
        ∙ ap (λ h. then_do h check) p.hashed
        ∙ ap (λ b. if b then ok tt else raised validation_error)
            (ap (λ o. same_hash o p.hash) same ∙ (string_eq.same_key_iff p.hash p.hash).1 refl)
  ]
]
  where
    check : String → Result Error (Unit {0})
    check hash = if same_hash s.payload_hash hash then ok tt else raised validation_error

    rw_enabled :
        {b : Bool}
        → l.payload_validation_enabled ≡ b
        → validate_payload lib l payload s
          ≡ (if b then then_do (get_hashed_payload lib l payload) check else ok tt)
    rw_enabled e = ap (λ b. if b then then_do (get_hashed_payload lib l payload) check else ok tt) e

-- The layer and what the function works on are given, and the times lie in the bounds.
pub record At {Db App : Type 0} (lo hi : ℕ) (l : Layer) (a : App) (w : World Db App) : Type 0 where
  pub same_layer : w.layer ≡ l
  pub same_app : w.app ≡ a
  pub within : IsWithin lo hi w.env.clock

module _ {Db App A : Type 0} (lo hi : ℕ) (l : Layer) (a : App) where
  pub on_env-returns :
      {P : A → Env Db → Type 0} (m : Op (Env Db) Error A) (w : World Db App)
      → At lo hi l a w
      → Run (λ x e. IsWithin lo hi e.clock × P x e) (Never {A = Error}) (m w.env)
      → Run (λ x t. At lo hi l a t × P x t.env) (Never {A = Error}) (on_env m w)
  unfolding on_env
  on_env-returns {P} m w h run = let (r, e) = m w.env in at r e run
    where
      at :
          (r : Result Error A) (e : Env Db)
          → Run (λ x e. IsWithin lo hi e.clock × P x e) (Never {A = Error}) (r, e)
          → Run (λ x t. At lo hi l a t × P x t.env) (Never {A = Error}) (r, record w { env = e })
      at (ok x) e (returned (within, p)) =
          returned (record { same_layer = h.same_layer; same_app = h.same_app; within = within }, p)
      at (raised x) e (threw never) = absurd never

  pub on_env-raises :
      {X : Error → Env Db → Type 0} (m : Op (Env Db) Error A) (w : World Db App)
      → At lo hi l a w
      → Run (Never {A = A}) (λ x e. IsWithin lo hi e.clock × X x e) (m w.env)
      → Run (Never {A = A}) (λ x t. At lo hi l a t × X x t.env) (on_env m w)
  unfolding on_env
  on_env-raises {X} m w h run = let (r, e) = m w.env in at r e run
    where
      at :
          (r : Result Error A) (e : Env Db)
          → Run (Never {A = A}) (λ x e. IsWithin lo hi e.clock × X x e) (r, e)
          → Run (Never {A = A}) (λ x t. At lo hi l a t × X x t.env) (r, record w { env = e })
      at (raised x) e (threw (within, p)) =
          threw (record { same_layer = h.same_layer; same_app = h.same_app; within = within }, p)
      at (ok x) e (returned never) = absurd never
