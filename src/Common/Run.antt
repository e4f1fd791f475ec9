-- ===== src/Common/Run.antt =====
-- A call with effects from a given state: a property of what it returns with the state that it
-- leaves, and one of what it raises.
use mathlib.Core.Path.{◌≡◌, refl}
use aws_lambda_powertools_py.Common.Effect.{
  Result, ok, raised, Op, continue, lift, gets, attempt, ◌>>=◌,
}

pub data Run {S E A : Type 0} (P : A → S → Type 0) (X : E → S → Type 0)
    : Result E A × S → Type 0 where
  returned : {a : A} {t : S} → P a t → Run P X (ok a, t)
  threw : {e : E} {t : S} → X e t → Run P X (raised e, t)

-- the end that does not come
abbrev pub Never : {A S : Type 0} → A → S → Type 0
Never a t = ⊥

module _ {S E A B : Type 0} {P : B → S → Type 0} {X : E → S → Type 0} where
  -- The second call starts where the first one returned.
  pub Run-bind :
      {Q : A → S → Type 0} (m : Op S E A) (f : A → Op S E B) (s : S)
      → Run Q (Never {A = E} {S = S}) (m s)
      → ((a : A) (t : S) → Q a t → Run P X (f a t))
      → Run P X ((m >>= f) s)
  unfolding ◌>>=◌
  Run-bind {Q} m f s h next = let (r, t) = m s in at r t h
    where
      at :
          (r : Result E A) (t : S) → Run Q (Never {A = E} {S = S}) (r, t) → Run P X (continue r f t)
      at (ok a) t (returned q) = next a t q
      at (raised e) t (threw never) = absurd never

  -- The same where the first call may raise what the whole may raise.
  pub Run-chain :
      {Q : A → S → Type 0} (m : Op S E A) (f : A → Op S E B) (s : S)
      → Run Q X (m s)
      → ((a : A) (t : S) → Q a t → Run P X (f a t))
      → Run P X ((m >>= f) s)
  unfolding ◌>>=◌
  Run-chain {Q} m f s h next = let (r, t) = m s in at r t h
    where
      at : (r : Result E A) (t : S) → Run Q X (r, t) → Run P X (continue r f t)
      at (ok a) t (returned q) = next a t q
      at (raised e) t (threw x) = threw x

  pub Run-lift :
      (r : Result E A) (f : A → Op S E B) (s : S) (a : A)
      → r ≡ ok a
      → Run P X (f a s)
      → Run P X ((lift r >>= f) s)
  unfolding ◌>>=◌
  Run-lift r f s a h k = rw h k

  pub Run-gets :
      (g : S → A) (f : A → Op S E B) (s : S) (a : A)
      → g s ≡ a
      → Run P X (f a s)
      → Run P X ((gets g >>= f) s)
  unfolding ◌>>=◌
  Run-gets g f s a h k = rw h k

  -- The clauses after a `try` take what was returned or raised.
  pub Run-attempt :
      {Q : A → S → Type 0} {Y : E → S → Type 0} (m : Op S E A) (f : Result E A → Op S E B) (s : S)
      → Run Q Y (m s)
      → ((a : A) (t : S) → Q a t → Run P X (f (ok a) t))
      → ((e : E) (t : S) → Y e t → Run P X (f (raised e) t))
      → Run P X ((attempt m >>= f) s)
  unfolding ◌>>=◌
  Run-attempt {Q} {Y} m f s h next caught = let (r, t) = m s in at r t h
    where
      at : (r : Result E A) (t : S) → Run Q Y (r, t) → Run P X (f r t)
      at (ok a) t (returned q) = next a t q
      at (raised e) t (threw y) = caught e t y

module _ {S E A : Type 0} {P : A → S → Type 0} {X : E → S → Type 0} where
  pub Run-implies :
      {Q : A → S → Type 0} {Y : E → S → Type 0} {r : Result E A × S}
      → ((a : A) (t : S) → Q a t → P a t)
      → ((e : E) (t : S) → Y e t → X e t)
      → Run Q Y r
      → Run P X r
  Run-implies f g (returned {a} {t} q) = returned (f a t q)
  Run-implies f g (threw {e} {t} y) = threw (g e t y)

  pub Run-raised : {r : Result E A × S} → Run (Never {A = A} {S = S}) X r → Run P X r
  Run-raised h = Run-implies (λ a t never. absurd never) (λ e t x. x) h

module _ {S E A : Type 0} {P : A → S → Type 0} where
  pub Run-returned :
      {r : Result E A × S}
      → Run P (Never {A = E} {S = S}) r
      → (a : A) × (t : S) × (r ≡ (ok a, t)) × P a t
  Run-returned (returned {a} {t} p) = (a, t, refl, p)
  Run-returned (threw never) = absurd never

module _ {S E A : Type 0} where
  -- what holds however the call ends
  pub Run-final : {I : S → Type 0} {r : Result E A × S} → Run (λ a t. I t) (λ e t. I t) r → I r.1
  Run-final (returned h) = h
  Run-final (threw h) = h

  -- every call ends
  pub Run-any : (r : Result E A × S) → Run (λ a t. Unit {0}) (λ e t. Unit {0}) r
  Run-any (ok a, t) = returned tt
  Run-any (raised e, t) = threw tt
