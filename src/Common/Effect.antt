-- ===== src/Common/Effect.antt =====
-- Python code that reads and writes state and may raise. What was written before a raise stays
-- written, so the state comes back beside the exception too.
use mathlib.Core.Path.{◌≡◌}

pub data Result {ℓ} (E A : Type ℓ) : Type ℓ where
  ok : A → Result E A
  raised : E → Result E A

abbrev pub Op {ℓ} : Type ℓ → Type ℓ → Type ℓ → Type ℓ
Op S E A = S → Result E A × S

module _ {ℓ} {S E A : Type ℓ} where
  unfoldable pub pure : A → Op S E A
  pure a s = (ok a, s)

  unfoldable pub raise : E → Op S E A
  raise e s = (raised e, s)

  unfoldable pub lift : Result E A → Op S E A
  lift r s = (r, s)

  unfoldable pub gets : (S → A) → Op S E A
  gets f s = (ok (f s), s)

  -- A call under `try`, whose outcome the clauses that follow inspect.
  unfoldable pub attempt : Op S E A → Op S E (Result E A)
  attempt m s = let (r, s') = m s in (ok r, s')

unfoldable pub modify {ℓ} : {S E : Type ℓ} → (S → S) → Op S E (Unit {ℓ})
modify f s = (ok tt, f s)

module _ {ℓ} {S E A B : Type ℓ} where
  -- what follows a call that has returned or raised, in the state that it left
  abbrev pub continue : Result E A → (A → Op S E B) → Op S E B
  continue (ok a) f s = f a s
  continue (raised e) f s = (raised e, s)

  infixl 10 ◌>>=◌ ◌>>◌
  -- opening this opens the actions above too
  unfoldable pub ◌>>=◌ : Op S E A → (A → Op S E B) → Op S E B
  unfolding pure raise lift gets attempt modify
  ◌>>=◌ m f s = let (r, s') = m s in continue r f s'

  abbrev pub ◌>>◌ : Op S E A → Op S E B → Op S E B
  m >> n = m >>= λ _. n

module _ {ℓ} {S E A B : Type ℓ} where
  -- The two ways to go on from a call, for proofs that keep the call shut.
  pub >>=-ok :
      (m : Op S E A) (f : A → Op S E B) (s : S) {t : S} {a : A}
      → m s ≡ (ok a, t)
      → (m >>= f) s ≡ f a t
  unfolding ◌>>=◌
  >>=-ok m f s h = λ i. let (r, t) = h i in continue r f t

  pub >>=-raised :
      (m : Op S E A) (f : A → Op S E B) (s : S) {t : S} {e : E}
      → m s ≡ (raised e, t)
      → (m >>= f) s ≡ (raised e, t)
  unfolding ◌>>=◌
  >>=-raised m f s h = λ i. let (r, t) = h i in continue r f t
