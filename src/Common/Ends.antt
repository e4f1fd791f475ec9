-- ===== src/Common/Ends.antt =====
-- How code with effects ends: a property of what it returns and one of what it raises.
use mathlib.Core.Path.{◌≡◌, subst}
use aws_lambda_powertools_py.Common.Effect.{Result, ok, raised, Op, continue, ◌>>=◌}

pub data Ends {A E : Type 0} (P : A → Type 0) (X : E → Type 0) : Result E A → Type 0 where
  returns : {a : A} → P a → Ends P X (ok a)
  raises : {e : E} → X e → Ends P X (raised e)

-- nothing is known of the end
abbrev pub Any : {A : Type 0} → A → Type 0
Any a = Unit

module _ {A E : Type 0} where
  pub Ends-Any : (r : Result E A) → Ends Any Any r
  Ends-Any (ok a) = returns tt
  Ends-Any (raised e) = raises tt

  pub Ends-returned :
      {P : A → Type 0} {X : E → Type 0} {r : Result E A} {a : A} → Ends P X r → r ≡ ok a → P a
  Ends-returned {P} {X} {r} {a} h e = by_end (subst (Ends P X) e h)
    where
      by_end : Ends P X (ok a) → P a
      by_end (returns p) = p

  pub Ends-implies :
      {P Q : A → Type 0} {X : E → Type 0} {r : Result E A}
      → ((a : A) → P a → Q a)
      → Ends P X r
      → Ends Q X r
  Ends-implies f (returns {a} p) = returns (f a p)
  Ends-implies f (raises x) = raises x

module _ {S E A B : Type 0} {Q : A → Type 0} {P : B → Type 0} {X : E → Type 0} where
  continue-Ends :
      (r : Result E A) (f : A → Op S E B) (s : S)
      → Ends Q X r
      → ((a : A) (t : S) → Q a → Ends P X (f a t).0)
      → Ends P X (continue r f s).0
  continue-Ends (ok a) f s (returns q) p = p a s q
  continue-Ends (raised e) f s (raises x) p = raises x

  -- The second call starts with what the first one returned.
  pub Ends-bind :
      (m : Op S E A) (f : A → Op S E B) (s : S)
      → Ends Q X (m s).0
      → ((a : A) (t : S) → Q a → Ends P X (f a t).0)
      → Ends P X ((m >>= f) s).0
  unfolding ◌>>=◌
  Ends-bind m f s q p = let (r, t) = m s in continue-Ends r f t q p
