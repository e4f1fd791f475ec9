-- ===== src/Common/Invariant.antt =====
-- Code with effects that leaves a property of the state true, however it ends: a rule for each way to
-- build such code, and the set of the rules for `search`.
use mathlib.Core.Bool.{Bool, true, false}
use aws_lambda_powertools_py.Common.Tests.{if◌then◌else◌}
use aws_lambda_powertools_py.Common.Effect.{
  Result, ok, raised, Op, pure, raise, lift, gets, attempt, continue, ◌>>=◌,
}

pub record Preserves {ℓ} {W E A : Type ℓ} (I : W → Type ℓ) (run : Op W E A) : Type ℓ where
  pub final : (w : W) → I w → I (run w).1

module _ {ℓ} {W E A B : Type ℓ} {I : W → Type ℓ} where
  -- The second call starts where the first one returned; after an exception there is none.
  continue_final :
      (next : A → Op W E B) (r : Result E A) (w : W)
      → ((a : A) → Preserves I (next a))
      → I w
      → I (continue r next w).1
  continue_final next (raised e) w rest inv = inv
  continue_final next (ok a) w rest inv = (rest a).final w inv

  pub Preserves-bind :
      (run : Op W E A) (next : A → Op W E B)
      → Preserves I run
      → ((a : A) → Preserves I (next a))
      → Preserves I (run >>= next)
  unfolding ◌>>=◌
  Preserves-bind run next first rest = record {
    final = λ w inv. let (r, v) = run w in continue_final next r v rest (first.final w inv);
  }

module _ {ℓ} {W E A : Type ℓ} {I : W → Type ℓ} where
  -- What neither reads nor writes the state, by its function.
  idle : (f : W → Result E A) → Preserves I (λ w. (f w, w))
  idle f = record { final = λ w inv. inv }

  pub Preserves-lift : (r : Result E A) → Preserves I (lift r)
  unfolding lift
  Preserves-lift r = idle (λ _. r)

  pub Preserves-pure : (a : A) → Preserves {E = E} I (pure a)
  unfolding pure
  Preserves-pure a = idle (λ _. ok a)

  pub Preserves-raise : (e : E) → Preserves {A = A} I (raise e)
  unfolding raise
  Preserves-raise e = idle (λ _. raised e)

  pub Preserves-gets : (f : W → A) → Preserves {E = E} I (gets f)
  unfolding gets
  Preserves-gets f = idle (λ w. ok (f w))

  pub Preserves-attempt : (run : Op W E A) → Preserves I run → Preserves I (attempt run)
  unfolding attempt
  Preserves-attempt run p = record { final = p.final }

  pub Preserves-if :
      (test : Bool) (yes_run no_run : Op W E A)
      → Preserves I yes_run
      → Preserves I no_run
      → Preserves I (if test then yes_run else no_run)
  Preserves-if false yes_run no_run p q = q
  Preserves-if true yes_run no_run p q = p

pub ruleset preserving = (
  Preserves-bind, Preserves-attempt, Preserves-if, Preserves-gets, Preserves-pure, Preserves-raise,
  Preserves-lift,
)
