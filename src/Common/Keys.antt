-- ===== src/Common/Keys.antt =====
-- Equality of keys that are made of others: pairs, options, lists and Booleans.
use mathlib.Core.Path.{◌≡◌, refl, ap}
use mathlib.Core.Logic.{◌↔◌}
use mathlib.Core.Bool.{Bool, true, false, ◌&&◌}
use mathlib.Core.Option.{Option, none, some}
use mathlib.Core.List.{List, [], ◌∷◌}
use native.Mathlib.Omega.{arith}
use aws_lambda_powertools_py.Common.Eq.{Hashable, ◌==◌}

both_true : (x y : Bool) → ((x && y) ≡ true) ↔ ((x ≡ true) × (y ≡ true))
both_true true y = (λ h. (refl, h), λ h. h.1)
both_true false y = (λ h. ground (arith, h), λ h. h.0)

abbrev pub same_bool : Bool → Bool → Bool
same_bool true b = b
same_bool false true = false
same_bool false false = true

pub same_bool_iff : (a b : Bool) → (same_bool a b ≡ true) ↔ (a ≡ b)
same_bool_iff true true = (λ _. refl, λ _. refl)
same_bool_iff true false = (λ h. ground (arith, h), λ h. ground (arith, h))
same_bool_iff false true = (λ h. ground (arith, h), λ h. ground (arith, h))
same_bool_iff false false = (λ _. refl, λ _. refl)

instance abbrev pub bool_eq : Hashable Bool
bool_eq = record { same_key = same_bool; same_key_iff = same_bool_iff }

module _ {ℓ} {A : Type ℓ} ⦃a : Hashable A⦄ where
  abbrev pub same_option : Option A → Option A → Bool
  same_option none none = true
  same_option (some x) (some y) = x == y
  same_option _ _ = false

  pub same_option_iff : (x y : Option A) → (same_option x y ≡ true) ↔ (x ≡ y)
  same_option_iff none none = (λ _. refl, λ _. refl)
  same_option_iff none (some y) = (λ h. ground (arith, h), λ h. ground (arith, h))
  same_option_iff (some x) none = (λ h. ground (arith, h), λ h. ground (arith, h))
  same_option_iff (some x) (some y) =
      (λ h. ap some ((a.same_key_iff x y).0 h), λ h. (a.same_key_iff x y).1 (ground (arith, h)))

  instance abbrev pub option_eq : Hashable (Option A)
  option_eq = record { same_key = same_option; same_key_iff = same_option_iff }

  abbrev pub same_list : List A → List A → Bool
  same_list [] [] = true
  same_list (x ∷ xs) (y ∷ ys) = x == y && same_list xs ys
  same_list _ _ = false

  pub same_list_iff : (x y : List A) → (same_list x y ≡ true) ↔ (x ≡ y)
  same_list_iff [] [] = (λ _. refl, λ _. refl)
  same_list_iff [] (y ∷ ys) = (λ h. ground (arith, h), λ h. ground (arith, h))
  same_list_iff (x ∷ xs) [] = (λ h. ground (arith, h), λ h. ground (arith, h))
  same_list_iff (x ∷ xs) (y ∷ ys) =
      let tests = both_true (x == y) (same_list xs ys) in
      let first = a.same_key_iff x y in
      let others = same_list_iff xs ys in
      (
        λ h. let (e, f) = tests.0 h in λ i. first.0 e i ∷ others.0 f i,
        λ h. tests.1 (first.1 (ground (arith, h)), others.1 (ground (arith, h))),
      )

  instance abbrev pub list_eq : Hashable (List A)
  list_eq = record { same_key = same_list; same_key_iff = same_list_iff }

module _ {ℓ κ} {A : Type ℓ} {B : Type κ} ⦃a : Hashable A⦄ ⦃b : Hashable B⦄ where
  abbrev pub same_pair : A × B → A × B → Bool
  same_pair (x, y) (v, w) = x == v && y == w

  pub same_pair_iff : (p q : A × B) → (same_pair p q ≡ true) ↔ (p ≡ q)
  same_pair_iff (x, y) (v, w) =
      let first = a.same_key_iff x v in
      let second = b.same_key_iff y w in
      let tests = both_true (x == v) (y == w) in
      (
        λ h. let (e, f) = tests.0 h in λ i. (first.0 e i, second.0 f i),
        λ h. tests.1 (first.1 (ap (λ p. p.0) h), second.1 (ap (λ p. p.1) h)),
      )

  instance abbrev pub pair_eq : Hashable (A × B)
  pair_eq = record { same_key = same_pair; same_key_iff = same_pair_iff }
