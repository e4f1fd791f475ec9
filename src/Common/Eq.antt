-- ===== src/Common/Eq.antt =====
-- Python's `==` on hashable keys, as an interface.
use Prim.Native.String.{String}
use mathlib.Core.Path.{◌≡◌}
use mathlib.Core.Logic.{◌↔◌}
use mathlib.Core.Bool.{Bool, true}
use text.Mathlib.Text
use text.Mathlib.TextEquality

-- `__eq__` of a type of keys, which decides equality.
pub record Hashable {κ} (K : Type κ) : Type κ where
  pub same_key : K → K → Bool
  pub same_key_iff : (j k : K) → (same_key j k ≡ true) ↔ (j ≡ k)

infix 50 ◌==◌
abbrev pub ◌==◌ {κ} : {K : Type κ} ⦃hash : Hashable K⦄ → K → K → Bool
◌==◌ ⦃hash⦄ j k = hash.same_key j k

-- texts, by their characters
instance abbrev pub string_eq : Hashable String
string_eq = record {
  same_key = λ s t. Text.◌==◌ s t;
  same_key_iff = λ s t. TextEquality.eq_iff s t;
}
