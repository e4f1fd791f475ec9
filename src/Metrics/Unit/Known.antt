-- ===== src/Metrics/Unit/Known.antt =====
-- `_extract_metric_unit_value` takes the names and the values of the members, and nothing else.
use aws_lambda_powertools_py.Common.{
  ◌≡◌, ◌↔◌, refl, sym, ap, ◌∙◌, String, Bool, true, false, Option, none, some, List, [], ◌∷◌, ◌⊎◌,
  inl, inr, if◌then◌else◌, Bool-cases, arith,
}
use aws_lambda_powertools_py.Common.Eq.{◌==◌, string_eq}
use aws_lambda_powertools_py.Common.Effect.{ok, raised}
use aws_lambda_powertools_py.Metrics.Error.{metric_unit_error}
use aws_lambda_powertools_py.Metrics.Unit.{
  MetricUnit, member, value, members, text, find_member, is_value, named, extract_metric_unit_value,
  seconds, microseconds, milliseconds, bytes, kilobytes, megabytes, gigabytes, terabytes, bits,
  kilobits, megabits, gigabits, terabits, percent, count, bytes_per_second, kilobytes_per_second,
  megabytes_per_second, gigabytes_per_second, terabytes_per_second, bits_per_second,
  kilobits_per_second, megabits_per_second, gigabits_per_second, terabits_per_second,
  count_per_second,
}

from_name : (u : MetricUnit) → extract_metric_unit_value (text (member u)) ≡ ok (value u)
unfolding extract_metric_unit_value
from_name seconds = refl
from_name microseconds = refl
from_name milliseconds = refl
from_name bytes = refl
from_name kilobytes = refl
from_name megabytes = refl
from_name gigabytes = refl
from_name terabytes = refl
from_name bits = refl
from_name kilobits = refl
from_name megabits = refl
from_name gigabits = refl
from_name terabits = refl
from_name percent = refl
from_name count = refl
from_name bytes_per_second = refl
from_name kilobytes_per_second = refl
from_name megabytes_per_second = refl
from_name gigabytes_per_second = refl
from_name terabytes_per_second = refl
from_name bits_per_second = refl
from_name kilobits_per_second = refl
from_name megabits_per_second = refl
from_name gigabits_per_second = refl
from_name terabits_per_second = refl
from_name count_per_second = refl

from_value : (u : MetricUnit) → extract_metric_unit_value (text (value u)) ≡ ok (value u)
unfolding extract_metric_unit_value
from_value seconds = refl
from_value microseconds = refl
from_value milliseconds = refl
from_value bytes = refl
from_value kilobytes = refl
from_value megabytes = refl
from_value gigabytes = refl
from_value terabytes = refl
from_value bits = refl
from_value kilobits = refl
from_value megabits = refl
from_value gigabits = refl
from_value terabits = refl
from_value percent = refl
from_value count = refl
from_value bytes_per_second = refl
from_value kilobytes_per_second = refl
from_value megabytes_per_second = refl
from_value gigabytes_per_second = refl
from_value terabytes_per_second = refl
from_value bits_per_second = refl
from_value kilobits_per_second = refl
from_value megabits_per_second = refl
from_value gigabits_per_second = refl
from_value terabits_per_second = refl
from_value count_per_second = refl

find_member-some :
    (s : String) (us : List MetricUnit) (u : MetricUnit) → find_member s us ≡ some u → s ≡ member u
unfolding find_member
find_member-some s [] u h = ground arith
find_member-some s (v ∷ us) u h =
    ground (arith, string_eq.same_key_iff (member v) s, find_member-some s us u)

is_value-true :
    (s : String) (us : List MetricUnit) → is_value s us ≡ true → (u : MetricUnit) × (s ≡ value u)
unfolding is_value
is_value-true s [] h = ground arith
is_value-true s (v ∷ us) h = elim (Bool-cases (value v == s)) [
  | inl same ↦ (v, sym ((string_eq.same_key_iff (value v) s).0 same))
  | inr other ↦ is_value-true s us (ground (arith, h, other))
]

passed :
    (b : Bool) (x v : String)
    → (if b then ok x else raised metric_unit_error) ≡ ok v
    → (b ≡ true) × (v ≡ x)
passed true x v h = (refl, ground (arith, h))
passed false x v h = ground (arith, h)

accepted :
    (o : Option MetricUnit) (s v : String)
    → ((u : MetricUnit) → o ≡ some u → s ≡ member u)
    → (if is_value (named o s) members then ok (named o s) else raised metric_unit_error) ≡ ok v
    → (u : MetricUnit) × ((s ≡ member u) ⊎ (s ≡ value u)) × (v ≡ value u)
unfolding extract_metric_unit_value
accepted none s v found h =
    let (known, same) = passed (is_value s members) s v h in
    let (u, e) = is_value-true s members known in (u, inr e, same ∙ e)
accepted (some u) s v found h =
    (u, inl (found u refl), (passed (is_value (value u) members) _ v h).1)

-- A text is taken for a unit exactly if it is the name or the value of a member, and then the result
-- is the value of that member; every other text is refused.
pub extract_metric_unit_value-known :
    (s v : String)
    → (extract_metric_unit_value (text s) ≡ ok v)
      ↔ ((u : MetricUnit) × ((s ≡ member u) ⊎ (s ≡ value u)) × (v ≡ value u))
unfolding extract_metric_unit_value
extract_metric_unit_value-known s v = (
  accepted (find_member s members) s v (find_member-some s members),
  λ known.
      let (u, from, same) = known in
      elim from [
        | inl e ↦ ap (λ t. extract_metric_unit_value (text t)) e ∙ from_name u ∙ ap ok (sym same)
        | inr e ↦ ap (λ t. extract_metric_unit_value (text t)) e ∙ from_value u ∙ ap ok (sym same)
      ],
)
