-- ===== src/Metrics/Unit.antt =====
-- metrics/base.py: `MetricUnit` and `_extract_metric_unit_value`.
pub mod Known
use aws_lambda_powertools_py.Common.{
  String, Bool, true, false, Option, none, some, List, [], ◌∷◌, if◌then◌else◌,
}
use aws_lambda_powertools_py.Common.Eq.{◌==◌, string_eq}
use aws_lambda_powertools_py.Common.Effect.{Result, ok, raised}
use aws_lambda_powertools_py.Metrics.Error.{Error, metric_unit_error}

pub data MetricUnit : Type 0 where
  seconds : MetricUnit
  microseconds : MetricUnit
  milliseconds : MetricUnit
  bytes : MetricUnit
  kilobytes : MetricUnit
  megabytes : MetricUnit
  gigabytes : MetricUnit
  terabytes : MetricUnit
  bits : MetricUnit
  kilobits : MetricUnit
  megabits : MetricUnit
  gigabits : MetricUnit
  terabits : MetricUnit
  percent : MetricUnit
  count : MetricUnit
  bytes_per_second : MetricUnit
  kilobytes_per_second : MetricUnit
  megabytes_per_second : MetricUnit
  gigabytes_per_second : MetricUnit
  terabytes_per_second : MetricUnit
  bits_per_second : MetricUnit
  kilobits_per_second : MetricUnit
  megabits_per_second : MetricUnit
  gigabits_per_second : MetricUnit
  terabits_per_second : MetricUnit
  count_per_second : MetricUnit

-- the name of a member
unfoldable pub member : MetricUnit → String
member seconds = "Seconds"
member microseconds = "Microseconds"
member milliseconds = "Milliseconds"
member bytes = "Bytes"
member kilobytes = "Kilobytes"
member megabytes = "Megabytes"
member gigabytes = "Gigabytes"
member terabytes = "Terabytes"
member bits = "Bits"
member kilobits = "Kilobits"
member megabits = "Megabits"
member gigabits = "Gigabits"
member terabits = "Terabits"
member percent = "Percent"
member count = "Count"
member bytes_per_second = "BytesPerSecond"
member kilobytes_per_second = "KilobytesPerSecond"
member megabytes_per_second = "MegabytesPerSecond"
member gigabytes_per_second = "GigabytesPerSecond"
member terabytes_per_second = "TerabytesPerSecond"
member bits_per_second = "BitsPerSecond"
member kilobits_per_second = "KilobitsPerSecond"
member megabits_per_second = "MegabitsPerSecond"
member gigabits_per_second = "GigabitsPerSecond"
member terabits_per_second = "TerabitsPerSecond"
member count_per_second = "CountPerSecond"

-- `.value`
unfoldable pub value : MetricUnit → String
value seconds = "Seconds"
value microseconds = "Microseconds"
value milliseconds = "Milliseconds"
value bytes = "Bytes"
value kilobytes = "Kilobytes"
value megabytes = "Megabytes"
value gigabytes = "Gigabytes"
value terabytes = "Terabytes"
value bits = "Bits"
value kilobits = "Kilobits"
value megabits = "Megabits"
value gigabits = "Gigabits"
value terabits = "Terabits"
value percent = "Percent"
value count = "Count"
value bytes_per_second = "Bytes/Second"
value kilobytes_per_second = "Kilobytes/Second"
value megabytes_per_second = "Megabytes/Second"
value gigabytes_per_second = "Gigabytes/Second"
value terabytes_per_second = "Terabytes/Second"
value bits_per_second = "Bits/Second"
value kilobits_per_second = "Kilobits/Second"
value megabits_per_second = "Megabits/Second"
value gigabits_per_second = "Gigabits/Second"
value terabits_per_second = "Terabits/Second"
value count_per_second = "Count/Second"

-- the members of the class in the order of their definition
unfoldable pub members : List MetricUnit
members =
    seconds ∷ microseconds ∷ milliseconds ∷ bytes ∷ kilobytes ∷ megabytes ∷ gigabytes ∷ terabytes
    ∷ bits ∷ kilobits ∷ megabits ∷ gigabits ∷ terabits ∷ percent ∷ count ∷ bytes_per_second
    ∷ kilobytes_per_second ∷ megabytes_per_second ∷ gigabytes_per_second ∷ terabytes_per_second
    ∷ bits_per_second ∷ kilobits_per_second ∷ megabits_per_second ∷ gigabits_per_second
    ∷ terabits_per_second ∷ count_per_second ∷ []

-- What `add_metric` takes for a unit.
pub data UnitArgument : Type 0 where
  unit : MetricUnit → UnitArgument
  text : String → UnitArgument

-- `MetricUnit[name]`, and `none` where no member has the name
unfoldable pub find_member : String → List MetricUnit → Option MetricUnit
unfolding member
find_member s [] = none
find_member s (u ∷ us) = if member u == s then some u else find_member s us

-- `s in self._metric_units`
unfoldable pub is_value : String → List MetricUnit → Bool
unfolding value
is_value s [] = false
is_value s (u ∷ us) = if value u == s then true else is_value s us

named : Option MetricUnit → String → String
named none s = s
named (some u) s = value u

-- A name of a member is replaced by the value of the member, and then the text is to be a value.
unfoldable pub extract_metric_unit_value : UnitArgument → Result Error String
unfolding find_member is_value members named
extract_metric_unit_value (unit u) = ok (value u)
extract_metric_unit_value (text s) =
    let t = named (find_member s members) s in
    if is_value t members then ok t else raised metric_unit_error
