-- ===== src/Common/Slices.antt =====
-- shared/functions.py: `slice_dictionary`.
pub mod Chunks
use Prim.Native.Nat.{ℕ, zero, suc, ◌-◌}
use mathlib.Core.List.{List, [], ◌∷◌}
use aws_lambda_powertools_py.Common.Lists.{take}

-- `slice_dictionary` of shared/functions.py: each step of the range slices the data from the start.
slice_from : {A : Type 0} → ℕ → List A → ℕ → List A → List (List A)
slice_from size items wait [] = []
slice_from size items zero (x ∷ xs) = take size items ∷ slice_from size items (size - 1) xs
slice_from size items (suc wait) (x ∷ xs) = slice_from size items wait xs

unfoldable pub slice_dictionary : {A : Type 0} → List A → ℕ → List (List A)
unfolding slice_from
slice_dictionary items chunk_size = slice_from chunk_size items 0 items
