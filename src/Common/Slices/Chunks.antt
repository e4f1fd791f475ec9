-- ===== src/Common/Slices/Chunks.antt =====
-- What `slice_dictionary` yields.
use aws_lambda_powertools_py.Common.{
  ℕ, zero, suc, ◌+◌, ◌-◌, ◌*◌, ◌≤◌, List, [], ◌∷◌, length, take, All, ◌≡◌, refl, arith,
}
use aws_lambda_powertools_py.Common.Slices.{slice_dictionary, slice_from}

one_more : (n k : ℕ) → suc n * k ≡ k + n * k
one_more n k = ground arith

module _ {A : Type 0} where
  slice_from-All :
      (size : ℕ) (items : List A) (wait : ℕ) (xs : List A)
      → All (λ chunk. chunk ≡ take size items) (slice_from size items wait xs)
  unfolding slice_dictionary
  slice_from-All size items wait [] = tt
  slice_from-All size items zero (x ∷ xs) = (refl, slice_from-All size items _ xs)
  slice_from-All size items (suc wait) (x ∷ xs) = slice_from-All size items wait xs

  length-slice_from :
      (size : ℕ) (items : List A) (wait : ℕ) (xs : List A)
      → wait ≤ size
      → (length xs ≤ length (slice_from (suc size) items wait xs) * suc size + wait)
        × (length (slice_from (suc size) items wait xs) * suc size + wait ≤ length xs + size)
  unfolding slice_dictionary
  length-slice_from size items wait [] h = (omega arith, omega (arith, h))
  length-slice_from size items zero (x ∷ xs) h =
      let (low, high) = length-slice_from size items (suc size - 1) xs (omega arith) in
      let n = length (slice_from (suc size) items (suc size - 1) xs) in
      (omega (arith, low, one_more n (suc size)), omega (arith, high, one_more n (suc size)))
  length-slice_from size items (suc wait) (x ∷ xs) h =
      let (low, high) = length-slice_from size items wait xs (omega (arith, h)) in
      (omega (arith, low), omega (arith, high))

  -- A dictionary is sliced into as many chunks as its items need, but each of the chunks is the first
  -- one: an item after the first `chunk_size` is in none of them.
  pub slice_dictionary-All :
      (items : List A) (size : ℕ)
      → All (λ chunk. chunk ≡ take (suc size) items) (slice_dictionary items (suc size))
        × (length items ≤ length (slice_dictionary items (suc size)) * suc size)
        × (length (slice_dictionary items (suc size)) * suc size ≤ length items + size)
  unfolding slice_dictionary
  slice_dictionary-All items size =
      let (low, high) = length-slice_from size items 0 items (omega arith) in
      (slice_from-All (suc size) items 0 items, omega (arith, low), omega (arith, high))
