-- ===== src/Parameters/Ssm/Chunks.antt =====
-- `_get_parameters_by_name_in_chunks`: which parameters it can fetch.
use mathlib.Core.Path.{subst}
use aws_lambda_powertools_py.Common.{
  String, Bool, true, Option, none, some, List, [], ◌∷◌, ◌++◌, take, All, ◌≡◌, refl, sym, ap, ◌∙◌,
  arith, if◌then◌else◌, Bool-cases, inl, inr,
}
use aws_lambda_powertools_py.Common.Eq.{◌==◌, string_eq}
use aws_lambda_powertools_py.Common.Dict.{Dict, get, contains, store, contains-eq-get}
use aws_lambda_powertools_py.Common.Dict.Merge.{contains-store}
use aws_lambda_powertools_py.Common.Effect.{Op, Result, ok, raised, lift}
use aws_lambda_powertools_py.Common.Ends.{
  Ends, returns, raises, Any, Ends-Any, Ends-bind, Ends-returned,
}
use aws_lambda_powertools_py.Parameters.Transform.{Error, Value, Library}
use aws_lambda_powertools_py.Parameters.Provider.{World, add_to_cache}
use aws_lambda_powertools_py.Parameters.Ssm.{
  Found, ApiError, unrecoverable, another, Client, Fetched, max_get_parameters_item, without, names,
  transform_parameter, keep_parameter, transform_and_cache, invalid_parameters,
  after_get_parameters, call_client, get_chunk, get_chunks, get_in_chunks,
}
use aws_lambda_powertools_py.Common.Slices.{slice_dictionary}
use aws_lambda_powertools_py.Parameters.Ssm.Options.{Wanted}
use aws_lambda_powertools_py.Common.Slices.Chunks.{slice_dictionary-All}

-- every name of the first dictionary is in the second
abbrev IsWithin : {A B : Type 0} → Dict String A → Dict String B → Type 0
IsWithin d wanted = (j : String) → contains j d ≡ true → contains j wanted ≡ true

store-IsWithin :
    {A B : Type 0} (k : String) (a : A) (d : Dict String A) (wanted : Dict String B)
    → contains k wanted ≡ true
    → IsWithin d wanted
    → IsWithin (store k a d) wanted
store-IsWithin k a d wanted there h j e = elim (Bool-cases (k == j)) [
  | inl same ↦ ap (λ i. contains i wanted) (sym ((string_eq.same_key_iff k j).0 same)) ∙ there
  | inr other ↦
      h j (sym (contains-store k j a d ∙ ap (λ b. if b then true else contains j d) other) ∙ e)
]

module _ {V Db : Type 0} (lib : Library V) (text : String → V) where
  keep-IsWithin :
      (name v : String) (o : Option Wanted)
      (rest : Value V → Op (World V Db) Error (Dict String (Value V))) (wanted : Dict String Wanted)
      (w : World V Db)
      → (o ≡ get name wanted)
      → ((t : Value V) (u : World V Db)
          → contains name wanted ≡ true
          → Ends (λ d. IsWithin d wanted) Any (rest t u).0)
      → Ends (λ d. IsWithin d wanted) Any (keep_parameter lib text name v o rest w).0
  unfolding transform_and_cache
  keep-IsWithin name v none rest wanted w e h = raises tt
  keep-IsWithin name v (some o) rest wanted w e h =
      Ends-bind (lift (transform_parameter lib text o.transform name v)) _ w (Ends-Any _) (λ t u _.
        Ends-bind (add_to_cache (name, o.transform) t o.max_age) _ u (Ends-Any _)
          (λ _ x _. h t x (ground (arith, e, contains-eq-get name wanted))))

  transform_and_cache-IsWithin :
      (wanted : Dict String Wanted) (answers : List (String × String))
      (response : Dict String (Value V)) (w : World V Db)
      → IsWithin response wanted
      → Ends (λ d. IsWithin d wanted) Any (transform_and_cache lib text wanted answers response w).0
  unfolding transform_and_cache
  transform_and_cache-IsWithin wanted [] response w h = returns h
  transform_and_cache-IsWithin wanted ((name, v) ∷ answers) response w h =
      keep-IsWithin name v (get name wanted) _ wanted w refl (λ t u there.
        transform_and_cache-IsWithin wanted answers (store name t response) u
          (store-IsWithin name t response wanted there h))

module _ {V Db : Type 0} (lib : Library V) (client : Client V Db) where
  after-IsWithin :
      (raise_on_error : Bool) (wanted : Dict String Wanted) (r : Result ApiError (Found))
      (w : World V Db)
      → Ends
          (λ (f : Fetched V). IsWithin f.0 wanted)
          Any
          (after_get_parameters lib client raise_on_error wanted r w).0
  unfolding get_chunk contains
  after-IsWithin raise_on_error wanted (raised unrecoverable) w = returns (λ j e. ground (arith, e))
  after-IsWithin raise_on_error wanted (raised (another e)) w = raises tt
  after-IsWithin raise_on_error wanted (ok found) w =
      Ends-bind (lift (invalid_parameters raise_on_error found.invalid)) _ w (Ends-Any _)
        (λ failed u _.
          Ends-bind (transform_and_cache lib client.text wanted found.parameters []) _ u
            (transform_and_cache-IsWithin lib client.text wanted found.parameters [] u
              (λ j e. ground (arith, e)))
            (λ response x h. returns h))

  get_chunks-IsWithin :
      (raise_on_error decrypt : Bool) (first : Dict String Wanted)
      (chunks : List (Dict String Wanted)) (response : Dict String (Value V)) (errors : List String)
      (w : World V Db)
      → All (λ chunk. chunk ≡ first) chunks
      → IsWithin response first
      → Ends
          (λ (f : Fetched V). IsWithin f.0 first)
          Any
          (get_chunks lib client raise_on_error decrypt chunks response errors w).0
  unfolding get_in_chunks get_chunk
  get_chunks-IsWithin raise_on_error decrypt first [] response errors w all_first h = returns h
  get_chunks-IsWithin raise_on_error decrypt first (chunk ∷ chunks) response errors w (e, all_first)
        h =
      Ends-bind (get_chunk lib client raise_on_error decrypt chunk) _ w
        (let (r, u) = call_client lib client decrypt (names chunk) w in
          subst
            (λ d.
              Ends (λ (f : Fetched V). IsWithin f.0 d) Any
                (after_get_parameters lib client raise_on_error chunk r u).0)
            e (after-IsWithin raise_on_error chunk r u))
        (λ f u k.
          get_chunks-IsWithin raise_on_error decrypt first chunks f.0 (errors ++ f.1) u all_first k)

  -- However many parameters are asked for, and whatever the API answers, what is fetched and returned
  -- is among the first ten of those that are not cached.
  pub get_in_chunks-first_ten :
      (raise_on_error decrypt : Bool) (batch : Dict String Wanted) (cache : Dict String (Value V))
      (w : World V Db) (f : Fetched V) (name : String)
      → (get_in_chunks lib client raise_on_error decrypt batch cache w).0 ≡ ok f
      → contains name f.0 ≡ true
      → contains name (take max_get_parameters_item (without batch cache)) ≡ true
  unfolding get_in_chunks contains
  get_in_chunks-first_ten raise_on_error decrypt batch cache w f name e =
      Ends-returned
        (get_chunks-IsWithin raise_on_error decrypt (take 10 (without batch cache))
          (slice_dictionary (without batch cache) 10) [] [] w
          (slice_dictionary-All (without batch cache) 9).0 (λ j k. ground (arith, k)))
        e name
