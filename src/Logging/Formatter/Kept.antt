-- ===== src/Logging/Formatter/Kept.antt =====
-- `format`: the keys of the formatter that are in the log.
use aws_lambda_powertools_py.Common.{
  String, Bool, true, false, ◌&&◌, Option, some, List, [], ◌∷◌, any, ◌≡◌, ◌≢◌, refl, sym, ap, ◌∙◌,
  arith, if◌then◌else◌, Bool-cases, inl, inr,
}
use aws_lambda_powertools_py.Common.Eq.{◌==◌, string_eq}
use aws_lambda_powertools_py.Common.Dict.{Dict, get, contains, store, merge, get-store}
use aws_lambda_powertools_py.Common.Dict.Merge.{HasDistinctKeys}
use aws_lambda_powertools_py.Common.Effect.{Result, ok, raised}
use aws_lambda_powertools_py.Common.Ends.{Ends, returns, raises, Any, Ends-implies, Ends-returned}
use mathlib.Core.Path.{subst}
use aws_lambda_powertools_py.Logging.Formatter.NoNone.{and_then-Ends}
use aws_lambda_powertools_py.Common.Json.{Json, null, bool, num, str, arr, obj, truthy}
use aws_lambda_powertools_py.Logging.Formatter.{
  Formatter, LogRecord, Library, is_reserved, strip_none_records, and_then, fill, fill_each,
  extras_of, completed, log_of, extract_log_keys, extract_log_message,
}

then-Ends :
    {A B : Type 0} {Q : A → Type 0} {P : B → Type 0} (r : Result String A) (f : A → Result String B)
    → Ends Q Any r
    → ((a : A) → Q a → Ends P Any (f a))
    → Ends P Any (and_then r f)
then-Ends (ok a) f (returns q) h = h a q
then-Ends (raised e) f q h = raises tt

-- the keys that `format` adds
abbrev pub added_keys : List String
added_keys = "message" ∷ "exception" ∷ "exception_name" ∷ "xray_trace_id" ∷ []

module _ (j : String) where
  -- the rest of a dict changes to one that keeps the value
  past :
      (k : String) (w : Json) (d d' : Dict String Json) (v : Json)
      → get j ((k, w) ∷ d) ≡ some v
      → (get j d ≡ some v → get j d' ≡ some v)
      → get j ((k, w) ∷ d') ≡ some v
  unfolding get
  past k w d d' v h rest = elim (Bool-cases (k == j)) [
    | inl same ↦ rw same (ground (arith, h, same))
    | inr other ↦ rw other (rest (ground (arith, h, other)))
  ]

  get-strip_none_records :
      (d : Dict String Json) (v : Json)
      → get j d ≡ some v
      → v ≢ null
      → get j (strip_none_records d) ≡ some v
  unfolding strip_none_records get
  get-strip_none_records [] v h full = h
  get-strip_none_records ((k, null) ∷ d) v h full = elim (Bool-cases (k == j)) [
    | inl same ↦ absurd (full (ground (arith, h, same)))
    | inr other ↦ get-strip_none_records d v (ground (arith, h, other)) full
  ]
  get-strip_none_records ((k, bool b) ∷ d) v h full =
      past k (bool b) d (strip_none_records d) v h (λ e. get-strip_none_records d v e full)
  get-strip_none_records ((k, num n) ∷ d) v h full =
      past k (num n) d (strip_none_records d) v h (λ e. get-strip_none_records d v e full)
  get-strip_none_records ((k, str s) ∷ d) v h full =
      past k (str s) d (strip_none_records d) v h (λ e. get-strip_none_records d v e full)
  get-strip_none_records ((k, arr vs) ∷ d) v h full =
      past k (arr vs) d (strip_none_records d) v h (λ e. get-strip_none_records d v e full)
  get-strip_none_records ((k, obj fs) ∷ d) v h full =
      past k (obj fs) d (strip_none_records d) v h (λ e. get-strip_none_records d v e full)

  get-merge_other :
      (items d : Dict String Json) → contains j items ≡ false → get j (merge items d) ≡ get j d
  unfolding merge contains
  get-merge_other [] d h = refl
  get-merge_other ((k, v) ∷ items) d h = elim (Bool-cases (k == j)) [
    | inl same ↦ absurd (ground (arith, h, same))
    | inr other ↦
        get-merge_other items (store k v d) (ground (arith, h, other))
        ∙ get-store k j v d
        ∙ ap (λ b. if b then some v else get j d) other
  ]

  other_key :
      (k : String) (v : Json) (d : Dict String Json)
      → contains j ((k, v) ∷ d) ≡ false
      → ((k == j) ≡ false) × (contains j d ≡ false)
  unfolding contains
  other_key k v d h = elim (Bool-cases (k == j)) [
    | inl same ↦ absurd (ground (arith, h, same))
    | inr other ↦ (other, ground (arith, h, other))
  ]

  if_extra :
      (b : Bool) (k : String) (v : Json) (d : Dict String Json)
      → (k == j) ≡ false
      → contains j d ≡ false
      → contains j (if b then d else (k, v) ∷ d) ≡ false
  unfolding contains
  if_extra true k v d other h = h
  if_extra false k v d other h = rw other h

  contains-extras_of :
      (d : Dict String Json) → contains j d ≡ false → contains j (extras_of d) ≡ false
  unfolding extract_log_keys contains
  contains-extras_of [] h = refl
  contains-extras_of ((k, v) ∷ d) h =
      let (other, others) = other_key k v d h in
      if_extra (is_reserved k) k v (extras_of d) other (contains-extras_of d others)

module _ (lib : Library) (j : String) where
  fill_each-other :
      (keys attributes done : Dict String Json)
      → contains j keys ≡ false
      → Ends (λ d. get j d ≡ get j done) Any (fill_each lib keys attributes done)
  unfolding extract_log_keys contains
  fill_each-other [] attributes done h = returns refl
  fill_each-other ((k, v) ∷ keys) attributes done h =
      let (other, others) = other_key j k v keys h in
      and_then-Ends (fill lib k v attributes) _ (λ w.
        Ends-implies
          (λ d e. e ∙ get-store k j w done ∙ ap (λ b. if b then some w else get j done) other)
          (fill_each-other keys attributes (store k w done) others))

  if_plain : {A : Type 0} (b c : Bool) (x y : A) → c ≡ false → (if b && c then x else y) ≡ y
  if_plain true c x y h = rw h refl
  if_plain false c x y h = refl

  filled :
      (k : String) (w : Json) (attributes : Dict String Json)
      → is_reserved k ≡ false
      → fill lib k w attributes ≡ ok w
  unfolding extract_log_keys
  filled k w attributes h = if_plain (truthy w) (is_reserved k) _ _ h

  fill_each-kept :
      (keys attributes done : Dict String Json) (v : Json)
      → HasDistinctKeys keys
      → is_reserved j ≡ false
      → get j keys ≡ some v
      → Ends (λ d. get j d ≡ some v) Any (fill_each lib keys attributes done)
  unfolding extract_log_keys get
  fill_each-kept [] attributes done v distinct plain h = absurd (ground (arith, h))
  fill_each-kept ((k, w) ∷ keys) attributes done v (fresh, distinct) plain h =
      elim (Bool-cases (k == j)) [
        | inl same ↦
            let at = (string_eq.same_key_iff k j).0 same in
            subst
              (λ r.
                Ends (λ d. get j d ≡ some v) Any
                  (and_then r (λ x. fill_each lib keys attributes (store k x done))))
              (sym (filled k w attributes (ap is_reserved at ∙ plain)))
              (Ends-implies
                (λ d e.
                  e
                  ∙ get-store k j w done
                  ∙ ap (λ b. if b then some w else get j done) same
                  ∙ ground (arith, h, same))
                (fill_each-other keys attributes (store k w done)
                  (ap (λ i. contains i keys) (sym at) ∙ fresh)))
        | inr other ↦ and_then-Ends (fill lib k w attributes) _ (λ x.
            fill_each-kept keys attributes (store k x done) v distinct plain
              (ground (arith, h, other)))
      ]

  not_named :
      (k : String) (names : List String)
      → any (λ a. a == j) (k ∷ names) ≡ false
      → ((k == j) ≡ false) × (any (λ a. a == j) names ≡ false)
  not_named k names h = elim (Bool-cases (k == j)) [
    | inl same ↦ absurd (ground (arith, h, same))
    | inr other ↦ (other, ground (arith, h, other))
  ]

  -- what `format` adds leaves the other keys
  get-completed :
      (trace_id : Option String) (r : LogRecord) (message : Json) (log : Dict String Json)
      → any (λ a. a == j) added_keys ≡ false
      → get j (completed lib trace_id r message log) ≡ get j log
  unfolding log_of
  get-completed trace_id r message log h =
      let (m, h1) = not_named "message" ("exception" ∷ "exception_name" ∷ "xray_trace_id" ∷ []) h in
      let (e, h2) = not_named "exception" ("exception_name" ∷ "xray_trace_id" ∷ []) h1 in
      let (n, h3) = not_named "exception_name" ("xray_trace_id" ∷ []) h2 in
      let (x, h4) = not_named "xray_trace_id" [] h3 in
      rw
        (
          get-store "xray_trace_id" j _ _,
          x,
          get-store "exception_name" j _ _,
          n,
          get-store "exception" j _ _,
          e,
          get-store "message" j message log,
          m,
        )
        refl

  extracted :
      (f : Formatter) (r : LogRecord) (v : Json)
      → HasDistinctKeys f.log_format
      → get j f.log_format ≡ some v
      → is_reserved j ≡ false
      → contains j (store "asctime" (str r.asctime) r.attributes) ≡ false
      → Ends (λ d. get j d ≡ some v) Any (extract_log_keys lib f r)
  unfolding extract_log_keys
  extracted f r v distinct there plain fresh =
      let attributes = store "asctime" (str r.asctime) r.attributes in
      then-Ends (fill_each lib f.log_format attributes [])
        (λ log. ok (merge (extras_of attributes) log))
        (fill_each-kept f.log_format attributes [] v distinct plain there)
        (λ log k. returns (
          get-merge_other j (extras_of attributes) log (contains-extras_of j attributes fresh) ∙ k))

  -- A key of the formatter stays in the log with its value, if the value is not None, the key is
  -- neither an attribute of `logging` nor one that `format` adds, and the record has none of its name.
  pub log_of-kept :
      (trace_id : Option String) (f : Formatter) (r : LogRecord) (v : Json) (log : Dict String Json)
      → HasDistinctKeys f.log_format
      → get j f.log_format ≡ some v
      → v ≢ null
      → is_reserved j ≡ false
      → any (λ a. a == j) added_keys ≡ false
      → contains j (store "asctime" (str r.asctime) r.attributes) ≡ false
      → log_of lib trace_id f r ≡ ok log
      → get j log ≡ some v
  unfolding log_of extract_log_keys
  log_of-kept trace_id f r v log distinct there full plain added fresh e =
      Ends-returned {P = λ d. get j d ≡ some v}
        (then-Ends (extract_log_keys lib f r) _ (extracted f r v distinct there plain fresh)
          (λ keys k. and_then-Ends (extract_log_message lib r) _ (λ message. returns (
            get-strip_none_records j (completed lib trace_id r message keys) v
              (get-completed trace_id r message keys added ∙ k) full))))
        e
