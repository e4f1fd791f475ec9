-- ===== src/EventHandler/Header/Values.antt =====
-- What the serializers of multiple and of single values keep of the headers.
use aws_lambda_powertools_py.Common.{
  String, Bool, true, false, Option, none, some, List, [], ◌∷◌, ◌++◌, if◌then◌else◌, ◌≡◌, ◌≢◌, refl,
  sym, ap, ◌∙◌, arith, All, Bool-cases, inl, inr,
}
use mathlib.Core.List.{append-nil, append_assoc}
use aws_lambda_powertools_py.Common.Eq.{◌==◌, string_eq}
use aws_lambda_powertools_py.Common.Dict.{Dict, get, contains, store, get-store, contains-eq-get}
use aws_lambda_powertools_py.Common.Dict.Merge.{HasDistinctKeys}
use aws_lambda_powertools_py.EventHandler.Header.{
  HeaderValue, Headers, multi, multi_value, single, single_value, or_empty, append_to, append_each,
  append_all, add_cookies, values_of, last, last_cookie, on_last, as_single, keep_last, serialize,
}

if_append :
    (b : Bool) (xs ys : List String)
    → (if b then xs else []) ++ (if b then ys else []) ≡ (if b then xs ++ ys else [])
if_append true xs ys = refl
if_append false xs ys = refl

if_nil : (b : Bool) → ◌≡◌ {A = List String} (if b then [] else []) []
if_nil true = refl
if_nil false = refl

module _ (j : String) where
  appended : (k : String) → List String → List String
  appended k vs = if k == j then vs else []

  append_to-get :
      (k v : String) (d : Dict String (List String))
      → or_empty (get j (append_to k v d)) ≡ or_empty (get j d) ++ appended k (v ∷ [])
  unfolding appended
  append_to-get k v d = elim (Bool-cases (k == j)) [
    | inl same ↦
        rw (get-store k j (or_empty (get k d) ++ v ∷ []) d, same)
          (ap (λ i. or_empty (get i d) ++ v ∷ []) ((string_eq.same_key_iff k j).0 same))
    | inr other ↦ rw (get-store k j (or_empty (get k d) ++ v ∷ []) d, other) (sym (append-nil _))
  ]

  append_each-get :
      (k : String) (vs : List String) (d : Dict String (List String))
      → or_empty (get j (append_each k vs d)) ≡ or_empty (get j d) ++ appended k vs
  unfolding append_each appended
  append_each-get k [] d =
      sym (append-nil _) ∙ ap (λ xs. or_empty (get j d) ++ xs) (sym (if_nil (k == j)))
  append_each-get k (v ∷ vs) d =
      append_each-get k vs (append_to k v d)
      ∙ ap (λ xs. xs ++ appended k vs) (append_to-get k v d)
      ∙ append_assoc (or_empty (get j d)) (appended k (v ∷ [])) (appended k vs)
      ∙ ap (λ xs. or_empty (get j d) ++ xs) (if_append (k == j) (v ∷ []) vs)

  -- the values under a key, of all headers that have it
  all_values : Headers → List String
  unfolding appended
  all_values [] = []
  all_values ((k, v) ∷ headers) = appended k (values_of v) ++ all_values headers

  append_all-get :
      (headers : Headers) (d : Dict String (List String))
      → or_empty (get j (append_all headers d)) ≡ or_empty (get j d) ++ all_values headers
  unfolding append_all all_values
  append_all-get [] d = sym (append-nil _)
  append_all-get ((k, v) ∷ headers) d =
      append_all-get headers (append_each k (values_of v) d)
      ∙ ap (λ xs. xs ++ all_values headers) (append_each-get k (values_of v) d)
      ∙ append_assoc (or_empty (get j d)) (appended k (values_of v)) (all_values headers)

  abbrev pub header_values : Option HeaderValue → List String
  header_values none = []
  header_values (some v) = values_of v

  no_values : (headers : Headers) → get j headers ≡ none → all_values headers ≡ []
  unfolding all_values get
  no_values [] h = refl
  no_values ((k, v) ∷ headers) h = elim (Bool-cases (k == j)) [
    | inl same ↦ absurd (ground (arith, h, same))
    | inr other ↦ rw other (no_values headers (ground (arith, h, other)))
  ]

  get-none : (headers : Headers) → contains j headers ≡ false → get j headers ≡ none
  get-none headers h = ground (arith, contains-eq-get j headers, h)

  all_values-get :
      (headers : Headers)
      → HasDistinctKeys headers
      → all_values headers ≡ header_values (get j headers)
  unfolding all_values get
  all_values-get [] h = refl
  all_values-get ((k, v) ∷ headers) (fresh, h) = elim (Bool-cases (k == j)) [
    | inl same ↦ rw same (
        ap (λ xs. values_of v ++ xs)
          (no_values headers (
            get-none headers
              (ap (λ i. contains i headers) (sym ((string_eq.same_key_iff k j).0 same)) ∙ fresh)))
        ∙ append-nil _)
    | inr other ↦ rw other (all_values-get headers h)
  ]

  -- The serializer of multiple values loses nothing: under each name stand the values of the header
  -- of that name, in order, and under Set-Cookie the cookies after them.
  pub serialize-multi_value :
      (headers : Headers) (cookies : List String)
      → HasDistinctKeys headers
      → (d : Dict String (List String)) × (serialize multi_value headers cookies ≡ some (multi d))
        × (or_empty (get j d)
            ≡ header_values (get j headers) ++ (if "Set-Cookie" == j then cookies else []))
  unfolding serialize appended get
  serialize-multi_value headers cookies h = (
    add_cookies cookies (append_all headers []),
    refl,
    append_each-get "Set-Cookie" cookies (append_all headers [])
        ∙ ap (λ xs. xs ++ (if "Set-Cookie" == j then cookies else []))
            (append_all-get headers [] ∙ all_values-get headers h),
  )

-- a header that has a value
abbrev pub IsFull : String × HeaderValue → Type 0
IsFull q = values_of q.1 ≢ []

last-some : (vs : List String) → vs ≢ [] → (v : String) × (last vs ≡ some v)
unfolding last
last-some [] full = absurd (full refl)
last-some (v ∷ []) full = (v, refl)
last-some (v ∷ (w ∷ vs)) full = last-some (w ∷ vs) (λ e. ground (arith, e))

abbrev pub last_value : Option HeaderValue → Option String → Option String
last_value none rest = rest
last_value (some v) rest = last (values_of v)

one_last :
    (j k : String) (v : HeaderValue) (x : String) (headers : Headers) (base : Dict String String)
    → contains k headers ≡ false
    → last (values_of v) ≡ some x
    → last_value (get j headers) (get j (store k x base))
      ≡ last_value (if k == j then some v else get j headers) (get j base)
one_last j k v x headers base fresh e = elim (Bool-cases (k == j)) [
  | inl same ↦
      ap (λ o. last_value o (get j (store k x base)))
        (get-none j headers
          (ap (λ i. contains i headers) (sym ((string_eq.same_key_iff k j).0 same)) ∙ fresh))
      ∙ get-store k j x base
      ∙ ap (λ b. if b then some x else get j base) same
      ∙ sym e
      ∙ ap (λ b. last_value (if b then some v else get j headers) (get j base)) (sym same)
  | inr other ↦ rw (get-store k j x base, other) refl
]

cookie_get :
    (j : String) (o : Option String)
    → get j (last_cookie o) ≡ (if "Set-Cookie" == j then o else none)
unfolding serialize get
cookie_get j none = ground arith
cookie_get j (some c) = ground arith

keep_last-get :
    (headers : Headers) (base : Dict String String)
    → HasDistinctKeys headers
    → All IsFull headers
    → (d : Dict String String) × (keep_last headers base ≡ some d)
      × ((j : String) → get j d ≡ last_value (get j headers) (get j base))
unfolding keep_last get
keep_last-get [] base h full = (base, refl, λ j. refl)
keep_last-get ((k, v) ∷ headers) base (fresh, h) (has_value, full) =
    let (x, e) = last-some (values_of v) has_value in
    let (d, run, each) = keep_last-get headers (store k x base) h full in
    (
      d,
      (λ i. on_last (e i) (λ y. keep_last headers (store k y base))) ∙ run,
      λ j. each j ∙ one_last j k v x headers base fresh e,
    )

-- With a single value under each name, the serializer keeps the last value of each header, and under
-- Set-Cookie the last cookie if no header has that name: it returns if no header is without values.
pub serialize-single_value :
    (headers : Headers) (cookies : List String)
    → HasDistinctKeys headers
    → All IsFull headers
    → (d : Dict String String) × (serialize single_value headers cookies ≡ some (single d))
      × ((j : String)
          → get j d ≡ last_value (get j headers) (if "Set-Cookie" == j then last cookies else none))
unfolding serialize get
serialize-single_value headers cookies h full =
    let (d, run, each) = keep_last-get headers (last_cookie (last cookies)) h full in
    (
      d,
      ap as_single run,
      λ j. each j ∙ ap (last_value (get j headers)) (cookie_get j (last cookies)),
    )
