-- ===== src/Idempotency/DynamoDb/RoundTrip.antt =====
-- The item of a record, read back.
use aws_lambda_powertools_py.Common.{
  ℕ, String, Bool, true, false, Option, none, some, List, [], ◌∷◌, if◌then◌else◌, ◌≡◌, ◌≢◌, refl,
  sym, ◌∙◌, arith, All,
}
use aws_lambda_powertools_py.Common.Eq.{string_eq}
use aws_lambda_powertools_py.Common.Dict.{get, store, get-store}
use aws_lambda_powertools_py.Common.Effect.{Result, ok}
use aws_lambda_powertools_py.Idempotency.Error.{Error}
use aws_lambda_powertools_py.Idempotency.Record.{DataRecord}
use aws_lambda_powertools_py.Idempotency.DynamoDb.{
  Attribute, text, number, Item, Settings, item_of, item_to_data_record, with_in_progress, required,
  optional, present, as_text, as_number, and_then, key_of, text_or_null, number_or_null,
}

-- names that are pairwise distinct
abbrev pub AreApart : List String → Type 0
AreApart [] = Unit
AreApart (x ∷ xs) = All (λ y. x ≢ y) xs × AreApart xs

abbrev pub names : Settings → List String
names s =
    s.key_attr ∷ s.expiry_attr ∷ s.status_attr ∷ s.in_progress_expiry_attr ∷ s.data_attr
    ∷ s.validation_key_attr ∷ []

store-other : (k j : String) (v : Attribute) (d : Item) → k ≢ j → get j (store k v d) ≡ get j d
store-other k j v d h = ground (arith, get-store k j v d, string_eq.same_key_iff k j)

store-same : (k : String) (v : Attribute) (d : Item) → get k (store k v d) ≡ some v
store-same k v d = ground (arith, get-store k k v d, string_eq.same_key_iff k k)

item-same : (k : String) (v : Attribute) → get k ((k, v) ∷ []) ≡ some v
unfolding get
item-same k v = ground (arith, string_eq.same_key_iff k k)

item-other : (k j : String) (v : Attribute) → k ≢ j → get j ((k, v) ∷ []) ≡ none
unfolding get
item-other k j v h = ground (arith, string_eq.same_key_iff k j)

flip : {x y : String} → x ≢ y → y ≢ x
flip h e = h (sym e)

module _ (s : Settings) where
  in_progress-other :
      (o : Option ℕ) (j : String) (d : Item)
      → s.in_progress_expiry_attr ≢ j
      → get j (with_in_progress s o d) ≡ get j d
  unfolding item_of
  in_progress-other none j d h = refl
  in_progress-other (some t) j d h = store-other s.in_progress_expiry_attr j (number t) d h

  in_progress-same :
      (o : Option ℕ) (d : Item)
      → get s.in_progress_expiry_attr d ≡ none
      → get s.in_progress_expiry_attr (with_in_progress s o d)
        ≡ (elim o [ none ↦ none | some t ↦ some (number t) ])
  unfolding item_of
  in_progress-same none d h = h
  in_progress-same (some t) d h = store-same s.in_progress_expiry_attr (number t) d

  validated-other :
      (b : Bool) (v : Attribute) (j : String) (d : Item)
      → s.validation_key_attr ≢ j
      → get j (if b then store s.validation_key_attr v d else d) ≡ get j d
  validated-other true v j d h = store-other s.validation_key_attr j v d h
  validated-other false v j d h = refl

  validated-same :
      (b : Bool) (v : Attribute) (d : Item)
      → get s.validation_key_attr d ≡ none
      → get s.validation_key_attr (if b then store s.validation_key_attr v d else d)
        ≡ (if b then some v else none)
  validated-same true v d h = store-same s.validation_key_attr v d
  validated-same false v d h = h

  -- the part of the item that is always there
  abbrev fixed : DataRecord → String → Item
  fixed r current = store s.status_attr (text current) (
      store s.expiry_attr (number_or_null r.expiry_timestamp)
        ((s.key_attr, text r.idempotency_key) ∷ []))

  fixed-other :
      (r : DataRecord) (current j : String)
      → s.key_attr ≢ j
      → s.expiry_attr ≢ j
      → s.status_attr ≢ j
      → get j (fixed r current) ≡ none
  fixed-other r current j k e t =
      store-other s.status_attr j _ _ t
      ∙ store-other s.expiry_attr j _ _ e
      ∙ item-other s.key_attr j _ k

  -- what is read from the item of a record
  pub restored : Bool → DataRecord → String → DataRecord
  restored validated r current = record {
    idempotency_key = r.idempotency_key;
    stored_status = current;
    expiry_timestamp = r.expiry_timestamp;
    in_progress_expiry_timestamp = r.in_progress_expiry_timestamp;
    response_data = none;
    payload_hash = if validated then r.payload_hash else none;
  }

  read_number : (o : Option ℕ) → required as_number (some (number_or_null o)) ≡ ok o
  read_number none = refl
  read_number (some n) = refl

  read_in_progress :
      (o : Option ℕ) → optional as_number (elim o [ none ↦ none | some t ↦ some (number t) ]) ≡ ok o
  read_in_progress none = refl
  read_in_progress (some n) = refl

  read_hash :
      (b : Bool) (h : Option String)
      → optional as_text (if b then some (text_or_null h) else none) ≡ ok (if b then h else none)
  read_hash false h = refl
  read_hash true none = refl
  read_hash true (some x) = refl

  -- `item_to_data_record` by the attributes it reads
  abbrev from_attributes :
      Option Attribute
      → Option Attribute
      → Result Error (Option ℕ)
      → Result Error (Option ℕ)
      → Option Attribute
      → Result Error (Option String)
      → Result Error DataRecord
  from_attributes key stored expiry in_progress response hash = and_then (required present key) λ k.
      and_then (required present stored) λ c. and_then expiry λ e. and_then in_progress λ p.
        and_then (optional as_text response) λ d. and_then hash λ h. ok (record {
          idempotency_key = k;
          stored_status = c;
          expiry_timestamp = e;
          in_progress_expiry_timestamp = p;
          response_data = d;
          payload_hash = h;
        })

  -- the item, once the key is known to be the partition key alone
  abbrev built : Bool → DataRecord → String → Item
  built validated r current =
      let base = with_in_progress s r.in_progress_expiry_timestamp (fixed r current) in
      if validated then store s.validation_key_attr (text_or_null r.payload_hash) base else base

  through :
      (validated : Bool) (r : DataRecord) (current j : String)
      → s.validation_key_attr ≢ j
      → s.in_progress_expiry_attr ≢ j
      → get j (built validated r current) ≡ get j (fixed r current)
  through validated r current j v p =
      validated-other validated (text_or_null r.payload_hash) j _ v
      ∙ in_progress-other r.in_progress_expiry_timestamp j (fixed r current) p

  item_to_data_record-built :
      (validated : Bool) (r : DataRecord) (current : String)
      → AreApart (names s)
      → item_to_data_record s (built validated r current) ≡ ok (restored validated r current)
  unfolding item_to_data_record restored
  item_to_data_record-built validated r current
        (
          (ke, (kt, (kp, (kd, (kv, _))))),
          ((et, (ep, (ed, (ev, _)))), ((tp, (td, (tv, _))), ((pd, (pv, _)), ((dv, _), _)))),
        ) =
      let o = r.in_progress_expiry_timestamp in
      let key =
        through validated r current s.key_attr (flip kv) (flip kp)
        ∙ store-other s.status_attr s.key_attr _ _ (flip kt)
        ∙ store-other s.expiry_attr s.key_attr _ _ (flip ke)
        ∙ item-same s.key_attr _ in
      let stored =
        through validated r current s.status_attr (flip tv) (flip tp)
        ∙ store-same s.status_attr (text current) _ in
      let expiry =
        through validated r current s.expiry_attr (flip ev) (flip ep)
        ∙ store-other s.status_attr s.expiry_attr _ _ (flip et)
        ∙ store-same s.expiry_attr (number_or_null r.expiry_timestamp) _ in
      let in_progress =
        validated-other validated (text_or_null r.payload_hash) s.in_progress_expiry_attr _
          (flip pv)
        ∙ in_progress-same o (fixed r current)
            (fixed-other r current s.in_progress_expiry_attr kp ep tp) in
      let response =
        through validated r current s.data_attr (flip dv) pd
        ∙ fixed-other r current s.data_attr kd ed td in
      let hash =
        validated-same validated (text_or_null r.payload_hash)
          (with_in_progress s o (fixed r current))
          (in_progress-other o s.validation_key_attr (fixed r current) pv
            ∙ fixed-other r current s.validation_key_attr kv ev tv) in
      (λ i.
        from_attributes (key i) (stored i) (required as_number (expiry i))
          (optional as_number (in_progress i)) (response i) (optional as_text (hash i)))
      ∙ (λ i.
          from_attributes (some (text r.idempotency_key)) (some (text current))
            (read_number r.expiry_timestamp i) (read_in_progress o i) none
            (read_hash validated r.payload_hash i))

  -- Without a sort key and with names that are pairwise distinct, the item that is put for a record
  -- is read as this record with the status of that time and no response, and with its payload hash
  -- exactly if payload validation is on.
  pub item_to_data_record-item_of :
      (validated : Bool) (r : DataRecord) (current : String)
      → s.sort_key_attr ≡ none
      → AreApart (names s)
      → item_to_data_record s (item_of s validated r current) ≡ ok (restored validated r current)
  unfolding item_of
  item_to_data_record-item_of validated r current no_sort_key apart =
      let base : Option String → Item = λ o. with_in_progress s r.in_progress_expiry_timestamp (
        store s.status_attr (text current) (
          store s.expiry_attr (number_or_null r.expiry_timestamp)
            (key_of o s r.idempotency_key))) in
      (λ i. item_to_data_record s (
        if validated
        then store s.validation_key_attr (text_or_null r.payload_hash) (base (no_sort_key i))
        else base (no_sort_key i)))
      ∙ item_to_data_record-built validated r current apart
