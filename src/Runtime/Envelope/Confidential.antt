-- ===== src/Runtime/Envelope/Confidential.antt =====
-- packages/runtime/src/envelope.ts: no message carries a key that names a body, at any depth.
use rogatio.Prelude.{
  first_false, second_false, ◌≡◌, refl, Bool, true, false, ◌||◌, String, inl, inr, ◌⊎◌, ◌↔◌,
  Bool-cases,
}
use rogatio.Prelude.Json.{
  Json, null, boolean, number, string, array, object, Items, nil, item, Fields, end, field, own,
}
use rogatio.Prelude.Texts.{includes}
use rogatio.Runtime.Envelope.{forbidden_body_keys, contains_body_key, items_contain, fields_contain}

-- The values inside a value, itself included.
mutual
  pub data Within (value : Json) : Json → Type 0 where
    itself : Within value value
    in_array : {items : Items} → WithinItems value items → Within value (array items)
    in_object : {fields : Fields} → WithinFields value fields → Within value (object fields)

  pub data WithinItems (value : Json) : Items → Type 0 where
    in_item : {x : Json} {items : Items} → Within value x → WithinItems value (item x items)
    later_item :
        {x : Json} {items : Items} → WithinItems value items → WithinItems value (item x items)

  pub data WithinFields (value : Json) : Fields → Type 0 where
    in_field :
        {k : String} {x : Json} {fields : Fields}
        → Within value x
        → WithinFields value (field k x fields)
    later_field :
        {k : String} {x : Json} {fields : Fields}
        → WithinFields value fields
        → WithinFields value (field k x fields)

pub data HasKey (key : String) : Fields → Type 0 where
  here : {x : Json} {fields : Fields} → HasKey key (field key x fields)
  further :
      {k : String} {x : Json} {fields : Fields} → HasKey key fields → HasKey key (field k x fields)

-- No object inside the value has a key that names a body.
abbrev pub HasNoBody : Json → Type 0
HasNoBody value =
    (fields : Fields) (key : String)
    → Within (object fields) value
    → HasKey key fields
    → includes forbidden_body_keys key ≡ false

-- What is inside a value without such keys has none.
mutual
  unfolding contains_body_key

  Within-clean :
      (inner : Json) {value : Json}
      → Within inner value
      → contains_body_key value ≡ false
      → contains_body_key inner ≡ false
  Within-clean inner itself h = h
  Within-clean inner (in_array w) h = WithinItems-clean inner w h
  Within-clean inner (in_object w) h = WithinFields-clean inner w h

  WithinItems-clean :
      (inner : Json) {items : Items}
      → WithinItems inner items
      → items_contain items ≡ false
      → contains_body_key inner ≡ false
  WithinItems-clean inner (in_item w) h = Within-clean inner w (first_false _ _ h)
  WithinItems-clean inner (later_item w) h = WithinItems-clean inner w (second_false _ _ h)

  WithinFields-clean :
      (inner : Json) {fields : Fields}
      → WithinFields inner fields
      → fields_contain fields ≡ false
      → contains_body_key inner ≡ false
  WithinFields-clean inner (in_field w) h =
      Within-clean inner w (first_false _ _ (second_false _ _ h))
  WithinFields-clean inner (later_field w) h =
      WithinFields-clean inner w (second_false _ _ (second_false _ _ h))

HasKey-clean :
    {key : String} {fields : Fields}
    → HasKey key fields
    → fields_contain fields ≡ false
    → includes forbidden_body_keys key ≡ false
unfolding contains_body_key
HasKey-clean here h = first_false _ _ h
HasKey-clean (further k) h = HasKey-clean k (second_false _ _ (second_false _ _ h))

HasNoBody-of_clean : (value : Json) → contains_body_key value ≡ false → HasNoBody value
unfolding contains_body_key
HasNoBody-of_clean value h fields key within has =
    HasKey-clean has (Within-clean (object fields) within h)

abbrev IsForbidden : String → Type 0
IsForbidden key = includes forbidden_body_keys key ≡ true

-- An object inside the value with a key that names a body.
abbrev HasBody : Json → Type 0
HasBody value =
    (fields : Fields) × (key : String) × Within (object fields) value
    × HasKey key fields
    × IsForbidden key

abbrev HasOwnBody : Fields → Type 0
HasOwnBody fields = (key : String) × HasKey key fields × IsForbidden key

abbrev HasInnerBody : Fields → Type 0
HasInnerBody others =
    (fields : Fields) × (key : String) × WithinFields (object fields) others
    × HasKey key fields
    × IsForbidden key

abbrev HasItemBody : Items → Type 0
HasItemBody items =
    (fields : Fields) × (key : String) × WithinItems (object fields) items
    × HasKey key fields
    × IsForbidden key

or_cases : (a b : Bool) → (a || b) ≡ true → (a ≡ true) ⊎ (b ≡ true)
or_cases true b h = inl refl
or_cases false b h = inr h

mutual
  unfolding contains_body_key

  body-found : (value : Json) → contains_body_key value ≡ true → HasBody value
  body-found null h = cc
  body-found (boolean b) h = cc
  body-found (number n) h = cc
  body-found (string t) h = cc
  body-found (array items) h =
      let found = items-found items h in (found.0, found.1, in_array (found.2), found.3, found.4)
  body-found (object fields) h = elim (fields-found fields h) [
    | inl own ↦ (fields, own.0, itself, own.1, own.2)
    | inr inner ↦ (inner.0, inner.1, in_object (inner.2), inner.3, inner.4)
  ]

  items-found : (items : Items) → items_contain items ≡ true → HasItemBody items
  items-found nil h = cc
  items-found (item value items) h = elim (or_cases _ _ h) [
    | inl inside ↦
        let found = body-found value inside in
        (found.0, found.1, in_item (found.2), found.3, found.4)
    | inr later ↦
        let found = items-found items later in
        (found.0, found.1, later_item (found.2), found.3, found.4)
  ]

  fields-found :
      (fields : Fields) → fields_contain fields ≡ true → HasOwnBody fields ⊎ HasInnerBody fields
  fields-found end h = cc
  fields-found (field key value fields) h = elim (or_cases _ _ h) [
    | inl named ↦ inl (key, here, named)
    | inr rest ↦ elim (or_cases _ _ rest) [
      | inl inside ↦
          let found = body-found value inside in
          inr (found.0, found.1, in_field (found.2), found.3, found.4)
      | inr later ↦ elim (fields-found fields later) [
        | inl own ↦ inl (own.0, further (own.1), own.2)
        | inr inner ↦ inr (inner.0, inner.1, later_field (inner.2), inner.3, inner.4)
      ]
    ]
  ]

HasNoBody-not_HasBody : (value : Json) → HasNoBody value → HasBody value → ⊥
HasNoBody-not_HasBody value none_there body =
    let absent = none_there (body.0) (body.1) (body.2) (body.3) in cc

-- The scan finds nothing exactly when no object inside the value, at any depth, has a key that names
-- a body.
pub contains_body_key-HasNoBody :
    (value : Json) → (contains_body_key value ≡ false) ↔ HasNoBody value
contains_body_key-HasNoBody value = (
  HasNoBody-of_clean value,
  λ none_there. elim (Bool-cases (contains_body_key value)) [
    | inl found ↦ absurd (HasNoBody-not_HasBody value none_there (body-found value found))
    | inr clean ↦ clean
  ],
)
