-- ===== src/Schema/Shape.antt =====
-- What a record that `validate` accepts looks like.
use mastery.Prelude.{
  ℕ, zero, suc, ◌≤◌, ◌≡◌, refl, String, String_discrete, ite, Bool, true, false, none, some, List,
  [], ◌∷◌, ◌++◌, arith, All, ◌⊎◌, inl, inr,
}
use mastery.Schema.Dates.{IsDate, split-joined, three_parts-IsDate}
use mastery.Schema.{
  Json, null, boolean, number, text, array, object, Items, Fields, end, field, string_kind, Code,
  type_ok, one_of, items_ok, length_items, codes, split, is_iso_date, field_codes, has_field,
  missing_codes, fields_codes, validate, event_types, event_spec, actors_spec, date_spec,
  location_spec, confidence_spec, required, properties,
}

left_nil : (xs ys : List Code) → xs ++ ys ≡ [] → xs ≡ []
left_nil [] ys h = refl
left_nil (x ∷ xs) ys h = absurd cc

right_nil : (xs ys : List Code) → xs ++ ys ≡ [] → ys ≡ []
right_nil [] ys h = h
right_nil (x ∷ xs) ys h = absurd cc

module _ (is_digit : ℕ → Bool) where
  abbrev pub IsEvent : Json → Type 0
  IsEvent v = (s : String) × ((v ≡ text s) × (one_of event_types s ≡ true))

  abbrev pub IsActors : Json → Type 0
  IsActors v =
      (xs : Items) × ((v ≡ array xs)
        × (1 ≤ length_items xs)
        × (items_ok (string_kind ∷ []) xs ≡ true))

  abbrev pub IsDay : Json → Type 0
  IsDay v = (s : String) × ((v ≡ text s) × IsDate is_digit (codes s))

  abbrev pub IsPlace : Json → Type 0
  IsPlace v = (v ≡ null) ⊎ ((s : String) × (v ≡ text s))

  -- From 0 to 1 in thousandths; a bool counts as 0 or 1, and -0 as 0.
  abbrev pub IsConfidence : Json → Type 0
  IsConfidence v =
      ((b : Bool) × (v ≡ boolean b))
      ⊎ ((n : ℕ) × ((v ≡ number false n) × (n ≤ 1000)))
      ⊎ (v ≡ number true 0)

  kind-IsEvent :
      (k : String) (v : Json) → field_codes is_digit k (some event_spec) v ≡ [] → IsEvent v
  unfolding type_ok
  kind-IsEvent k (text s) h = (s, (refl, ground (arith, h)))
  kind-IsEvent k null h = absurd cc
  kind-IsEvent k (boolean b) h = absurd cc
  kind-IsEvent k (number b n) h = absurd cc
  kind-IsEvent k (array xs) h = absurd cc
  kind-IsEvent k (object fs) h = absurd cc

  names-IsActors :
      (k : String) (v : Json) → field_codes is_digit k (some actors_spec) v ≡ [] → IsActors v
  unfolding type_ok
  names-IsActors k (array xs) h = (xs, (refl, ground (arith, h), ground (arith, h)))
  names-IsActors k null h = absurd cc
  names-IsActors k (boolean b) h = absurd cc
  names-IsActors k (number b n) h = absurd cc
  names-IsActors k (text s) h = absurd cc
  names-IsActors k (object fs) h = absurd cc

  date-IsDay : (k : String) (v : Json) → field_codes is_digit k (some date_spec) v ≡ [] → IsDay v
  unfolding type_ok is_iso_date
  date-IsDay k (text s) h = (
    s,
    (
      refl,
      three_parts-IsDate is_digit (split (codes s)) (codes s) (split-joined (codes s))
          (ground (arith, h)),
    ),
  )
  date-IsDay k null h = absurd cc
  date-IsDay k (boolean b) h = absurd cc
  date-IsDay k (number b n) h = absurd cc
  date-IsDay k (array xs) h = absurd cc
  date-IsDay k (object fs) h = absurd cc

  location-IsPlace :
      (k : String) (v : Json) → field_codes is_digit k (some location_spec) v ≡ [] → IsPlace v
  unfolding type_ok
  location-IsPlace k (text s) h = inr (s, refl)
  location-IsPlace k null h = inl refl
  location-IsPlace k (boolean b) h = absurd cc
  location-IsPlace k (number b n) h = absurd cc
  location-IsPlace k (array xs) h = absurd cc
  location-IsPlace k (object fs) h = absurd cc

  degree-IsConfidence :
      (k : String) (v : Json)
      → field_codes is_digit k (some confidence_spec) v ≡ []
      → IsConfidence v
  unfolding type_ok
  degree-IsConfidence k (boolean b) h = inl (b, refl)
  degree-IsConfidence k (number true zero) h = inr (inr refl)
  degree-IsConfidence k (number true (suc n)) h = absurd (ground (arith, h))
  degree-IsConfidence k (number false n) h = inr (inl (n, (refl, ground (arith, h))))
  degree-IsConfidence k null h = absurd cc
  degree-IsConfidence k (text s) h = absurd cc
  degree-IsConfidence k (array xs) h = absurd cc
  degree-IsConfidence k (object fs) h = absurd cc

  -- A field that the schema knows, with a value of its form.
  abbrev pub IsShaped : String → Json → Type 0
  IsShaped k v =
      ((k ≡ "event_type") × IsEvent v)
      ⊎ (((k ≡ "actors") × IsActors v)
          ⊎ (((k ≡ "date") × IsDay v)
              ⊎ (((k ≡ "location") × IsPlace v) ⊎ ((k ≡ "confidence") × IsConfidence v))))

  confidence_or_none :
      (k : String) (v : Json) (d : Dec (k ≡ "confidence"))
      → field_codes is_digit k (ite d (some confidence_spec) none) v ≡ []
      → IsShaped k v
  confidence_or_none k v (yes e) h = inr (inr (inr (inr (e, degree-IsConfidence k v h))))
  confidence_or_none k v (no n) h = absurd cc

  location_or_later :
      (k : String) (v : Json) (d : Dec (k ≡ "location"))
      → field_codes is_digit k
          (ite d
            (some location_spec)
            (ite (String_discrete k "confidence") (some confidence_spec) none))
          v
        ≡ []
      → IsShaped k v
  location_or_later k v (yes e) h = inr (inr (inr (inl (e, location-IsPlace k v h))))
  location_or_later k v (no n) h = confidence_or_none k v (String_discrete k "confidence") h

  date_or_later :
      (k : String) (v : Json) (d : Dec (k ≡ "date"))
      → field_codes is_digit k
          (ite d (some date_spec) (
            ite
              (String_discrete k "location")
              (some location_spec)
              (ite (String_discrete k "confidence") (some confidence_spec) none)))
          v
        ≡ []
      → IsShaped k v
  date_or_later k v (yes e) h = inr (inr (inl (e, date-IsDay k v h)))
  date_or_later k v (no n) h = location_or_later k v (String_discrete k "location") h

  actors_or_later :
      (k : String) (v : Json) (d : Dec (k ≡ "actors"))
      → field_codes is_digit k
          (ite d (some actors_spec) (
            ite (String_discrete k "date") (some date_spec) (
              ite
                (String_discrete k "location")
                (some location_spec)
                (ite (String_discrete k "confidence") (some confidence_spec) none))))
          v
        ≡ []
      → IsShaped k v
  actors_or_later k v (yes e) h = inr (inl (e, names-IsActors k v h))
  actors_or_later k v (no n) h = date_or_later k v (String_discrete k "date") h

  event_or_later :
      (k : String) (v : Json) (d : Dec (k ≡ "event_type"))
      → field_codes is_digit k
          (ite d (some event_spec) (
            ite (String_discrete k "actors") (some actors_spec) (
              ite (String_discrete k "date") (some date_spec) (
                ite
                  (String_discrete k "location")
                  (some location_spec)
                  (ite (String_discrete k "confidence") (some confidence_spec) none)))))
          v
        ≡ []
      → IsShaped k v
  event_or_later k v (yes e) h = inl (e, kind-IsEvent k v h)
  event_or_later k v (no n) h = actors_or_later k v (String_discrete k "actors") h

  -- Every field is of its form.
  abbrev pub AllShaped : Fields → Type 0
  AllShaped end = Unit
  AllShaped (field k v fs) = IsShaped k v × AllShaped fs

  fields-AllShaped : (fs : Fields) → fields_codes is_digit properties fs ≡ [] → AllShaped fs
  unfolding fields_codes properties
  fields-AllShaped end h = tt
  fields-AllShaped (field k v fs) h = (
    event_or_later k v (String_discrete k "event_type") (left_nil _ _ h),
    fields-AllShaped fs (right_nil _ _ h),
  )

  missing-none :
      (ks : List String) (fs : Fields)
      → missing_codes is_digit ks fs ≡ []
      → All (λ (k : String). has_field is_digit k fs ≡ true) ks
  unfolding missing_codes
  missing-none [] fs h = tt
  missing-none (k ∷ ks) fs h = (ground (arith, h), missing-none ks fs (right_nil _ _ h))

  -- What `validate` accepts is an object that has the required fields, and each of its fields is one
  -- of the five that the schema knows, with a value of that field's form.
  pub validate-AllShaped :
      (v : Json)
      → validate is_digit required properties v ≡ []
      → (fs : Fields) × ((v ≡ object fs)
          × All (λ (k : String). has_field is_digit k fs ≡ true) required
          × AllShaped fs)
  unfolding validate
  validate-AllShaped (object fs) h =
      (fs, (refl, missing-none required fs (left_nil _ _ h), fields-AllShaped fs (right_nil _ _ h)))
  validate-AllShaped null h = absurd cc
  validate-AllShaped (boolean b) h = absurd cc
  validate-AllShaped (number b n) h = absurd cc
  validate-AllShaped (text s) h = absurd cc
  validate-AllShaped (array xs) h = absurd cc
