-- ===== src/Schema.antt =====
-- The schema of modules/model-interface-lab/task.py and its `validate`. Numbers are in thousandths,
-- with their sign. Which characters `isdigit` accepts is a parameter.
pub mod Dates
pub mod Shape
use Prim.Native.Char.{code}
use mastery.Prelude.{
  same, ℕ, zero, suc, ◌+◌, String, String_discrete, ite, Bool, true, false, not, ◌&&◌, ◌||◌, Option,
  none, some, List, [], ◌∷◌, ◌++◌, length, ltb, leb, ◌==◌, if◌then◌else◌,
}

mutual
  pub data Json : Type 0 where
    null : Json
    boolean : Bool → Json
    number : Bool → ℕ → Json
    text : String → Json
    array : Items → Json
    object : Fields → Json

  pub data Items : Type 0 where
    nil : Items
    cons : Json → Items → Items

  pub data Fields : Type 0 where
    end : Fields
    field : String → Json → Fields → Fields

-- The keys of `_TYPES`.
pub data Kind : Type 0 where
  string_kind number_kind array_kind object_kind boolean_kind null_kind : Kind

-- What a property of the schema may ask for.
pub record Spec : Type 0 where
  pub types : List Kind
  pub enum : Option (List String)
  pub items : Option (List Kind)
  pub min_items : Option ℕ
  pub iso : Bool
  pub range : Option (ℕ × ℕ)

pub data Code : Type 0 where
  not_an_object : Code
  missing unknown_property wrong_type not_in_enum too_short bad_format out_of_range bad_item_type :
      String → Code

-- `isinstance(value, _TYPES[n])`; a bool is an int too.
abbrev pub is_kind : Kind → Json → Bool
is_kind string_kind (text s) = true
is_kind number_kind (number sign n) = true
is_kind number_kind (boolean b) = true
is_kind array_kind (array xs) = true
is_kind object_kind (object fs) = true
is_kind boolean_kind (boolean b) = true
is_kind null_kind null = true
is_kind _ _ = false

-- `_type_ok`
unfoldable pub type_ok : List Kind → Json → Bool
type_ok [] v = false
type_ok (k ∷ ks) v = is_kind k v || type_ok ks v

unfoldable pub one_of : List String → String → Bool
unfolding same
one_of [] s = false
one_of (t ∷ ts) s = same t s || one_of ts s

abbrev pub in_enum : List String → Json → Bool
in_enum names (text s) = one_of names s
in_enum names v = false

unfoldable pub items_ok : List Kind → Items → Bool
unfolding type_ok
items_ok ks nil = true
items_ok ks (cons v vs) = type_ok ks v && items_ok ks vs

abbrev pub length_items : Items → ℕ
length_items nil = 0
length_items (cons v vs) = suc (length_items vs)

-- The length of an array; nothing else in the schema has `minItems`.
abbrev pub size : Json → ℕ
size (array xs) = length_items xs
size v = 0

abbrev pub codes : String → List ℕ
codes String.[] = []
codes (String.◌∷◌ c s) = code c ∷ codes s

-- `text.split("-")`: the first part and the others.
unfoldable pub split : List ℕ → List ℕ × List (List ℕ)
split [] = ([], [])
split (c ∷ cs) =
    let (part, parts) = split cs in if c == b'-' then ([], part ∷ parts) else (c ∷ part, parts)

module _ (is_digit : ℕ → Bool) where
  abbrev pub all_digits : List ℕ → Bool
  all_digits [] = true
  all_digits (c ∷ cs) = is_digit c && all_digits cs

  -- `_is_iso_date`; a part without characters has the wrong length.
  abbrev pub three_parts : List ℕ × List (List ℕ) → Bool
  three_parts (y, m ∷ d ∷ []) =
      (length y == 4)
      && ((all_digits y && (all_digits m && all_digits d)) && ((length m == 2) && (length d == 2)))
  three_parts _ = false

  unfoldable pub is_iso_date : Json → Bool
  unfolding split
  is_iso_date (text s) = three_parts (split (codes s))
  is_iso_date v = false

  -- `minimum <= value <= maximum`, where the value is a number; `True` is 1.
  abbrev pub in_range : ℕ × ℕ → Json → Bool
  in_range (low, high) (number true n) = n == 0 && low == 0
  in_range (low, high) (number false n) = leb low n && leb n high
  in_range (low, high) (boolean true) = leb low 1000 && leb 1000 high
  in_range (low, high) (boolean false) = low == 0
  in_range bounds v = true

  abbrev pub unless : Bool → Code → List Code
  unless true c = []
  unless false c = c ∷ []

  abbrev pub enum_codes : String → Option (List String) → Json → List Code
  enum_codes f none v = []
  enum_codes f (some names) v = unless (in_enum names v) (not_in_enum f)

  abbrev pub size_codes : String → Option ℕ → Json → List Code
  size_codes f none v = []
  size_codes f (some n) v = unless (leb n (size v)) (too_short f)

  abbrev pub range_codes : String → Option (ℕ × ℕ) → Json → List Code
  range_codes f none v = []
  range_codes f (some bounds) v = unless (in_range bounds v) (out_of_range f)

  abbrev pub item_codes : String → Option (List Kind) → Json → List Code
  item_codes f (some ks) (array xs) = unless (items_ok ks xs) (bad_item_type f)
  item_codes f _ v = []

  -- The checks of one field, in the order of the loop's body.
  abbrev pub field_codes : String → Option Spec → Json → List Code
  field_codes f none v = unknown_property f ∷ []
  field_codes f (some s) v =
      let checks =
        enum_codes f s.enum v
        ++ (size_codes f s.min_items v
            ++ (unless (not s.iso || is_iso_date v) (bad_format f)
                ++ (range_codes f s.range v ++ item_codes f s.items v))) in
      if type_ok s.types v then checks else wrong_type f ∷ []

  unfoldable pub has_field : String → Fields → Bool
  unfolding same
  has_field k end = false
  has_field k (field j v fs) = same j k || has_field k fs

  unfoldable pub missing_codes : List String → Fields → List Code
  unfolding has_field
  missing_codes [] fs = []
  missing_codes (k ∷ ks) fs = unless (has_field k fs) (missing k) ++ missing_codes ks fs

  unfoldable pub fields_codes : (String → Option Spec) → Fields → List Code
  unfolding type_ok one_of items_ok is_iso_date
  fields_codes properties end = []
  fields_codes properties (field k v fs) =
      field_codes k (properties k) v ++ fields_codes properties fs

  -- `validate`, with the schema's `required` and `properties`.
  unfoldable pub validate : List String → (String → Option Spec) → Json → List Code
  unfolding missing_codes fields_codes
  validate required properties (object fs) = missing_codes required fs ++ fields_codes properties fs
  validate required properties v = not_an_object ∷ []

-- `EVENT_TYPES`
abbrev pub event_types : List String
event_types =
    "investment" ∷ "supply_agreement" ∷ "regulation" ∷ "sanction" ∷ "production_change"
    ∷ "personnel" ∷ []

abbrev pub plain : List Kind → Spec
plain types = record {
  types = types;
  enum = none;
  items = none;
  min_items = none;
  iso = false;
  range = none;
}

-- `SCHEMA`
abbrev pub required : List String
required = "event_type" ∷ "actors" ∷ "date" ∷ []

abbrev pub event_spec : Spec
event_spec = record (plain (string_kind ∷ [])) { enum = some event_types }

abbrev pub actors_spec : Spec
actors_spec = record (plain (array_kind ∷ [])) {
  items = some (string_kind ∷ []);
  min_items = some 1;
}

abbrev pub date_spec : Spec
date_spec = record (plain (string_kind ∷ [])) { iso = true }

abbrev pub location_spec : Spec
location_spec = plain (string_kind ∷ null_kind ∷ [])

abbrev pub confidence_spec : Spec
confidence_spec = record (plain (number_kind ∷ [])) { range = some (0, 1000) }

unfoldable pub properties : String → Option Spec
unfolding String_discrete
properties k = ite (String_discrete k "event_type") (some event_spec) (
    ite (String_discrete k "actors") (some actors_spec) (
      ite (String_discrete k "date") (some date_spec) (
        ite (String_discrete k "location") (some location_spec)
          (ite (String_discrete k "confidence") (some confidence_spec) none))))
