-- ===== src/Secrets.antt =====
-- `_redact` and the two resolvers of modules/ops-lab/secrets_lab.py. `str.lower`, `float` and `int` are
-- parameters; a setting in the environment or in the file is a text.
pub mod Hidden
pub mod Precedence
use mastery.Prelude.{
  same, member, ℕ, String, Bool, true, false, not, ◌||◌, Option, none, some, List, [], ◌∷◌,
  if◌then◌else◌,
}
use mastery.Prelude.Dict.{lookup}
use mastery.Schema.{
  Json, text, array, object, null, boolean, number, Items, nil, cons, Fields, end, field,
}

-- REDACT_KEYS
abbrev pub redact_keys : List String
redact_keys =
    "authorization" ∷ "api_key" ∷ "apikey" ∷ "token" ∷ "cookie" ∷ "set-cookie" ∷ "x-api-key"
    ∷ "password" ∷ "secret" ∷ []

-- A value, or what stands in its place.
abbrev pub hide : Bool → Json → Json
hide true v = text "****"
hide false v = v

module _ (lower : String → String) where
  -- `k.lower() in REDACT_KEYS`
  unfoldable pub is_secret : String → Bool
  unfolding member
  is_secret k = member (lower k) redact_keys

  unfoldable mutual
    unfolding is_secret

    pub redact : Json → Json
    redact (array xs) = array (redact_items xs)
    redact (object fs) = object (redact_fields fs)
    redact null = null
    redact (boolean b) = boolean b
    redact (number sign n) = number sign n
    redact (text s) = text s

    pub redact_items : Items → Items
    redact_items nil = nil
    redact_items (cons v xs) = cons (redact v) (redact_items xs)

    pub redact_fields : Fields → Fields
    redact_fields end = end
    redact_fields (field k v fs) = field k (hide (is_secret k) (redact v)) (redact_fields fs)

-- A setting's value, and its type in TYPES; a number has its sign, a float is in thousandths.
pub data Value : Type 0 where
  words : String → Value
  flag : Bool → Value
  whole : Bool → ℕ → Value
  decimal : Bool → ℕ → Value

pub data Kind : Type 0 where
  str_kind bool_kind int_kind float_kind : Kind

-- What `strict_resolve` does: a ConfigError, the KeyError of a name without a type, or a value.
pub data Resolved : Type 0 where
  no_value : Resolved
  empty_in : String → Resolved
  not_boolean : Resolved
  not_typed : Resolved
  key_error : Resolved
  resolved : Value → Resolved

abbrev pub given : (Bool → ℕ → Value) → Option (Bool × ℕ) → Resolved
given f none = not_typed
given f (some (sign, n)) = resolved (f sign n)

abbrev pub or_default : Option Value → Resolved
or_default none = no_value
or_default (some v) = resolved v

module _ (lower : String → String) (to_int to_float : String → Option (Bool × ℕ)) where
  -- `typ(raw)`, and the text of a flag
  abbrev pub convert : Kind → String → Resolved
  convert str_kind raw = resolved (words raw)
  convert bool_kind raw =
      if member (lower raw) ("true" ∷ "false" ∷ "1" ∷ "0" ∷ [])
      then resolved (flag (member (lower raw) ("true" ∷ "1" ∷ [])))
      else not_boolean
  convert int_kind raw = given whole (to_int raw)
  convert float_kind raw = given decimal (to_float raw)

  abbrev pub typed : Option Kind → String → String → Resolved
  typed none raw src = key_error
  typed (some k) raw src = if same raw "" then empty_in src else convert k raw

  abbrev pub found_in : Option String → Option String → Option Value → Option Kind → Resolved
  found_in (some raw) in_file default kind = typed kind raw "env"
  found_in none (some raw) default kind = typed kind raw "file"
  found_in none none default kind = or_default default

  unfoldable pub strict_resolve :
      List (String × Kind)
      → List (String × String)
      → List (String × Value)
      → String
      → List (String × String)
      → Resolved
  unfolding lookup same member
  strict_resolve types file defaults name env =
      found_in (lookup name env) (lookup name file) (lookup name defaults) (lookup name types)

-- `a or b`, where a is a text that may be missing
abbrev pub text_or : Option String → Option Value → Option Value
text_or none v = v
text_or (some s) v = if same s "" then v else some (words s)

unfoldable pub loose_resolve :
    List (String × String) → List (String × Value) → String → List (String × String) → Option Value
unfolding lookup same
loose_resolve file defaults name env =
    text_or (lookup name env) (text_or (lookup name file) (lookup name defaults))
