-- ===== src/Tests/Secrets.antt =====
-- modules/ops-lab/secrets_lab.py: an event with a key in it, and the scenarios of the settings.
use mastery.Prelude.{
  true, Bool, same, member, ℕ, ◌≡◌, refl, String, false, Option, none, some, List, [], ◌∷◌,
}
use mastery.Prelude.Dict.{lookup}
use mastery.Schema.{Json, text, object, end, field}
use mastery.Secrets.{
  is_secret, redact, Value, words, flag, whole, Kind, str_kind, bool_kind, int_kind, Resolved,
  empty_in, resolved, strict_resolve, loose_resolve,
}
use mastery.Secrets.Hidden.{Alike, objects, hidden, shown, equal, no_fields, redact-Hides}

program : Unit {0}
unfolding lookup same member is_secret redact strict_resolve loose_resolve
program = tt

abbrev as_is : String → String
as_is s = s

abbrev event_with : String → Json
event_with key = object (
    field "event" (text "provider.request")
      (field "headers" (object (field "authorization" (text key) end)) end))

redacted : redact as_is (event_with "Bearer 1") ≡ event_with "****"
unfolding program
redacted = refl

abbrev events_alike : Alike as_is (event_with "Bearer 1") (event_with "Bearer 2")
unfolding program
events_alike = objects (
    shown "event" (equal (text "provider.request")) (
      shown "headers"
        (objects (hidden "authorization" (text "Bearer 1") (text "Bearer 2") refl no_fields))
        no_fields))

redact-Hides_example :
    (redact as_is (event_with "Bearer 1") ≡ redact as_is (event_with "Bearer 2"))
    × (Alike as_is (event_with "Bearer 1") (redact as_is (event_with "Bearer 1"))
        × (redact as_is (redact as_is (event_with "Bearer 1"))
            ≡ redact as_is (event_with "Bearer 1")))
redact-Hides_example =
    redact-Hides as_is (event_with "Bearer 1") (event_with "Bearer 2") events_alike

abbrev no_number : String → Option (Bool × ℕ)
no_number s = none

abbrev types : List (String × Kind)
types =
    ("APP_MODEL", str_kind) ∷ ("APP_STRICT_SCHEMA", bool_kind) ∷ ("APP_MAX_RETRIES", int_kind) ∷ []

abbrev file : List (String × String)
file = ("APP_MODEL", "mid-1") ∷ ("APP_STRICT_SCHEMA", "false") ∷ []

abbrev defaults : List (String × Value)
defaults = ("APP_MODEL", words "mid-1") ∷ ("APP_MAX_RETRIES", whole true 2) ∷ []

abbrev strict : String → List (String × String) → Resolved
strict name env = strict_resolve as_is no_number no_number types file defaults name env

-- A name that is declared but empty, and the text "false".
empty_model :
    (strict "APP_MODEL" (("APP_MODEL", "") ∷ []) ≡ empty_in "env")
    × (loose_resolve file defaults "APP_MODEL" (("APP_MODEL", "") ∷ []) ≡ some (words "mid-1"))
unfolding program
empty_model = (refl, refl)

false_flag :
    (strict "APP_STRICT_SCHEMA" [] ≡ resolved (flag false))
    × (loose_resolve file defaults "APP_STRICT_SCHEMA" [] ≡ some (words "false"))
unfolding program
false_flag = (refl, refl)

-- A variable that no setting reads raises nothing.
unknown_variable : strict "APP_MODEL" (("APP_TIMEOUT", "60") ∷ []) ≡ resolved (words "mid-1")
unfolding program
unknown_variable = refl
