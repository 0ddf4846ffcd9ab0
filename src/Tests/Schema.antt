-- ===== src/Tests/Schema.antt =====
-- A record under the schema of modules/model-interface-lab/task.py.
use mastery.Prelude.{same, ℕ, ◌≡◌, refl, String, Bool, [], ◌∷◌, ◌&&◌, leb, All, true}
use mastery.Schema.{
  Json, text, array, object, nil, cons, Fields, end, field, bad_format, type_ok, one_of, items_ok,
  split, is_iso_date, has_field, missing_codes, fields_codes, validate, required, properties,
}
use mastery.Schema.Shape.{AllShaped, validate-AllShaped}

program : Unit {0}
unfolding same type_ok one_of items_ok split is_iso_date has_field missing_codes fields_codes
    validate properties
program = tt

abbrev ascii_digit : ℕ → Bool
ascii_digit c = leb b'0' c && leb c b'9'

abbrev dated : String → Json
dated day = object (
    field "event_type" (text "sanction")
      (field "actors" (array (cons (text "A") nil)) (field "date" (text day) end)))

accepted : validate ascii_digit required properties (dated "2026-03-05") ≡ []
unfolding program
accepted = refl

refused : validate ascii_digit required properties (dated "5 March") ≡ bad_format "date" ∷ []
unfolding program
refused = refl

validate-AllShaped_example :
    (fs : Fields) × ((dated "2026-03-05" ≡ object fs)
      × All (λ (k : String). has_field ascii_digit k fs ≡ true) required
      × AllShaped ascii_digit fs)
validate-AllShaped_example = validate-AllShaped ascii_digit (dated "2026-03-05") accepted
