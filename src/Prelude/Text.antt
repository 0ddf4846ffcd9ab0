-- ===== src/Prelude/Text.antt =====
-- Equality of texts as a decision, so that `ite` on it branches and hands over the proof.
use Prim.Native.String.{String}
use mathlib.Core.Path.{◌≡◌}
use mathlib.Core.Logic.{◌↔◌, ◌≢◌}
unfoldable use mathlib.Core.Logic.{ite}
use mathlib.Core.Bool.{Bool, true, false, ◌||◌}
use mathlib.Core.List.{List, [], ◌∷◌}
use text.Mathlib.Text.{◌==◌ as str_eq}
use text.Mathlib.TextEquality.{eq_iff}

pub false-ne : {P : Type 0} → (false ≡ true) ↔ P → ¬ P
false-ne e p = cc (e.1 p)

unfoldable pub dec_of_test : {P : Type 0} (b : Bool) → (b ≡ true) ↔ P → Dec P
dec_of_test true e = yes (e.0 (λ i. true))
dec_of_test false e = no (false-ne e)

unfoldable pub String_discrete : Discrete String
unfolding dec_of_test
String_discrete a b = dec_of_test (str_eq a b) (eq_iff a b)

pub test-differs : (a b : String) → str_eq a b ≡ false → a ≢ b
test-differs a b h e = cc (h, (eq_iff a b).1 e)

-- `a == b` on texts.
unfoldable pub same : String → String → Bool
unfolding String_discrete
same a b = ite (String_discrete a b) true false

-- `x in xs`
unfoldable pub member : String → List String → Bool
unfolding same
member x [] = false
member x (y ∷ ys) = same y x || member x ys
