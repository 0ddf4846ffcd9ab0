-- ===== src/Secrets/Precedence.antt =====
-- The two resolvers of a setting, against each other.
use mastery.Prelude.{
  sym, ap, ◌∙◌, List, same, ℕ, ◌≡◌, String, Bool, true, false, Option, none, some, if◌then◌else◌,
}
use mastery.Prelude.Dict.{lookup}
use mastery.Secrets.{
  Kind, strict_resolve, loose_resolve, Value, words, str_kind, empty_in, resolved, found_in,
  text_or,
}

module _ (lower : String → String) (to_int to_float : String → Option (Bool × ℕ)) where
  text_or-typed :
      (b : Bool) (raw src : String) (rest : Option Value) (v : Value)
      → (if b then empty_in src else resolved (words raw)) ≡ resolved v
      → (if b then rest else some (words raw)) ≡ some v
  text_or-typed true raw src rest v h = absurd cc
  text_or-typed false raw src rest v h = cc h

  text_or-found_in :
      (in_env in_file : Option String) (default : Option Value) (v : Value)
      → found_in lower to_int to_float in_env in_file default (some str_kind) ≡ resolved v
      → text_or in_env (text_or in_file default) ≡ some v
  text_or-found_in (some raw) in_file default v h =
      text_or-typed (same raw "") raw "env" (text_or in_file default) v h
  text_or-found_in none (some raw) default v h = text_or-typed (same raw "") raw "file" default v h
  text_or-found_in none none none v h = absurd cc
  text_or-found_in none none (some w) v h = cc h

  -- Where `strict_resolve` gives a value for a setting of type str, `loose_resolve` gives the same.
  pub strict_resolve-loose_resolve :
      (types : List (String × Kind)) (file : List (String × String))
      (defaults : List (String × Value)) (name : String) (env : List (String × String)) (v : Value)
      → lookup name types ≡ some str_kind
      → strict_resolve lower to_int to_float types file defaults name env ≡ resolved v
      → loose_resolve file defaults name env ≡ some v
  unfolding strict_resolve loose_resolve
  strict_resolve-loose_resolve types file defaults name env v hk h =
      text_or-found_in (lookup name env) (lookup name file) (lookup name defaults) v (
        ap
          (found_in lower to_int to_float (lookup name env) (lookup name file)
            (lookup name defaults))
          (sym hk)
        ∙ h)
