-- ===== src/Retrieval/Analyzers/Whole.antt =====
-- Forward maximum matching loses no character.
use Prim.Native.Char.{Char}
use Prim.Native.String.{◌++◌ as append}
use text.Mathlib.TextBridge.{of_list, of_list-++}
use mastery.Prelude.{
  take, drop, take-drop, ℕ, zero, suc, ◌≤◌, ◌≡◌, refl, String, Bool, true, false, Option, none,
  some, List, [], ◌∷◌, arith, length, All, ◌⊎◌, inl, inr, sym, ap, subst, ◌∙◌, min, if◌then◌else◌,
}
use mastery.Retrieval.Analyzers.{
  dictionary, longest_of, chars_of, single, is_word, match_size, matched, round_size, match_from,
  dictmatch,
}

-- `"".join(terms)`
unfoldable pub join : List String → String
join [] = of_list []
join (t ∷ ts) = append t (join ts)

length-drop : (n : ℕ) (c : Char) (cs : List Char) → length (drop (suc n) (c ∷ cs)) ≤ length cs
length-drop zero c cs = omega arith
length-drop (suc n) c [] = omega arith
length-drop (suc n) c (d ∷ cs) = omega (arith, length-drop n d cs)

-- A term is a word of the dictionary or one character.
abbrev pub IsTerm : List String → String → Type 0
IsTerm words t = (is_word words t ≡ true) ⊎ ((c : Char) × (t ≡ single c))

-- What the inner loop finds.
abbrev Found : List String → List Char → Option ℕ → Type 0
Found words cs none = Unit
Found words cs (some size) =
    (n : ℕ) × ((size ≡ suc n) × (is_word words (of_list (take size cs)) ≡ true))

first-Found :
    (words : List String) (b : Bool) (n : ℕ) (cs : List Char) (rest : Option ℕ)
    → is_word words (of_list (take (suc n) cs)) ≡ b
    → Found words cs rest
    → Found words cs (if b then some (suc n) else rest)
first-Found words true n cs rest e h = (n, (refl, e))
first-Found words false n cs rest e h = h

match_size-Found :
    (words : List String) (size : ℕ) (cs : List Char) → Found words cs (match_size words size cs)
unfolding match_size
match_size-Found words zero cs = tt
match_size-Found words (suc zero) cs = tt
match_size-Found words (suc (suc n)) cs =
    first-Found words (is_word words (of_list (take (suc (suc n)) cs))) (suc n) cs
      (match_size words (suc n) cs) refl (match_size-Found words (suc n) cs)

round-IsTerm :
    (words : List String) (c : Char) (cs : List Char) (o : Option ℕ)
    → Found words (c ∷ cs) o
    → (n : ℕ) × ((round_size words o ≡ suc n)
        × IsTerm words (of_list (take (round_size words o) (c ∷ cs))))
round-IsTerm words c cs none h = (0, (refl, inr (c, refl)))
round-IsTerm words c cs (some size) h = (h.0, (h.1.0, inl h.1.1))

match_from-Whole :
    (words : List String) (fuel : ℕ) (cs : List Char)
    → length cs ≤ fuel
    → (join (match_from words fuel cs) ≡ of_list cs) × All (IsTerm words) (match_from words fuel cs)
unfolding match_from join
match_from-Whole words zero [] h = (refl, tt)
match_from-Whole words zero (c ∷ cs) h = absurd (omega (arith, h))
match_from-Whole words (suc fuel) [] h = (refl, tt)
match_from-Whole words (suc fuel) (c ∷ cs) h =
    let o = matched words (c ∷ cs) in
    let size = round_size words o in
    let r =
      round-IsTerm words c cs o
        (match_size-Found words (min (longest_of words) (suc (length cs))) (c ∷ cs)) in
    let ih = match_from-Whole words fuel (drop size (c ∷ cs)) (
      subst (λ k. length (drop k (c ∷ cs)) ≤ fuel) (sym r.1.0)
        (omega (arith, length-drop r.0 c cs, h))) in
    (
      ap (append (of_list (take size (c ∷ cs)))) ih.0
          ∙ sym (of_list-++ (take size (c ∷ cs)) (drop size (c ∷ cs)))
          ∙ ap of_list (take-drop size (c ∷ cs)),
      (r.1.1, ih.1),
    )

-- The terms of `dictmatch`, joined, are the text without its spaces, and each term is a word of the
-- dictionary or one character.
pub dictmatch-Whole :
    (text : List Char)
    → (join (dictmatch text) ≡ of_list (chars_of text)) × All (IsTerm dictionary) (dictmatch text)
unfolding dictmatch
dictmatch-Whole text =
    match_from-Whole dictionary (length (chars_of text)) (chars_of text) (omega arith)
