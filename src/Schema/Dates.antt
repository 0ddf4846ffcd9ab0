-- ===== src/Schema/Dates.antt =====
-- The form of a date.
use mastery.Prelude.{
  ℕ, ◌≡◌, refl, Bool, true, List, [], ◌∷◌, ◌++◌, length, ◌==◌, arith, ap, ◌∙◌, sym, Bool-cases, inl,
  inr,
}
use mastery.Schema.{split, all_digits, three_parts}

-- The text of parts with a dash between them.
abbrev pub joined : List ℕ × List (List ℕ) → List ℕ
joined (part, []) = part
joined (part, next ∷ parts) = part ++ (b'-' ∷ joined (next, parts))

joined-cons :
    (c : ℕ) (part : List ℕ) (parts : List (List ℕ))
    → joined (c ∷ part, parts) ≡ c ∷ joined (part, parts)
joined-cons c part [] = refl
joined-cons c part (next ∷ parts) = refl

pub split-joined : (t : List ℕ) → joined (split t) ≡ t
unfolding split
split-joined [] = refl
split-joined (c ∷ cs) = elim (Bool-cases (c == b'-')) [
  | inl e ↦ rw e (ground (arith, e, split-joined cs))
  | inr e ↦ rw e (joined-cons c (split cs).0 (split cs).1 ∙ ap (λ xs. c ∷ xs) (split-joined cs))
]

module _ (is_digit : ℕ → Bool) where
  -- A year of four digits, a month and a day of two, with dashes between them.
  abbrev pub IsDate : List ℕ → Type 0
  IsDate t =
      (y m d : List ℕ) × ((t ≡ y ++ (b'-' ∷ (m ++ (b'-' ∷ d))))
        × (length y ≡ 4)
        × (length m ≡ 2)
        × (length d ≡ 2)
        × (all_digits is_digit y ≡ true)
        × (all_digits is_digit m ≡ true)
        × (all_digits is_digit d ≡ true))

  pub three_parts-IsDate :
      (p : List ℕ × List (List ℕ)) (t : List ℕ)
      → joined p ≡ t
      → three_parts is_digit p ≡ true
      → IsDate t
  three_parts-IsDate (y, []) t e h = absurd (ground (arith, h))
  three_parts-IsDate (y, m ∷ []) t e h = absurd (ground (arith, h))
  three_parts-IsDate (y, m ∷ d ∷ []) t e h = (
    y,
    m,
    d,
    (
      sym e,
      ground (arith, h),
      ground (arith, h),
      ground (arith, h),
      ground (arith, h),
      ground (arith, h),
      ground (arith, h),
    ),
  )
  three_parts-IsDate (y, m ∷ d ∷ x ∷ xs) t e h = absurd (ground (arith, h))
