-- ===== src/Leakage/Texts.antt =====
-- Lists of texts: how often a text stands in one, and lists that are apart.
use mastery.Prelude.{
  same, member, ℕ, ◌≤◌, ◌≡◌, refl, String, true, false, List, [], ◌∷◌, length, keep, count,
  if◌then◌else◌, arith, ap, All,
}
use mastery.Leakage.{distinct}

-- No text of the list stands in it twice.
abbrev pub IsDistinct : List String → Type 0
IsDistinct [] = Unit
IsDistinct (s ∷ ss) = (member s ss ≡ false) × IsDistinct ss

-- How often a text stands in a list.
abbrev pub times : String → List String → ℕ
times x xs = count (λ y. same y x) xs

pub times-member : (x : String) (xs : List String) → times x xs ≡ 0 → member x xs ≡ false
unfolding member
times-member x [] h = refl
times-member x (y ∷ xs) h = ground (arith, h, times-member x xs)

pub member-times : (x : String) (xs : List String) → member x xs ≡ false → times x xs ≡ 0
unfolding member
member-times x [] h = refl
member-times x (y ∷ xs) h = ground (arith, h, member-times x xs)

pub same_refl : (x : String) → same x x ≡ true
unfolding same
same_refl x = ground arith

pub times-IsDistinct : (xs : List String) → ((x : String) → times x xs ≤ 1) → IsDistinct xs
times-IsDistinct [] h = tt
times-IsDistinct (x ∷ xs) h = (
  times-member x xs (ground (arith, h x, same_refl x)),
  times-IsDistinct xs (λ y. ground (arith, h y)),
)

pub same_sym : (x y : String) → same x y ≡ same y x
unfolding same
same_sym x y = ground arith

pub same_eq : (x y : String) → same x y ≡ true → x ≡ y
unfolding same
same_eq x y h = ground (arith, h)

pub member_same : (x y : String) (xs : List String) → same x y ≡ true → member x xs ≡ member y xs
member_same x y xs h = ap (λ z. member z xs) (same_eq x y h)

pub times-distinct : (x : String) (xs : List String) → times x (distinct xs) ≤ 1
unfolding distinct
times-distinct x [] = omega arith
times-distinct x (y ∷ xs) =
    ground (arith, times-distinct x xs, member-times x (distinct xs), member_same y x (distinct xs))

pub member-apart :
    (ids : List String) (s : String) (xs : List String)
    → member s ids ≡ true
    → All (λ x. member x ids ≡ false) xs
    → member s xs ≡ false
unfolding member
member-apart ids s [] h hx = refl
member-apart ids s (x ∷ xs) h hx =
    ground (arith, h, hx.0, member_same x s ids, member-apart ids s xs h hx.1)

pub distinct-All : (P : String → Type 0) (xs : List String) → All P xs → All P (distinct xs)
unfolding distinct
distinct-All P [] h = tt
distinct-All P (x ∷ xs) h =
    elim (member x (distinct xs)) as (λ b. All P (if b then distinct xs else x ∷ distinct xs)) [
      | true ↦ distinct-All P xs h.1
      | false ↦ (h.0, distinct-All P xs h.1)
    ]

pub none-kept :
    (ids xs test : List String)
    → All (λ s. member s ids ≡ true) xs
    → All (λ s. member s ids ≡ false) test
    → length (keep (λ s. member s test) xs) ≡ 0
none-kept ids [] test h ht = refl
none-kept ids (x ∷ xs) test h ht =
    ground (arith, member-apart ids x test h.0 ht, none-kept ids xs test h.1 ht)
