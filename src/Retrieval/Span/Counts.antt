-- ===== src/Retrieval/Span/Counts.antt =====
-- The dictionary `have` of `min_window` counts the terms of the window.
use mastery.Prelude.{
  same, ℕ, zero, suc, ◌+◌, ◌≤◌, ◌≡◌, refl, String, String_discrete, ite, true, Option, none, some,
  List, [], ◌∷◌, ◌++◌, length, count, count-append, append_nil, append_assoc, arith, sym, ap, subst,
}
use mastery.Prelude.Dict.{lookup, put, delete, lookup-put, lookup-delete}
use mastery.Retrieval.Index.{or_else}
use mastery.Retrieval.Span.{fewer}

-- How often a term stands in some events, and how many terms do.
abbrev pub times : String → List (ℕ × String) → ℕ
times t w = count (λ e. same e.1 t) w

abbrev pub first_time : ℕ → ℕ
first_time zero = 1
first_time (suc n) = 0

abbrev pub kinds : List (ℕ × String) → ℕ
kinds [] = 0
kinds (e ∷ w) = first_time (times e.1 w) + kinds w

abbrev pub counted : ℕ → Option ℕ
counted zero = none
counted (suc n) = some (suc n)

-- No key stands twice.
abbrev pub IsUnique : List (String × ℕ) → Type 0
IsUnique [] = Unit
IsUnique ((k, v) ∷ d) = (lookup k d ≡ none) × IsUnique d

abbrev pub IsCount : List (String × ℕ) → List (ℕ × String) → Type 0
IsCount have w =
    ((t : String) → lookup t have ≡ counted (times t w)) × ((length have ≡ kinds w) × IsUnique have)

abbrev missing : Option ℕ → ℕ
missing none = 1
missing (some n) = 0

length-put :
    (t : String) (v : ℕ) (d : List (String × ℕ))
    → length (put t v d) ≡ missing (lookup t d) + length d
unfolding put lookup
length-put t v [] = omega arith
length-put t v ((k, w) ∷ d) = ground (arith, length-put t v d)

put-IsUnique : (t : String) (v : ℕ) (d : List (String × ℕ)) → IsUnique d → IsUnique (put t v d)
unfolding put lookup
put-IsUnique t v [] h = (refl, tt)
put-IsUnique t v ((k, w) ∷ d) h =
    elim (String_discrete k t) as (λ b. IsUnique (ite b ((t, v) ∷ d) ((k, w) ∷ put t v d))) [
      | yes e ↦ (subst (λ x. lookup x d ≡ none) e h.0, h.1)
      | no e ↦ (ground (arith, lookup-put t k v d, h.0), put-IsUnique t v d h.1)
    ]

delete-none : (t : String) (d : List (String × ℕ)) → lookup t d ≡ none → delete t d ≡ d
unfolding delete lookup
delete-none t [] h = refl
delete-none t ((k, w) ∷ d) h = ground (arith, h, delete-none t d)

length-delete :
    (t : String) (n : ℕ) (d : List (String × ℕ))
    → IsUnique d
    → lookup t d ≡ some n
    → suc (length (delete t d)) ≡ length d
unfolding delete lookup
length-delete t n [] u h = absurd cc
length-delete t n ((k, w) ∷ d) u h =
    elim (String_discrete k t)
        as (λ b.
          ite b (some w) (lookup t d) ≡ some n
          → suc (length (ite b (delete t d) ((k, w) ∷ delete t d))) ≡ suc (length d)) [
            | yes e ↦ λ h2.
                ap (λ x. suc (length x)) (delete-none t d (subst (λ x. lookup x d ≡ none) e u.0))
            | no e ↦ λ h2. ap suc (length-delete t n d u.1 h2)
          ]
      h

delete-IsUnique : (t : String) (d : List (String × ℕ)) → IsUnique d → IsUnique (delete t d)
unfolding delete
delete-IsUnique t [] h = tt
delete-IsUnique t ((k, w) ∷ d) h =
    elim (String_discrete k t) as (λ b. IsUnique (ite b (delete t d) ((k, w) ∷ delete t d))) [
      | yes e ↦ delete-IsUnique t d h.1
      | no e ↦ (ground (arith, lookup-delete t k d, h.0), delete-IsUnique t d h.1)
    ]

same_eq : (x y : String) → same x y ≡ true → x ≡ y
unfolding same
same_eq x y h = ground (arith, h)

same_sym : (x y : String) → same x y ≡ same y x
unfolding same
same_sym x y = ground arith

same_times : (t u : String) (w : List (ℕ × String)) → same t u ≡ true → times t w ≡ times u w
same_times t u w h = ap (λ x. times x w) (same_eq t u h)

pub kinds-append :
    (w : List (ℕ × String)) (e : ℕ × String)
    → kinds (w ++ e ∷ []) ≡ first_time (times e.1 w) + kinds w
kinds-append [] e = omega arith
kinds-append (f ∷ w) e = ground (
  arith,
  kinds-append w e,
  count-append (λ x. same x.1 f.1) w (e ∷ []),
  same_sym f.1 e.1,
  same_times f.1 e.1 w,
)

-- One more event at the right end, and one less at the left.
pub put-IsCount :
    (e : ℕ × String) (have : List (String × ℕ)) (w : List (ℕ × String))
    → IsCount have w
    → IsCount (put e.1 (suc (or_else 0 (lookup e.1 have))) have) (w ++ e ∷ [])
unfolding same
put-IsCount e have w h =
    let n = suc (or_else 0 (lookup e.1 have)) in
    (
      λ t. ground (
        arith,
        lookup-put e.1 t n have,
        h.0 t,
        h.0 e.1,
        count-append (λ x. same x.1 t) w (e ∷ []),
        same_times e.1 t w,
      ),
      (
        ground (arith, length-put e.1 n have, h.0 e.1, h.1.0, kinds-append w e),
        put-IsUnique e.1 n have h.1.1,
      ),
    )

fewer_by :
    (n : ℕ) (e : ℕ × String) (have : List (String × ℕ)) (w : List (ℕ × String))
    → times e.1 w ≡ n
    → lookup e.1 have ≡ some (suc n)
    → IsCount have (e ∷ w)
    → IsCount (fewer e.1 (suc n) have) w
unfolding same
fewer_by zero e have w hn hl h = (
  λ t. ground (arith, hn, lookup-delete e.1 t have, h.0 t, same_times e.1 t w),
  (
    omega (arith, length-delete e.1 1 have h.1.1 hl, h.1.0, ap first_time hn),
    delete-IsUnique e.1 have h.1.1,
  ),
)
fewer_by (suc n) e have w hn hl h = (
  λ t. ground (arith, hn, lookup-put e.1 t (suc n) have, h.0 t, same_times e.1 t w),
  (
    omega (arith, length-put e.1 (suc n) have, ap missing hl, h.1.0, ap first_time hn),
    put-IsUnique e.1 (suc n) have h.1.1,
  ),
)

first_counted :
    (e : ℕ × String) (have : List (String × ℕ)) (w : List (ℕ × String))
    → IsCount have (e ∷ w)
    → lookup e.1 have ≡ some (suc (times e.1 w))
unfolding same
first_counted e have w h = ground (arith, h.0 e.1)

pub fewer-IsCount :
    (e : ℕ × String) (have : List (String × ℕ)) (w : List (ℕ × String))
    → IsCount have (e ∷ w)
    → IsCount (fewer e.1 (or_else 0 (lookup e.1 have)) have) w
fewer-IsCount e have w h =
    subst (λ o. IsCount (fewer e.1 (or_else 0 o) have) w) (sym (first_counted e have w h))
      (fewer_by (times e.1 w) e have w refl (first_counted e have w h) h)

pub kinds-prefix : (v w : List (ℕ × String)) → kinds w ≤ kinds (w ++ v)
kinds-prefix [] w = omega (arith, ap kinds (append_nil w))
kinds-prefix (x ∷ v) w =
    omega
      (arith, kinds-append w x, kinds-prefix v (w ++ x ∷ []), ap kinds (append_assoc w (x ∷ []) v))

pub kinds-suffix : (v w : List (ℕ × String)) → kinds w ≤ kinds (v ++ w)
kinds-suffix [] w = omega arith
kinds-suffix (x ∷ v) w = omega (arith, kinds-suffix v w)

pub first_time-le : (n : ℕ) → first_time n ≤ 1
first_time-le zero = omega arith
first_time-le (suc n) = omega arith
