-- ===== src/Shapes/Aligned.antt =====
-- Broadcasting of modules/stats-lab/shapes_lab.py against the rule that reads two shapes from their
-- last lengths on.
use mathlib.Core.Option.{bind}
use mastery.Prelude.{
  ℕ, zero, suc, ◌-◌, ◌<◌, ◌≡◌, refl, Option, none, some, List, [], ◌∷◌, ◌++◌, length, ◌==◌,
  if◌then◌else◌, arith, sym, ap, ◌∙◌, All, length-append,
}
use mastery.Shapes.{ones, pad_to, fit, fit_all, broadcast}
use mastery.Shapes.Padded.{length-pad_to}

-- No length is 0.
abbrev pub IsPositive : List ℕ → Type 0
IsPositive shape = All (λ n. 0 < n) shape

fit_comm : (a b : ℕ) → fit a b ≡ fit b a
fit_comm a b = ground arith

pub fit_all_comm : (a b : List ℕ) → fit_all a b ≡ fit_all b a
unfolding fit_all bind
fit_all_comm [] [] = refl
fit_all_comm [] (y ∷ b) = refl
fit_all_comm (x ∷ a) [] = refl
fit_all_comm (x ∷ a) (y ∷ b) =
    ap (λ o. bind o (λ c. bind (fit_all a b) (λ cs. some (c ∷ cs)))) (fit_comm x y)
    ∙ ap (λ o. bind (fit y x) (λ c. bind o (λ cs. some (c ∷ cs)))) (fit_all_comm a b)

-- A shape from its last length on.
unfoldable pub backwards : List ℕ → List ℕ
backwards [] = []
backwards (x ∷ xs) = backwards xs ++ (x ∷ [])

-- Two lengths agree when they are the same or one of them is 1, which gives way to the other.
unfoldable pub agreed : ℕ → ℕ → Option ℕ
agreed x y =
    if x == y then some x else (if x == 1 then some y else (if y == 1 then some x else none))

-- Two shapes, each from its last length on: what one has beyond the other is kept.
unfoldable pub aligned : List ℕ → List ℕ → Option (List ℕ)
unfolding bind
aligned [] ys = some ys
aligned (x ∷ xs) [] = some (x ∷ xs)
aligned (x ∷ xs) (y ∷ ys) = bind (aligned xs ys) (λ cs. bind (agreed x y) (λ c. some (c ∷ cs)))

fit-agreed : (x y : ℕ) → 0 < x → 0 < y → fit x y ≡ agreed x y
unfolding agreed
fit-agreed x y h k = ground arith

length-backwards : (xs : List ℕ) → length (backwards xs) ≡ length xs
unfolding backwards
length-backwards [] = refl
length-backwards (x ∷ xs) =
    omega (arith, length-append (backwards xs) (x ∷ []), length-backwards xs)

append_assoc : (xs ys zs : List ℕ) → (xs ++ ys) ++ zs ≡ xs ++ (ys ++ zs)
append_assoc [] ys zs = refl
append_assoc (x ∷ xs) ys zs = ap (λ l. x ∷ l) (append_assoc xs ys zs)

backwards-append : (xs : List ℕ) (x : ℕ) → backwards (xs ++ (x ∷ [])) ≡ x ∷ backwards xs
unfolding backwards
backwards-append [] x = refl
backwards-append (y ∷ xs) x = ap (λ l. l ++ (y ∷ [])) (backwards-append xs x)

backwards_twice : (xs : List ℕ) → backwards (backwards xs) ≡ xs
unfolding backwards
backwards_twice [] = refl
backwards_twice (x ∷ xs) = backwards-append (backwards xs) x ∙ ap (λ l. x ∷ l) (backwards_twice xs)

append-IsPositive : (xs : List ℕ) (x : ℕ) → IsPositive xs → 0 < x → IsPositive (xs ++ (x ∷ []))
append-IsPositive [] x h k = (k, tt)
append-IsPositive (y ∷ xs) x h k = (h.0, append-IsPositive xs x h.1 k)

backwards-IsPositive : (xs : List ℕ) → IsPositive xs → IsPositive (backwards xs)
unfolding backwards
backwards-IsPositive [] h = tt
backwards-IsPositive (x ∷ xs) h =
    append-IsPositive (backwards xs) x (backwards-IsPositive xs h.1) h.0

-- Ones give way to lengths that are not 0.
fit_all-ones_first :
    (n : ℕ) (zs : List ℕ) → n ≡ length zs → IsPositive zs → fit_all (ones n ++ []) zs ≡ some zs
unfolding fit_all bind
fit_all-ones_first zero [] e h = refl
fit_all-ones_first zero (z ∷ zs) e h = absurd (omega (arith, e))
fit_all-ones_first (suc n) [] e h = absurd (omega (arith, e))
fit_all-ones_first (suc n) (z ∷ zs) e h =
    let one : fit 1 z ≡ some z = ground (arith, h.0) in
    ap (λ o. bind o (λ c. bind (fit_all (ones n ++ []) zs) (λ cs. some (c ∷ cs)))) one
    ∙ ap (λ o. bind o (λ cs. some (z ∷ cs))) (fit_all-ones_first n zs (omega (arith, e)) h.1)

-- Against a shape without lengths, a shape without a length 0 is kept.
fit_all-beyond :
    (n : ℕ) (zs : List ℕ)
    → n ≡ length zs
    → IsPositive zs
    → fit_all (pad_to n []) (pad_to 0 zs) ≡ some zs
fit_all-beyond n zs e h =
    ap (λ k. fit_all (ones k ++ []) (pad_to 0 zs)) {x = n - 0} {y = n} (omega arith)
    ∙ ap (λ k. fit_all (ones n ++ []) (ones k ++ zs)) {x = 0 - length zs} {y = 0} (omega arith)
    ∙ fit_all-ones_first n zs e h

cons_then_last :
    (x y : ℕ) (o p : Option ℕ) (os : Option (List ℕ))
    → bind o (λ c. bind (bind os (λ cs. bind p (λ d. some (cs ++ (d ∷ []))))) (λ cs. some (c ∷ cs)))
      ≡ bind
          (bind o (λ c. bind os (λ cs. some (c ∷ cs))))
          (λ cs. bind p (λ d. some (cs ++ (d ∷ []))))
unfolding bind
cons_then_last x y none p os = refl
cons_then_last x y (some c) p none = refl
cons_then_last x y (some c) none (some cs) = refl
cons_then_last x y (some c) (some d) (some cs) = refl

-- The loop with one more pair at the end.
fit_all-append :
    (a b : List ℕ) (x y : ℕ)
    → length a ≡ length b
    → fit_all (a ++ (x ∷ [])) (b ++ (y ∷ []))
      ≡ bind (fit_all a b) (λ cs. bind (fit x y) (λ c. some (cs ++ (c ∷ []))))
unfolding fit_all bind
fit_all-append [] [] x y e = refl
fit_all-append [] (d ∷ b) x y e = absurd (omega (arith, e))
fit_all-append (c ∷ a) [] x y e = absurd (omega (arith, e))
fit_all-append (c ∷ a) (d ∷ b) x y e =
    ap (λ o. bind (fit c d) (λ z. bind o (λ cs. some (z ∷ cs))))
      (fit_all-append a b x y (omega (arith, e)))
    ∙ cons_then_last x y (fit c d) (fit x y) (fit_all a b)

pad_to-append : (m x : ℕ) (xs : List ℕ) → pad_to (suc m) (xs ++ (x ∷ [])) ≡ pad_to m xs ++ (x ∷ [])
pad_to-append m x xs =
    ap (λ k. ones k ++ (xs ++ (x ∷ []))) {x = suc m - length (xs ++ (x ∷ []))} {y = m - length xs}
      (omega (arith, length-append xs (x ∷ [])))
    ∙ sym (append_assoc (ones (m - length xs)) xs (x ∷ []))

last_then_cons :
    (o : Option ℕ) (os : Option (List ℕ))
    → bind (bind os (λ cs. some (backwards cs))) (λ cs. bind o (λ c. some (cs ++ (c ∷ []))))
      ≡ bind (bind os (λ cs. bind o (λ c. some (c ∷ cs)))) (λ cs. some (backwards cs))
unfolding bind backwards
last_then_cons none none = refl
last_then_cons (some c) none = refl
last_then_cons none (some cs) = refl
last_then_cons (some c) (some cs) = refl

backwards-aligned :
    (xs ys : List ℕ)
    → IsPositive xs
    → IsPositive ys
    → fit_all (pad_to (length ys) (backwards xs)) (pad_to (length xs) (backwards ys))
      ≡ bind (aligned xs ys) (λ cs. some (backwards cs))
unfolding aligned backwards bind
backwards-aligned [] ys h k =
    fit_all-beyond (length ys) (backwards ys) (sym (length-backwards ys))
      (backwards-IsPositive ys k)
backwards-aligned (x ∷ xs) [] h k =
    fit_all_comm (pad_to 0 (backwards (x ∷ xs))) (pad_to (suc (length xs)) [])
    ∙ fit_all-beyond (suc (length xs)) (backwards (x ∷ xs)) (sym (length-backwards (x ∷ xs)))
        (backwards-IsPositive (x ∷ xs) h)
backwards-aligned (x ∷ xs) (y ∷ ys) h k =
    let p = pad_to (length ys) (backwards xs) in
    let q = pad_to (length xs) (backwards ys) in
    ap (λ l. fit_all l (pad_to (suc (length xs)) (backwards ys ++ (y ∷ []))))
      (pad_to-append (length ys) x (backwards xs))
    ∙ ap (fit_all (p ++ (x ∷ []))) (pad_to-append (length xs) y (backwards ys))
    ∙ fit_all-append p q x y (
        omega (
          arith,
          length-pad_to (length ys) (backwards xs),
          length-pad_to (length xs) (backwards ys),
          length-backwards xs,
          length-backwards ys,
        ))
    ∙ ap (λ o. bind o (λ cs. bind (fit x y) (λ c. some (cs ++ (c ∷ [])))))
        (backwards-aligned xs ys h.1 k.1)
    ∙ ap
        (λ o.
          bind (bind (aligned xs ys) (λ cs. some (backwards cs)))
            (λ cs. bind o (λ c. some (cs ++ (c ∷ [])))))
        (fit-agreed x y h.0 k.0)
    ∙ last_then_cons (agreed x y) (aligned xs ys)

-- Broadcasting aligns the shapes at their last lengths.
pub broadcast-aligned :
    (a b : List ℕ)
    → IsPositive a
    → IsPositive b
    → broadcast a b ≡ bind (aligned (backwards a) (backwards b)) (λ c. some (backwards c))
unfolding broadcast
broadcast-aligned a b h k =
    let again =
      backwards-aligned (backwards a) (backwards b) (backwards-IsPositive a h)
        (backwards-IsPositive b k) in
    let one = rw (length-backwards a) at again in
    let two = rw (length-backwards b) at one in
    let three = rw (backwards_twice a) at two in rw (backwards_twice b) at three
