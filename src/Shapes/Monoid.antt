-- ===== src/Shapes/Monoid.antt =====
-- Broadcasting, as an operation that may fail, in any order and grouping.
use mathlib.Core.Option.{bind}
use mastery.Prelude.{
  ℕ, zero, suc, ◌-◌, ◌≤◌, ◌<◌, ◌≡◌, refl, max, Option, none, some, List, [], ◌∷◌, ◌++◌, length,
  arith, sym, ap, ◌∙◌,
}
use mastery.Shapes.{ones, pad_to, fit, fit_all, broadcast}
use mastery.Shapes.Aligned.{IsPositive, fit_all_comm, aligned, backwards, broadcast-aligned}
use mastery.Shapes.Padded.{
  length-pad_to, pad_to-pad_to, bind-bind, bind-ext, fit_all-length, fit_all-pad_to,
}

fit_assoc :
    (a b c : ℕ)
    → 0 < a
    → 0 < b
    → 0 < c
    → bind (fit a b) (λ r. fit r c) ≡ bind (fit b c) (λ r. fit a r)
unfolding bind
fit_assoc a b c ha hb hc = ground arith

-- `broadcast` does not depend on the order of its two shapes.
broadcast_comm : (a b : List ℕ) → broadcast a b ≡ broadcast b a
unfolding broadcast
broadcast_comm a b = fit_all_comm (pad_to (length b) a) (pad_to (length a) b)

-- The result of a pair before the results of the rest.
abbrev cons_of : Option ℕ → Option (List ℕ) → Option (List ℕ)
cons_of o os = bind o (λ c. bind os (λ cs. some (c ∷ cs)))

cons_of-none : (o : Option ℕ) → cons_of o none ≡ none
unfolding bind
cons_of-none none = refl
cons_of-none (some c) = refl

cons_of-first :
    (z : ℕ) (c : List ℕ) (o : Option ℕ) (os : Option (List ℕ))
    → bind (cons_of o os) (λ r. fit_all r (z ∷ c))
      ≡ cons_of (bind o (λ p. fit p z)) (bind os (λ ps. fit_all ps c))
unfolding bind fit_all
cons_of-first z c none os = refl
cons_of-first z c (some p) none = sym (cons_of-none (fit p z))
cons_of-first z c (some p) (some ps) = refl

cons_of-second :
    (x : ℕ) (a : List ℕ) (o : Option ℕ) (os : Option (List ℕ))
    → bind (cons_of o os) (λ r. fit_all (x ∷ a) r)
      ≡ cons_of (bind o (λ p. fit x p)) (bind os (λ ps. fit_all a ps))
unfolding bind fit_all
cons_of-second x a none os = refl
cons_of-second x a (some p) none = sym (cons_of-none (fit x p))
cons_of-second x a (some p) (some ps) = refl

fit_all_assoc :
    (a b c : List ℕ)
    → length a ≡ length b
    → length b ≡ length c
    → IsPositive a
    → IsPositive b
    → IsPositive c
    → bind (fit_all a b) (λ r. fit_all r c) ≡ bind (fit_all b c) (λ r. fit_all a r)
unfolding fit_all bind
fit_all_assoc [] [] [] h k ha hb hc = refl
fit_all_assoc [] [] (z ∷ c) h k ha hb hc = absurd (omega (arith, k))
fit_all_assoc [] (y ∷ b) c h k ha hb hc = absurd (omega (arith, h))
fit_all_assoc (x ∷ a) [] c h k ha hb hc = absurd (omega (arith, h))
fit_all_assoc (x ∷ a) (y ∷ b) [] h k ha hb hc = absurd (omega (arith, k))
fit_all_assoc (x ∷ a) (y ∷ b) (z ∷ c) h k ha hb hc =
    cons_of-first z c (fit x y) (fit_all a b)
    ∙ ap (λ o. cons_of o (bind (fit_all a b) (λ ps. fit_all ps c))) (fit_assoc x y z ha.0 hb.0 hc.0)
    ∙ ap (cons_of (bind (fit y z) (λ p. fit x p)))
        (fit_all_assoc a b c (omega (arith, h)) (omega (arith, k)) ha.1 hb.1 hc.1)
    ∙ sym (cons_of-second x a (fit y z) (fit_all b c))

ones-IsPositive : (k : ℕ) (a : List ℕ) → IsPositive a → IsPositive (ones k ++ a)
ones-IsPositive zero a h = h
ones-IsPositive (suc k) a h = (omega arith, ones-IsPositive k a h)

pad_to-IsPositive : (n : ℕ) (a : List ℕ) → IsPositive a → IsPositive (pad_to n a)
pad_to-IsPositive n a h = ones-IsPositive (n - length a) a h

-- `broadcast` with both shapes padded further.
broadcast_padded :
    (n : ℕ) (a b : List ℕ)
    → length a ≤ n
    → length b ≤ n
    → fit_all (pad_to n a) (pad_to n b) ≡ bind (broadcast a b) (λ c. some (pad_to n c))
unfolding broadcast
broadcast_padded n a b ha hb =
    let la = pad_to (length b) a in
    let lb = pad_to (length a) b in
    sym (ap (λ x. fit_all x (pad_to n b)) (pad_to-pad_to n (length b) a hb))
    ∙ sym (ap (λ y. fit_all (pad_to n la) y) (pad_to-pad_to n (length a) b ha))
    ∙ fit_all-pad_to n la lb (omega (arith, length-pad_to (length b) a, length-pad_to (length a) b))

broadcast_full :
    (n : ℕ) (a b : List ℕ)
    → n ≡ max (length a) (length b)
    → fit_all (pad_to n a) (pad_to n b) ≡ broadcast a b
unfolding broadcast
broadcast_full n a b h =
    ap (λ k. fit_all (ones k ++ a) (pad_to n b)) {x = n - length a} {y = length b - length a}
      (omega (arith, h))
    ∙ ap (λ k. fit_all (pad_to (length b) a) (ones k ++ b)) {x = n - length b}
        {y = length a - length b} (omega (arith, h))

broadcast-length : (a b c : List ℕ) → broadcast a b ≡ some c → length c ≡ max (length a) (length b)
unfolding broadcast
broadcast-length a b c e = omega (
  arith,
  fit_all-length (pad_to (length b) a) (pad_to (length a) b) c
      (omega (arith, length-pad_to (length b) a, length-pad_to (length a) b)) e,
  length-pad_to (length b) a,
)

-- Both groupings of three shapes, over the shapes padded to the longest.
first_two :
    (n : ℕ) (a b c : List ℕ)
    → n ≡ max (max (length a) (length b)) (length c)
    → bind (fit_all (pad_to n a) (pad_to n b)) (λ r. fit_all r (pad_to n c))
      ≡ bind (broadcast a b) (λ r. broadcast r c)
unfolding bind
first_two n a b c h =
    ap (λ o. bind o (λ r. fit_all r (pad_to n c)))
      (broadcast_padded n a b (omega (arith, h)) (omega (arith, h)))
    ∙ bind-bind (broadcast a b) (λ r. some (pad_to n r)) (λ r. fit_all r (pad_to n c))
    ∙ bind-ext (broadcast a b) _ _
        (λ r e. broadcast_full n r c (omega (arith, h, broadcast-length a b r e)))

last_two :
    (n : ℕ) (a b c : List ℕ)
    → n ≡ max (max (length a) (length b)) (length c)
    → bind (fit_all (pad_to n b) (pad_to n c)) (λ r. fit_all (pad_to n a) r)
      ≡ bind (broadcast b c) (λ r. broadcast a r)
unfolding bind
last_two n a b c h =
    ap (λ o. bind o (λ r. fit_all (pad_to n a) r))
      (broadcast_padded n b c (omega (arith, h)) (omega (arith, h)))
    ∙ bind-bind (broadcast b c) (λ r. some (pad_to n r)) (λ r. fit_all (pad_to n a) r)
    ∙ bind-ext (broadcast b c) _ _
        (λ r e. broadcast_full n a r (omega (arith, h, broadcast-length b c r e)))

-- Shapes without a length 0 can be broadcast in any order and in any grouping: the result, or the
-- error, is the same. And the result of two is given by their lengths from the last one on: two
-- lengths that are the same stay, a 1 gives way to the other length, any other two are an error, and
-- the lengths that only the longer shape has are kept.
pub broadcast_monoid :
    (a b c : List ℕ)
    → IsPositive a
    → IsPositive b
    → IsPositive c
    → (broadcast a b ≡ broadcast b a)
      × (bind (broadcast a b) (λ r. broadcast r c) ≡ bind (broadcast b c) (λ r. broadcast a r))
      × (broadcast a b ≡ bind (aligned (backwards a) (backwards b)) (λ r. some (backwards r)))
broadcast_monoid a b c ha hb hc =
    let n = max (max (length a) (length b)) (length c) in
    (
      broadcast_comm a b,
      sym (first_two n a b c refl)
          ∙ fit_all_assoc (pad_to n a) (pad_to n b) (pad_to n c)
              (omega (arith, length-pad_to n a, length-pad_to n b))
              (omega (arith, length-pad_to n b, length-pad_to n c)) (pad_to-IsPositive n a ha)
              (pad_to-IsPositive n b hb) (pad_to-IsPositive n c hc)
          ∙ last_two n a b c refl,
      broadcast-aligned a b ha hb,
    )
