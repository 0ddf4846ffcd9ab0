-- ===== src/Shapes/Padded.antt =====
-- Padding before the loop and after it.
use mathlib.Core.Option.{bind}
use mastery.Prelude.{
  ℕ, zero, suc, ◌+◌, ◌-◌, ◌≤◌, ◌≡◌, refl, max, Option, none, some, List, [], ◌∷◌, ◌++◌, length,
  arith, sym, ap, ◌∙◌, length-append, subst,
}
use mastery.Shapes.{ones, pad_to, fit, fit_all}

pub length-ones : (n : ℕ) → length (ones n) ≡ n
length-ones zero = refl
length-ones (suc n) = ap suc (length-ones n)

pub length-pad_to : (n : ℕ) (a : List ℕ) → length (pad_to n a) ≡ max n (length a)
length-pad_to n a = omega (arith, length-append (ones (n - length a)) a, length-ones (n - length a))

-- Padding as far as it is padded already does nothing, and padding twice is padding further.
pub pad_to-full : (n : ℕ) (a : List ℕ) → n ≤ length a → pad_to n a ≡ a
pad_to-full n a h = ap (λ k. ones k ++ a) {x = n - length a} {y = 0} (omega (arith, h))

ones_add : (m n : ℕ) (a : List ℕ) → ones m ++ (ones n ++ a) ≡ ones (m + n) ++ a
ones_add zero n a = ap (λ k. ones k ++ a) {x = n} {y = 0 + n} (omega arith)
ones_add (suc m) n a =
    ap (λ b. 1 ∷ b) (ones_add m n a)
    ∙ ap (λ k. ones k ++ a) {x = suc (m + n)} {y = suc m + n} (omega arith)

pub pad_to-pad_to : (n k : ℕ) (a : List ℕ) → k ≤ n → pad_to n (pad_to k a) ≡ pad_to n a
pad_to-pad_to n k a h =
    ones_add (n - length (pad_to k a)) (k - length a) a
    ∙ ap (λ j. ones j ++ a) {x = (n - length (pad_to k a)) + (k - length a)} {y = n - length a}
        (omega (arith, h, length-pad_to k a))

-- `bind` after `bind`.
pub bind-bind {ℓ κ μ} :
    {A : Type ℓ} {B : Type κ} {C : Type μ} (o : Option A) (f : A → Option B) (g : B → Option C)
    → bind (bind o f) g ≡ bind o (λ a. bind (f a) g)
unfolding bind
bind-bind none f g = refl
bind-bind (some a) f g = refl

bind-some {ℓ} : {A : Type ℓ} (o : Option A) → bind o (λ a. some a) ≡ o
unfolding bind
bind-some none = refl
bind-some (some a) = refl

pub bind-ext {ℓ κ} :
    {A : Type ℓ} {B : Type κ} (o : Option A) (f g : A → Option B)
    → ((a : A) → o ≡ some a → f a ≡ g a)
    → bind o f ≡ bind o g
unfolding bind
bind-ext none f g h = refl
bind-ext (some a) f g h = h a refl

-- The loop over two shapes with as many ones in front.
pub fit_all-ones :
    (k : ℕ) (a b : List ℕ)
    → fit_all (ones k ++ a) (ones k ++ b) ≡ bind (fit_all a b) (λ c. some (ones k ++ c))
unfolding fit_all bind
fit_all-ones zero a b = sym (bind-some (fit_all a b))
fit_all-ones (suc k) a b =
    ap (λ o. bind o (λ cs. some (1 ∷ cs))) (fit_all-ones k a b)
    ∙ bind-bind (fit_all a b) (λ c. some (ones k ++ c)) (λ cs. some (1 ∷ cs))

-- A result of a length.
abbrev pub IsOfLength : ℕ → Option (List ℕ) → Type 0
IsOfLength n none = Unit
IsOfLength n (some c) = length c ≡ n

cons-IsOfLength :
    (n c : ℕ) (o : Option (List ℕ))
    → IsOfLength n o
    → IsOfLength (suc n) (bind o (λ cs. some (c ∷ cs)))
unfolding bind
cons-IsOfLength n c none h = tt
cons-IsOfLength n c (some cs) h = ap suc h

fit_all-IsOfLength : (a b : List ℕ) → length a ≡ length b → IsOfLength (length a) (fit_all a b)
unfolding fit_all bind
fit_all-IsOfLength [] b h = refl
fit_all-IsOfLength (x ∷ a) [] h = absurd (omega (arith, h))
fit_all-IsOfLength (x ∷ a) (y ∷ b) h =
    elim (fit x y)
      as (λ o.
        IsOfLength (suc (length a)) (bind o (λ c. bind (fit_all a b) (λ cs. some (c ∷ cs))))) [
          | none ↦ tt
          | some c ↦
              cons-IsOfLength (length a) c (fit_all a b) (fit_all-IsOfLength a b (omega (arith, h)))
        ]

pub fit_all-length :
    (a b c : List ℕ) → length a ≡ length b → fit_all a b ≡ some c → length c ≡ length a
fit_all-length a b c h e = subst (IsOfLength (length a)) e (fit_all-IsOfLength a b h)

-- Padded further, the loop gives what it gives, padded further.
pub fit_all-pad_to :
    (n : ℕ) (a b : List ℕ)
    → length a ≡ length b
    → fit_all (pad_to n a) (pad_to n b) ≡ bind (fit_all a b) (λ c. some (pad_to n c))
fit_all-pad_to n a b h =
    ap (λ l. fit_all (pad_to n a) (ones (n - l) ++ b)) (sym h)
    ∙ fit_all-ones (n - length a) a b
    ∙ bind-ext (fit_all a b) _ _
        (λ c e. ap (λ l. some (ones (n - l) ++ c)) (sym (fit_all-length a b c h e)))
