-- ===== src/Retrieval/Rerank/Names.antt =====
-- The keys of a dictionary of scores, and the first places of a list.
use mathlib.Core.Option.{bind}
use mastery.Prelude.{
  ℕ, zero, suc, ◌≡◌, refl, String, String_discrete, ite, true, Option, some, List, [], ◌∷◌, ◌++◌,
  map, length, take, drop, count, All, sym, ap, subst, arith,
}
use mastery.Prelude.Dict.{lookup, put}
use mastery.Retrieval.Index.Scored.{Gives, Keys, is_some}
use mastery.Retrieval.Index.Built.{Has}

abbrev pub names {ℓ} : {V : Type ℓ} → List (String × V) → List String
names {V = V} d = map (λ (kv : String × V). kv.0) d

-- A result of the rest, once the first part is known.
pub after_bind {ℓ κ μ} :
    {A : Type ℓ} {B : Type κ} {P : B → Type μ} (o : Option A) (f : A → Option B) (a : A)
    → o ≡ some a
    → Gives P (f a)
    → Gives P (bind o f)
unfolding bind
after_bind {P = P} o f a e h = subst (λ x. Gives P (bind x f)) (sym e) h

pub count_all {ℓ} : {A : Type ℓ} (xs : List A) → count (λ x. true) xs ≡ length xs
count_all [] = refl
count_all (x ∷ xs) = ap suc (count_all xs)

pub drop_first {ℓ} :
    {A : Type ℓ} (n : ℕ) (xs full : List A)
    → length xs ≡ length (take n full)
    → drop n (xs ++ drop n full) ≡ drop n full
drop_first zero [] full h = refl
drop_first zero (x ∷ xs) full h = absurd (omega (arith, h))
drop_first (suc n) [] [] h = refl
drop_first (suc n) (x ∷ xs) [] h = absurd (omega (arith, h))
drop_first (suc n) [] (y ∷ full) h = absurd (omega (arith, h))
drop_first (suc n) (x ∷ xs) (y ∷ full) h = drop_first n xs full (omega (arith, h))

pub All-names {ℓ κ} :
    {V : Type ℓ} (P : String → Type κ) (d : List (String × V)) → All P (names d) → Keys P d
All-names P [] h = tt
All-names P (kv ∷ d) h = (h.0, All-names P d h.1)

pub names-All {ℓ κ} :
    {V : Type ℓ} (P : String → Type κ) (d : List (String × V)) → Keys P d → All P (names d)
names-All P [] h = tt
names-All P (kv ∷ d) h = (h.0, names-All P d h.1)

pub names-put {ℓ} :
    {V : Type ℓ} (k : String) (v : V) (d : List (String × V))
    → Has d k
    → names (put k v d) ≡ names d
unfolding put lookup
names-put k v [] h = absurd cc
names-put {V = V} k v ((j, w) ∷ d) h =
    elim (String_discrete j k)
        as (λ b.
          is_some (ite b (some w) (lookup k d)) ≡ true
          → names (ite b ((k, v) ∷ d) ((j, w) ∷ put k v d)) ≡ j ∷ names d) [
            | yes e ↦ λ h2. ap (λ x. x ∷ names d) (sym e)
            | no e ↦ λ h2. ap (λ ds. j ∷ ds) (names-put k v d h2)
          ]
      h
