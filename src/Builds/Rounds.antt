-- ===== src/Builds/Rounds.antt =====
-- The names that wait in the loop of `resolve`, and the dependencies that it has still to expand.
use mastery.Prelude.{
  same, member, ℕ, ◌+◌, ◌≤◌, ◌≡◌, refl, String, String_discrete, ite, Bool, true, ◌||◌, Option,
  none, some, List, [], ◌∷◌, length, All, All-map, arith, ap,
}
use mastery.Prelude.Dict.{lookup, put, lookup-put}
use mastery.Builds.{push_all, list_or_nil, is_in, sizes}

pub put-All {ℓ κ} :
    {V : Type ℓ} (P : String × V → Type κ) (k : String) (v : V) (d : List (String × V))
    → P (k, v)
    → All P d
    → All P (put k v d)
unfolding put
put-All P k v [] h hd = (h, tt)
put-All P k v ((j, w) ∷ d) h hd =
    elim (String_discrete j k) as (λ t. All P (ite t ((k, v) ∷ d) ((j, w) ∷ put k v d))) [
      | yes e ↦ (h, hd.1)
      | no e ↦ (hd.0, put-All P k v d h hd.1)
    ]

pub length-push_all :
    (ds queue : List String) → length (push_all ds queue) ≡ length ds + length queue
length-push_all [] queue = omega arith
length-push_all (d ∷ ds) queue = omega (arith, length-push_all ds (d ∷ queue))

pub push_all-All {κ} :
    (P : String → Type κ) (ds queue : List String)
    → All P ds
    → All P queue
    → All P (push_all ds queue)
push_all-All P [] queue h hq = hq
push_all-All P (d ∷ ds) queue h hq = push_all-All P ds (d ∷ queue) h.1 (h.0, hq)

pub member-push_all :
    (x : String) (ds queue : List String)
    → member x (push_all ds queue) ≡ (member x ds || member x queue)
unfolding member
member-push_all x [] queue = refl
member-push_all x (d ∷ ds) queue = ground (arith, member-push_all x ds (d ∷ queue))

pub same_refl : (x : String) → same x x ≡ true
unfolding same
same_refl x = ground arith

pub members : (ds : List String) → All (λ d. member d ds ≡ true) ds
unfolding member
members [] = tt
members (d ∷ ds) = (ground (arith, same_refl d), All-map (λ x e. ground (arith, e)) ds (members ds))

-- A name that is there or waits.
abbrev pub owed : List (String × String) → List String → String → Bool
owed out queue d = is_in (lookup d out) || member d queue

pub owed_skip :
    (out : List (String × String)) (name : String) (queue : List String) (d : String)
    → is_in (lookup name out) ≡ true
    → owed out (name ∷ queue) d ≡ true
    → owed out queue d ≡ true
unfolding member same
owed_skip out name queue d h e = ground (arith, h, e)

pub owed_add :
    (out : List (String × String)) (name v : String) (ds queue : List String) (d : String)
    → owed out (name ∷ queue) d ≡ true
    → owed (put name v out) (push_all ds queue) d ≡ true
unfolding member same
owed_add out name v ds queue d e =
    ground (arith, e, lookup-put name d v out, member-push_all d ds queue)

pub owed_new :
    (out : List (String × String)) (ds queue : List String) (d : String)
    → member d ds ≡ true
    → owed out (push_all ds queue) d ≡ true
owed_new out ds queue d e = ground (arith, e, member-push_all d ds queue)

-- How many dependencies are not expanded yet.
abbrev weight : Option String → List String → ℕ
weight none ds = length ds
weight (some v) ds = 0

abbrev pub pending : List (String × String) → List (String × List String) → ℕ
pending out [] = 0
pending out ((k, ds) ∷ rest) = weight (lookup k out) ds + pending out rest

pub pending-nil : (deps : List (String × List String)) → pending [] deps ≡ sizes deps
unfolding lookup
pending-nil [] = refl
pending-nil ((k, ds) ∷ rest) = ap (λ n. length ds + n) (pending-nil rest)

pub weight-put :
    (name v k : String) (out : List (String × String)) (ds : List String)
    → weight (lookup k (put name v out)) ds ≤ weight (lookup k out) ds
weight-put name v k out ds = ground (arith, lookup-put name k v out)

pub pending-put :
    (name v : String) (out : List (String × String)) (deps : List (String × List String))
    → pending (put name v out) deps ≤ pending out deps
pending-put name v out [] = omega arith
pending-put name v out ((k, ds) ∷ rest) =
    omega (arith, pending-put name v out rest, weight-put name v k out ds)

pub pending_drops :
    (name v : String) (out : List (String × String)) (deps : List (String × List String))
    → lookup name out ≡ none
    → length (list_or_nil (lookup name deps)) + pending (put name v out) deps ≤ pending out deps
unfolding lookup
pending_drops name v out [] h = omega arith
pending_drops name v out ((k, ds) ∷ rest) h =
    elim (String_discrete k name)
      as (λ b.
        length (list_or_nil (ite b (some ds) (lookup name rest)))
          + (weight (lookup k (put name v out)) ds + pending (put name v out) rest)
        ≤ weight (lookup k out) ds + pending out rest) [
          | yes e ↦ ground (arith, lookup-put name k v out, h, e, pending-put name v out rest)
          | no e ↦ omega (arith, pending_drops name v out rest h, weight-put name v k out ds)
        ]
