-- ===== src/Retrieval/Index/Built.antt =====
-- The index that the constructor builds knows each document of its postings.
use Prim.Native.Char.{Char}
use mastery.Prelude.{
  arith, member, if◌then◌else◌, sym, ◌∙◌, ℕ, ◌≡◌, refl, String, String_discrete, ite, true, false,
  some, List, [], ◌∷◌, map, All, All-map,
}
use mastery.Prelude.Dict.{lookup, put, lookup-put}
use mastery.Retrieval.Numbers.{Num}
use mastery.Retrieval.Index.{
  Index, add_to, or_else, post_terms, post_docs, terms_of, lengths_of, new_index, counter,
  sum_counts,
}
use mastery.Retrieval.Index.Scored.{is_some, Keys, Postings, IsKnown, Gives, lookup-Postings}

-- A document that a dictionary has.
abbrev pub Has {ℓ} : {V : Type ℓ} → List (String × V) → String → Type 0
Has d k = is_some (lookup k d) ≡ true

Has-cons {ℓ} :
    {V : Type ℓ} (j k : String) (v : V) (d : List (String × V)) → Has d k → Has ((j, v) ∷ d) k
unfolding lookup
Has-cons j k v d h =
    elim (String_discrete j k) as (λ b. is_some (ite b (some v) (lookup k d)) ≡ true) [
      | yes e ↦ refl
      | no e ↦ h
    ]

Has-first {ℓ} : {V : Type ℓ} (k : String) (v : V) (d : List (String × V)) → Has ((k, v) ∷ d) k
unfolding lookup
Has-first k v d =
    elim (String_discrete k k) as (λ b. is_some (ite b (some v) (lookup k d)) ≡ true) [
      | yes e ↦ refl
      | no e ↦ absurd (e refl)
    ]

pub Keys-Has {ℓ} : {V : Type ℓ} (d : List (String × V)) → Keys (Has d) d
Keys-Has [] = tt
Keys-Has {V = V} ((k, v) ∷ d) =
    (Has-first k v d, All-map (λ (kv : String × V) h. Has-cons k kv.0 v d h) d (Keys-Has d))

pub Has-put {ℓ} :
    {V : Type ℓ} (k j : String) (v : V) (d : List (String × V)) → Has d j → Has (put k v d) j
Has-put k j v d h = ground (arith, lookup-put k j v d)

-- A dictionary made from another, key by key.
Has-map {ℓ κ} :
    {V : Type ℓ} {W : Type κ} (f : String × V → W) (k : String) (d : List (String × V))
    → is_some (lookup k (map (λ (kv : String × V). (kv.0, f kv)) d)) ≡ is_some (lookup k d)
unfolding lookup
Has-map f k [] = refl
Has-map {V = V} f k ((j, v) ∷ d) =
    elim (String_discrete j k)
      as (λ b.
        is_some (ite b (some (f (j, v))) (lookup k (map (λ (kv : String × V). (kv.0, f kv)) d)))
        ≡ is_some (ite b (some v) (lookup k d))) [ yes e ↦ refl | no e ↦ Has-map f k d ]

module _ {κ} (P : String → Type κ) where
  put-Postings :
      (t : String) (s : List String) (d : List (String × List String))
      → All P s
      → Postings P d
      → Postings P (put t s d)
  unfolding put
  put-Postings t s [] h hd = (h, tt)
  put-Postings t s ((j, w) ∷ d) h hd =
      elim (String_discrete j t) as (λ b. Postings P (ite b ((t, s) ∷ d) ((j, w) ∷ put t s d))) [
        | yes e ↦ (h, hd.1)
        | no e ↦ (hd.0, put-Postings t s d h hd.1)
      ]

  add_to-All : (doc : String) (s : List String) → P doc → All P s → All P (add_to doc s)
  add_to-All doc s h hs = elim (member doc s) as (λ b. All P (if b then s else doc ∷ s)) [
    | true ↦ hs
    | false ↦ (h, hs)
  ]

  post_terms-Postings :
      (doc : String) (counts : List (String × ℕ)) (d : List (String × List String))
      → P doc
      → Postings P d
      → Postings P (post_terms doc counts d)
  unfolding post_terms
  post_terms-Postings doc [] d h hd = hd
  post_terms-Postings doc ((t, c) ∷ counts) d h hd =
      let old = or_else [] (lookup t d) in
      post_terms-Postings doc counts (put t (add_to doc old) d) h
        (put-Postings t (add_to doc old) d (add_to-All doc old h (lookup-Postings P t d hd)) hd)

  post_docs-Postings :
      (terms : List (String × List (String × ℕ))) (d : List (String × List String))
      → Keys P terms
      → Postings P d
      → Postings P (post_docs terms d)
  unfolding post_docs
  post_docs-Postings [] d h hd = hd
  post_docs-Postings ((doc, counts) ∷ terms) d h hd =
      post_docs-Postings terms (post_terms doc counts d) h.1
        (post_terms-Postings doc counts d h.0 hd)

-- An index that has what it needs of each document in its postings.
abbrev pub IsBuilt {ℓ} : {R : Type ℓ} → Index R → Type 0
IsBuilt ix = Postings (λ doc. IsKnown ix doc × Has ix.docs doc) ix.postings

module _ {ℓ} {R : Type ℓ} (num : Num R) (analyze : List Char → List String) where
  terms_of-Has :
      (docs : List (String × List Char)) (k : String)
      → Has (terms_of analyze docs) k
      → ((Has (terms_of analyze docs) k × Has (lengths_of (terms_of analyze docs)) k) × Has docs k)
  terms_of-Has docs k h = (
    (h, Has-map (λ d. sum_counts d.1) k (terms_of analyze docs) ∙ h),
    sym (Has-map (λ d. counter (analyze d.1)) k docs) ∙ h,
  )

  -- An index of documents that are there is built.
  pub new_index-IsBuilt :
      (first : String × List Char) (rest : List (String × List Char))
      → Gives
          (λ (ix : Index R). IsBuilt ix × (ix.docs ≡ first ∷ rest))
          (new_index num analyze [] (first ∷ rest))
  unfolding new_index
  new_index-IsBuilt first rest =
      let docs = first ∷ rest in
      let terms = terms_of analyze docs in
      let known =
        All-map (λ (kv : String × List (String × ℕ)) h. terms_of-Has docs kv.0 h) terms
          (Keys-Has terms) in
      (
        _,
        (
          refl,
          (
            post_docs-Postings (λ doc. (Has terms doc × Has (lengths_of terms) doc) × Has docs doc)
                terms [] known tt,
            refl,
          ),
        ),
      )
