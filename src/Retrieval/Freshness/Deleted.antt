-- ===== src/Retrieval/Freshness/Deleted.antt =====
-- What `hard_delete` has to mean: no way out of the store gives the document.
use mathlib.Core.Option.{bind}
use mastery.Prelude.{
  String_discrete, ite, subst, ap, ◌∙◌, ◌⊎◌, inl, inr, same, ◌≡◌, refl, String, true, false, not,
  Option, none, some, List, [], ◌∷◌, keep, All, All-map, if◌then◌else◌, arith,
}
use mastery.Prelude.Dict.{lookup, delete, lookup-delete}
use Prim.Native.Char.{Char}
use mastery.Retrieval.Numbers.{Num}
use mastery.Retrieval.Index.{new_index}
use mastery.Retrieval.Index.Scored.{Keys, is_some, Gives, Gives-bind, Postings, IsKnown}
use mastery.Retrieval.Index.Built.{Has-put, Has, new_index-IsBuilt}
use mastery.Retrieval.Freshness.{
  new_store, store_of, unreachable, Meta, Store, discard, deleted_from, hard_delete,
}
use mastery.Retrieval.Freshness.Swept.{unreachable-Gives, is_some-Gives, IsFresh, Differs}

Has-delete {ℓ} :
    {V : Type ℓ} (k j : String) (d : List (String × V))
    → Has d j
    → same j k ≡ false
    → Has (delete k d) j
unfolding same
Has-delete k j d h e = ground (arith, lookup-delete k j d)

discard-All {κ} :
    (P : String → Type κ) (doc : String) (ds : List String)
    → All P ds
    → All (λ d. Differs doc d × P d) (keep (λ d. not (same d doc)) ds)
discard-All P doc [] h = tt
discard-All P doc (d ∷ ds) h =
    elim (same d doc)
        as (λ b.
          same d doc ≡ b
          → All (λ x. Differs doc x × P x)
              (if not b
                then d ∷ keep (λ x. not (same x doc)) ds
                else keep (λ x. not (same x doc)) ds)) [
                  | true ↦ λ e. discard-All P doc ds h.1
                  | false ↦ λ e. ((e, h.0), discard-All P doc ds h.1)
                ]
      refl

discard-Postings {κ} :
    (P : String → Type κ) (doc : String) (d : List (String × List String))
    → Postings P d
    → Postings (λ x. Differs doc x × P x) (discard doc d)
discard-Postings P doc [] h = tt
discard-Postings P doc ((t, ds) ∷ d) h = (discard-All P doc ds h.0, discard-Postings P doc d h.1)

Postings-map {κ μ} :
    {P : String → Type κ} {Q : String → Type μ} (f : (x : String) → P x → Q x)
    (d : List (String × List String))
    → Postings P d
    → Postings Q d
Postings-map f [] h = tt
Postings-map f ((t, ds) ∷ d) h = (All-map f ds h.0, Postings-map f d h.1)

deleted_from-IsFresh {ℓ κ} :
    {R : Type ℓ} (P : String → Type κ) (doc : String) (m : Meta) (s : Store R)
    → IsFresh P s
    → IsFresh (λ x. Differs doc x × P x) (deleted_from doc m s)
deleted_from-IsFresh P doc m s h =
    Postings-map
      (λ x hx. (
        (
          Has-delete doc x s.index.terms hx.1.0.0 hx.0,
          Has-delete doc x s.index.lengths hx.1.0.1 hx.0,
        ),
        (Has-put doc x (record m { deleted = true }) s.meta hx.1.1.0, (hx.0, hx.1.1.1)),
      ))
      (discard doc s.index.postings)
      (discard-Postings (λ x. IsKnown s.index x × (Has s.meta x × P x)) doc s.index.postings h)

-- The deletions of some documents, the last of the list first.
unfoldable pub delete_all {ℓ} : {R : Type ℓ} → List String → Store R → Option (Store R)
unfolding bind hard_delete
delete_all [] s = some s
delete_all (doc ∷ docs) s = bind (delete_all docs s) (λ rest. hard_delete doc rest)

-- The documents of a list are gone from the store.
abbrev IsWithout {ℓ} : {R : Type ℓ} → List String → List (String × Meta) → Store R → Type 0
IsWithout gone meta s =
    (IsFresh (λ x. All (λ g. Differs g x) gone) s × All (λ g. lookup g s.snippets ≡ none) gone)
    × ((k : String) → Has meta k → Has s.meta k)

omitted {ℓ} :
    {V : Type ℓ} (k j : String) (d : List (String × V))
    → (lookup j d ≡ none) ⊎ (k ≡ j)
    → lookup j (delete k d) ≡ none
omitted k j d (inl e) = ground (arith, lookup-delete k j d)
omitted k j d (inr e) = ground (arith, lookup-delete k j d)

deleted_from-IsWithout {ℓ} :
    {R : Type ℓ} (doc : String) (gone : List String) (meta : List (String × Meta)) (m : Meta)
    (s : Store R)
    → IsWithout gone meta s
    → IsWithout (doc ∷ gone) meta (deleted_from doc m s)
deleted_from-IsWithout doc gone meta m s h = (
  (
    deleted_from-IsFresh (λ x. All (λ g. Differs g x) gone) doc m s h.0.0,
    (
      omitted doc doc s.snippets (inr refl),
      All-map (λ g e. omitted doc g s.snippets (inl e)) gone h.0.1,
    ),
  ),
  λ k hk. Has-put doc k (record m { deleted = true }) s.meta (h.1 k hk),
)

delete_all-Gives {ℓ} :
    {R : Type ℓ} (gone : List String) (meta : List (String × Meta)) (s : Store R)
    → All (Has meta) gone
    → IsWithout [] meta s
    → Gives (λ (after : Store R). IsWithout gone meta after) (delete_all gone s)
unfolding delete_all hard_delete
delete_all-Gives [] meta s hm h = (s, (refl, h))
delete_all-Gives (doc ∷ gone) meta s hm h =
    Gives-bind (delete_all gone s) _ (delete_all-Gives gone meta s hm.1 h) (λ rest hr.
      Gives-bind (lookup doc rest.meta) _ (is_some-Gives (lookup doc rest.meta) (hr.1 doc hm.0))
        (λ m u. (deleted_from doc m rest, (refl, deleted_from-IsWithout doc gone meta m rest hr))))

-- A key of a dictionary has what all its keys have.
Has-Keys {ℓ κ} :
    {V : Type ℓ} (P : String → Type κ) (k : String) (d : List (String × V))
    → Keys P d
    → Has d k
    → P k
unfolding lookup
Has-Keys P k [] hp h = absurd cc
Has-Keys {V = V} P k ((j, v) ∷ d) hp h =
    elim (String_discrete j k) as (λ b. is_some (ite b (some v) (lookup k d)) ≡ true → P k) [
      | yes e ↦ λ h2. subst P e hp.0
      | no e ↦ λ h2. Has-Keys P k d hp.1 h2
    ]
      h

module _ {ℓ} {R : Type ℓ} (num : Num R) (analyze : List Char → List String) where
  new_store-IsWithout :
      (first : String × List Char) (rest : List (String × List Char)) (meta : List (String × Meta))
      → Keys (Has meta) (first ∷ rest)
      → Gives (λ (s : Store R). IsWithout [] meta s) (new_store num analyze (first ∷ rest) meta)
  unfolding new_store
  new_store-IsWithout first rest meta hm =
      Gives-bind (new_index num analyze [] (first ∷ rest)) _
        (new_index-IsBuilt num analyze first rest)
        (λ ix h. (
          store_of num analyze (first ∷ rest) meta ix,
          (
            refl,
            (
              (
                Postings-map
                    (λ x hx. (
                      hx.0,
                      (
                        Has-Keys (Has meta) x (first ∷ rest) hm
                            (subst (λ docs. Has docs x) h.1 hx.1),
                        tt,
                      ),
                    ))
                    ix.postings h.0,
                tt,
              ),
              λ k hk. hk,
            ),
          ),
        ))

  -- For each document of a list that is gone, the sweep finds nothing.
  sweep-All :
      (extra : List (List Char)) (principals : List (List String)) (gone : List String)
      (s : Store R)
      → IsFresh (λ x. All (λ g. Differs g x) gone) s
      → All (λ g. lookup g s.snippets ≡ none) gone
      → All (λ doc. unreachable num analyze extra doc principals s ≡ some []) gone
  sweep-All extra principals [] s h hs = tt
  sweep-All extra principals (doc ∷ gone) s h hs =
      let swept =
        unreachable-Gives num analyze doc s
          (Postings-map (λ x hx. (hx.0, (hx.1.0, hx.1.1.0))) s.index.postings h) extra principals
          hs.0 in
      (
        swept.1.0 ∙ ap some swept.1.1,
        sweep-All extra principals gone s
            (Postings-map (λ x hx. (hx.0, (hx.1.0, hx.1.1.1))) s.index.postings h) hs.1,
      )

  -- For any corpus that is not empty, whose documents and the ones to delete are in META: the store is
  -- built, each `hard_delete` succeeds, and afterwards `unreachable` raises no KeyError and finds no way
  -- to any of the deleted documents, for any principals and queries.
  pub delete_all-unreachable :
      (first : String × List Char) (rest : List (String × List Char)) (meta : List (String × Meta))
      (gone : List String) (principals : List (List String)) (extra : List (List Char))
      → Keys (Has meta) (first ∷ rest)
      → All (Has meta) gone
      → Gives
          (λ (s : Store R).
            Gives
              (λ (after : Store R).
                All (λ doc. unreachable num analyze extra doc principals after ≡ some []) gone)
              (delete_all gone s))
          (new_store num analyze (first ∷ rest) meta)
  delete_all-unreachable first rest meta gone principals extra hm hg =
      let built = new_store-IsWithout first rest meta hm in
      let emptied = delete_all-Gives gone meta built.0 hg built.1.1 in
      (
        built.0,
        (
          built.1.0,
          (
            emptied.0,
            (
              emptied.1.0,
              sweep-All extra principals gone emptied.0 emptied.1.1.0.0 emptied.1.1.0.1,
            ),
          ),
        ),
      )
