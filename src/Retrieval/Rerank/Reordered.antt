-- ===== src/Retrieval/Rerank/Reordered.antt =====
-- The second stage only reorders the candidates.
use Prim.Native.Char.{Char}
use mastery.Prelude.{
  ℕ, zero, suc, ◌+◌, ◌≡◌, refl, String, Bool, true, false, List, [], ◌∷◌, ◌++◌, take, drop,
  take-drop, count, count-append, All, All-map, sym, ap, ◌∙◌, subst, arith, if◌then◌else◌,
}
use mastery.Prelude.Dict.{lookup, put}
use mastery.Retrieval.Numbers.{Num}
use mastery.Retrieval.Index.{Index, precedes, insert, sorted, bm25, rank, new_index}
use mastery.Retrieval.Index.Scored.{Gives, Gives-bind, Keys, bm25-Gives, rank-All}
use mastery.Retrieval.Index.Built.{Has, Has-put, Keys-Has, IsBuilt, new_index-IsBuilt}
use mastery.Retrieval.Freshness.Swept.{is_some-Gives}
use mastery.Retrieval.Rerank.{
  rerank_score, scored_by, ordered, two_stage_from, two_stage, share, points_of, add_points,
  fused_from, fused_stage,
}
use mastery.Retrieval.Rerank.Names.{
  names, after_bind, count_all, drop_first, All-names, names-All, names-put,
}

-- A list whose first places are reordered: it has as many elements with a property, and the same
-- after those places.
abbrev pub IsReordered : (String → Bool) → ℕ → List String → List String → Type 0
IsReordered p depth full out = (count p out ≡ count p full) × (drop depth out ≡ drop depth full)

module _ {ℓ} {R : Type ℓ} (num : Num R) where
  count-insert :
      (p : String → Bool) (a : String × R) (d : List (String × R))
      → count p (names (insert num a d)) ≡ count p (a.0 ∷ names d)
  unfolding insert
  count-insert p a [] = refl
  count-insert p a (b ∷ d) =
      elim (precedes num b a)
        as (λ t.
          count p (names (if t then b ∷ insert num a d else a ∷ b ∷ d))
          ≡ count p (a.0 ∷ b.0 ∷ names d)) [
            | true ↦ ground (arith, count-insert p a d)
            | false ↦ refl
          ]

  count-ordered :
      (p : String → Bool) (d : List (String × R)) → count p (ordered num d) ≡ count p (names d)
  unfolding sorted
  count-ordered p [] = refl
  count-ordered p (a ∷ d) = ground (arith, count-insert p a (sorted num d), count-ordered p d)

  ordered-IsReordered :
      (p : String → Bool) (depth : ℕ) (full : List String) (d : List (String × R))
      → names d ≡ take depth full
      → IsReordered p depth full (ordered num d ++ drop depth full)
  ordered-IsReordered p depth full d h = (
    count-append p (ordered num d) (drop depth full)
        ∙ ap (λ n. n + count p (drop depth full)) (count-ordered p d ∙ ap (λ ds. count p ds) h)
        ∙ sym (count-append p (take depth full) (drop depth full))
        ∙ ap (λ ds. count p ds) (take-drop depth full),
    drop_first depth (ordered num d) full (
        sym (count_all (ordered num d))
        ∙ count-ordered (λ x. true) d
        ∙ ap (λ ds. count (λ x. true) ds) h
        ∙ count_all (take depth full)),
  )

  take-All {κ} : (P : String → Type κ) (n : ℕ) (ds : List String) → All P ds → All P (take n ds)
  take-All P zero ds h = tt
  take-All P (suc n) [] h = tt
  take-All P (suc n) (d ∷ ds) h = (h.0, take-All P n ds h.1)

  scored_by-Gives :
      (features : Index R) (query : List Char) (docs : List (String × List Char)) (ds : List String)
      → All (Has docs) ds
      → Gives (λ (d : List (String × R)). names d ≡ ds) (scored_by num features query docs ds)
  unfolding scored_by
  scored_by-Gives features query docs [] h = ([], (refl, refl))
  scored_by-Gives features query docs (d ∷ ds) h =
      Gives-bind (lookup d docs) _ (is_some-Gives (lookup d docs) h.0) (λ text u.
        Gives-bind (scored_by num features query docs ds) _
          (scored_by-Gives features query docs ds h.1)
          (λ rest e.
            ((d, rerank_score num features query text) ∷ rest, (refl, ap (λ xs. d ∷ xs) e))))

  names-points_of : (n : ℕ) (ds : List String) → names (points_of num n ds) ≡ ds
  names-points_of n [] = refl
  names-points_of n (d ∷ ds) = ap (λ xs. d ∷ xs) (names-points_of (suc n) ds)

  add_points-Gives :
      (n : ℕ) (ds : List String) (points : List (String × R))
      → All (Has points) ds
      → Gives (λ (d : List (String × R)). names d ≡ names points) (add_points num n ds points)
  unfolding add_points
  add_points-Gives n [] points h = (points, (refl, refl))
  add_points-Gives n (d ∷ ds) points h =
      Gives-bind (lookup d points) _ (is_some-Gives (lookup d points) h.0) (λ old u.
        let v = num.plus old (share num n) in
        let rest =
          add_points-Gives (suc n) ds (put d v points)
            (All-map (λ k hk. Has-put d k v points hk) ds h.1) in
        (rest.0, (rest.1.0, rest.1.1 ∙ names-put d v points h.0)))

  ordered-All {κ} : (P : String → Type κ) (d : List (String × R)) → Keys P d → All P (ordered num d)
  unfolding rank
  ordered-All P d h = rank-All num P d 0 h

  two_stage_from-Gives :
      (features : Index R) (query : List Char) (docs : List (String × List Char))
      (p : String → Bool) (depth : ℕ) (full : List String)
      → All (Has docs) full
      → Gives
          (λ (out : List String). IsReordered p depth full out)
          (two_stage_from num features query docs depth full)
  two_stage_from-Gives features query docs p depth full h =
      Gives-bind _ _
        (scored_by-Gives features query docs (take depth full) (take-All (Has docs) depth full h))
        (λ scored e. (_, (refl, ordered-IsReordered p depth full scored e)))

  fused_from-Gives :
      (features : Index R) (query : List Char) (docs : List (String × List Char))
      (p : String → Bool) (depth k : ℕ) (full : List String)
      → All (Has docs) full
      → Gives
          (λ (out : List String). IsReordered p depth full out)
          (fused_from num features query docs depth k full)
  fused_from-Gives features query docs p depth k full h =
      let points = points_of num (k + 1) (take depth full) in
      let named = names-points_of (k + 1) (take depth full) in
      Gives-bind _ _
        (scored_by-Gives features query docs (take depth full) (take-All (Has docs) depth full h))
        (λ scored e.
          Gives-bind _ _
            (add_points-Gives (k + 1) (ordered num scored) points (
              ordered-All (Has points) scored (
                All-names (Has points) scored (
                  subst (λ ds. All (Has points) ds) (named ∙ sym e)
                    (names-All (Has points) points (Keys-Has points))))))
            (λ final e2. (_, (refl, ordered-IsReordered p depth full final (e2 ∙ named)))))

  -- The documents that a first stage ranks, of an index that is built, are in its corpus.
  ranked-All :
      (analyze : List Char → List String) (query : List Char) (ix : Index R)
      → IsBuilt ix
      → Gives
          (λ (scores : List (String × R)). All (Has ix.docs) (rank num scores 0))
          (bm25 num analyze query ix)
  ranked-All analyze query ix h =
      let r = bm25-Gives num (Has ix.docs) ix analyze query h in
      (r.0, (r.1.0, rank-All num (Has ix.docs) r.0 0 r.1.1))

  -- For any corpus that is not empty, the index is built and the first stage ranks; then `two_stage`
  -- and `fused_stage` each succeed, with a list that has as many elements with any property as the
  -- first stage's ranking, and the same elements in the same places after the first `depth`.
  pub two_stage-IsReordered :
      (analyze : List Char → List String) (features : Index R) (first : String × List Char)
      (rest : List (String × List Char)) (query : List Char) (depth k : ℕ) (p : String → Bool)
      → Gives
          (λ (ix : Index R).
            Gives
              (λ (scores : List (String × R)).
                Gives
                  (λ (out : List String). IsReordered p depth (rank num scores 0) out)
                  (two_stage num analyze ix features query depth)
                × Gives
                    (λ (out : List String). IsReordered p depth (rank num scores 0) out)
                    (fused_stage num analyze ix features query depth k))
              (bm25 num analyze query ix))
          (new_index num analyze [] (first ∷ rest))
  unfolding two_stage fused_stage
  two_stage-IsReordered analyze features first rest query depth k p =
      let built = new_index-IsBuilt num analyze first rest in
      let ix = built.0 in
      let ranked = ranked-All analyze query ix built.1.1.0 in
      let full = rank num ranked.0 0 in
      let two = two_stage_from-Gives features query ix.docs p depth full ranked.1.1 in
      let fused = fused_from-Gives features query ix.docs p depth k full ranked.1.1 in
      (
        ix,
        (
          built.1.0,
          (
            ranked.0,
            (
              ranked.1.0,
              (
                after_bind (bm25 num analyze query ix) _ ranked.0 ranked.1.0 two,
                after_bind (bm25 num analyze query ix) _ ranked.0 ranked.1.0 fused,
              ),
            ),
          ),
        ),
      )
