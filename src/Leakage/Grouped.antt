-- ===== src/Leakage/Grouped.antt =====
-- The grouped split has no story in both halves, and loses no row.
use mastery.Prelude.{
  same, member, ℕ, ◌+◌, ◌/◌, ◌≤◌, ◌≡◌, refl, String, Bool, true, false, not, ◌&&◌, List, [], ◌∷◌,
  ◌++◌, map, length, keep, count, leb, if◌then◌else◌, arith, sym, ap, subst, count-append, All,
  All-map, All-append,
}
use mastery.Leakage.{distinct, of_story, fill, split_by_story, shared_stories}
use mastery.Leakage.Texts.{
  IsDistinct, times, times-IsDistinct, same_sym, member_same, times-distinct, distinct-All,
  none-kept,
}

module _ {ℓ} {A : Type ℓ} (story : A → String) where
  of_story-All :
      (s : String) (ids : List String) (rows : List A)
      → All (λ r. member r (s ∷ ids) ≡ true) (map story (of_story story s rows))
  unfolding of_story member
  of_story-All s ids [] = tt
  of_story-All s ids (row ∷ rows) =
      let rest = keep (λ r. same (story r) s) rows in
      elim (same (story row) s)
          as (λ b.
            same (story row) s ≡ b
            → All (λ r. member r (s ∷ ids) ≡ true) (map story (if b then row ∷ rest else rest))) [
              | true ↦ λ e. (ground (arith, e, same_sym (story row) s), of_story-All s ids rows)
              | false ↦ λ e. of_story-All s ids rows
            ]
        refl

  -- The training half, while the loop runs: rows of the stories that are in, and all of them.
  abbrev IsFilling : (A → Bool) → List A → List String → List A → Type 0
  IsFilling p rows ids train =
      All (λ s. member s ids ≡ true) (map story train)
      × (count p train ≡ count (λ row. p row && member (story row) ids) rows)

  map-append : (xs ys : List A) → map story (xs ++ ys) ≡ map story xs ++ map story ys
  map-append [] ys = refl
  map-append (x ∷ xs) ys = ap (λ zs. story x ∷ zs) (map-append xs ys)

  count-of_story :
      (p : A → Bool) (s : String) (ids : List String) (rows : List A)
      → member s ids ≡ false
      → count p (of_story story s rows) + count (λ row. p row && member (story row) ids) rows
        ≡ count (λ row. p row && member (story row) (s ∷ ids)) rows
  unfolding of_story member
  count-of_story p s ids [] h = omega arith
  count-of_story p s ids (row ∷ rows) h = ground (
    arith,
    h,
    count-of_story p s ids rows h,
    same_sym (story row) s,
    member_same (story row) s ids,
  )

  next-IsFilling :
      (p : A → Bool) (rows : List A) (s : String) (ids : List String) (train : List A)
      → member s ids ≡ false
      → IsFilling p rows ids train
      → IsFilling p rows (s ∷ ids) (train ++ of_story story s rows)
  unfolding of_story member
  next-IsFilling p rows s ids train h f = (
    subst (λ xs. All (λ r. member r (s ∷ ids) ≡ true) xs)
        (sym (map-append train (of_story story s rows)))
        (All-append (λ r. member r (s ∷ ids) ≡ true) (map story train)
          (map story (of_story story s rows))
          (All-map (λ r e. ground (arith, e)) (map story train) f.0) (of_story-All s ids rows)),
    omega (arith, f.1, count-append p train (of_story story s rows), count-of_story p s ids rows h),
  )

  -- The stories that are still to come are not in.
  abbrev AreNew : List String → List String → Type 0
  AreNew ids stories = All (λ s. member s ids ≡ false) stories

  next-AreNew :
      (s : String) (ids stories : List String)
      → member s stories ≡ false
      → AreNew ids stories
      → AreNew (s ∷ ids) stories
  unfolding member
  next-AreNew s ids [] h hs = tt
  next-AreNew s ids (t ∷ stories) h hs =
      (ground (arith, h, hs.0, same_sym s t), next-AreNew s ids stories (ground (arith, h)) hs.1)

  choose-IsFilling :
      (p : A → Bool) (rows : List A) (b : Bool) (x y : List String × List A)
      → IsFilling p rows x.0 x.1
      → IsFilling p rows y.0 y.1
      → IsFilling p rows (if b then x else y).0 (if b then x else y).1
  choose-IsFilling p rows true x y hx hy = hx
  choose-IsFilling p rows false x y hx hy = hy

  fill-IsFilling :
      (p : A → Bool) (half : ℕ) (rows : List A) (stories ids : List String) (train : List A)
      → IsDistinct stories
      → AreNew ids stories
      → IsFilling p rows ids train
      → IsFilling p rows
          (fill story half rows stories ids train).0
          (fill story half rows stories ids train).1
  unfolding fill
  fill-IsFilling p half rows [] ids train hd hn f = f
  fill-IsFilling p half rows (s ∷ stories) ids train hd hn f =
      choose-IsFilling p rows (leb half (length train)) (ids, train)
        (fill story half rows stories (s ∷ ids) (train ++ of_story story s rows)) f
        (fill-IsFilling p half rows stories (s ∷ ids) (train ++ of_story story s rows) hd.1
          (next-AreNew s ids stories hd.0 hn.1) (next-IsFilling p rows s ids train hn.0 f))

  count-split :
      (p q : A → Bool) (rows : List A)
      → count (λ row. p row && q row) rows + count p (keep (λ row. not (q row)) rows) ≡ count p rows
  count-split p q [] = omega arith
  count-split p q (row ∷ rows) = ground (arith, count-split p q rows)

  -- The stories of the rest are not in, and so none of the training half stands among them.
  rest-All :
      (ids : List String) (rows : List A)
      → All
          (λ s. member s ids ≡ false)
          (map story (keep (λ row. not (member (story row) ids)) rows))
  rest-All ids [] = tt
  rest-All ids (row ∷ rows) =
      let rest = keep (λ r. not (member (story r) ids)) rows in
      elim (member (story row) ids)
          as (λ b.
            member (story row) ids ≡ b
            → All (λ s. member s ids ≡ false) (map story (if not b then row ∷ rest else rest))) [
              | true ↦ λ e. rest-All ids rows
              | false ↦ λ e. (e, rest-All ids rows)
            ]
        refl

  all_new : (stories : List String) → AreNew [] stories
  unfolding member
  all_new [] = tt
  all_new (s ∷ stories) = (refl, all_new stories)

  nothing : (p : A → Bool) (rows : List A) → 0 ≡ count (λ row. p row && member (story row) []) rows
  unfolding member
  nothing p [] = refl
  nothing p (row ∷ rows) = ground (arith, nothing p rows)

  -- Where the shuffle gives each text as often as it gets it: no story is in both halves of the grouped
  -- split, and of the rows with any property the two halves together have as many as the whole.
  pub split_by_story-IsGrouped :
      (shuffle : List String → List String) (p : A → Bool) (rows : List A)
      → ((xs : List String) (x : String) → times x (shuffle xs) ≡ times x xs)
      → (shared_stories story
            (split_by_story story shuffle rows).0
            (split_by_story story shuffle rows).1
          ≡ 0)
        × (count p (split_by_story story shuffle rows).0
              + count p (split_by_story story shuffle rows).1
            ≡ count p rows)
  unfolding split_by_story shared_stories member
  split_by_story-IsGrouped shuffle p rows hs =
      let stories = shuffle (distinct (map story rows)) in
      let r = fill story (length rows / 2) rows stories [] [] in
      let different = times-IsDistinct stories (λ x.
        subst (λ n. n ≤ 1) (sym (hs (distinct (map story rows)) x))
          (times-distinct x (map story rows))) in
      let f =
        fill-IsFilling p (length rows / 2) rows stories [] [] different (all_new stories)
          (tt, nothing p rows) in
      (
        none-kept r.0 (distinct (map story r.1)) _
            (distinct-All (λ s. member s r.0 ≡ true) (map story r.1) f.0) (rest-All r.0 rows),
        omega (arith, f.1, count-split p (λ row. member (story row) r.0) rows),
      )
