-- ===== src/Watermark/Once.antt =====
-- The watermark on the order of arrival loses nothing and repeats nothing.
use mastery.Prelude.{
  same, ℕ, ◌+◌, max, ◌≤◌, ◌<◌, ◌≡◌, refl, String, Bool, true, false, ◌&&◌, List, [], ◌∷◌, ltb, leb,
  count, count-append, keep, if◌then◌else◌, arith, All, ap, ◌∙◌, ◌⊎◌, inl, inr, Bool-cases,
}
use mastery.Watermark.{
  Raw, Cursor, after_seq, State, chosen, greatest, advance, tagged, run_once, runs_from,
  run_pipeline, times,
}

module _ (later : String → String → Bool) where
  -- Rows up to the cursor were processed; the others are not visible yet.
  abbrev Past : ℕ → ℕ → List Raw → Type 0
  Past c seen raw = All (λ (r : Raw). (r.ingest_seq ≤ c) ⊎ (seen < r.ingest_seq)) raw

  -- The rows of a document that have arrived.
  abbrev arrived : String → ℕ → Raw → Bool
  arrived k n r = same r.doc_id k && (ltb 0 r.ingest_seq && leb r.ingest_seq n)

  abbrev pub latest : List ℕ → ℕ
  latest [] = 0
  latest (vis ∷ rest) = max vis (latest rest)

  abbrev Upto : ℕ → List Raw → Type 0
  Upto n rs = All (λ (r : Raw). r.ingest_seq ≤ n) rs

  Upto-mono : (m n : ℕ) (rs : List Raw) → m ≤ n → Upto m rs → Upto n rs
  Upto-mono m n [] h u = tt
  Upto-mono m n (r ∷ rs) h u = (omega (arith, h, u.0), Upto-mono m n rs h u.1)

  abbrev Within : ℕ → ℕ → List Raw → Type 0
  Within lo hi rs = All (λ (r : Raw). (lo < r.ingest_seq) × (r.ingest_seq ≤ hi)) rs

  keep-Within :
      (vis : ℕ) (c : Cursor) (raw : List Raw)
      → Within c.seq vis (keep (chosen later after_seq vis c) raw)
  keep-Within vis c [] = tt
  keep-Within vis c (r ∷ rs) = elim (Bool-cases (chosen later after_seq vis c r)) [
    | inl t ↦ rw t ((ground (arith, t), ground (arith, t)), keep-Within vis c rs)
    | inr f ↦ rw f (keep-Within vis c rs)
  ]

  greatest-Within :
      (lo hi n : ℕ) (rs : List Raw)
      → lo < n
      → n ≤ hi
      → Within lo hi rs
      → let m = greatest later (λ x. x.ingest_seq) n rs in (lo < m) × (m ≤ hi) × (n ≤ m) × Upto m rs
  greatest-Within lo hi n [] a b h = (a, b, omega arith, tt)
  greatest-Within lo hi n (r ∷ rs) a b h =
      let ih = greatest-Within lo hi n rs a b h.1 in
      (
        omega (arith, ih.0, h.0.0),
        omega (arith, ih.1, h.0.1),
        omega (arith, ih.2),
        (omega arith, Upto-mono _ _ rs (omega arith) ih.3),
      )

  -- The cursor does not go back nor beyond what is visible, and covers what was selected.
  advance-Within :
      (vis : ℕ) (c : Cursor) (rows : List Raw)
      → Within c.seq vis rows
      → let n = (advance later rows c).seq in (c.seq ≤ n) × (n ≤ max c.seq vis) × Upto n rows
  advance-Within vis c [] h = (omega arith, omega arith, tt)
  advance-Within vis c (r ∷ rs) h =
      let g = greatest-Within c.seq vis r.ingest_seq rs h.0.0 h.0.1 h.1 in
      (omega (arith, g.0), omega (arith, g.1), (g.2, g.3))

  kept-Upto :
      (n : ℕ) (b : Bool) (r : Raw) (rows : List Raw)
      → Upto n (if b then r ∷ rows else rows)
      → (b ≡ true → r.ingest_seq ≤ n) × Upto n rows
  kept-Upto n true r rows h = (λ _. h.0, h.1)
  kept-Upto n false r rows h = (λ e. absurd (ground arith), h)

  keep-Upto :
      (n : ℕ) (p : Raw → Bool) (raw : List Raw)
      → Upto n (keep p raw)
      → All (λ (r : Raw). p r ≡ true → r.ingest_seq ≤ n) raw
  keep-Upto n p [] h = tt
  keep-Upto n p (r ∷ rs) h =
      let split = kept-Upto n (p r) r (keep p rs) h in (split.0, keep-Upto n p rs split.1)

  -- One run: what it adds is what the cursor has moved over.
  count-moved :
      (k : String) (vis : ℕ) (c : Cursor) (n : ℕ) (raw : List Raw)
      → c.seq ≤ n
      → n ≤ max c.seq vis
      → All (λ (r : Raw). chosen later after_seq vis c r ≡ true → r.ingest_seq ≤ n) raw
      → count (arrived k c.seq) raw
          + count (λ (r : Raw). same r.doc_id k) (keep (chosen later after_seq vis c) raw)
        ≡ count (arrived k n) raw
  count-moved k vis c n [] a b h = refl
  count-moved k vis c n (r ∷ rs) a b h = ground (arith, count-moved k vis c n rs a b h.1, h.0, a, b)

  tagged-times :
      (k : String) (run : ℕ) (rows : List Raw)
      → times k (tagged later run rows) ≡ count (λ (r : Raw). same r.doc_id k) rows
  unfolding times
  tagged-times k run [] = refl
  tagged-times k run (r ∷ rs) = ground (arith, tagged-times k run rs)

  Past-next :
      (vis : ℕ) (c : Cursor) (seen n : ℕ) (raw : List Raw)
      → c.seq ≤ n
      → Past c.seq seen raw
      → All (λ (r : Raw). chosen later after_seq vis c r ≡ true → r.ingest_seq ≤ n) raw
      → Past n (max vis seen) raw
  Past-next vis c seen n [] a h u = tt
  Past-next vis c seen n (r ∷ rs) a h u =
      (ground (arith, a, h.0, u.0), Past-next vis c seen n rs a h.1 u.1)

  -- Nothing is between the cursor and what is visible.
  count-Past :
      (k : String) (c seen : ℕ) (raw : List Raw)
      → c ≤ seen
      → Past c seen raw
      → count (arrived k c) raw ≡ count (arrived k seen) raw
  count-Past k c seen [] le h = refl
  count-Past k c seen (r ∷ rs) le h = ground (arith, count-Past k c seen rs le h.1, h.0, le)

  run_once-Past :
      (k : String) (run vis : ℕ) (raw : List Raw) (st : State) (seen : ℕ)
      → Past st.cursor.seq seen raw
      → st.cursor.seq ≤ seen
      → times k st.processed ≡ count (arrived k st.cursor.seq) raw
      → let next = run_once later after_seq raw run vis st in
        (times k next.processed ≡ count (arrived k next.cursor.seq) raw)
        × (Past next.cursor.seq (max vis seen) raw)
        × (next.cursor.seq ≤ max vis seen)
  unfolding times
  run_once-Past k run vis raw st seen past le e =
      let rows = keep (chosen later after_seq vis st.cursor) raw in
      let w = advance-Within vis st.cursor rows (keep-Within vis st.cursor raw) in
      let moved =
        keep-Upto (advance later rows st.cursor).seq (chosen later after_seq vis st.cursor) raw
          w.2 in
      (
        omega (
          arith,
          count-append (λ (x : String × ℕ). same x.0 k) st.processed (tagged later run rows),
          tagged-times k run rows,
          count-moved k vis st.cursor (advance later rows st.cursor).seq raw w.0 w.1 moved,
          e,
        ),
        Past-next vis st.cursor seen (advance later rows st.cursor).seq raw w.0 past moved,
        omega (arith, w.1, le),
      )

  runs_from-times :
      (k : String) (raw : List Raw) (run : ℕ) (visible : List ℕ) (st : State) (seen : ℕ)
      → Past st.cursor.seq seen raw
      → st.cursor.seq ≤ seen
      → times k st.processed ≡ count (arrived k st.cursor.seq) raw
      → times k (runs_from later after_seq raw run visible st).processed
        ≡ count (arrived k (max seen (latest visible))) raw
  unfolding runs_from
  runs_from-times k raw run [] st seen past le e =
      e
      ∙ count-Past k st.cursor.seq seen raw le past
      ∙ ap (λ n. count (arrived k n) raw) (omega arith)
  runs_from-times k raw run (vis ∷ rest) st seen past le e =
      let h = run_once-Past k run vis raw st seen past le e in
      runs_from-times k raw (run + 1) rest (run_once later after_seq raw run vis st) (max vis seen)
        h.1 h.2 h.0
      ∙ ap (λ n. count (arrived k n) raw) (omega arith)

  Past-zero : (raw : List Raw) → Past 0 0 raw
  Past-zero [] = tt
  Past-zero (r ∷ rs) = (ground arith, Past-zero rs)

  arrived-zero : (k : String) (raw : List Raw) → count (arrived k 0) raw ≡ 0
  arrived-zero k [] = refl
  arrived-zero k (r ∷ rs) = ground (arith, arrived-zero k rs)

  -- With the watermark on `ingest_seq`, whatever is visible at each run, the pipeline processes a
  -- document exactly as often as it has a row, of number 1 or more, that was visible at some run.
  pub run_pipeline-once :
      (k : String) (raw : List Raw) (visible : List ℕ)
      → times k (run_pipeline later after_seq raw visible).processed
        ≡ count
            (λ (r : Raw).
              same r.doc_id k && (ltb 0 r.ingest_seq && leb r.ingest_seq (latest visible)))
            raw
  unfolding run_pipeline times
  run_pipeline-once k raw visible =
      runs_from-times k raw 1 visible
        (record { cursor = record { ts = 0; doc = ""; seq = 0 }; processed = [] }) 0 (Past-zero raw)
        (omega arith) (omega (arith, arrived-zero k raw))
      ∙ ap (λ n. count (arrived k n) raw) (omega arith)
