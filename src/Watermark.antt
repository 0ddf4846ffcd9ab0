-- ===== src/Watermark.antt =====
-- `run_pipeline` of modules/store-lab/pipeline_lab.py: an incremental pipeline with four watermarks.
-- The rows that a run has selected are taken in the order of the table: the ORDER BY of the queries
-- changes neither what is processed nor the cursor. How SQLite compares texts is a parameter.
pub mod Once
use mastery.Prelude.{
  same, ℕ, zero, suc, ◌+◌, max, String, String_discrete, ite, Bool, true, false, not, ◌&&◌, ◌||◌,
  List, [], ◌∷◌, ◌++◌, ltb, leb, ◌==◌, count, keep, if◌then◌else◌,
}

pub record Raw : Type 0 where
  pub doc_id : String
  pub fetched_at : ℕ
  pub ingest_seq : ℕ

-- A row of `cursor_`.
pub record Cursor : Type 0 where
  pub ts : ℕ
  pub doc : String
  pub seq : ℕ

-- A to D
pub data Strategy : Type 0 where
  after_time from_time after_pair after_seq : Strategy

pub record State : Type 0 where
  pub cursor : Cursor
  pub processed : List (String × ℕ)

module _ (later : String → String → Bool) where
  abbrev pub passes : Strategy → Cursor → Raw → Bool
  passes after_time c r = ltb c.ts r.fetched_at
  passes from_time c r = leb c.ts r.fetched_at
  passes after_pair c r = ltb c.ts r.fetched_at || (r.fetched_at == c.ts && later r.doc_id c.doc)
  passes after_seq c r = ltb c.seq r.ingest_seq

  -- The query of a strategy.
  abbrev pub chosen : Strategy → ℕ → Cursor → Raw → Bool
  chosen s vis c r = leb r.ingest_seq vis && passes s c r

  abbrev pub last_text : String → List Raw → String
  last_text d [] = d
  last_text d (r ∷ rs) = let rest = last_text d rs in if later r.doc_id rest then r.doc_id else rest

  -- `max(r[1] for r in rows)` and `max(r[2] for r in rows)`
  abbrev pub greatest : (Raw → ℕ) → ℕ → List Raw → ℕ
  greatest f n [] = n
  greatest f n (r ∷ rs) = max (f r) (greatest f n rs)

  -- The UPDATE of the cursor, if there are rows.
  abbrev pub advance : List Raw → Cursor → Cursor
  advance [] c = c
  advance (r ∷ rs) c = record {
    ts = greatest (λ x. x.fetched_at) r.fetched_at rs;
    doc = last_text r.doc_id rs;
    seq = greatest (λ x. x.ingest_seq) r.ingest_seq rs;
  }

  abbrev pub tagged : ℕ → List Raw → List (String × ℕ)
  tagged run [] = []
  tagged run (r ∷ rs) = (r.doc_id, run) ∷ tagged run rs

  abbrev pub run_once : Strategy → List Raw → ℕ → ℕ → State → State
  run_once s raw run vis st =
      let rows = keep (chosen s vis st.cursor) raw in
      record { cursor = advance rows st.cursor; processed = st.processed ++ tagged run rows }

  unfoldable pub runs_from : Strategy → List Raw → ℕ → List ℕ → State → State
  runs_from s raw run [] st = st
  runs_from s raw run (vis ∷ rest) st = runs_from s raw (run + 1) rest (run_once s raw run vis st)

  -- `run_pipeline`, with the rows that are visible at each run.
  unfoldable pub run_pipeline : Strategy → List Raw → List ℕ → State
  unfolding runs_from
  run_pipeline s raw visible =
      runs_from s raw 1 visible
        (record { cursor = record { ts = 0; doc = ""; seq = 0 }; processed = [] })

-- How often a document was processed.
unfoldable pub times : String → List (String × ℕ) → ℕ
unfolding same
times k ps = count (λ (p : String × ℕ). same p.0 k) ps
