-- ===== src/Tests/Watermark.antt =====
-- The pipeline of modules/store-lab/pipeline_lab.py, with a document that arrives late.
use mastery.Prelude.{same, ℕ, ◌≡◌, refl, false, List, [], ◌∷◌, ◌&&◌, count, ltb, leb}
use mastery.Watermark.{Raw, after_time, after_seq, runs_from, run_pipeline, times}
use mastery.Watermark.Once.{latest, run_pipeline-once}

program : Unit {0}
unfolding same runs_from run_pipeline times
program = tt

abbrev late : List Raw
late =
    record { doc_id = "D1"; fetched_at = 10; ingest_seq = 1 }
    ∷ record { doc_id = "D2"; fetched_at = 30; ingest_seq = 2 }
    ∷ record { doc_id = "D3"; fetched_at = 20; ingest_seq = 3 }
    ∷ []

abbrev visible : List ℕ
visible = 2 ∷ 3 ∷ []

-- By the time of the fetch, the late document is never processed.
missed : times "D3" (run_pipeline (λ a b. false) after_time late visible).processed ≡ 0
unfolding program
missed = refl

run_pipeline-once_example :
    times "D3" (run_pipeline (λ a b. false) after_seq late visible).processed
    ≡ count
        (λ (r : Raw).
          same r.doc_id "D3"
          && (ltb 0 r.ingest_seq && leb r.ingest_seq (latest (λ a b. false) visible)))
        late
run_pipeline-once_example = run_pipeline-once (λ a b. false) "D3" late visible
