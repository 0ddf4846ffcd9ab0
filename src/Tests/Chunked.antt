-- ===== src/Tests/Chunked.antt =====
-- Streams of modules/service-lab/http_lab.py with three records or units.
use mastery.Prelude.{ℕ, ◌≡◌, refl, none, some, [], List, ◌∷◌}
use mastery.Chunked.{
  os_error, chunk, close, records_from, records, join, flushed, work_from, work_stream,
}
use mastery.Chunked.Whole.{Sent, units_from, work_stream-Sent}

program : Unit {0}
unfolding chunk close records_from records join flushed work_from work_stream
program = tt

abbrev unit : ℕ → List ℕ
unit i = i ∷ []

-- Two units in a chunk, and the one that is left.
in_two_chunks : (work_stream unit 2 3 none).0.chunks ≡ (0 ∷ 1 ∷ []) ∷ (2 ∷ []) ∷ []
unfolding program
in_two_chunks = refl

peer_left : (work_stream unit 1 3 (some 1)).2 ≡ os_error
unfolding program
peer_left = refl

work_stream-Sent_example : Sent (units_from unit 0 3) 3 (some 1) (work_stream unit 1 3 (some 1))
work_stream-Sent_example = work_stream-Sent unit 1 3 (some 1)
