-- ===== src/Tests/Streams.antt =====
-- A stream of modules/model-interface-lab/stream_lab.py in pieces of two characters.
use mastery.Prelude.{
  ℕ, ◌+◌, ◌≡◌, refl, String, Option, none, some, [], List, ◌∷◌, ◌++◌, length, arith,
}
use mastery.Streams.{
  Provider, cancelled, committed, script_at, items_from, stream, read_from, extract_streaming,
}
use mastery.Streams.Committed.{row_for, Says, extract_streaming-Says}

program : Unit {0}
unfolding script_at items_from stream read_from extract_streaming
program = tt

abbrev five : List ℕ
five = 1 ∷ 2 ∷ 3 ∷ 4 ∷ 5 ∷ []

abbrev parse : List ℕ → Option ℕ
parse cs = some (length cs)

abbrev no_violation : ℕ → List String
no_violation r = []

abbrev provider : Provider
provider = record { script = []; calls = 0 }

commits :
    extract_streaming parse no_violation 2 none none "N02" five provider []
    ≡ (("N02", 5) ∷ [], committed 5)
unfolding program
commits = refl

leaves_no_trace :
    extract_streaming parse no_violation 2 none (some 1) "N02" five provider [] ≡ ([], cancelled)
unfolding program
leaves_no_trace = refl

extract_streaming-Says_example :
    let end = extract_streaming parse no_violation 2 none (some 1) "N02" five provider [] in
    (end.0 ≡ [] ++ row_for parse no_violation "N02" end.1)
    × Says parse no_violation none (some 1) five (script_at [] (0 + 1)) end.1
extract_streaming-Says_example =
    extract_streaming-Says parse no_violation 2 none (some 1) "N02" five provider [] (omega arith)
