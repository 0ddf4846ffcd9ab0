-- ===== src/Streams.antt =====
-- The stream of modules/model-interface-lab/provider.py and `extract_streaming` of stream_lab.py: a
-- record is committed once the whole stream was read. A text is a list of characters. What the
-- model answers, how JSON is read and the validator are parameters.
pub mod Committed
use mastery.Prelude.{
  ℕ, zero, suc, ◌+◌, ◌-◌, String, Bool, true, false, Option, none, some, List, [], ◌∷◌, ◌++◌,
  length, ltb, leb, ◌==◌, if◌then◌else◌,
}

-- What a class or an instance in `script` raises, by its name.
pub record Provider : Type 0 where
  pub script : List (Option String)
  pub calls : ℕ

-- What the generator yields, and at the end what it raises.
pub data Item : Type 0 where
  delta : List ℕ → Item
  usage : Item
  overloaded : Item

pub data Outcome (R : Type 0) : Type 0 where
  scripted : String → Outcome R
  broken cancelled bad_json : Outcome R
  invalid : List String → Outcome R
  committed : R → Outcome R

pub data Reading : Type 0 where
  whole : List ℕ → Reading
  cut_off failed : Reading

-- `self.script[n]`, if there is one.
unfoldable pub script_at : List (Option String) → ℕ → Option String
script_at [] n = none
script_at (e ∷ es) zero = e
script_at (e ∷ es) (suc n) = script_at es n

-- `_raise_scripted`; `calls` is 1 or more when it is called.
abbrev pub raise_scripted : Provider → Option String
raise_scripted p = script_at p.script (p.calls - 1)

-- `complete`: the number of calls, and what it raises.
abbrev pub complete : Provider → Provider × Option String
complete p = let q = record p { calls = p.calls + 1 } in (q, raise_scripted q)

abbrev pub first_of : ℕ → List ℕ → List ℕ
first_of zero text = []
first_of (suc n) [] = []
first_of (suc n) (c ∷ cs) = c ∷ first_of n cs

abbrev pub after : ℕ → List ℕ → List ℕ
after zero text = text
after (suc n) [] = []
after (suc n) (c ∷ cs) = after n cs

abbrev pub reached : Option ℕ → ℕ → Bool
reached none emitted = false
reached (some n) emitted = leb n emitted

-- The loop of `stream`: the pieces of so many characters, in so many rounds at most.
unfoldable pub items_from : ℕ → ℕ → Option ℕ → ℕ → List ℕ → List Item
items_from zero chunk fail_at emitted text = usage ∷ []
items_from (suc n) chunk fail_at emitted [] = usage ∷ []
items_from (suc n) chunk fail_at emitted (c ∷ cs) =
    let piece = first_of chunk (c ∷ cs) in
    let rest = items_from n chunk fail_at (emitted + length piece) (after chunk (c ∷ cs)) in
    if reached fail_at emitted then overloaded ∷ [] else delta piece ∷ rest

abbrev pub streamed :
    ℕ → Option ℕ → List ℕ → Option String → Provider → Provider × Option String × List Item
streamed chunk fail_at text (some e) q = (q, some e, [])
streamed chunk fail_at text none q =
    (record q { calls = q.calls - 1 }, none, items_from (length text) chunk fail_at 0 text)

-- `stream`, with the text of the model's response; a round for each character is enough.
unfoldable pub stream : ℕ → Option ℕ → List ℕ → Provider → Provider × Option String × List Item
unfolding items_from script_at
stream chunk fail_at text p =
    let (q, raised) = complete (record p { calls = p.calls + 1 }) in
    streamed chunk fail_at text raised q

-- The loop that fills the buffer.
unfoldable pub read_from : Option ℕ → ℕ → List ℕ → List Item → Reading
read_from cancel_after i buffer [] = whole buffer
read_from cancel_after i buffer (delta piece ∷ items) =
    let rest = read_from cancel_after (i + 1) (buffer ++ piece) items in
    if reached cancel_after i then cut_off else rest
read_from cancel_after i buffer (usage ∷ items) = read_from cancel_after (i + 1) buffer items
read_from cancel_after i buffer (overloaded ∷ items) = failed

module _ {R : Type 0} (parse : List ℕ → Option R) (validate : R → List String) where
  abbrev pub judged : String → R → List String → List (String × R) → List (String × R) × Outcome R
  judged doc_id r [] rows = (rows ++ ((doc_id, r) ∷ []), committed r)
  judged doc_id r (v ∷ vs) rows = (rows, invalid (v ∷ vs))

  abbrev pub parsed : String → Option R → List (String × R) → List (String × R) × Outcome R
  parsed doc_id none rows = (rows, bad_json)
  parsed doc_id (some r) rows = judged doc_id r (validate r) rows

  abbrev pub conclude : String → Reading → List (String × R) → List (String × R) × Outcome R
  conclude doc_id cut_off rows = (rows, cancelled)
  conclude doc_id failed rows = (rows, broken)
  conclude doc_id (whole buffer) rows = parsed doc_id (parse buffer) rows

  abbrev pub received :
      Option ℕ
      → String
      → Option String
      → List Item
      → List (String × R)
      → List (String × R) × Outcome R
  received cancel_after doc_id (some e) items rows = (rows, scripted e)
  received cancel_after doc_id none items rows =
      conclude doc_id (read_from cancel_after 0 [] items) rows

  -- `extract_streaming`: the rows of the store, and what is returned or raised.
  unfoldable pub extract_streaming :
      ℕ
      → Option ℕ
      → Option ℕ
      → String
      → List ℕ
      → Provider
      → List (String × R)
      → List (String × R) × Outcome R
  unfolding stream read_from
  extract_streaming chunk fail_at cancel_after doc_id text p rows =
      let (q, raised, items) = stream chunk fail_at text p in
      received cancel_after doc_id raised items rows
