-- ===== src/Chunked.antt =====
-- The handler Streamer of modules/service-lab/http_lab.py. A response is the chunks that were written,
-- and whether the last, empty chunk was. Writing raises an OSError once the peer has left, after so
-- many writes; the text of a record or a unit is a parameter. Headers and the sleep are left out.
pub mod Firehose
pub mod Whole
pub mod Records
use mastery.Prelude.{
  ℕ, zero, suc, ◌+◌, Bool, true, false, not, ◌&&◌, Option, none, some, List, [], ◌∷◌, ◌++◌, length,
  ltb, leb, if◌then◌else◌,
}

-- `room` is the number of writes until the peer leaves, if it does.
pub record Wire : Type 0 where
  pub room : Option ℕ
  pub chunks : List (List ℕ)
  pub closed : Bool

pub data Ending : Type 0 where
  ended upstream_failed os_error : Ending

abbrev pub fresh : Option ℕ → Wire
fresh room = record { room = room; chunks = []; closed = false }

-- A write: nothing where it raises.
abbrev pub written : Option ℕ → Wire → Option Wire
written none w = some w
written (some zero) w = none
written (some (suc n)) w = some (record w { room = some n })

abbrev pub add_chunk : List ℕ → Option Wire → Option Wire
add_chunk bytes none = none
add_chunk bytes (some w) = some (record w { chunks = w.chunks ++ (bytes ∷ []) })

-- `_chunk`
unfoldable pub chunk : List ℕ → Wire → Option Wire
chunk bytes w = add_chunk bytes (written w.room w)

abbrev pub closed_if : Ending → Option Wire → Wire → Wire × Ending
closed_if e none w = (w, os_error)
closed_if e (some v) w = (record v { closed = true }, e)

-- The empty chunk at the end.
unfoldable pub close : Ending → Wire → Wire × Ending
close e w = closed_if e (written w.room w) w

abbrev pub fails_at : Option ℕ → ℕ → Bool
fails_at none i = false
fails_at (some n) i = leb n i

-- One record: it is written, or the provider fails first; with the ending if nothing was written.
abbrev pub try_record : Bool → List ℕ → Wire → Option Wire × Ending
try_record true doc w = (none, upstream_failed)
try_record false doc w = (chunk doc w, os_error)

-- The loop of `records`, with the number of records sent.
unfoldable pub records_from : Option ℕ → ℕ → List (List ℕ) → Wire → Wire × ℕ × Ending
unfolding chunk
records_from fail_after i [] w = (w, i, ended)
records_from fail_after i (doc ∷ docs) w =
    let (sent, otherwise) = try_record (fails_at fail_after i) doc w in
    elim sent [ none ↦ (w, i, otherwise) | some v ↦ records_from fail_after (i + 1) docs v ]

abbrev pub with_sentinel : Bool → List ℕ → Wire → Option Wire
with_sentinel true line w = chunk line w
with_sentinel false line w = some w

abbrev pub end_records : Bool → List ℕ → Wire × ℕ × Ending → Wire × Ending
end_records sentinel line (w, sent, os_error) = (w, os_error)
end_records sentinel line (w, sent, upstream_failed) = close upstream_failed w
end_records sentinel line (w, sent, ended) = elim (with_sentinel sentinel line w) [
  | none ↦ (w, os_error)
  | some v ↦ close ended v
]

-- `records`
unfoldable pub records : Option ℕ → Bool → List ℕ → List (List ℕ) → Option ℕ → Wire × Ending
unfolding records_from close chunk
records fail_after sentinel line docs room =
    end_records sentinel line (records_from fail_after 0 docs (fresh room))

-- `b"".join(pending)`
unfoldable pub join : List (List ℕ) → List ℕ
join [] = []
join (x ∷ xs) = x ++ join xs

abbrev pub emptied : Option Wire → Option (List (List ℕ) × Wire)
emptied none = none
emptied (some w) = some ([], w)

-- What is pending, written if it is enough.
unfoldable pub flushed : ℕ → List (List ℕ) → Wire → Option (List (List ℕ) × Wire)
unfolding chunk join
flushed flush_every pending w =
    if leb flush_every (length pending) then emptied (chunk (join pending) w) else some (pending, w)

-- The rest that is pending, and the end.
abbrev pub end_work : List (List ℕ) → ℕ → Wire → Wire × ℕ × Ending
end_work [] i w = let (v, e) = close ended w in (v, i, e)
end_work (x ∷ xs) i w = elim (chunk (join (x ∷ xs)) w) [
  | none ↦ (w, i, os_error)
  | some v ↦ let (u, e) = close ended v in (u, i, e)
]

-- The loop of `work_stream`, with the units to go, the units done and what is pending.
unfoldable pub work_from : (ℕ → List ℕ) → ℕ → ℕ → ℕ → List (List ℕ) → Wire → Wire × ℕ × Ending
unfolding flushed close chunk join
work_from unit flush_every zero i pending w = end_work pending i w
work_from unit flush_every (suc n) i pending w =
    elim (flushed flush_every (pending ++ (unit i ∷ [])) w) [
      | none ↦ (w, i + 1, os_error)
      | some (rest, v) ↦ work_from unit flush_every n (i + 1) rest v
    ]

-- `work_stream`
unfoldable pub work_stream : (ℕ → List ℕ) → ℕ → ℕ → Option ℕ → Wire × ℕ × Ending
unfolding work_from
work_stream unit flush_every units room = work_from unit flush_every units 0 [] (fresh room)
