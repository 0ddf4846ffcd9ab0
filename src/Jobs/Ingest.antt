-- ===== src/Jobs/Ingest.antt =====
-- `ingest`, `relay` and `counts` of modules/service-lab/jobs_lab.py. The document's row is an
-- argument, and so is whether the process stops where the code raises `Crash`.
pub mod Orphans
use mastery.Prelude.{
  ℕ, ◌+◌, String, String_discrete, ite, Bool, true, false, not, List, [], ◌∷◌, ◌++◌, count, length,
  ◌==◌, none, if◌then◌else◌,
}
use mastery.Jobs.{Document, Job, Outbox, Db, Conn, commit, rollback, next_out}
use mastery.Jobs.Queue.{enqueue}

pub data Order : Type 0 where
  row_first job_first outbox_order : Order

-- How a call ends: `Crash`, or the IntegrityError of a `doc_id` that is there.
pub data Ran : Type 0 where
  finished crashed refused : Ran

unfoldable pub has_document : String → List Document → Bool
unfolding String_discrete
has_document k [] = false
has_document k (d ∷ ds) = ite (String_discrete d.doc_id k) true (has_document k ds)

unfoldable pub has_job : String → List Job → Bool
unfolding String_discrete
has_job k [] = false
has_job k (j ∷ js) = ite (String_discrete j.doc_id k) true (has_job k js)

-- `INSERT INTO documents`, where the key is not there yet.
abbrev pub add_document : Document → Conn → Conn
add_document d c = record c {
  current = record c.current { documents = c.current.documents ++ (d ∷ []) };
}

-- `INSERT INTO outbox (doc_id)`
abbrev pub add_outbox : String → Conn → Conn
add_outbox doc_id c =
    let row : Outbox = record {
      out_id = next_out c.current.outbox;
      doc_id = doc_id;
      sent = false;
    } in
    record c { current = record c.current { outbox = c.current.outbox ++ (row ∷ []) } }

-- `SELECT out_id, doc_id FROM outbox WHERE sent=0`
unfoldable pub unsent : List Outbox → List (ℕ × String)
unsent [] = []
unsent (o ∷ os) = let rest = unsent os in if o.sent then rest else (o.out_id, o.doc_id) ∷ rest

-- `UPDATE outbox SET sent=1 WHERE out_id=?`
unfoldable pub mark_sent : ℕ → List Outbox → List Outbox
mark_sent k [] = []
mark_sent k (o ∷ os) = (if o.out_id == k then record o { sent = true } else o) ∷ mark_sent k os

abbrev pub set_sent : ℕ → Conn → Conn
set_sent k c = record c { current = record c.current { outbox = mark_sent k c.current.outbox } }

unfoldable pub relay_rows : ℕ → List (ℕ × String) → Conn → Conn
unfolding enqueue mark_sent
relay_rows now [] c = c
relay_rows now ((out_id, doc_id) ∷ rows) c =
    relay_rows now rows (set_sent out_id (enqueue now doc_id none c))

unfoldable pub relay : ℕ → Conn → Conn
unfolding relay_rows unsent commit
relay now c = commit (relay_rows now (unsent c.current.outbox) c)

abbrev pub or_crash : Bool → Conn → Conn → Conn × Ran
or_crash true c next = (c, crashed)
or_crash false c next = (next, finished)

unfoldable pub ingest : ℕ → Document → Order → Bool → Conn → Conn × Ran
unfolding has_document enqueue commit relay
ingest now d row_first crash c =
    let stored = commit (add_document d c) in
    if has_document d.doc_id c.current.documents
    then (c, refused)
    else or_crash crash stored (enqueue now d.doc_id none stored)
ingest now d job_first crash c =
    let queued = enqueue now d.doc_id none c in
    if crash
    then (queued, crashed)
    else (if has_document d.doc_id queued.current.documents
        then (queued, refused)
        else (commit (add_document d queued), finished))
ingest now d outbox_order crash c =
    let stored = commit (add_outbox d.doc_id (add_document d c)) in
    if has_document d.doc_id c.current.documents
    then (c, refused)
    else or_crash crash stored (relay now stored)

-- `counts`: the documents with no job, and the jobs with no document.
unfoldable pub orphan_docs : Db → ℕ
unfolding has_job
orphan_docs db = count (λ d. not (has_job d.doc_id db.jobs)) db.documents

unfoldable pub phantom_jobs : Db → ℕ
unfolding has_document
phantom_jobs db = count (λ j. not (has_document j.doc_id db.documents)) db.jobs

-- Only `Crash` is caught, and what has not been committed then is rolled back; an IntegrityError
-- ends the loop.
abbrev pub go_on : (Conn → Conn × Ran) → Conn × Ran → Conn × Ran
go_on again (c, finished) = again c
go_on again (c, crashed) = again (rollback c)
go_on again (c, refused) = (c, refused)

unfoldable pub ingest_all : Order → List (ℕ × Document × Bool) → Conn → Conn × Ran
unfolding ingest rollback
ingest_all order [] c = (c, finished)
ingest_all order ((now, d, crash) ∷ ds) c = go_on (ingest_all order ds) (ingest now d order crash c)
