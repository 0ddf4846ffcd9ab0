-- ===== src/Transactions.antt =====
-- The two repositories of modules/service-lab/tx_lab.py, and the loop that writes to both: each
-- commits its own work, or one transaction is around both. The tables are those of
-- modules/service-lab/service.py.
pub mod Boundary
use mastery.Prelude.{
  ℕ, ◌+◌, String, String_discrete, ite, Bool, true, false, not, Option, none, some, List, [], ◌∷◌,
  ◌++◌, count, if◌then◌else◌,
}
use mastery.Jobs.{Document}
use mastery.Jobs.Ingest.{has_document}
use mastery.Auth.{Db, EventRow, next_event}

pub record Conn : Type 0 where
  pub committed : Db
  pub current : Db

abbrev pub commit : Conn → Conn
commit c = record c { committed = c.current }

abbrev pub rollback : Conn → Conn
rollback c = record c { current = c.committed }

abbrev pub commit_if : Bool → Conn → Conn
commit_if autocommit c = if autocommit then commit c else c

-- `DocumentRepo.add`; `doc_id` is the primary key, and an IntegrityError is nothing.
abbrev pub add_document : Bool → Document → Conn → Option Conn
add_document autocommit d c =
    if has_document d.doc_id c.current.documents
    then none
    else some (
        commit_if autocommit
          (record c { current = record c.current { documents = c.current.documents ++ (d ∷ []) } }))

-- `EventRepo.add`
abbrev pub add_event : Bool → String → String → Conn → Conn
add_event autocommit doc_id actors c =
    let row : EventRow = record {
      event_id = next_event c.current.events;
      doc_id = doc_id;
      tenant = "acme";
      actors = actors;
    } in
    commit_if autocommit
      (record c { current = record c.current { events = c.current.events ++ (row ∷ []) } })

-- What follows the document: `Boom` is raised before the event, and rolls back the transaction.
abbrev pub ingest_rest : Bool → Document → String → Bool → Conn → Conn
ingest_rest true d actors true c = rollback c
ingest_rest true d actors false c = commit (add_event false d.doc_id actors c)
ingest_rest false d actors true c = c
ingest_rest false d actors false c = add_event true d.doc_id actors c

abbrev pub ingest_with : Bool → Document → String → Bool → Option Conn → Option Conn
ingest_with shared d actors fails none = none
ingest_with shared d actors fails (some c) = some (ingest_rest shared d actors fails c)

-- The loop. An IntegrityError is not caught: it ends the program, and what is not committed is lost.
unfoldable pub ingest_all : Bool → List (Document × String × Bool) → Conn → Conn
unfolding has_document
ingest_all shared [] c = c
ingest_all shared ((d, actors, fails) ∷ ds) c =
    elim (ingest_with shared d actors fails (add_document (not shared) d c)) [
      | none ↦ rollback c
      | some c2 ↦ ingest_all shared ds c2
    ]

unfoldable pub has_event : String → List EventRow → Bool
unfolding String_discrete
has_event k [] = false
has_event k (e ∷ es) = ite (String_discrete e.doc_id k) true (has_event k es)

-- The documents with no event.
unfoldable pub orphans : Db → ℕ
unfolding has_event
orphans db = count (λ d. not (has_event d.doc_id db.events)) db.documents
