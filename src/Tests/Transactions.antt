-- ===== src/Tests/Transactions.antt =====
-- Two documents through the loop of modules/service-lab/tx_lab.py, the second of which fails.
use mastery.Prelude.{◌≡◌, refl, String, Bool, true, false, [], List, ◌∷◌, length}
use mastery.Jobs.{Document}
use mastery.Jobs.Ingest.{has_document}
use mastery.Transactions.{Conn, has_event, ingest_all, orphans}
use mastery.Transactions.Boundary.{ingest_all-orphans}

program : Unit {0}
unfolding has_document has_event ingest_all orphans
program = tt

abbrev first_document : Document
first_document = record {
  doc_id = "D00";
  tenant = "acme";
  url = "u/D00";
  body = "body";
  body_sha = "sha";
  fetched_at = 0;
}

abbrev items : List (Document × String × Bool)
items =
    (first_document, "actors", false)
    ∷ (record first_document { doc_id = "D01" }, "actors", true)
    ∷ []

abbrev no_rows : Conn
no_rows = record {
  committed = record { documents = []; events = [] };
  current = record { documents = []; events = [] };
}

half_ingested : orphans (ingest_all false items no_rows).committed ≡ 1
unfolding program
half_ingested = refl

ingest_all-orphans_example :
    let c = ingest_all true items no_rows in
    (orphans c.committed ≡ 0) × (length c.committed.documents ≡ length c.committed.events)
ingest_all-orphans_example = ingest_all-orphans items
