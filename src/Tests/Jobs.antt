-- ===== src/Tests/Jobs.antt =====
-- The queue of modules/service-lab/jobs_lab.py.
use mastery.Prelude.{◌≡◌, refl, ◌≢◌, ◌<◌, true, false, none, some, [], arith}
use mastery.Jobs.{leased, Job, Conn, fresh}
use mastery.Jobs.Queue.{enqueue, claim, complete}
use mastery.Jobs.Invariants.{step, run}
use mastery.Jobs.Leases.{exclusive}
use mastery.Jobs.Fencing.{fenced}
use mastery.Jobs.{Document}
use mastery.Prelude.{ℕ, String, Bool, List, ◌∷◌}
use mastery.Jobs.Ingest.{
  outbox_order, row_first, relay, ingest, ingest_all, orphan_docs, phantom_jobs, relay_rows, unsent,
  mark_sent, has_job, has_document,
}
use mastery.Jobs.Ingest.Orphans.{no_orphans}

program : Unit {0}
unfolding enqueue claim complete step run
program = tt

-- One job and another, enqueued at time 0.
abbrev two_jobs : Conn
two_jobs = enqueue 0 "N02" none (enqueue 0 "N01" none fresh)

abbrev first_lease : Job
first_lease = record {
  job_id = 1;
  doc_id = "N01";
  payload = none;
  state = leased;
  attempts = 1;
  lease_until = some 150;
  fence = 1;
  enqueued_at = 0;
}

abbrev second_lease : Job
second_lease = record first_lease { attempts = 2; lease_until = some 350; fence = 2 }

claims_first : (claim 0 150 two_jobs).1 ≡ some first_lease
unfolding program
claims_first = refl

-- Worker A has the lease until 150; worker B asks at 200.
abbrev after_a : Conn
after_a = (claim 0 150 two_jobs).0

claims_again : (claim 200 150 (run after_a [])).1 ≡ some second_lease
unfolding program
claims_again = refl

other_job :
    (claim 100 150 (run after_a [])).1
    ≡ some (record first_lease { job_id = 2; doc_id = "N02"; lease_until = some 250 })
unfolding program
other_job = refl

b_completes : (complete 1 2 (claim 200 150 after_a).0).1 ≡ true
unfolding program
b_completes = refl

exclusive_example : 2 ≢ first_lease.job_id
unfolding program
exclusive_example =
    exclusive 0 150 two_jobs [] 100 150 {r = first_lease}
      {s = record first_lease { job_id = 2; doc_id = "N02"; lease_until = some 250 }}
      (omega arith, (omega arith, tt)) refl tt (omega arith) refl

fenced_example :
    let c2 = run (claim 200 150 (run after_a [])).0 [] in
    (1 < 2) × ((complete 1 1 c2).1 ≡ false) × ((complete 1 1 c2).0.current ≡ c2.current)
unfolding program
fenced_example =
    fenced 0 150 two_jobs [] 200 150 [] {r = first_lease} {s = second_lease}
      (omega arith, (omega arith, tt)) refl refl refl

ingestion : Unit {0}
unfolding program ingest_all ingest relay relay_rows unsent mark_sent orphan_docs phantom_jobs
    has_job has_document
ingestion = tt

abbrev document : String → Document
document doc_id = record {
  doc_id = doc_id;
  tenant = "acme";
  url = "u";
  body = "text";
  body_sha = "00";
  fetched_at = 0;
}

-- The process stops after the first document.
abbrev arrivals : List (ℕ × Document × Bool)
arrivals = (0, document "D00", true) ∷ (1, document "D01", false) ∷ []

silent_loss : orphan_docs (ingest_all row_first arrivals fresh).0.current ≡ 1
unfolding ingestion
silent_loss = refl

no_orphans_example :
    let db = (relay 9 (ingest_all outbox_order arrivals fresh).0).current in
    (orphan_docs db ≡ 0) × (phantom_jobs db ≡ 0)
no_orphans_example = no_orphans arrivals 9
