-- ===== src/Jobs/Ingest/Orphans.antt =====
-- What the outbox promises: after the relay has run, each document has its job.
use mastery.Prelude.{
  ℕ, ◌≡◌, refl, String, String_discrete, ite, Bool, true, false, not, ◌||◌, List, [], ◌∷◌, ◌++◌,
  count, none, if◌then◌else◌, arith, ap, subst, ◌∙◌, sym,
}
use mastery.Jobs.{
  Document, Job, Outbox, Db, Conn, fresh, commit, rollback, next_out, next_id, ready,
}
use mastery.Jobs.Queue.{enqueue}
use mastery.Jobs.Ingest.{
  outbox_order, has_document, has_job, add_document, add_outbox, unsent, mark_sent, set_sent,
  relay_rows, relay, ingest, orphan_docs, phantom_jobs, ingest_all, go_on, or_crash, refused,
  finished, crashed, Ran,
}

-- Whether a row to send is for the document.
unfoldable in_rows : String → List (ℕ × String) → Bool
unfolding String_discrete
in_rows k [] = false
in_rows k ((i, d) ∷ rows) = ite (String_discrete d k) true (in_rows k rows)

has_job-append :
    (k : String) (js ks : List Job) → has_job k (js ++ ks) ≡ (has_job k js || has_job k ks)
unfolding has_job
has_job-append k [] ks = refl
has_job-append k (j ∷ js) ks = ground (arith, has_job-append k js ks)

has_document-append :
    (k : String) (ds es : List Document)
    → has_document k (ds ++ es) ≡ (has_document k ds || has_document k es)
unfolding has_document
has_document-append k [] es = refl
has_document-append k (d ∷ ds) es = ground (arith, has_document-append k ds es)

abbrev new_row : ℕ → String → Conn → Job
new_row now doc_id c = record {
  job_id = next_id c.current.jobs;
  doc_id = doc_id;
  payload = none;
  state = ready;
  attempts = 0;
  lease_until = none;
  fence = 0;
  enqueued_at = now;
}

enqueue-has_job :
    (k : String) (now : ℕ) (doc_id : String) (c : Conn)
    → has_job k (enqueue now doc_id none c).current.jobs
      ≡ ite (String_discrete doc_id k) true (has_job k c.current.jobs)
unfolding enqueue has_job
enqueue-has_job k now doc_id c =
    ground (arith, has_job-append k c.current.jobs (new_row now doc_id c ∷ []))

relay_rows-has_job :
    (k : String) (now : ℕ) (rows : List (ℕ × String)) (c : Conn)
    → has_job k (relay_rows now rows c).current.jobs ≡ (has_job k c.current.jobs || in_rows k rows)
unfolding relay_rows in_rows
relay_rows-has_job k now [] c = ground arith
relay_rows-has_job k now ((i, d) ∷ rows) c = ground (
  arith,
  relay_rows-has_job k now rows (set_sent i (enqueue now d none c)),
  enqueue-has_job k now d c,
)

relay_rows-documents :
    (now : ℕ) (rows : List (ℕ × String)) (c : Conn)
    → (relay_rows now rows c).current.documents ≡ c.current.documents
unfolding relay_rows enqueue
relay_rows-documents now [] c = refl
relay_rows-documents now ((i, d) ∷ rows) c =
    relay_rows-documents now rows (set_sent i (enqueue now d none c))

in_rows-append :
    (k : String) (os ps : List Outbox)
    → in_rows k (unsent (os ++ ps)) ≡ (in_rows k (unsent os) || in_rows k (unsent ps))
unfolding in_rows unsent
in_rows-append k [] ps = refl
in_rows-append k (o ∷ os) ps = ground (arith, in_rows-append k os ps)

mark_sent-unsent :
    (k : String) (i : ℕ) (os : List Outbox)
    → in_rows k (unsent (mark_sent i os)) ≡ true
    → in_rows k (unsent os) ≡ true
unfolding in_rows unsent mark_sent
mark_sent-unsent k i [] h = h
mark_sent-unsent k i (o ∷ os) h = ground (arith, h, mark_sent-unsent k i os)

relay_rows-unsent :
    (k : String) (now : ℕ) (rows : List (ℕ × String)) (c : Conn)
    → in_rows k (unsent (relay_rows now rows c).current.outbox) ≡ true
    → in_rows k (unsent c.current.outbox) ≡ true
unfolding relay_rows enqueue
relay_rows-unsent k now [] c h = h
relay_rows-unsent k now ((i, d) ∷ rows) c h =
    mark_sent-unsent k i c.current.outbox
      (relay_rows-unsent k now rows (set_sent i (enqueue now d none c)) h)

-- A document is there when a job or an unsent row for it is, and only then.
abbrev IsEven : Db → Type 0
IsEven db =
    (k : String) → has_document k db.documents ≡ (has_job k db.jobs || in_rows k (unsent db.outbox))

relay-has_job :
    (now : ℕ) (c : Conn) (k : String)
    → IsEven c.current
    → has_document k (relay now c).current.documents ≡ has_job k (relay now c).current.jobs
unfolding relay
relay-has_job now c k h =
    let rows = unsent c.current.outbox in
    ap (has_document k) (relay_rows-documents now rows c)
    ∙ h k
    ∙ sym (relay_rows-has_job k now rows c)

or-absorbs : (a b c : Bool) → (c ≡ true → b ≡ true) → ((a || b) || c) ≡ (a || b)
or-absorbs a true c h = ground arith
or-absorbs a false true h = cc (h refl)
or-absorbs a false false h = ground arith

relay-IsEven : (now : ℕ) (c : Conn) → IsEven c.current → IsEven (relay now c).current
unfolding relay
relay-IsEven now c h k =
    let rows = unsent c.current.outbox in
    let again =
      or-absorbs (has_job k c.current.jobs) (in_rows k rows)
        (in_rows k (unsent (relay_rows now rows c).current.outbox))
        (relay_rows-unsent k now rows c) in
    ap (has_document k) (relay_rows-documents now rows c)
    ∙ h k
    ∙ sym again
    ∙ ap (λ b. b || in_rows k (unsent (relay_rows now rows c).current.outbox))
        (sym (relay_rows-has_job k now rows c))

abbrev new_out : Document → Conn → Outbox
new_out d c = record { out_id = next_out c.current.outbox; doc_id = d.doc_id; sent = false }

new_out_lem :
    (k : String) (d : Document) (c : Conn)
    → in_rows k (unsent (new_out d c ∷ [])) ≡ ite (String_discrete d.doc_id k) true false
unfolding in_rows unsent
new_out_lem k d c = refl

new_document_lem :
    (k : String) (d : Document)
    → has_document k (d ∷ []) ≡ ite (String_discrete d.doc_id k) true false
unfolding has_document
new_document_lem k d = refl

-- What the transaction of `ingest` commits.
abbrev stored : Document → Conn → Conn
stored d c = commit (add_outbox d.doc_id (add_document d c))

stored-IsEven : (d : Document) (c : Conn) → IsEven c.current → IsEven (stored d c).current
unfolding commit
stored-IsEven d c h k = ground (
  arith,
  h k,
  has_document-append k c.current.documents (d ∷ []),
  in_rows-append k c.current.outbox (new_out d c ∷ []),
  new_out_lem k d c,
  new_document_lem k d,
)

abbrev IsSettled : Conn → Type 0
IsSettled c = (c.committed ≡ c.current) × IsEven c.current

-- A call leaves the connection settled, or settled once it is rolled back.
abbrev Leaves : Conn × Ran → Type 0
Leaves (c, crashed) = IsSettled (rollback c)
Leaves (c, _) = IsSettled c

branch-Leaves :
    (there crash : Bool) (c kept relayed : Conn)
    → IsSettled c
    → IsSettled kept
    → IsSettled relayed
    → Leaves (if there then (c, refused) else or_crash crash kept relayed)
unfolding rollback
branch-Leaves true crash c kept relayed h k r = h
branch-Leaves false true c kept relayed h k r = (refl, subst IsEven (sym k.0) k.1)
branch-Leaves false false c kept relayed h k r = r

commit-settles : (c : Conn) → (commit c).committed ≡ (commit c).current
unfolding commit
commit-settles c = refl

relay-settles : (now : ℕ) (c : Conn) → (relay now c).committed ≡ (relay now c).current
unfolding relay
relay-settles now c = commit-settles (relay_rows now (unsent c.current.outbox) c)

ingest-Leaves :
    (now : ℕ) (d : Document) (crash : Bool) (c : Conn)
    → IsSettled c
    → Leaves (ingest now d outbox_order crash c)
unfolding ingest
ingest-Leaves now d crash c h =
    let kept : Conn = stored d c in
    let even = stored-IsEven d c h.1 in
    branch-Leaves (has_document d.doc_id c.current.documents) crash c kept (relay now kept) h
      (commit-settles (add_outbox d.doc_id (add_document d c)), even)
      (relay-settles now kept, relay-IsEven now kept even)

go_on-IsSettled :
    (again : Conn → Conn × Ran) (p : Conn × Ran)
    → Leaves p
    → ((c : Conn) → IsSettled c → IsSettled (again c).0)
    → IsSettled (go_on again p).0
go_on-IsSettled again (c, finished) h k = k c h
go_on-IsSettled again (c, crashed) h k = k (rollback c) h
go_on-IsSettled again (c, refused) h k = h

ingest_all-IsSettled :
    (ds : List (ℕ × Document × Bool)) (c : Conn)
    → IsSettled c
    → IsSettled (ingest_all outbox_order ds c).0
unfolding ingest_all
ingest_all-IsSettled [] c h = h
ingest_all-IsSettled ((now, d, crash) ∷ ds) c h =
    go_on-IsSettled (ingest_all outbox_order ds) (ingest now d outbox_order crash c)
      (ingest-Leaves now d crash c h) (ingest_all-IsSettled ds)

all_have_job :
    (ds : List Document) (js : List Job)
    → ((k : String) → has_document k ds ≡ true → has_job k js ≡ true)
    → count (λ d. not (has_job d.doc_id js)) ds ≡ 0
unfolding has_document
all_have_job [] js h = refl
all_have_job (d ∷ ds) js h =
    ground (arith, h d.doc_id (ground arith), all_have_job ds js (λ k e. h k (ground (arith, e))))

all_have_document :
    (js : List Job) (ds : List Document)
    → ((k : String) → has_job k js ≡ true → has_document k ds ≡ true)
    → count (λ j. not (has_document j.doc_id ds)) js ≡ 0
unfolding has_job
all_have_document [] ds h = refl
all_have_document (j ∷ js) ds h =
    ground
      (arith, h j.doc_id (ground arith), all_have_document js ds (λ k e. h k (ground (arith, e))))

fresh-IsSettled : IsSettled fresh
unfolding has_document has_job in_rows unsent
fresh-IsSettled = (refl, λ k. refl)

-- Documents are ingested in the order "outbox" into a new database, each at its time, and after any
-- of them the process may stop between the commit and the relay. Once the relay has run, no document
-- is without a job and no job is without a document.
pub no_orphans :
    (ds : List (ℕ × Document × Bool)) (later : ℕ)
    → let db = (relay later (ingest_all outbox_order ds fresh).0).current in
      (orphan_docs db ≡ 0) × (phantom_jobs db ≡ 0)
unfolding orphan_docs phantom_jobs
no_orphans ds later =
    let c = (ingest_all outbox_order ds fresh).0 in
    let db = (relay later c).current in
    let same =
      λ (k : String). relay-has_job later c k (ingest_all-IsSettled ds fresh fresh-IsSettled).1 in
    (
      all_have_job db.documents db.jobs (λ k e. sym (same k) ∙ e),
      all_have_document db.jobs db.documents (λ k e. same k ∙ e),
    )
