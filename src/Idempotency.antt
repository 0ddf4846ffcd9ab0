-- ===== src/Idempotency.antt =====
-- `API` of modules/service-lab/idempotency_lab.py: a POST with an idempotency key, in three modes.
-- A request runs in steps, one for each transaction on the tables `events` and `idem`, so that
-- several requests may take turns. The model's answer to a document, with the hash of its content,
-- is a parameter, and whether a waiting request is past its deadline is an argument of its step.
pub mod Keys
pub mod AtMostOnce
pub mod Replay
use mastery.Prelude.{
  same, ℕ, zero, suc, ◌+◌, max, String, String_discrete, ite, Bool, true, false, not, ◌&&◌, ◌||◌,
  Option, none, some, List, [], ◌∷◌, ◌++◌, if◌then◌else◌,
}

pub data Mode : Type 0 where
  no_mode check_insert unique : Mode

pub data Inflight : Type 0 where
  again conflict wait : Inflight

-- The class attributes.
pub record Config : Type 0 where
  pub mode : Mode
  pub inflight : Inflight
  pub store_response : Bool
  pub fingerprint : Bool
  pub natural_key : Bool

pub record EventRow : Type 0 where
  pub event_id : ℕ
  pub doc_id : String
  pub content_sha : String
  pub request_id : Option String

pub data Body : Type 0 where
  event : ℕ → String → String → Bool → Body
  error : String → Body
  replayed : Body → Body
  replayed_empty : Body

-- What `send_json` sends.
pub record Reply : Type 0 where
  pub status : ℕ
  pub body : Body

pub data KeyState : Type 0 where
  in_progress done : KeyState

pub record IdemRow : Type 0 where
  pub key : String
  pub fingerprint : String
  pub state : KeyState
  pub response : Option Body

pub record Db : Type 0 where
  pub events : List EventRow
  pub idem : List IdemRow

-- Where a request stands.
pub data Phase : Type 0 where
  at_start at_work_only at_work at_checked_work at_existing : Phase
  at_mark at_replace : Reply → Phase
  finished : Reply → Phase

pub record Request : Type 0 where
  pub doc_id : String
  pub key : Option String
  pub fp : String
  pub phase : Phase

-- `SELECT state, response, fingerprint FROM idem WHERE key=?`
unfoldable pub row_of : String → List IdemRow → Option IdemRow
unfolding same
row_of k [] = none
row_of k (r ∷ rs) = let rest = row_of k rs in if same r.key k then some r else rest

-- The row that the UNIQUE(doc_id, content_sha) of `natural_key` finds.
unfoldable pub twin_of : String → String → List EventRow → Option EventRow
unfolding same
twin_of doc_id sha [] = none
twin_of doc_id sha (e ∷ es) =
    let rest = twin_of doc_id sha es in
    if same e.doc_id doc_id && same e.content_sha sha then some e else rest

unfoldable pub next_event : List EventRow → ℕ
next_event [] = 1
next_event (e ∷ es) = max (suc e.event_id) (next_event es)

abbrev pub add_event : String → String → Option String → Db → Db × Reply
add_event doc_id sha key db =
    let k = next_event db.events in
    (
      record db {
        events =
            db.events
            ++ (record { event_id = k; doc_id = doc_id; content_sha = sha; request_id = key } ∷ []);
      },
      record { status = 201; body = event k doc_id sha false },
    )

abbrev pub insert_event : Option EventRow → String → String → Option String → Db → Db × Reply
insert_event none doc_id sha key db = add_event doc_id sha key db
insert_event (some e) doc_id sha key db =
    (db, record { status = 200; body = event e.event_id doc_id sha true })

-- `UPDATE idem SET state='done', response=? WHERE key=?`
unfoldable pub mark_done : String → Option Body → List IdemRow → List IdemRow
unfolding same
mark_done k b [] = []
mark_done k b (r ∷ rs) =
    (if same r.key k then record r { state = done; response = b } else r) ∷ mark_done k b rs

-- What INSERT OR REPLACE deletes.
unfoldable pub without : String → List IdemRow → List IdemRow
unfolding same
without k [] = []
without k (r ∷ rs) = let rest = without k rs in if same r.key k then rest else r ∷ rest

abbrev pub is_done : KeyState → Bool
is_done done = true
is_done in_progress = false

-- `replay`
abbrev pub replay_response : Option Body → Reply
replay_response none = record { status = 200; body = replayed_empty }
replay_response (some b) = record { status = 200; body = replayed b }

unfoldable pub replay : Config → IdemRow → String → Reply
unfolding same
replay c row fp =
    if c.fingerprint && not (same row.fingerprint fp)
    then record { status = 422; body = error "key reused with a different body" }
    else replay_response row.response

module _ (extract : String → Option String) (c : Config) where
  abbrev pub kept : Body → Option Body
  kept b = if c.store_response then some b else none

  abbrev pub work_with : Option String → String → Option String → Db → Db × Reply
  work_with none doc_id key db = (db, record { status = 502; body = error "extraction" })
  work_with (some sha) doc_id key db =
      insert_event (if c.natural_key then twin_of doc_id sha db.events else none) doc_id sha key db

  -- `work`
  unfoldable pub work : String → Option String → Db → Db × Reply
  unfolding twin_of next_event
  work doc_id key db = work_with (extract doc_id) doc_id key db

  abbrev pub work_then : (Reply → Phase) → String → Request → Db → Db × Request
  work_then next doc_id r db =
      let (db', reply) = work doc_id r.key db in (db', record r { phase = next reply })

  -- The INSERT that claims the key.
  abbrev pub claim_key : String → Option IdemRow → Request → Db → Db × Request
  claim_key k (some row) r db = (db, record r { phase = at_existing })
  claim_key k none r db = (
    record db {
      idem =
          db.idem
          ++ (record { key = k; fingerprint = r.fp; state = in_progress; response = none } ∷ []);
    },
    record r { phase = at_work },
  )

  abbrev pub check_key : Option IdemRow → Request → Db → Db × Request
  check_key none r db = (db, record r { phase = at_checked_work })
  check_key (some row) r db =
      if is_done row.state
      then (db, record r { phase = finished (replay c row r.fp) })
      else (db, record r { phase = at_checked_work })

  -- The first step of `do_POST`, by the mode.
  abbrev pub start_step : Mode → Option String → Request → Db → Db × Request
  start_step no_mode k r db = (db, record r { phase = at_work_only })
  start_step m none r db = (db, record r { phase = at_work_only })
  start_step check_insert (some k) r db = check_key (row_of k db.idem) r db
  start_step unique (some k) r db = claim_key k (row_of k db.idem) r db

  abbrev pub poll : Inflight → Bool → Request → Db → Db × Request
  poll conflict late r db =
      (db, record r { phase = finished (record { status = 409; body = error "in progress" }) })
  poll again late r db = work_then finished "N01" r db
  poll wait late r db =
      if late
      then (
        db,
        record r { phase = finished (record { status = 504; body = error "timed out waiting" }) },
      )
      else (db, r)

  -- One round of the loop in `existing`; under "again" the document is "N01", as the source has it.
  -- A row that has gone would raise; no row of `idem` is ever deleted for good.
  abbrev pub existing_step : Bool → Option IdemRow → Request → Db → Db × Request
  existing_step late none r db = (db, r)
  existing_step late (some row) r db =
      let waiting = poll c.inflight late r db in
      if is_done row.state then (db, record r { phase = finished (replay c row r.fp) }) else waiting

  abbrev pub mark_step : Option String → Reply → Request → Db → Db × Request
  mark_step none reply r db = (db, record r { phase = finished reply })
  mark_step (some k) reply r db = (
    record db { idem = mark_done k (kept reply.body) db.idem },
    record r { phase = finished reply },
  )

  abbrev pub replace_step : Option String → Reply → Request → Db → Db × Request
  replace_step none reply r db = (db, record r { phase = finished reply })
  replace_step (some k) reply r db = (
    record db {
      idem =
          without k db.idem
          ++ (record { key = k; fingerprint = r.fp; state = done; response = kept reply.body }
              ∷ []);
    },
    record r { phase = finished reply },
  )

  abbrev pub lookup_step : Bool → Option String → Request → Db → Db × Request
  lookup_step late none r db = (db, r)
  lookup_step late (some k) r db = existing_step late (row_of k db.idem) r db

  abbrev pub advance : Bool → Phase → Request → Db → Db × Request
  advance late at_start r db = start_step c.mode r.key r db
  advance late at_work_only r db = work_then finished r.doc_id r db
  advance late at_work r db = work_then at_mark r.doc_id r db
  advance late at_checked_work r db = work_then at_replace r.doc_id r db
  advance late at_existing r db = lookup_step late r.key r db
  advance late (at_mark reply) r db = mark_step r.key reply r db
  advance late (at_replace reply) r db = replace_step r.key reply r db
  advance late (finished reply) r db = (db, r)

  -- The next step of a request.
  unfoldable pub step : Bool → Request → Db → Db × Request
  unfolding work row_of replay mark_done without
  step late r db = advance late r.phase r db

  -- The server with its requests; the schedule says which of them goes on, and whether it is late.
  unfoldable pub turn : ℕ → Bool → Db → List Request → Db × List Request
  unfolding step
  turn i late db [] = (db, [])
  turn zero late db (r ∷ rs) = let (db', r') = step late r db in (db', r' ∷ rs)
  turn (suc i) late db (r ∷ rs) = let (db', rs') = turn i late db rs in (db', r ∷ rs')

  unfoldable pub serve : List (ℕ × Bool) → Db → List Request → Db × List Request
  unfolding turn
  serve [] db rs = (db, rs)
  serve ((i, late) ∷ schedule) db rs = let (db', rs') = turn i late db rs in serve schedule db' rs'

  -- A request by itself; three steps are enough when no other is under way.
  unfoldable pub do_post : String → Option String → String → Db → Db × Request
  unfolding step
  do_post doc_id key fp db =
      let (db1, r1) =
        step false (record { doc_id = doc_id; key = key; fp = fp; phase = at_start }) db in
      let (db2, r2) = step false r1 db1 in step false r2 db2
