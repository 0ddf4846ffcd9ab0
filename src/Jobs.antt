-- ===== src/Jobs.antt =====
-- modules/service-lab/jobs_lab.py: the durable queue over the tables of
-- modules/service-lab/service.py. A connection has the committed database and the one that its
-- open transaction sees; rows stand in the order of their integer keys.
pub mod Queue
pub mod Invariants
pub mod Rows
pub mod Leases
pub mod Fencing
pub mod Ingest
use mastery.Prelude.{ℕ, suc, ◌+◌, String, Bool, Option, none, max, List, [], ◌∷◌}

-- ready | leased | done | parked
pub data State : Type 0 where
  ready leased done parked : State

pub record Document : Type 0 where
  pub doc_id : String
  pub tenant : String
  pub url : String
  pub body : String
  pub body_sha : String
  pub fetched_at : ℕ

pub record Job : Type 0 where
  pub job_id : ℕ
  pub doc_id : String
  pub payload : Option String
  pub state : State
  pub attempts : ℕ
  pub lease_until : Option ℕ
  pub fence : ℕ
  pub enqueued_at : ℕ

pub record Outbox : Type 0 where
  pub out_id : ℕ
  pub doc_id : String
  pub sent : Bool

pub record Db : Type 0 where
  pub documents : List Document
  pub jobs : List Job
  pub outbox : List Outbox

pub record Conn : Type 0 where
  pub committed : Db
  pub current : Db

abbrev pub empty : Db
empty = record { documents = []; jobs = []; outbox = [] }

abbrev pub fresh : Conn
fresh = record { committed = empty; current = empty }

unfoldable pub commit : Conn → Conn
commit c = record c { committed = c.current }

unfoldable pub rollback : Conn → Conn
rollback c = record c { current = c.committed }

-- An INTEGER PRIMARY KEY that is not given is one more than the largest in the table.
abbrev pub next_id : List Job → ℕ
next_id [] = 1
next_id (j ∷ js) = max (suc j.job_id) (next_id js)

abbrev pub next_out : List Outbox → ℕ
next_out [] = 1
next_out (o ∷ os) = max (suc o.out_id) (next_out os)
