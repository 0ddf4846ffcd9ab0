-- ===== src/Jobs/Queue.antt =====
-- `enqueue`, `claim` and `complete` of modules/service-lab/jobs_lab.py. The clock's reading is an
-- argument, and so is the payload as `json.dumps` writes it.
use mastery.Prelude.{
  ℕ, ◌+◌, min, String, Bool, true, false, Option, none, some, List, [], ◌∷◌, ◌++◌, count, ltb, ◌==◌,
  ◌&&◌, if◌then◌else◌,
}
use mastery.Jobs.{State, ready, leased, done, Job, Conn, commit, next_id}

unfoldable pub enqueue : ℕ → String → Option String → Conn → Conn
unfolding commit
enqueue now doc_id payload c =
    let db = c.current in
    let row : Job = record {
      job_id = next_id db.jobs;
      doc_id = doc_id;
      payload = payload;
      state = ready;
      attempts = 0;
      lease_until = none;
      fence = 0;
      enqueued_at = now;
    } in
    commit (record c { current = record db { jobs = db.jobs ++ (row ∷ []) } })

abbrev pub expired : Option ℕ → ℕ → Bool
expired none now = false
expired (some t) now = ltb t now

-- `state='ready' OR (state='leased' AND lease_until < ?)`; a NULL compares as false.
abbrev pub open_at : ℕ → State → Option ℕ → Bool
open_at now ready until = true
open_at now leased until = expired until now
open_at now _ until = false

abbrev pub claimable : ℕ → Job → Bool
claimable now j = open_at now j.state j.lease_until

abbrev pub least : ℕ → Option ℕ → Option ℕ
least k none = some k
least k (some m) = some (min k m)

-- `SELECT job_id ... ORDER BY job_id LIMIT 1`
unfoldable pub select_first : ℕ → List Job → Option ℕ
select_first now [] = none
select_first now (j ∷ js) =
    let rest = select_first now js in if claimable now j then least j.job_id rest else rest

-- `SET state='leased', lease_until=?, attempts=attempts+1, fence=fence+1`
abbrev pub lease_row : ℕ → Job → Job
lease_row until j = record j {
  state = leased;
  lease_until = some until;
  attempts = j.attempts + 1;
  fence = j.fence + 1;
}

unfoldable pub update_where : (Job → Bool) → (Job → Job) → List Job → List Job
update_where test set [] = []
update_where test set (j ∷ js) = (if test j then set j else j) ∷ update_where test set js

-- The row with a key, as RETURNING and fetchone hand it over.
unfoldable pub row_of : ℕ → List Job → Option Job
row_of k [] = none
row_of k (j ∷ js) = if j.job_id == k then some j else row_of k js

-- The UPDATE of `claim`, once the inner SELECT has chosen a key or none.
unfoldable pub claim_chosen : ℕ → Option ℕ → Conn → Conn × Option Job
unfolding commit update_where row_of
claim_chosen until none c = (commit c, none)
claim_chosen until (some k) c =
    let jobs = update_where (λ j. j.job_id == k) (lease_row until) c.current.jobs in
    (commit (record c { current = record c.current { jobs = jobs } }), row_of k jobs)

unfoldable pub claim : ℕ → ℕ → Conn → Conn × Option Job
unfolding select_first claim_chosen
claim now lease c = claim_chosen (now + lease) (select_first now c.current.jobs) c

-- Whether exactly one row matched `WHERE job_id=? AND fence=?`.
unfoldable pub complete : ℕ → ℕ → Conn → Conn × Bool
unfolding commit update_where
complete job_id fence c =
    let held = λ (j : Job). j.job_id == job_id && j.fence == fence in
    let jobs = update_where held (λ j. record j { state = done }) c.current.jobs in
    (
      commit (record c { current = record c.current { jobs = jobs } }),
      count held c.current.jobs == 1,
    )
