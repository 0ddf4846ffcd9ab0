-- ===== src/Jobs/Fencing.antt =====
-- The fencing number of modules/service-lab/jobs_lab.py, and what becomes of a finished job.
use mastery.Prelude.{
  ℕ, suc, ◌+◌, ◌≤◌, ◌<◌, ◌≡◌, refl, false, some, List, [], ◌∷◌, All, arith, count, ◌==◌, sym, subst,
  inl, ◌&&◌,
}
use mastery.Jobs.{done, Job, Conn}
use mastery.Jobs.Queue.{select_first, update_where, claim, complete}
use mastery.Jobs.Invariants.{
  Event, enqueued, claimed, completed, run, Ascending, Keyed, Allows, run-Keyed,
}
use mastery.Jobs.Rows.{Claimed-Keyed, claim_row, carried, Ascending-claimed, All-true}

abbrev FenceFrom : ℕ → Job → Type 0
FenceFrom f j = f ≤ j.fence

FenceFrom-allowed : (f k : ℕ) (e : Event) → Allows (FenceFrom f) k e
FenceFrom-allowed f k (enqueued now doc payload) = tt
FenceFrom-allowed f k (claimed now lease) = inl (λ j h. omega arith)
FenceFrom-allowed f k (completed m g) = λ j _ _ h. h

claimed_fence :
    (f now lease : ℕ) (c : Conn) {r : Job}
    → (claim now lease c).1 ≡ some r
    → select_first now c.current.jobs ≡ some r.job_id
    → Keyed (FenceFrom f) r.job_id c.current.jobs
    → f < r.fence
unfolding claim
claimed_fence f now lease c e own h =
    carried (FenceFrom f) (FenceFrom (suc f)) (now + lease) (select_first now c.current.jobs) c e
      own (λ j p. omega arith) h

stale_rows :
    (k f : ℕ) (jobs : List Job)
    → All (λ j. j.job_id ≡ k → FenceFrom (suc f) j) jobs
    → (count (λ j. j.job_id == k && j.fence == f) jobs ≡ 0)
      × (update_where (λ j. j.job_id == k && j.fence == f) (λ j. record j { state = done }) jobs
          ≡ jobs)
unfolding update_where
stale_rows k f [] h = (refl, refl)
stale_rows k f (j ∷ js) h = ground (arith, h.0, stale_rows k f js h.1)

complete_stale :
    (k f : ℕ) (c : Conn)
    → Keyed (FenceFrom (suc f)) k c.current.jobs
    → ((complete k f c).1 ≡ false) × ((complete k f c).0.current ≡ c.current)
unfolding complete
complete_stale k f c h =
    let (none_match, same) = stale_rows k f c.current.jobs h.1 in (rw none_match, rw same)

-- Claims that hand out the same job carry growing fencing numbers, and from then on, whatever
-- happens, completing the job with the older number changes nothing and reports failure.
pub fenced :
    (now lease : ℕ) (c : Conn) (es : List Event) (later again : ℕ) (es2 : List Event) {r s : Job}
    → Ascending 1 c.current.jobs
    → (claim now lease c).1 ≡ some r
    → (claim later again (run (claim now lease c).0 es)).1 ≡ some s
    → s.job_id ≡ r.job_id
    → let c2 = run (claim later again (run (claim now lease c).0 es)).0 es2 in
      (r.fence < s.fence)
      × ((complete r.job_id r.fence c2).1 ≡ false)
      × ((complete r.job_id r.fence c2).0.current ≡ c2.current)
fenced now lease c es later again es2 {r} {s} o e e2 same =
    let c1 = (claim now lease c).0 in
    let c2 = (claim later again (run c1 es)).0 in
    let one = (claim_row now lease c o e).0 in
    let two = claim_row later again (run c1 es) (Ascending-claimed now lease es c o) e2 in
    let old = Claimed-Keyed (FenceFrom r.fence) (now + lease) c1 one (omega arith) in
    let kept =
      run-Keyed (FenceFrom r.fence) r.job_id es c1
        (All-true es (FenceFrom-allowed r.fence r.job_id)) old in
    let newer =
      claimed_fence r.fence later again (run c1 es) e2 two.1
        (subst (λ n. Keyed (FenceFrom r.fence) n (run c1 es).current.jobs) (sym same) kept) in
    let last = Claimed-Keyed (FenceFrom (suc r.fence)) (later + again) c2 two.0 newer in
    let stays =
      run-Keyed (FenceFrom (suc r.fence)) s.job_id es2 c2
        (All-true es2 (FenceFrom-allowed (suc r.fence) s.job_id)) last in
    let at_job =
      subst (λ n. Keyed (FenceFrom (suc r.fence)) n (run c2 es2).current.jobs) same stays in
    let (refused, unchanged) = complete_stale r.job_id r.fence (run c2 es2) at_job in
    (newer, refused, unchanged)
