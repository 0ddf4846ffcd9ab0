-- ===== src/Jobs/Leases.antt =====
-- A lease of modules/service-lab/jobs_lab.py is exclusive until it runs out.
use mastery.Prelude.{
  ℕ, ◌+◌, ◌≤◌, ◌≡◌, refl, false, some, List, All, arith, ◌≢◌, ◌⊎◌, ◌∙◌, ap, inl, inr,
}
use mastery.Jobs.{done, Job, Conn}
use mastery.Jobs.Queue.{claimable, claim}
use mastery.Jobs.Invariants.{
  Event, enqueued, claimed, completed, run, Ascending, Allows, run-Keyed, select_first-ne,
  All-implies,
}
use mastery.Jobs.Rows.{IsLeased, Claimed-Keyed, claim_row, Ascending-claimed}

-- No other operation gives a leased row to somebody else before its lease runs out.
abbrev Taken : ℕ → Job → Type 0
Taken until j = IsLeased until j ⊎ (j.state ≡ done)

-- The clocks read by the claims among the operations are not past `until`.
abbrev pub ClaimsBy : ℕ → Event → Type 0
ClaimsBy until (claimed now lease) = now ≤ until
ClaimsBy until _ = Unit

Taken-busy : (until now : ℕ) (j : Job) → now ≤ until → Taken until j → claimable now j ≡ false
Taken-busy until now j h (inl l) = ground arith
Taken-busy until now j h (inr d) = ground arith

Taken-allowed : (until k : ℕ) (e : Event) → ClaimsBy until e → Allows (Taken until) k e
Taken-allowed until k (enqueued now doc payload) h = tt
Taken-allowed until k (claimed now lease) h = inr (λ j t. Taken-busy until now j h t)
Taken-allowed until k (completed m f) h = λ j _ _ _. inr refl

-- After a claim at `now` for `lease`, and any operations whose claims read a clock of at most
-- now + lease, a claim at such a time returns another job or none: a lease is exclusive.
pub exclusive :
    (now lease : ℕ) (c : Conn) (es : List Event) (later again : ℕ) {r s : Job}
    → Ascending 1 c.current.jobs
    → (claim now lease c).1 ≡ some r
    → All (ClaimsBy (now + lease)) es
    → later ≤ now + lease
    → (claim later again (run (claim now lease c).0 es)).1 ≡ some s
    → s.job_id ≢ r.job_id
exclusive now lease c es later again {r} {s} o e by h e2 same =
    let c1 = (claim now lease c).0 in
    let until = now + lease in
    let one = (claim_row now lease c o e).0 in
    let held = Claimed-Keyed (Taken until) until c1 one (inl one.until_is) in
    let kept =
      run-Keyed (Taken until) r.job_id es c1
        (All-implies es (λ x b. Taken-allowed until r.job_id x b) by) held in
    select_first-ne later r.job_id (run c1 es).current.jobs
      (All-implies (run c1 es).current.jobs (λ j p own. Taken-busy until later j h (p own)) kept.1)
      ((claim_row later again (run c1 es) (Ascending-claimed now lease es c o) e2).1 ∙ ap some same)
