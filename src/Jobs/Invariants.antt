-- ===== src/Jobs/Invariants.antt =====
-- What every sequence of queue operations keeps of the rows with one key.
use mastery.Prelude.{
  ℕ, suc, ◌+◌, ◌≤◌, ◌<◌, ◌≡◌, refl, Bool, true, false, String, Option, none, some, List, [], ◌∷◌,
  ◌++◌, All, All-append, arith, Bool-cases, ◌≢◌, ◌⊎◌, ◌∙◌, sym, inl, inr,
}
use mastery.Jobs.{done, Job, Conn, next_id}
use mastery.Jobs.Queue.{
  enqueue, claimable, select_first, lease_row, update_where, claim_chosen, claim, complete,
}

-- One operation of one of the workers; SQLite serialises them.
pub data Event : Type 0 where
  enqueued : ℕ → String → Option String → Event
  claimed : ℕ → ℕ → Event
  completed : ℕ → ℕ → Event

unfoldable pub step : Conn → Event → Conn
step c (enqueued now doc payload) = enqueue now doc payload c
step c (claimed now lease) = (claim now lease c).0
step c (completed k fence) = (complete k fence c).0

unfoldable pub run : Conn → List Event → Conn
run c [] = c
run c (e ∷ es) = run (step c e) es

-- The keys go up, from `lo` on.
abbrev pub Ascending : ℕ → List Job → Type 0
Ascending lo [] = Unit
Ascending lo (j ∷ js) = (lo ≤ j.job_id) × Ascending (suc j.job_id) js

-- The key `k` has been given out, and each row that has it satisfies `P`.
abbrev pub Keyed : (Job → Type 0) → ℕ → List Job → Type 0
Keyed P k jobs = (k < next_id jobs) × All (λ j. j.job_id ≡ k → P j) jobs

update-Ascending :
    (test : Job → Bool) (set : Job → Job) (lo : ℕ) (jobs : List Job)
    → ((j : Job) → (set j).job_id ≡ j.job_id)
    → Ascending lo jobs
    → Ascending lo (update_where test set jobs)
unfolding update_where
update-Ascending test set lo [] same h = tt
update-Ascending test set lo (j ∷ js) same h =
    ground (arith, same j, update-Ascending test set (suc j.job_id) js same h.1)

append-Ascending :
    (lo m : ℕ) (jobs : List Job) (row : Job)
    → Ascending lo jobs
    → lo ≤ m
    → next_id jobs ≤ m
    → row.job_id ≡ m
    → Ascending lo (jobs ++ (row ∷ []))
append-Ascending lo m [] row h l n e = (omega arith, tt)
append-Ascending lo m (j ∷ js) row h l n e =
    (h.0, append-Ascending (suc j.job_id) m js row h.1 (omega arith) (omega arith) e)

next_id-update :
    (test : Job → Bool) (set : Job → Job) (jobs : List Job)
    → ((j : Job) → (set j).job_id ≡ j.job_id)
    → next_id (update_where test set jobs) ≡ next_id jobs
unfolding update_where
next_id-update test set [] same = refl
next_id-update test set (j ∷ js) same = ground (arith, same j, next_id-update test set js same)

next_id-append : (jobs : List Job) (row : Job) → next_id jobs ≤ next_id (jobs ++ (row ∷ []))
next_id-append [] row = omega arith
next_id-append (j ∷ js) row = omega (arith, next_id-append js row)

module _ (P : Job → Type 0) (k : ℕ) where
  update-Keyed :
      (test : Job → Bool) (set : Job → Job) (jobs : List Job)
      → ((j : Job) → (set j).job_id ≡ j.job_id)
      → ((j : Job) → j.job_id ≡ k → test j ≡ true → P j → P (set j))
      → All (λ j. j.job_id ≡ k → P j) jobs
      → All (λ j. j.job_id ≡ k → P j) (update_where test set jobs)
  unfolding update_where
  update-Keyed test set [] same kept h = tt
  update-Keyed test set (j ∷ js) same kept h = elim (Bool-cases (test j)) [
    | inl hit ↦ rw hit (
      (λ e. let own = sym (same j) ∙ e in kept j own hit (h.0 own)),
      update-Keyed test set js same kept h.1,
    )
    | inr miss ↦ rw miss (h.0, update-Keyed test set js same kept h.1)
  ]

-- The inner SELECT of `claim` chooses no key all of whose rows are taken.
pub select_first-ne :
    (now k : ℕ) (jobs : List Job)
    → All (λ j. j.job_id ≡ k → claimable now j ≡ false) jobs
    → select_first now jobs ≢ some k
unfolding select_first
select_first-ne now k [] h e = cc
select_first-ne now k (j ∷ js) h e = ground (arith, h.0, select_first-ne now k js h.1)

pub All-implies {ℓ κ μ} :
    {A : Type ℓ} {P : A → Type κ} {Q : A → Type μ} (xs : List A)
    → ((x : A) → P x → Q x)
    → All P xs
    → All Q xs
All-implies [] f h = tt
All-implies (x ∷ xs) f h = (f x h.0, All-implies xs f h.1)

-- When an operation keeps `P` of the rows with the key `k`: a claim keeps `P` of each row, or finds
-- none of the rows with `P` claimable, and a completion of that key keeps `P`.
abbrev pub Allows : (Job → Type 0) → ℕ → Event → Type 0
Allows P k (enqueued now doc payload) = Unit
Allows P k (claimed now lease) =
    ((j : Job) → P j → P (lease_row (now + lease) j)) ⊎ ((j : Job) → P j → claimable now j ≡ false)
Allows P k (completed m f) = (j : Job) → m ≡ k → j.fence ≡ f → P j → P (record j { state = done })

module _ (P : Job → Type 0) (k : ℕ) where
  enqueue-Keyed :
      (now : ℕ) (doc : String) (payload : Option String) (c : Conn)
      → Keyed P k c.current.jobs
      → Keyed P k (enqueue now doc payload c).current.jobs
  unfolding enqueue
  enqueue-Keyed now doc payload c h = (
    omega (arith, h.0, next_id-append c.current.jobs _),
    All-append (λ (j : Job). j.job_id ≡ k → P j) c.current.jobs _ h.1
        ((λ e. absurd (omega (arith, h.0, e))), tt),
  )

  complete-Keyed :
      (m f : ℕ) (c : Conn)
      → ((j : Job) → m ≡ k → j.fence ≡ f → P j → P (record j { state = done }))
      → Keyed P k c.current.jobs
      → Keyed P k (complete m f c).0.current.jobs
  unfolding complete
  complete-Keyed m f c kept h = (
    rw (next_id-update _ (λ j. record j { state = done }) c.current.jobs (λ j. refl)) h.0,
    update-Keyed P k _ _ c.current.jobs (λ j. refl)
        (λ j own hit. kept j (ground arith) (ground arith)) h.1,
  )

  claim_chosen-Keyed :
      (until : ℕ) (chosen : Option ℕ) (c : Conn)
      → ((j : Job) → P j → P (lease_row until j)) ⊎ (chosen ≢ some k)
      → Keyed P k c.current.jobs
      → Keyed P k (claim_chosen until chosen c).0.current.jobs
  unfolding claim_chosen
  claim_chosen-Keyed until none c kept h = h
  claim_chosen-Keyed until (some m) c kept h = (
    rw (next_id-update _ (lease_row until) c.current.jobs (λ j. refl)) h.0,
    update-Keyed P k _ _ c.current.jobs (λ j. refl)
        (λ j own hit p. elim kept [ inl keeps ↦ keeps j p | inr other ↦ absurd (ground arith) ])
        h.1,
  )

  step-Keyed :
      (e : Event) (c : Conn)
      → Allows P k e
      → Keyed P k c.current.jobs
      → Keyed P k (step c e).current.jobs
  unfolding step claim
  step-Keyed (enqueued now doc payload) c a h = enqueue-Keyed now doc payload c h
  step-Keyed (completed m f) c a h = complete-Keyed m f c a h
  step-Keyed (claimed now lease) c (inl keeps) h =
      claim_chosen-Keyed (now + lease) _ c (inl keeps) h
  step-Keyed (claimed now lease) c (inr busy) h =
      claim_chosen-Keyed (now + lease) (select_first now c.current.jobs) c
        (inr (
          select_first-ne now k c.current.jobs
            (All-implies c.current.jobs (λ j p own. busy j (p own)) h.1)))
        h

  -- A property of the rows with one key that each operation keeps holds after all of them.
  pub run-Keyed :
      (es : List Event) (c : Conn)
      → All (Allows P k) es
      → Keyed P k c.current.jobs
      → Keyed P k (run c es).current.jobs
  unfolding run
  run-Keyed [] c a h = h
  run-Keyed (e ∷ es) c a h = run-Keyed es (step c e) a.1 (step-Keyed e c a.0 h)

-- The keys of the queue go up, whatever is done to it.
next_id-pos : (jobs : List Job) → 1 ≤ next_id jobs
next_id-pos [] = omega arith
next_id-pos (j ∷ js) = omega (arith, next_id-pos js)

pub claimed_keys :
    (until : ℕ) (chosen : Option ℕ) (c : Conn)
    → Ascending 1 c.current.jobs
    → Ascending 1 (claim_chosen until chosen c).0.current.jobs
unfolding claim_chosen
claimed_keys until none c h = h
claimed_keys until (some k) c h = update-Ascending _ _ 1 c.current.jobs (λ j. refl) h

step-Ascending :
    (e : Event) (c : Conn) → Ascending 1 c.current.jobs → Ascending 1 (step c e).current.jobs
unfolding step enqueue complete claim
step-Ascending (enqueued now doc payload) c h =
    append-Ascending 1 (next_id c.current.jobs) c.current.jobs _ h (next_id-pos c.current.jobs)
      (omega arith) refl
step-Ascending (completed m f) c h = update-Ascending _ _ 1 c.current.jobs (λ j. refl) h
step-Ascending (claimed now lease) c h =
    claimed_keys (now + lease) (select_first now c.current.jobs) c h

pub run-Ascending :
    (es : List Event) (c : Conn) → Ascending 1 c.current.jobs → Ascending 1 (run c es).current.jobs
unfolding run
run-Ascending [] c h = h
run-Ascending (e ∷ es) c h = run-Ascending es (step c e) (step-Ascending e c h)
