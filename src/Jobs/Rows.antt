-- ===== src/Jobs/Rows.antt =====
-- The row that a claim hands over, and what is known of the rows with its key.
use mastery.Prelude.{
  ℕ, suc, ◌+◌, ◌<◌, ◌≡◌, refl, Option, none, some, List, [], ◌∷◌, All, arith, Bool-cases, ◌==◌, sym,
  ap, subst, inl, inr,
}
use mastery.Jobs.{leased, Job, Conn}
use mastery.Jobs.Queue.{select_first, lease_row, update_where, row_of, claim_chosen, claim}
use mastery.Jobs.Invariants.{
  Event, claimed, step, run, Ascending, Keyed, run-Ascending, All-implies, claimed_keys,
}

pub above :
    (P : Job → Type 0) (lo k : ℕ) (jobs : List Job)
    → k < lo
    → Ascending lo jobs
    → All (λ j. j.job_id ≡ k → P j) jobs
above P lo k [] h o = tt
above P lo k (j ∷ js) h o =
    ((λ e. absurd (omega arith)), above P (suc j.job_id) k js (omega arith) o.1)

-- The row that RETURNING hands over is the only one with its key.
row_of-Keyed :
    (lo k : ℕ) (jobs : List Job) {r : Job}
    → Ascending lo jobs
    → row_of k jobs ≡ some r
    → Keyed (λ j. j ≡ r) k jobs × (r.job_id ≡ k)
unfolding row_of
row_of-Keyed lo k [] o e = cc
row_of-Keyed lo k (j ∷ js) {r} o e = elim (Bool-cases (j.job_id == k)) [
  | inl here ↦ (
    (ground arith, ((λ _. ground arith), above _ (suc j.job_id) k js (ground arith) o.1)),
    ground arith,
  )
  | inr there ↦
      let (rest, own) = row_of-Keyed (suc j.job_id) k js {r = r} o.1 (ground arith) in
      ((omega (arith, rest.0), ((λ e. ground arith), rest.1)), own)
]

row_of-holds :
    (P : Job → Type 0) (k : ℕ) (jobs : List Job) {r : Job}
    → All (λ j. j.job_id ≡ k → P j) jobs
    → row_of k jobs ≡ some r
    → P r
unfolding row_of
row_of-holds P k [] h e = cc
row_of-holds P k (j ∷ js) {r} h e = elim (Bool-cases (j.job_id == k)) [
  | inl here ↦ let same : j ≡ r = ground arith in subst P same (h.0 (ground arith))
  | inr there ↦ row_of-holds P k js h.1 (ground arith)
]

-- An UPDATE of all rows with the key.
update_key :
    (P Q : Job → Type 0) (k : ℕ) (set : Job → Job) (jobs : List Job)
    → ((j : Job) → (set j).job_id ≡ j.job_id)
    → ((j : Job) → P j → Q (set j))
    → All (λ j. j.job_id ≡ k → P j) jobs
    → All (λ j. j.job_id ≡ k → Q j) (update_where (λ j. j.job_id == k) set jobs)
unfolding update_where
update_key P Q k set [] same to h = tt
update_key P Q k set (j ∷ js) same to h = elim (Bool-cases (j.job_id == k)) [
  | inl hit ↦ rw hit ((λ e. to j (h.0 (ground arith))), update_key P Q k set js same to h.1)
  | inr miss ↦ rw miss ((λ e. ground arith), update_key P Q k set js same to h.1)
]

pub All-true {ℓ κ} : {A : Type ℓ} {P : A → Type κ} (xs : List A) → ((x : A) → P x) → All P xs
All-true [] h = tt
All-true (x ∷ xs) h = (h x, All-true xs h)

abbrev pub IsLeased : ℕ → Job → Type 0
IsLeased until j = (j.state ≡ leased) × (j.lease_until ≡ some until)

-- The row that a claim returns is the only one with its key, and is leased until the given time.
pub record Claimed (until : ℕ) (c : Conn) (r : Job) : Type 0 where
  pub only : Keyed (λ j. j ≡ r) r.job_id c.current.jobs
  pub until_is : IsLeased until r

module _ (until k : ℕ) (c : Conn) {r : Job} where
  claim_chosen-Claimed :
      Ascending 1 c.current.jobs
      → (claim_chosen until (some k) c).1 ≡ some r
      → Claimed until (claim_chosen until (some k) c).0 r × (r.job_id ≡ k)
  unfolding claim_chosen
  claim_chosen-Claimed o e =
      let jobs = (claim_chosen until (some k) c).0.current.jobs in
      let (only, own) = row_of-Keyed 1 k jobs (claimed_keys until (some k) c o) e in
      (
        record {
          only = subst (λ n. Keyed (λ j. j ≡ r) n jobs) (sym own) only;
          until_is =
              row_of-holds (IsLeased until) k jobs
                (update_key (λ _. Unit {0}) (IsLeased until) k (lease_row until) c.current.jobs
                  (λ j. refl) (λ j _. (refl, refl))
                  (All-true {P = λ j. j.job_id ≡ k → Unit {0}} c.current.jobs (λ j _. tt)))
                e;
        },
        own,
      )

chosen_row :
    (until : ℕ) (chosen : Option ℕ) (c : Conn) {r : Job}
    → Ascending 1 c.current.jobs
    → (claim_chosen until chosen c).1 ≡ some r
    → Claimed until (claim_chosen until chosen c).0 r × (chosen ≡ some r.job_id)
unfolding claim_chosen
chosen_row until none c o e = cc
chosen_row until (some k) c o e =
    let (got, own) = claim_chosen-Claimed until k c o e in (got, ap some (sym own))

pub claim_row :
    (now lease : ℕ) (c : Conn) {r : Job}
    → Ascending 1 c.current.jobs
    → (claim now lease c).1 ≡ some r
    → Claimed (now + lease) (claim now lease c).0 r
      × (select_first now c.current.jobs ≡ some r.job_id)
unfolding claim
claim_row now lease c o e = chosen_row (now + lease) (select_first now c.current.jobs) c o e

pub Claimed-Keyed :
    (P : Job → Type 0) (until : ℕ) (c : Conn) {r : Job}
    → Claimed until c r
    → P r
    → Keyed P r.job_id c.current.jobs
Claimed-Keyed P until c h p =
    (h.only.0, All-implies c.current.jobs (λ j same own. subst P (sym (same own)) p) h.only.1)

-- What holds of the rows with a key before a claim of it, and so of the row returned.
pub carried :
    (P Q : Job → Type 0) (until : ℕ) (chosen : Option ℕ) (c : Conn) {r : Job}
    → (claim_chosen until chosen c).1 ≡ some r
    → chosen ≡ some r.job_id
    → ((j : Job) → P j → Q (lease_row until j))
    → Keyed P r.job_id c.current.jobs
    → Q r
unfolding claim_chosen
carried P Q until none c e own to h = cc
carried P Q until (some k) c {r} e own to h =
    let same : r.job_id ≡ k = cc in
    row_of-holds Q k (claim_chosen until (some k) c).0.current.jobs
      (update_key P Q k (lease_row until) c.current.jobs (λ j. refl) to
        (subst (λ n. All (λ j. j.job_id ≡ n → P j) c.current.jobs) same h.1))
      e

pub Ascending-claimed :
    (now lease : ℕ) (es : List Event) (c : Conn)
    → Ascending 1 c.current.jobs
    → Ascending 1 (run (claim now lease c).0 es).current.jobs
unfolding run step
Ascending-claimed now lease es c o = run-Ascending (claimed now lease ∷ es) c o
