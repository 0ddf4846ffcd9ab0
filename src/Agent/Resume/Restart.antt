-- ===== src/Agent/Resume/Restart.antt =====
-- A run that is killed before any one of its steps and started again ends as if it had not been.
use mastery.Prelude.{
  ◌≡◌, refl, String, true, false, Option, none, some, List, [], ◌∷◌, ◌++◌, arith, ap, subst, sym,
  ◌∙◌, Bool-cases, inl, inr,
}
use mastery.Prelude.Dict.{put, lookup-put_self, put-put}
use mastery.Agent.{Event}
use mastery.Agent.Steps.{World, Shared, Result, ok, halted}
use mastery.Agent.Resume.{
  Step, classify_step, retrieve_step, extract_step, validate_step, store_step, all_steps, same_step,
  State, start, is_done, is_killed, load, Outcome, stored, killed, Durable, save, mark, perform,
  rejects, conclude, steps_from, run,
}
use mastery.Agent.Resume.Done.{
  is_done-append, same_step_self, same_step_lem, found_later, Distinct, Pending, Pending-mark,
}

pub load-put :
    {R : Type 0} (key : String) (st : State R) (saved : List (String × State R))
    → load key (put key st saved) ≡ st
unfolding load
load-put key st saved = ground (arith, lookup-put_self key st saved)

module _ {R : Type 0} (w : World R) (doc_id key : String) where
  -- How the run that is killed ends, and the one that starts again from its checkpoint.
  record Restarts (k : Step) (names : List Step) (st : State R) (d : Durable R) : Type 0 where
    left : State R
    at : Durable R
    dies : (steps_from w doc_id key (some k) names st d).0 ≡ killed
    leaves : (steps_from w doc_id key (some k) names st d).2 ≡ at
    loads : load key at.saved ≡ left
    keeps : (n : Step) → is_done n st.finished ≡ true → is_done n left.finished ≡ true
    ends : (steps_from w doc_id key none names left at).0 ≡ stored
    same :
        (steps_from w doc_id key none names left at).2 ≡ (steps_from w doc_id key none names st d).2

  -- Saving the state that is at hand once more changes nothing that comes after.
  conclude_saved :
      (again : State R → Durable R → Outcome × List Event × Durable R) (name : Step) (st : State R)
      (saved : List (String × State R)) (r : Result (State R) × List Event × Shared R)
      → conclude w doc_id key again name st (put key st saved) r
        ≡ conclude w doc_id key again name st saved r
  unfolding save
  conclude_saved again name st saved (ok st', es, sh) = rw (put-put key st (mark name st') saved)
  conclude_saved again name st saved (halted x, es, sh) = rw (put-put key st st saved)

  -- A step that is not done yet, in a run that nobody kills, and in one that is killed elsewhere.
  one_step :
      (kill_at : Option Step) (n : Step) (rest : List Step) (st : State R) (d : Durable R)
      → is_done n st.finished ≡ false
      → is_killed kill_at n ≡ false
      → steps_from w doc_id key kill_at (n ∷ rest) st d
        ≡ conclude w doc_id key
            (steps_from w doc_id key kill_at rest)
            n
            st
            d.saved
            (perform w doc_id key n st d.shared)
  unfolding steps_from
  one_step kill_at n rest st d p k = rw (p, k)

  skip_step :
      (kill_at : Option Step) (n : Step) (rest : List Step) (st : State R) (d : Durable R)
      → is_done n st.finished ≡ true
      → ((steps_from w doc_id key kill_at (n ∷ rest) st d).0
          ≡ (steps_from w doc_id key kill_at rest st d).0)
        × ((steps_from w doc_id key kill_at (n ∷ rest) st d).2
            ≡ (steps_from w doc_id key kill_at rest st d).2)
  unfolding steps_from
  skip_step kill_at n rest st d p = (rw p, rw p)

  killed_here :
      (k : Step) (rest : List Step) (st : State R) (d : Durable R)
      → is_done k st.finished ≡ false
      → (steps_from w doc_id key none (k ∷ rest) st d).0 ≡ stored
      → Restarts k (k ∷ rest) st d
  unfolding steps_from save
  killed_here k rest st d p e =
      let at : Durable R = save key st d.shared d.saved in
      let again =
        one_step none k rest st at p refl
        ∙ conclude_saved (steps_from w doc_id key none rest) k st d.saved
            (perform w doc_id key k st d.shared)
        ∙ sym (one_step none k rest st d p refl) in
      record {
        left = st;
        at = at;
        dies = ground arith;
        leaves = ground arith;
        loads = load-put key st d.saved;
        keeps = λ n h. h;
        ends = ap (λ r. r.0) again ∙ e;
        same = ap (λ r. r.2) again;
      }

  is_done-mark :
      (m n : Step) (st st' : State R)
      → st'.finished ≡ st.finished
      → is_done m st.finished ≡ true
      → is_done m (mark n st').finished ≡ true
  is_done-mark m n st st' same h = ground (arith, is_done-append m st'.finished (n ∷ []), same, h)

  is_done-mark_self : (n : Step) (st' : State R) → is_done n (mark n st').finished ≡ true
  is_done-mark_self n st' = ground (arith, is_done-append n st'.finished (n ∷ []), same_step_self n)

  perform-finished :
      (n : Step) (st st' : State R) (s sh : Shared R) (es : List Event)
      → perform w doc_id key n st s ≡ (ok st', es, sh)
      → st'.finished ≡ st.finished
  unfolding perform
  perform-finished classify_step st st' s sh es e = ground arith
  perform-finished retrieve_step st st' s sh es e = ground arith
  perform-finished extract_step st st' s sh es e = ground arith
  perform-finished validate_step st st' s sh es e = ground arith
  perform-finished store_step st st' s sh es e = ground arith

  performed_step :
      (kill_at : Option Step) (n : Step) (rest : List Step) (st st' : State R) (d : Durable R)
      (es : List Event) (sh : Shared R)
      → perform w doc_id key n st d.shared ≡ (ok st', es, sh)
      → is_done n st.finished ≡ false
      → is_killed kill_at n ≡ false
      → rejects w doc_id key n st' ≡ false
      → ((steps_from w doc_id key kill_at (n ∷ rest) st d).0
          ≡ (steps_from w doc_id key kill_at rest
              (mark n st')
              (save key (mark n st') sh d.saved)).0)
        × ((steps_from w doc_id key kill_at (n ∷ rest) st d).2
            ≡ (steps_from w doc_id key kill_at rest
                (mark n st')
                (save key (mark n st') sh d.saved)).2)
  unfolding steps_from
  performed_step kill_at n rest st st' d es sh performed p k j =
      (rw (p, k, performed, j), rw (p, k, performed, j))

  -- The step before is done in both runs, and the kill comes later.
  killed_later :
      (k n : Step) (rest : List Step) (st st' : State R) (d : Durable R) (es : List Event)
      (sh : Shared R)
      → perform w doc_id key n st d.shared ≡ (ok st', es, sh)
      → is_done n st.finished ≡ false
      → same_step k n ≡ false
      → rejects w doc_id key n st' ≡ false
      → Restarts k rest (mark n st') (save key (mark n st') sh d.saved)
      → Restarts k (n ∷ rest) st d
  killed_later k n rest st st' d es sh performed p other j ih =
      let same = perform-finished n st st' d.shared sh es performed in
      let dying = performed_step (some k) n rest st st' d es sh performed p other j in
      let whole = performed_step none n rest st st' d es sh performed p refl j in
      let again = skip_step none n rest ih.left ih.at (ih.keeps n (is_done-mark_self n st')) in
      record {
        left = ih.left;
        at = ih.at;
        dies = dying.0 ∙ ih.dies;
        leaves = dying.1 ∙ ih.leaves;
        loads = ih.loads;
        keeps = λ m h. ih.keeps m (is_done-mark m n st st' same h);
        ends = again.0 ∙ ih.ends;
        same = again.1 ∙ ih.same ∙ sym whole.1;
      }

  goes_on :
      (k n : Step) (rest : List Step) (st : State R) (d : Durable R)
      (r : Result (State R) × List Event × Shared R)
      → perform w doc_id key n st d.shared ≡ r
      → is_done n st.finished ≡ false
      → same_step k n ≡ false
      → (conclude w doc_id key (steps_from w doc_id key none rest) n st d.saved r).0 ≡ stored
      → ((st' : State R) (e : Durable R)
          → st'.finished ≡ st.finished
          → (steps_from w doc_id key none rest (mark n st') e).0 ≡ stored
          → Restarts k rest (mark n st') e)
      → Restarts k (n ∷ rest) st d
  goes_on k n rest st d (halted x, es, sh) performed p other e later = cc
  goes_on k n rest st d (ok st', es, sh) performed p other e later =
      elim (Bool-cases (rejects w doc_id key n st')) [
        | inl j ↦ ground arith
        | inr j ↦ killed_later k n rest st st' d es sh performed p other j (
            later st' (save key (mark n st') sh d.saved)
              (perform-finished n st st' d.shared sh es performed) (ground arith))
      ]

  killed_first :
      (k n : Step) (rest : List Step) (st : State R) (d : Durable R)
      → k ≡ n
      → is_done n st.finished ≡ false
      → (steps_from w doc_id key none (n ∷ rest) st d).0 ≡ stored
      → Restarts k (n ∷ rest) st d
  killed_first k n rest st d same =
      subst
        (λ x.
          is_done x st.finished ≡ false
          → (steps_from w doc_id key none (x ∷ rest) st d).0 ≡ stored
          → Restarts k (x ∷ rest) st d)
        same (killed_here k rest st d)

  restarts :
      (k : Step) (names : List Step) (st : State R) (d : Durable R)
      → Distinct names
      → Pending st.finished names
      → is_done k names ≡ true
      → (steps_from w doc_id key none names st d).0 ≡ stored
      → Restarts k names st d
  restarts k [] st d u p m e = cc
  restarts k (n ∷ rest) st d u p m e = elim (Bool-cases (same_step k n)) [
    | inl j ↦ killed_first k n rest st d (same_step_lem k n j) p.0 e
    | inr j ↦
        goes_on k n rest st d (perform w doc_id key n st d.shared) refl p.0 j
          (sym (ap (λ r. r.0) (one_step none n rest st d p.0 refl)) ∙ e)
          (λ st' f same h.
            restarts k rest (mark n st') f u.1
              (subst (λ x. Pending (x ++ (n ∷ [])) rest) (sym same)
                (Pending-mark n st.finished rest u.0 p.1))
              (found_later k n rest j m) h)
  ]

  all_Distinct : Distinct all_steps
  all_Distinct = ground arith

  all_steps-all : (k : Step) → is_done k all_steps ≡ true
  all_steps-all classify_step = refl
  all_steps-all retrieve_step = refl
  all_steps-all extract_step = refl
  all_steps-all validate_step = refl
  all_steps-all store_step = refl

  pub run_from :
      (kill_at : Option Step) (d : Durable R) (st : State R)
      → load key d.saved ≡ st
      → run w doc_id key kill_at true d ≡ steps_from w doc_id key kill_at all_steps st d
  unfolding run
  run_from kill_at d st h = ap (λ x. steps_from w doc_id key kill_at all_steps x d) h

  -- A document whose checkpoint has no step done and whose run would end "stored" may be killed
  -- before any one of the five steps: the run ends "killed", and the run that is started on what it
  -- leaves ends "stored", with the same rows, the same budget and the same checkpoints as the run
  -- that nobody kills. The model's answers and the readings of the clock depend on the document and
  -- on the calls made alone, so they are the same for both.
  pub killed_and_restarted :
      (k : Step) (d : Durable R)
      → load key d.saved ≡ start
      → (run w doc_id key none true d).0 ≡ stored
      → let first = run w doc_id key (some k) true d in
        let second = run w doc_id key none true first.2 in
        (first.0 ≡ killed) × (second.0 ≡ stored) × (second.2 ≡ (run w doc_id key none true d).2)
  killed_and_restarted k d fresh e =
      let r =
        restarts k all_steps start d all_Distinct (refl, (refl, (refl, (refl, (refl, tt)))))
          (all_steps-all k) (sym (ap (λ r. r.0) (run_from none d start fresh)) ∙ e) in
      let first = run_from (some k) d start fresh in
      let left = ap (λ r. r.2) first ∙ r.leaves in
      let second =
        ap (λ x. run w doc_id key none true x) left ∙ run_from none r.at r.left r.loads in
      (
        ap (λ r. r.0) first ∙ r.dies,
        ap (λ r. r.0) second ∙ r.ends,
        ap (λ r. r.2) second ∙ r.same ∙ sym (ap (λ r. r.2) (run_from none d start fresh)),
      )
