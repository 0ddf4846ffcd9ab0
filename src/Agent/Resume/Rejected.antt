-- ===== src/Agent/Resume/Rejected.antt =====
-- A rejected document, run again.
use mastery.Prelude.{◌≡◌, String, true, ◌≢◌, Option, none, List, [], ◌∷◌, arith, ap, sym, ◌∙◌}
use mastery.Prelude.Dict.{put}
use mastery.Agent.{insert}
use mastery.Agent.Steps.{World, violations}
use mastery.Agent.Resume.{
  all_steps, State, start, load, stored, rejected, Durable, steps_from, run, classify_step,
  retrieve_step, extract_step, validate_step,
}
use mastery.Agent.Resume.Restart.{load-put, run_from}

module _ {R : Type 0} (w : World R) (doc_id key : String) where
  abbrev checked : Option R → List String → State R
  checked r vs = record {
    found = r;
    violated = vs;
    finished = classify_step ∷ retrieve_step ∷ extract_step ∷ validate_step ∷ [];
  }

  abbrev third : Option R → State R
  third r = record {
    found = r;
    violated = [];
    finished = classify_step ∷ retrieve_step ∷ extract_step ∷ [];
  }

  -- What a rejection leaves.
  left_behind :
      (d : Durable R)
      → (steps_from w doc_id key none all_steps start d).0 ≡ rejected
      → let e = (steps_from w doc_id key none all_steps start d).2 in
        let r = (w.answer doc_id).0 in
        (saved : List (String × State R)) × (violations w r ≢ [])
        × (e.saved ≡ put key (checked r (violations w r)) saved)
        × (e.shared.rows ≡ d.shared.rows)
  unfolding steps_from
  left_behind d x = (
    put key (third (w.answer doc_id).0) (
        put key (record start { finished = classify_step ∷ retrieve_step ∷ [] })
          (put key (record start { finished = classify_step ∷ [] }) d.saved)),
    ground arith,
    ground arith,
    ground arith,
  )

  -- Only `store` is left to do, so it is what the run does.
  store_only :
      (r : Option R) (vs : List String) (e : Durable R)
      → let f = steps_from w doc_id key none all_steps (checked r vs) e in
        (f.0 ≡ stored) × (f.2.shared.rows ≡ (insert key r e.shared.rows).0)
  unfolding steps_from
  store_only r vs e = ground arith

  -- A document whose checkpoint has no step done and whose run ends "rejected" leaves the rows as
  -- they were; but the run that is started again on what it leaves ends "stored", and inserts the
  -- very record, that has violations.
  pub rejected_and_restarted :
      (d : Durable R)
      → load key d.saved ≡ start
      → (run w doc_id key none true d).0 ≡ rejected
      → let first = run w doc_id key none true d in
        let second = run w doc_id key none true first.2 in
        let r = (w.answer doc_id).0 in
        (violations w r ≢ [])
        × (first.2.shared.rows ≡ d.shared.rows)
        × (second.0 ≡ stored)
        × (second.2.shared.rows ≡ (insert key r d.shared.rows).0)
  rejected_and_restarted d fresh x =
      let r = (w.answer doc_id).0 in
      let first = run_from w doc_id key none d start fresh in
      let left = left_behind d (sym (ap (λ r. r.0) first) ∙ x) in
      let e = (steps_from w doc_id key none all_steps start d).2 in
      let loads = ap (load key) left.2 ∙ load-put key (checked r (violations w r)) left.0 in
      let second =
        ap (λ y. run w doc_id key none true y) (ap (λ r. r.2) first)
        ∙ run_from w doc_id key none e (checked r (violations w r)) loads in
      let stores = store_only r (violations w r) e in
      (
        left.1,
        ap (λ r. r.2.shared.rows) first ∙ left.3,
        ap (λ r. r.0) second ∙ stores.0,
        ap (λ r. r.2.shared.rows) second ∙ stores.1 ∙ ap (λ rows. (insert key r rows).0) left.3,
      )
