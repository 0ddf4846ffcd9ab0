-- ===== src/Idempotency/AtMostOnce.antt =====
-- However the requests take turns, a key is worked on once.
use mastery.Prelude.{
  ℕ, zero, suc, ◌+◌, ◌≤◌, ◌≡◌, ◌≢◌, refl, String, Bool, true, Option, none, some, List, [], ◌∷◌,
  arith, ap, subst, sym, if◌then◌else◌, All,
}
use mastery.Idempotency.{
  Config, unique, Inflight, again, conflict, wait, Db, IdemRow, in_progress, EventRow, Reply,
  Request, Phase, at_start, at_work_only, at_work, at_checked_work, at_existing, at_mark,
  at_replace, finished, row_of, claim_key, poll, existing_step, work_then, mark_step, start_step,
  lookup_step, advance, work, work_with, next_event, insert_event, twin_of, kept, step, turn, serve,
}
use mastery.Idempotency.Keys.{
  is_under, made, made-append, held, row_of-append, row_of-mark_done, weight_at, weight,
  is_proper_phase, has_key, IsProper, arrive, held-le,
}

module _ (extract : String → Option String) (c : Config) where
  insert-made :
      (k : String) (twin : Option EventRow) (doc_id sha : String) (key : Option String) (db : Db)
      → made k (insert_event twin doc_id sha key db).0.events
        ≤ made k db.events + (if is_under k key then 1 else 0)
  insert-made k (some e) doc_id sha key db = omega arith
  insert-made k none doc_id sha key db = omega (
    arith,
    made-append k db.events (record {
      event_id = next_event db.events;
      doc_id = doc_id;
      content_sha = sha;
      request_id = key;
    }),
  )

  work-made :
      (k doc_id : String) (key : Option String) (db : Db)
      → made k (work extract c doc_id key db).0.events
        ≤ made k db.events + (if is_under k key then 1 else 0)
  unfolding work
  work-made k doc_id key db = work_with_made (extract doc_id)
    where
      work_with_made :
          (sha : Option String)
          → made k (work_with extract c sha doc_id key db).0.events
            ≤ made k db.events + (if is_under k key then 1 else 0)
      work_with_made none = omega arith
      work_with_made (some sha) =
          insert-made k (if c.natural_key then twin_of doc_id sha db.events else none) doc_id sha
            key db

  work-idem :
      (doc_id : String) (key : Option String) (db : Db)
      → (work extract c doc_id key db).0.idem ≡ db.idem
  unfolding work
  work-idem doc_id key db = ground arith

  -- What a step adds to the events and the work under a key, it adds to the claims.
  abbrev Delta : String → Phase → Request → Db → Db × Request → Type 0
  Delta k p r db q =
      (made k q.0.events + weight k q.1 + held (row_of k db.idem)
        ≤ made k db.events
          + weight_at p (if is_under k r.key then 1 else 0)
          + held (row_of k q.0.idem))
      × IsProper q.1

  claim-Delta :
      (k j : String) (o : Option IdemRow) (r : Request) (db : Db)
      → r.key ≡ some j
      → row_of j db.idem ≡ o
      → Delta k at_start r db (claim_key extract c j o r db)
  claim-Delta k j (some row) r db e h = ground (arith, e)
  claim-Delta k j none r db e h = ground (
    arith,
    e,
    h,
    row_of-append k db.idem
        (record { key = j; fingerprint = r.fp; state = in_progress; response = none }) h,
  )

  poll-Delta :
      (k : String) (i : Inflight) (late : Bool) (r : Request) (db : Db)
      → i ≢ again
      → r.phase ≡ at_existing
      → has_key r.key ≡ true
      → Delta k at_existing r db (poll extract c i late r db)
  poll-Delta k conflict late r db n e h = ground (arith, h)
  poll-Delta k again late r db n e h = absurd (n refl)
  poll-Delta k wait late r db n e h = ground (arith, e, h)

  existing-Delta :
      (k : String) (late : Bool) (o : Option IdemRow) (r : Request) (db : Db)
      → c.inflight ≢ again
      → r.phase ≡ at_existing
      → has_key r.key ≡ true
      → Delta k at_existing r db (existing_step extract c late o r db)
  existing-Delta k late none r db n e h = ground (arith, e, h)
  existing-Delta k late (some row) r db n e h =
      ground (arith, h, poll-Delta k c.inflight late r db n e h)

  work-Delta :
      (k : String) (r : Request) (db : Db)
      → has_key r.key ≡ true
      → Delta k at_work r db (work_then extract c at_mark r.doc_id r db)
  work-Delta k r db h =
      ground (arith, h, work-made k r.doc_id r.key db, work-idem r.doc_id r.key db)

  mark-Delta :
      (k j : String) (reply : Reply) (r : Request) (db : Db)
      → has_key r.key ≡ true
      → Delta k (at_mark reply) r db (mark_step extract c (some j) reply r db)
  mark-Delta k j reply r db h =
      ground (arith, h, row_of-mark_done k j (kept extract c reply.body) db.idem)

  advance-Delta :
      (k : String) (key : Option String) (late : Bool) (p : Phase) (r : Request) (db : Db)
      → c.mode ≡ unique
      → c.inflight ≢ again
      → r.phase ≡ p
      → r.key ≡ key
      → is_proper_phase p ≡ true
      → has_key key ≡ true
      → Delta k p r db (advance extract c late p r db)
  advance-Delta k none late p r db m i e f g h = cc
  advance-Delta k (some j) late at_start r db m i e f g h =
      subst (λ x. Delta k at_start r db (start_step extract c x r.key r db)) (sym m)
        (subst (λ o. Delta k at_start r db (start_step extract c unique o r db)) (sym f)
          (claim-Delta k j (row_of j db.idem) r db f refl))
  advance-Delta k (some j) late at_work_only r db m i e f g h = cc
  advance-Delta k (some j) late at_work r db m i e f g h = work-Delta k r db (ap has_key f)
  advance-Delta k (some j) late at_checked_work r db m i e f g h = cc
  advance-Delta k (some j) late at_existing r db m i e f g h =
      subst (λ o. Delta k at_existing r db (lookup_step extract c late o r db)) (sym f)
        (existing-Delta k late (row_of j db.idem) r db i e (ap has_key f))
  advance-Delta k (some j) late (at_mark reply) r db m i e f g h =
      subst (λ o. Delta k (at_mark reply) r db (mark_step extract c o reply r db)) (sym f)
        (mark-Delta k j reply r db (ap has_key f))
  advance-Delta k (some j) late (at_replace reply) r db m i e f g h = cc
  advance-Delta k (some j) late (finished reply) r db m i e f g h = ground (arith, e, f)

  -- The work under a key that all requests together are about to do.
  unfoldable pub total_weight : String → List Request → ℕ
  total_weight k [] = 0
  total_weight k (r ∷ rs) = weight k r + total_weight k rs

  step-Delta :
      (k : String) (late : Bool) (r : Request) (db : Db)
      → c.mode ≡ unique
      → c.inflight ≢ again
      → IsProper r
      → Delta k r.phase r db (step extract c late r db)
  unfolding step
  step-Delta k late r db m i h = advance-Delta k r.key late r.phase r db m i refl refl h.0 h.1

  turn-Delta :
      (k : String) (n : ℕ) (late : Bool) (db : Db) (rs : List Request)
      → c.mode ≡ unique
      → c.inflight ≢ again
      → All IsProper rs
      → let q = turn extract c n late db rs in
        (made k q.0.events + total_weight k q.1 + held (row_of k db.idem)
          ≤ made k db.events + total_weight k rs + held (row_of k q.0.idem))
        × All IsProper q.1
  unfolding turn total_weight
  turn-Delta k n late db [] m i h = (omega arith, tt)
  turn-Delta k zero late db (r ∷ rs) m i h =
      let d = step-Delta k late r db m i h.0 in (omega (arith, d.0), (d.1, h.1))
  turn-Delta k (suc n) late db (r ∷ rs) m i h =
      let d = turn-Delta k n late db rs m i h.1 in (omega (arith, d.0), (h.0, d.1))

  serve-Delta :
      (k : String) (schedule : List (ℕ × Bool)) (db : Db) (rs : List Request)
      → c.mode ≡ unique
      → c.inflight ≢ again
      → All IsProper rs
      → made k db.events + total_weight k rs ≤ held (row_of k db.idem)
      → made k (serve extract c schedule db rs).0.events ≤ 1
  unfolding serve
  serve-Delta k [] db rs m i h le = omega (arith, le, held-le (row_of k db.idem))
  serve-Delta k ((n, late) ∷ schedule) db rs m i h le =
      let d = turn-Delta k n late db rs m i h in
      let q = turn extract c n late db rs in
      serve-Delta k schedule q.0 q.1 m i d.1 (omega (arith, d.0, le))

  new_ones :
      (k : String) (arrivals : List (String × String × String))
      → All IsProper (arrive arrivals) × (total_weight k (arrive arrivals) ≡ 0)
  unfolding total_weight
  new_ones k [] = (tt, refl)
  new_ones k ((doc_id, j, fp) ∷ arrivals) =
      let ih = new_ones k arrivals in (((refl, refl), ih.0), omega (arith, ih.1))

  -- In the mode "unique", with the policy "conflict" or "wait": whatever requests with keys arrive at
  -- an empty database, and however their steps take turns, at most one event is made under any key.
  pub serve-at_most_once :
      (k : String) (arrivals : List (String × String × String)) (schedule : List (ℕ × Bool))
      → c.mode ≡ unique
      → c.inflight ≢ again
      → made k
          (serve extract c schedule (record { events = []; idem = [] }) (arrive arrivals)).0.events
        ≤ 1
  unfolding made row_of
  serve-at_most_once k arrivals schedule m i =
      let fresh = new_ones k arrivals in
      serve-Delta k schedule (record { events = []; idem = [] }) (arrive arrivals) m i fresh.0
        (omega (arith, fresh.1))
