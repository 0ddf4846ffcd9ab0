-- ===== src/Idempotency/Replay.antt =====
-- A key that has been answered is answered again.
use mastery.Prelude.{
  same, ◌≡◌, refl, String, Option, none, some, List, [], ◌∷◌, ◌++◌, arith, ap, ◌∙◌, if◌then◌else◌,
  ◌&&◌, not,
}
use mastery.Idempotency.{
  Config, unique, Db, IdemRow, Body, Reply, finished, done, in_progress, row_of, mark_done,
  replay_response, replay, do_post, work, kept, error,
}

row_of-append :
    (k fp : String) (rows : List IdemRow)
    → row_of k rows ≡ none
    → row_of k
        (rows ++ (record { key = k; fingerprint = fp; state = in_progress; response = none } ∷ []))
      ≡ some (record { key = k; fingerprint = fp; state = in_progress; response = none })
unfolding row_of
row_of-append k fp [] h = ground arith
row_of-append k fp (r ∷ rs) h = ground (arith, h, row_of-append k fp rs)

row_of-mark_done :
    (k fp : String) (b : Option Body) (rows : List IdemRow)
    → row_of k rows ≡ none
    → row_of k (
        mark_done k b (
          rows
          ++ (record { key = k; fingerprint = fp; state = in_progress; response = none } ∷ [])))
      ≡ some (record { key = k; fingerprint = fp; state = done; response = b })
unfolding row_of mark_done
row_of-mark_done k fp b [] h = ground arith
row_of-mark_done k fp b (r ∷ rs) h = ground (arith, h, row_of-mark_done k fp b rs)

module _ (extract : String → Option String) (c : Config) where
  abbrev claimed : String → String → Db → Db
  claimed k fp db = record db {
    idem =
        db.idem
        ++ (record { key = k; fingerprint = fp; state = in_progress; response = none } ∷ []);
  }

  work-idem :
      (doc_id : String) (key : Option String) (db : Db)
      → (work extract c doc_id key db).0.idem ≡ db.idem
  unfolding work
  work-idem doc_id key db = ground arith

  -- The first request under a key claims it, works and marks it.
  first_post :
      (doc_id k fp : String) (db : Db)
      → c.mode ≡ unique
      → row_of k db.idem ≡ none
      → let done_work = work extract c doc_id (some k) (claimed k fp db) in
        let p = do_post extract c doc_id (some k) fp db in
        (p.0 ≡ record done_work.0 {
          idem = mark_done k (kept extract c done_work.1.body) done_work.0.idem;
        })
        × (p.1.phase ≡ finished done_work.1)
  unfolding do_post
  first_post doc_id k fp db m h = (ground (arith, m, h), ground (arith, m, h))

  later_post :
      (doc_id k fp : String) (db : Db) (row : IdemRow)
      → c.mode ≡ unique
      → row_of k db.idem ≡ some row
      → row.state ≡ done
      → let q = do_post extract c doc_id (some k) fp db in
        (q.0 ≡ db) × (q.1.phase ≡ finished (replay c row fp))
  unfolding do_post
  later_post doc_id k fp db row m h d = ground (arith, m, h, d)

  -- In the mode "unique": a request under a new key is worked on, and whatever its reply, a second
  -- request under the key changes nothing. If the fingerprints differ and are compared, its reply is
  -- 422; else its status is 200 and its body that of the first, or empty if responses are not kept.
  pub do_post-do_post :
      (doc_id other k fp fp2 : String) (db : Db)
      → c.mode ≡ unique
      → row_of k db.idem ≡ none
      → let first = do_post extract c doc_id (some k) fp db in
        let second = do_post extract c other (some k) fp2 first.0 in
        (reply : Reply) × ((first.1.phase ≡ finished reply)
          × (second.0 ≡ first.0)
          × (second.1.phase
              ≡ finished (
                  if c.fingerprint && not (same fp fp2)
                  then record { status = 422; body = error "key reused with a different body" }
                  else replay_response (if c.store_response then some reply.body else none))))
  unfolding replay
  do_post-do_post doc_id other k fp fp2 db m h =
      let done_work = work extract c doc_id (some k) (claimed k fp db) in
      let first = first_post doc_id k fp db m h in
      let response = kept extract c done_work.1.body in
      let found =
        ap (λ (d : Db). row_of k d.idem) first.0
        ∙ ap (λ rows. row_of k (mark_done k response rows))
            (work-idem doc_id (some k) (claimed k fp db))
        ∙ row_of-mark_done k fp response db.idem h in
      let second =
        later_post other k fp2 (do_post extract c doc_id (some k) fp db).0
          (record { key = k; fingerprint = fp; state = done; response = response }) m found refl in
      (done_work.1, (first.1, second.0, second.1))
