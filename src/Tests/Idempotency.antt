-- ===== src/Tests/Idempotency.antt =====
-- Two requests under one key at the API of modules/service-lab/idempotency_lab.py.
use mastery.Prelude.{
  ℕ, ◌≤◌, ◌≡◌, ◌≢◌, refl, String, Bool, true, false, Option, none, some, [], List, ◌∷◌,
}
use mastery.Idempotency.{
  Config, unique, again, wait, Reply, finished, event, row_of, work, step, turn, serve, do_post,
  replay, replay_response, next_event, mark_done, twin_of, Db,
}
use mastery.Idempotency.Keys.{made, arrive}
use mastery.Idempotency.AtMostOnce.{serve-at_most_once}
use mastery.Idempotency.Replay.{do_post-do_post}

program : Unit {0}
unfolding row_of work step turn serve do_post replay next_event mark_done twin_of made
program = tt

abbrev waits : Config
waits = record {
  mode = unique;
  inflight = wait;
  store_response = true;
  fingerprint = true;
  natural_key = false;
}

abbrev model : String → Option String
model doc_id = some "sha"

abbrev no_rows : Db
no_rows = record { events = []; idem = [] }

abbrev both : List (String × String × String)
both = ("N01", "key", "body") ∷ ("N01", "key", "body") ∷ []

-- Both claim the key; the second waits, once, until the first is through.
abbrev turns : List (ℕ × Bool)
turns = (0, false) ∷ (1, false) ∷ (0, false) ∷ (1, false) ∷ (0, false) ∷ (1, false) ∷ []

one_event : made "key" (serve model waits turns no_rows (arrive both)).0.events ≡ 1
unfolding program
one_event = refl

first_reply :
    (do_post model waits "N01" (some "key") "body" no_rows).1.phase
    ≡ finished (record { status = 201; body = event 1 "N01" "sha" false })
unfolding program
first_reply = refl

unique-again : wait ≢ again
unique-again = λ e. cc

serve-at_most_once_example : made "key" (serve model waits turns no_rows (arrive both)).0.events ≤ 1
serve-at_most_once_example = serve-at_most_once model waits "key" both turns refl unique-again

nothing_yet : row_of "key" no_rows.idem ≡ none
unfolding program
nothing_yet = refl

do_post-do_post_example :
    let first = do_post model waits "N01" (some "key") "body" no_rows in
    let second = do_post model waits "N01" (some "key") "body" first.0 in
    (reply : Reply) × ((first.1.phase ≡ finished reply)
      × (second.0 ≡ first.0)
      × (second.1.phase ≡ finished (replay_response (some reply.body))))
unfolding program
do_post-do_post_example =
    do_post-do_post model waits "N01" "N01" "key" "body" "body" no_rows refl nothing_yet
