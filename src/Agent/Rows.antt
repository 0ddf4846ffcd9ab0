-- ===== src/Agent/Rows.antt =====
-- `Store` of modules/agent-workflow-lab/agent.py: the key decides, not the record.
use mastery.Prelude.{◌≡◌, String, ◌≢◌, none, some, List, [], ◌∷◌, ◌++◌, arith}
use mastery.Prelude.Dict.{lookup}
use mastery.Agent.{deduplicated, insert}

module _ {ℓ} {V : Type ℓ} where
  found_after :
      (key : String) (r : V) (rows : List (String × V))
      → lookup key rows ≡ none
      → lookup key (rows ++ ((key, r) ∷ [])) ≡ some r
  unfolding lookup
  found_after key r [] h = ground arith
  found_after key r ((i, v) ∷ rows) h = ground (arith, found_after key r rows)

  others_after :
      (key j : String) (r : V) (rows : List (String × V))
      → key ≢ j
      → lookup j (rows ++ ((key, r) ∷ [])) ≡ lookup j rows
  unfolding lookup
  others_after key j r [] h = ground arith
  others_after key j r ((i, v) ∷ rows) h = ground (arith, others_after key j r rows h)

  -- After an insertion the key has a row; a second insertion under it, of any record, changes
  -- nothing and says so; the rows under other keys are as they were.
  pub insert-insert :
      (key j : String) (r s : V) (rows : List (String × V))
      → key ≢ j
      → let once = (insert key r rows).0 in
        (insert key s once ≡ (once, deduplicated))
        × (lookup key once ≢ none)
        × (lookup j once ≡ lookup j rows)
  unfolding insert
  insert-insert key j r s rows h =
      ground (arith, found_after key r rows, others_after key j r rows h)
