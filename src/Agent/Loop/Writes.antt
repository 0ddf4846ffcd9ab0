-- ===== src/Agent/Loop/Writes.antt =====
-- What the loop writes, and that it has validated it.
use mastery.Prelude.{◌+◌, ◌⊎◌, ◌≡◌, String, true, List, [], ◌∷◌, length, All, Option}
use mastery.Agent.{insert}
use mastery.Agent.Steps.{World, Shared, Result, ok, halted, violations}
use mastery.Agent.Loop.{Progress, Outcome, stored, Turn, next, done}

-- The rows after the insertion of records under one key, the first of the list first.
abbrev pub insert_all :
    {R : Type 0} → String → List (Option R) → List (String × Option R) → List (String × Option R)
insert_all key [] rows = rows
insert_all key (x ∷ xs) rows = insert_all key xs (insert key x rows).0

module _ {R : Type 0} (w : World R) (doc_id key : String) where
  -- `validated` is set only on a record with no violation.
  abbrev Checked : Progress R → Type 0
  Checked p = p.validated ≡ true → violations w p.found ≡ []

  -- A record that the state holds, or that the model answers for the document.
  abbrev pub IsKnown : Progress R → Option R → Type 0
  IsKnown p x = (x ≡ p.found) ⊎ (x ≡ (w.answer doc_id).0)

  -- What one round leaves behind: it has written nothing, or the state's record, which is counted
  -- if it is not validated.
  abbrev TurnLeaves : Progress R → Shared R → Result (Turn R) → Shared R → Type 0
  TurnLeaves p s (ok (next q)) t =
      Checked q
      × IsKnown p q.found
      × (((q.unvalidated ≡ p.unvalidated) × (t.rows ≡ s.rows))
          ⊎ ((q.unvalidated ≡ p.unvalidated + 1) × (t.rows ≡ (insert key p.found s.rows).0)))
  TurnLeaves p s (ok (done (stored r) q)) t =
      (violations w r ≡ [])
      × (r ≡ p.found)
      × (t.rows ≡ (insert key r s.rows).0)
      × (q.unvalidated ≡ p.unvalidated)
  TurnLeaves p s (ok (done o q)) t = (t.rows ≡ s.rows) × (q.unvalidated ≡ p.unvalidated)
  TurnLeaves p s (halted x) t = t.rows ≡ s.rows

  -- The rows that a run leaves are those before, and then the records of a list inserted under the
  -- key, one for each unvalidated write that the run counts; and last the record that it returns as
  -- "stored", which has no violation.
  abbrev pub RunLeaves : Progress R → Shared R → (Outcome R × Progress R) × Shared R → Type 0
  RunLeaves p s ((stored r, q), t) =
      (xs : List (Option R)) × (All (IsKnown p) xs
        × (q.unvalidated ≡ p.unvalidated + length xs)
        × (t.rows ≡ (insert key r (insert_all key xs s.rows)).0)
        × IsKnown p r
        × (violations w r ≡ []))
  RunLeaves p s ((o, q), t) =
      (xs : List (Option R)) × (All (IsKnown p) xs
        × (q.unvalidated ≡ p.unvalidated + length xs)
        × (t.rows ≡ insert_all key xs s.rows))
