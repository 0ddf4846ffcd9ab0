-- ===== src/Retry/EventTable.antt =====
-- The class EventTable of modules/model-interface-lab/retry_lab.py, whose rows may have a key.
use mastery.Prelude.{
  same, ◌≡◌, refl, String, Bool, true, false, ◌||◌, Option, none, some, List, [], ◌∷◌, ◌++◌,
  if◌then◌else◌, arith,
}

-- `keys` is a set; the order of its elements is not looked at.
pub record EventTable (R : Type 0) : Type 0 where
  pub rows : List (String × R)
  pub keys : List String

pub data Inserted : Type 0 where
  inserted deduplicated : Inserted

unfoldable pub has_key : String → List String → Bool
unfolding same
has_key k [] = false
has_key k (j ∷ js) = same j k || has_key k js

module _ {R : Type 0} where
  abbrev pub add_row : String → R → EventTable R → EventTable R
  add_row doc r t = record t { rows = t.rows ++ ((doc, r) ∷ []) }

  -- `insert`
  unfoldable pub insert_row : String → R → Option String → EventTable R → EventTable R × Inserted
  unfolding has_key
  insert_row doc r none t = (add_row doc r t, inserted)
  insert_row doc r (some k) t =
      if has_key k t.keys
      then (t, deduplicated)
      else (add_row doc r (record t { keys = k ∷ t.keys }), inserted)

  unfoldable pub insert_rows : List (String × R × Option String) → EventTable R → EventTable R
  unfolding insert_row
  insert_rows [] t = t
  insert_rows ((doc, r, key) ∷ rest) t = insert_rows rest (insert_row doc r key t).0

  insert_row-has_key :
      (k doc : String) (r : R) (key : Option String) (t : EventTable R)
      → has_key k t.keys ≡ true
      → has_key k (insert_row doc r key t).0.keys ≡ true
  unfolding insert_row has_key
  insert_row-has_key k doc r none t h = h
  insert_row-has_key k doc r (some j) t h = ground (arith, h)

  insert_row-own :
      (k doc : String) (r : R) (t : EventTable R)
      → has_key k (insert_row doc r (some k) t).0.keys ≡ true
  unfolding insert_row has_key
  insert_row-own k doc r t = ground arith

  insert_rows-has_key :
      (k : String) (rows : List (String × R × Option String)) (t : EventTable R)
      → has_key k t.keys ≡ true
      → has_key k (insert_rows rows t).keys ≡ true
  unfolding insert_rows
  insert_rows-has_key k [] t h = h
  insert_rows-has_key k ((doc, r, key) ∷ rest) t h =
      insert_rows-has_key k rest (insert_row doc r key t).0 (insert_row-has_key k doc r key t h)

  again_deduplicated :
      (k doc : String) (r : R) (t : EventTable R)
      → has_key k t.keys ≡ true
      → insert_row doc r (some k) t ≡ (t, deduplicated)
  unfolding insert_row
  again_deduplicated k doc r t h = rw h refl

  -- After an insert with a key, whatever else is inserted, an insert with that key adds nothing.
  pub insert_row-insert_row :
      (k doc doc2 : String) (r r2 : R) (between : List (String × R × Option String))
      (t : EventTable R)
      → let later = insert_rows between (insert_row doc r (some k) t).0 in
        insert_row doc2 r2 (some k) later ≡ (later, deduplicated)
  insert_row-insert_row k doc doc2 r r2 between t =
      let later = insert_rows between (insert_row doc r (some k) t).0 in
      again_deduplicated k doc2 r2 later
        (insert_rows-has_key k between (insert_row doc r (some k) t).0 (insert_row-own k doc r t))
