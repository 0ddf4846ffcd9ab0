-- ===== src/Idempotency/Keys.antt =====
-- The events under a key, whether it is claimed, and what a request may still do under it.
use mastery.Prelude.{
  same, ℕ, suc, ◌+◌, ◌≤◌, ◌≡◌, refl, String, Bool, true, false, Option, none, some, List, [], ◌∷◌,
  ◌++◌, arith, if◌then◌else◌,
}
use mastery.Idempotency.{
  IdemRow, EventRow, Body, Request, Phase, at_start, at_work_only, at_work, at_checked_work,
  at_replace, row_of, mark_done,
}

-- The events that were made under a key.
abbrev pub is_under : String → Option String → Bool
is_under k none = false
is_under k (some j) = same j k

unfoldable pub made : String → List EventRow → ℕ
unfolding same
made k [] = 0
made k (e ∷ es) = let rest = made k es in if is_under k e.request_id then suc rest else rest

pub made-append :
    (k : String) (es : List EventRow) (e : EventRow)
    → made k (es ++ (e ∷ [])) ≡ made k es + (if is_under k e.request_id then 1 else 0)
unfolding made
made-append k [] e = ground arith
made-append k (x ∷ es) e = ground (arith, made-append k es e)

-- 1 if the key is claimed.
abbrev pub held : Option IdemRow → ℕ
held none = 0
held (some r) = 1

pub row_of-append :
    (k : String) (rows : List IdemRow) (r : IdemRow)
    → row_of r.key rows ≡ none
    → held (row_of k (rows ++ (r ∷ []))) ≡ held (row_of k rows) + (if same r.key k then 1 else 0)
unfolding row_of
row_of-append k [] r h = ground arith
row_of-append k (x ∷ rows) r h = ground (arith, h, row_of-append k rows r)

pub row_of-mark_done :
    (k j : String) (b : Option Body) (rows : List IdemRow)
    → held (row_of k (mark_done j b rows)) ≡ held (row_of k rows)
unfolding row_of mark_done
row_of-mark_done k j b [] = refl
row_of-mark_done k j b (x ∷ rows) = ground (arith, row_of-mark_done k j b rows)

-- 1 if the request is about to work under the key.
abbrev pub weight_at : Phase → ℕ → ℕ
weight_at at_work n = n
weight_at _ n = 0

abbrev pub weight : String → Request → ℕ
weight k r = weight_at r.phase (if is_under k r.key then 1 else 0)

-- The phases that a request with a key goes through in the mode "unique".
abbrev pub is_proper_phase : Phase → Bool
is_proper_phase at_work_only = false
is_proper_phase at_checked_work = false
is_proper_phase (at_replace reply) = false
is_proper_phase _ = true

abbrev pub has_key : Option String → Bool
has_key none = false
has_key (some k) = true

abbrev pub IsProper : Request → Type 0
IsProper r = (is_proper_phase r.phase ≡ true) × (has_key r.key ≡ true)

-- New requests: the document, the key and the fingerprint of each.
abbrev pub arrive : List (String × String × String) → List Request
arrive [] = []
arrive ((doc_id, k, fp) ∷ rest) =
    record { doc_id = doc_id; key = some k; fp = fp; phase = at_start } ∷ arrive rest

pub held-le : (o : Option IdemRow) → held o ≤ 1
held-le none = omega arith
held-le (some r) = omega arith
