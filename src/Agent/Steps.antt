-- ===== src/Agent/Steps.antt =====
-- The steps of modules/agent-workflow-lab/agent.py. A step is an action on the budget and the
-- rows, which returns or raises BudgetExceeded, and writes what it appends to the trace.
use mastery.Prelude.{
  ℕ, String, Bool, false, ◌||◌, ◌&&◌, Option, none, some, List, [], ◌∷◌, ◌++◌, map, ◌==◌,
  if◌then◌else◌,
}
use Prim.Native.Char.{code}
use mastery.Agent.{Budget, Exceeded, check_budget, spend, Event, Insertion, insert}

-- The codes of a text's characters.
abbrev pub codes : String → List ℕ
codes String.[] = []
codes (String.◌∷◌ c s) = code c ∷ codes s

-- What the steps take from elsewhere: the model's answer to a document (parsed after the repair,
-- or nothing) and its price, the schema's validator, the effect of an injected instruction, the
-- passages of a document, the test for one of the two phrases, the clock when n
-- calls are made, and whether a record counts as true (an empty one does not).
pub record World (R : Type 0) : Type 0 where
  pub answer : String → Option R × ℕ
  pub validate : R → List String
  pub hijack : R → R
  pub passages_of : String → List (List ℕ)
  pub suspicious : List ℕ → Bool
  pub clock : ℕ → ℕ
  pub truthy : R → Bool

pub record Shared (R : Type 0) : Type 0 where
  pub budget : Budget
  pub rows : List (String × Option R)

pub data Result (A : Type 0) : Type 0 where
  ok : A → Result A
  halted : Exceeded → Result A

abbrev pub Exec : Type 0 → Type 0 → Type 0
Exec R A = Shared R → Result A × List Event × Shared R

abbrev pub after :
    {R A B : Type 0}
    → Result A
    → List Event
    → Shared R
    → (A → Exec R B)
    → Result B × List Event × Shared R
after (ok a) es s f = let (r, fs, t) = f a s in (r, es ++ fs, t)
after (halted x) es s f = (halted x, es, s)

infixl 5 ◌>>=◌ ◌>>◌
abbrev pub ◌>>=◌ : {R A B : Type 0} → Exec R A → (A → Exec R B) → Exec R B
◌>>=◌ m f s = let (r, es, t) = m s in after r es t f

abbrev pub ◌>>◌ : {R A B : Type 0} → Exec R A → Exec R B → Exec R B
m >> k = m >>= λ _. k

abbrev pub pure : {R A : Type 0} → A → Exec R A
pure a s = (ok a, [], s)

abbrev pub raise_if : {R : Type 0} → Option Exceeded → Exec R (Unit {0})
raise_if none s = (ok tt, [], s)
raise_if (some x) s = (halted x, [], s)

-- `trace.record(step, ..., cost)`
abbrev pub note : {R : Type 0} → String → ℕ → Exec R (Unit {0})
note step cost s = (ok tt, record { step = step; cost = cost } ∷ [], s)

abbrev pub pay : {R : Type 0} → ℕ → Exec R (Unit {0})
pay cost s = (ok tt, [], record s { budget = spend cost s.budget })

-- The two delimiters of `fence`, as the codes of their characters.
abbrev pub opening : List ℕ
opening = codes "<untrusted_document>" ++ (10 ∷ [])

abbrev pub closing : List ℕ
closing = 10 ∷ codes "</untrusted_document>"

-- `text.replace("<", "&lt;")`
unfoldable pub escape : List ℕ → List ℕ
escape [] = []
escape (c ∷ cs) =
    let rest = escape cs in if c == b'<' then b'&' ∷ b'l' ∷ b't' ∷ b';' ∷ rest else c ∷ rest

unfoldable pub fence : List ℕ → List ℕ
unfolding escape
fence text = opening ++ (escape text ++ closing)

-- Amounts in units of 1e-8 dollars: the price of `classify`, and the estimate of `extract`.
abbrev pub classify_cost : ℕ
classify_cost = 2000

abbrev pub extract_estimate : ℕ
extract_estimate = 200000

module _ {R : Type 0} (w : World R) where
  abbrev pub check_now : ℕ → Exec R (Unit {0})
  check_now estimated s = raise_if (check_budget estimated (w.clock s.budget.calls) s.budget) s

  unfoldable pub classify : String → Exec R (Unit {0})
  unfolding check_budget spend
  classify doc_id = do check_now 0; pay classify_cost; note "classify" classify_cost

  unfoldable pub retrieve : Bool → String → Exec R (List (List ℕ))
  unfolding fence
  retrieve isolate doc_id = do
    note "retrieve" 0
    pure (if isolate then map fence (w.passages_of doc_id) else w.passages_of doc_id)

  abbrev pub any_suspicious : List (List ℕ) → Bool
  any_suspicious [] = false
  any_suspicious (p ∷ ps) = w.suspicious p || any_suspicious ps

  abbrev pub hijacked : Bool → Option R → Option R
  hijacked attacked none = none
  hijacked attacked (some r) = some (if w.truthy r && attacked then w.hijack r else r)

  unfoldable pub extract : Bool → String → List (List ℕ) → Exec R (Option R)
  unfolding check_budget spend
  extract obey_injection doc_id passages = do
    check_now extract_estimate
    pay (w.answer doc_id).1
    note "extract" (w.answer doc_id).1
    pure (hijacked (any_suspicious passages && obey_injection) (w.answer doc_id).0)

  unfoldable pub resolve_actors : Exec R (Unit {0})
  resolve_actors = note "resolve_actors" 0

  -- The violations of `check`: a record that did not parse has one.
  abbrev pub violations : Option R → List String
  violations none = "unparseable" ∷ []
  violations (some r) = w.validate r

  unfoldable pub check : Option R → Exec R (List String)
  check r = do note "validate" 0; pure (violations r)

  abbrev pub insert_row : String → Option R → Exec R Insertion
  insert_row key r s = (ok (insert key r s.rows).1, [], record s { rows = (insert key r s.rows).0 })

  unfoldable pub store : String → Option R → Exec R Insertion
  unfolding insert
  store key r = do outcome ← insert_row key r; note "store" 0; pure outcome
