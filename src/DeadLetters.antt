-- ===== src/DeadLetters.antt =====
-- `simulate` of modules/ops-lab/dlq_lab.py: a queue with items that never succeed, under three
-- policies. Times are in ticks of 0.05 seconds. The draws are parameters: which items are poison, and
-- how long the work of each turn takes. The heap is a list from which the least entry is taken.
pub mod Drained
use mastery.Prelude.{
  ℕ, zero, suc, ◌+◌, ◌*◌, ◌^◌, max, min, Bool, true, false, not, ◌&&◌, ◌||◌, Option, none, some,
  List, [], ◌∷◌, ltb, leb, ◌==◌, if◌then◌else◌,
}

pub data Policy : Type 0 where
  park_now retry_three retry_forever : Policy

-- (time, item, attempt)
pub record Entry : Type 0 where
  pub time : ℕ
  pub item : ℕ
  pub attempt : ℕ

pub record State : Type 0 where
  pub ready : List Entry
  pub free : List ℕ
  pub completed : ℕ
  pub parked : ℕ
  pub worker_time : ℕ
  pub retries : ℕ
  pub clock : ℕ
  pub turns : ℕ

-- The order of tuples.
abbrev pub before : Entry → Entry → Bool
before a b =
    ltb a.time b.time
    || (a.time == b.time && (ltb a.item b.item || (a.item == b.item && leb a.attempt b.attempt)))

-- `heapq.heappop`
unfoldable pub pop_least : Entry → List Entry → Entry × List Entry
pop_least e [] = (e, [])
pop_least e (f ∷ fs) =
    let (m, rest) = pop_least f fs in if before e m then (e, m ∷ rest) else (m, e ∷ rest)

-- `min(range(workers), key=lambda k: free[k])`: the time at which the first of the workers is free.
abbrev pub earliest : ℕ → List ℕ → ℕ
earliest f [] = f
earliest f (g ∷ gs) = min f (earliest g gs)

-- `free[w] = until`, for the first worker that is free at `at`.
abbrev pub occupy : ℕ → ℕ → List ℕ → List ℕ
occupy at until [] = []
occupy at until (f ∷ fs) = let rest = occupy at until fs in if f == at then until ∷ fs else f ∷ rest

abbrev pub free_at : List ℕ → ℕ
free_at [] = 0
free_at (f ∷ fs) = earliest f fs

-- The last attempt of a policy, after which the item is parked.
abbrev pub last_attempt : Policy → ℕ
last_attempt park_now = 0
last_attempt retry_three = 3
last_attempt retry_forever = 40

-- How long an item that failed waits.
abbrev pub delay : Policy → ℕ → ℕ
delay park_now attempt = 0
delay retry_three attempt = 2 ^ attempt
delay retry_forever attempt = 2 ^ min attempt 6

module _ (policy : Policy) (poison : ℕ → Bool) (service : ℕ → ℕ) where
  -- The worker does the turn's work.
  abbrev pub worked : Entry → State → State
  worked e st =
      let at = free_at st.free in
      let until = max e.time at + service st.turns in
      record st {
        free = occupy at until st.free;
        clock = max st.clock until;
        worker_time = st.worker_time + service st.turns;
        turns = st.turns + 1;
      }

  abbrev pub park_or_push : ℕ → Entry → State → State
  park_or_push until e st =
      if ltb e.attempt (last_attempt policy)
      then record st {
        ready =
            record { time = until + delay policy e.attempt; item = e.item; attempt = e.attempt + 1 }
            ∷ st.ready;
      }
      else record st { parked = st.parked + 1 }

  -- The body of the loop, after the pop.
  abbrev pub handle : Entry → State → State
  handle e st =
      let until = max e.time (free_at st.free) + service st.turns in
      let st2 = worked e st in
      if not (poison e.item)
      then record st2 { completed = st2.completed + 1 }
      else park_or_push until e (record st2 { retries = st2.retries + 1 })

  abbrev pub take : Entry → List Entry → State → State
  take e es st = let (m, rest) = pop_least e es in handle m (record st { ready = rest })

  -- `while ready`, for so many rounds at most.
  unfoldable pub drain : ℕ → State → State
  unfolding pop_least
  drain zero st = st
  drain (suc n) st = elim st.ready [ [] ↦ st | e ∷ es ↦ drain n (take e es st) ]

  abbrev pub all_items : ℕ → List Entry
  all_items zero = []
  all_items (suc n) = record { time = 0; item = n; attempt = 0 } ∷ all_items n

  abbrev pub idle : ℕ → List ℕ
  idle zero = []
  idle (suc n) = 0 ∷ idle n

  abbrev pub opening : ℕ → ℕ → State
  opening n_items workers = record {
    ready = all_items n_items;
    free = idle workers;
    completed = 0;
    parked = 0;
    worker_time = 0;
    retries = 0;
    clock = 0;
    turns = 0;
  }

  -- `simulate`; 41 rounds for each item are enough. With items and no worker, the first turn raises
  -- the ValueError of `min` on an empty range.
  unfoldable pub simulate : ℕ → ℕ → Option State
  unfolding drain
  simulate zero workers = some (opening 0 workers)
  simulate (suc n) zero = none
  simulate (suc n) (suc m) = some (drain (suc n * 41) (opening (suc n) (suc m)))
