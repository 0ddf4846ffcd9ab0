-- ===== src/Batching.antt =====
-- `simulate` of modules/serving-lab/batching_lab.py: one engine that serves requests in batches, under
-- three policies. Times are natural numbers, and the durations that modules/serving-lab/hardware.py
-- computes are parameters: those of a prefill by its tokens, and of a step by its batch and the
-- sequences' mean length. The percentiles over what is measured are left out.
pub mod Arrivals
pub mod Loops
pub mod Rounds
pub mod Served
use mastery.Prelude.{
  ℕ, zero, suc, ◌+◌, ◌-◌, ◌*◌, ◌/◌, max, min, Bool, true, false, not, ◌&&◌, ◌||◌, Option, none,
  some, List, [], ◌∷◌, ◌++◌, length, ltb, leb, ◌==◌, if◌then◌else◌,
}

pub data Policy : Type 0 where
  unbatched static continuous : Policy

-- A request of the trace, with its number.
pub record Req : Type 0 where
  pub id : ℕ
  pub arrive : ℕ
  pub prompt : ℕ
  pub gen : ℕ

-- What a request may take, in tokens and one more.
abbrev pub need : Req → ℕ
need r = r.prompt + r.gen + 1

-- A request that has been admitted.
pub record Seq : Type 0 where
  pub req : Req
  pub seq : ℕ
  pub left : ℕ
  pub prefill_left : ℕ
  pub ttft : Option ℕ
  pub last_tok : Option ℕ
  pub finish : Option ℕ

-- `pending` is what the cursor has not reached.
pub record State : Type 0 where
  pub pending : List Req
  pub queue : List Req
  pub active : List Seq
  pub done : List Seq
  pub itl : List ℕ
  pub t : ℕ
  pub steps : ℕ
  pub busy : ℕ
  pub wasted : ℕ
  pub prefill_time : ℕ
  pub decode_time : ℕ

-- The first inner loop: what has arrived joins the queue.
unfoldable pub arrive_all : List Req → State → State
arrive_all [] st = record st { pending = [] }
arrive_all (r ∷ rs) st =
    let rest = arrive_all rs (record st { queue = st.queue ++ (r ∷ []) }) in
    if leb r.arrive st.t then rest else record st { pending = r ∷ rs }

unfoldable pub total : {A : Type 0} → (A → ℕ) → List A → ℕ
total f [] = 0
total f (x ∷ xs) = f x + total f xs

abbrev pub or_else : Option ℕ → ℕ → Option ℕ
or_else none n = some n
or_else (some m) n = some m

-- One sequence in a step that ends at `t`: in its prefill, or a token further.
abbrev pub prefilled : ℕ → ℕ → Seq → Seq
prefilled chunk t s =
    let left = s.prefill_left - min chunk s.prefill_left in
    record s { prefill_left = left; ttft = if left == 0 then some (t - s.req.arrive) else s.ttft }

abbrev pub token : ℕ → Seq → Seq
token t s = record s {
  ttft = or_else s.ttft (t - s.req.arrive);
  last_tok = some t;
  left = s.left - 1;
  seq = s.seq + 1;
  finish = if leb s.left 1 then some t else s.finish;
}

abbrev pub tick : ℕ → ℕ → Seq → Seq
tick chunk t s = if ltb 0 s.prefill_left then prefilled chunk t s else token t s

-- Whether the step finishes a sequence.
abbrev pub finishes : Seq → Bool
finishes s = not (ltb 0 s.prefill_left) && leb s.left 1

abbrev pub gap : ℕ → Option ℕ → List ℕ
gap t none = []
gap t (some last) = (t - last) ∷ []

unfoldable pub gaps : ℕ → List Seq → List ℕ
gaps t [] = []
gaps t (s ∷ ss) =
    let rest = gaps t ss in if ltb 0 s.prefill_left then rest else gap t s.last_tok ++ rest

unfoldable pub tick_all : ℕ → ℕ → List Seq → List Seq
tick_all chunk t [] = []
tick_all chunk t (s ∷ ss) = tick chunk t s ∷ tick_all chunk t ss

-- The sequences that the step finishes, and the others.
unfoldable pub ended : ℕ → ℕ → List Seq → List Seq
ended chunk t [] = []
ended chunk t (s ∷ ss) =
    let rest = ended chunk t ss in if finishes s then tick chunk t s ∷ rest else rest

unfoldable pub going : ℕ → ℕ → List Seq → List Seq
going chunk t [] = []
going chunk t (s ∷ ss) =
    let rest = going chunk t ss in if finishes s then rest else tick chunk t s ∷ rest

module _ (prefill : ℕ → ℕ) (decode : ℕ → ℕ → ℕ) (chunk : ℕ) (policy : Policy) (max_batch : ℕ)
    (chunked : Bool) where
  abbrev pub slots_of : Policy → ℕ
  slots_of unbatched = 1
  slots_of static = max_batch
  slots_of continuous = max_batch

  abbrev pub can_admit : Policy → List Seq → Bool
  can_admit static [] = true
  can_admit static (s ∷ ss) = false
  can_admit unbatched ss = true
  can_admit continuous ss = true

  -- With prefill in chunks, nothing is paid yet; else the engine stalls for it.
  abbrev pub admitted : Bool → Req → State → State
  admitted true r st = record st {
    active =
        st.active
        ++ (record {
          req = r;
          seq = r.prompt;
          left = r.gen;
          prefill_left = r.prompt;
          ttft = none;
          last_tok = none;
          finish = none;
        }
            ∷ []);
  }
  admitted false r st =
      let now = st.t + prefill r.prompt in
      record st {
        t = now;
        prefill_time = st.prefill_time + prefill r.prompt;
        active =
            st.active
            ++ (record {
              req = r;
              seq = r.prompt;
              left = r.gen;
              prefill_left = 0;
              ttft = some (now - r.arrive);
              last_tok = none;
              finish = none;
            }
                ∷ []);
      }

  unfoldable pub admit_all : List Req → State → State
  admit_all [] st = record st { queue = [] }
  admit_all (r ∷ rs) st =
      let rest = admit_all rs (admitted chunked r st) in
      if ltb (length st.active) (slots_of policy) then rest else record st { queue = r ∷ rs }

  unfoldable pub chunk_cost : List Seq → ℕ
  unfolding total
  chunk_cost ss =
      let tokens = total (λ (s : Seq). min chunk s.prefill_left) ss in
      if chunked && ltb 0 tokens then prefill tokens else 0

  -- What a step does to the batch.
  abbrev pub retire : Policy → State → State
  retire static st =
      if length (ended chunk st.t st.active) == length st.active
      then record st { done = st.done ++ tick_all chunk st.t st.active; active = [] }
      else record st { active = tick_all chunk st.t st.active }
  retire _ st = record st {
    done = st.done ++ ended chunk st.t st.active;
    active = going chunk st.t st.active;
  }

  abbrev pub timed : State → State
  timed st =
      let n = length st.active in
      let cost = chunk_cost st.active in
      let step = decode n (total (λ (s : Seq). s.seq) st.active / n) + cost in
      record st {
        t = st.t + step;
        prefill_time = st.prefill_time + cost;
        decode_time = st.decode_time + step;
        steps = st.steps + 1;
        busy = st.busy + n;
        wasted = st.wasted + (slots_of policy - n);
        itl = st.itl ++ gaps (st.t + step) st.active;
      }

  abbrev pub decode_step : List Seq → State → State
  decode_step [] st = st
  decode_step (s ∷ ss) st = retire policy (timed st)

  abbrev pub admit_if : Bool → State → State
  admit_if true st = admit_all st.queue st
  admit_if false st = st

  -- Where nothing waits and nothing runs, the clock goes to the next arrival.
  abbrev pub round : List Seq → List Req → List Req → State → State
  round [] [] [] st = st
  round [] [] (r ∷ rs) st = record st { t = r.arrive }
  round active queue pending st =
      let st2 = admit_if (can_admit policy st.active) st in decode_step st2.active st2

  -- One round of the outer loop.
  unfoldable pub iterate : State → State
  unfolding arrive_all admit_all tick_all ended going gaps chunk_cost total
  iterate st = let st2 = arrive_all st.pending st in round st2.active st2.queue st2.pending st2

  unfoldable pub iterates : ℕ → State → State
  unfolding iterate
  iterates zero st = st
  iterates (suc n) st = iterates n (iterate st)

  -- `simulate`; a round goes to the next arrival or takes a token at least, so these are enough.
  unfoldable pub simulate : List Req → State
  unfolding iterates total
  simulate reqs = iterates (2 * total need reqs + 1) (record {
    pending = reqs;
    queue = [];
    active = [];
    done = [];
    itl = [];
    t = 0;
    steps = 0;
    busy = 0;
    wasted = 0;
    prefill_time = 0;
    decode_time = 0;
  })
