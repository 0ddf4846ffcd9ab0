-- ===== src/Batching/Arrivals.antt =====
-- What a state holds, and what the arrivals of a round do to it.
use mastery.Prelude.{
  ℕ, ◌+◌, ◌≤◌, ◌≡◌, refl, List, [], ◌∷◌, ◌++◌, length, leb, if◌then◌else◌, arith, Bool-cases, inl,
  inr, ◌⊎◌, length-append,
}
use mastery.Batching.{Req, Seq, State, arrive_all, total, need}

pub total-append :
    {A : Type 0} (f : A → ℕ) (xs ys : List A) → total f (xs ++ ys) ≡ total f xs + total f ys
unfolding total
total-append f [] ys = omega arith
total-append f (x ∷ xs) ys = omega (arith, total-append f xs ys)

-- The requests of a state, measured by `f`.
abbrev pub held : (Req → ℕ) → State → ℕ
held f st =
    total f st.pending
    + total f st.queue
    + total (λ (s : Seq). f s.req) st.active
    + total (λ (s : Seq). f s.req) st.done

abbrev pub left_of : Seq → ℕ
left_of s = s.prefill_left + s.left + 1

abbrev pub burden : State → ℕ
burden st = total need st.pending + total need st.queue + total left_of st.active

-- 1 if the clock has not come to the next arrival.
abbrev pub ahead : List Req → ℕ → ℕ
ahead [] t = 0
ahead (r ∷ rs) t = if leb r.arrive t then 0 else 1

pub arrive_all-held :
    (f : Req → ℕ) (ps : List Req) (st : State)
    → held f (arrive_all ps st) ≡ held f (record st { pending = ps })
unfolding arrive_all total
arrive_all-held f [] st = refl
arrive_all-held f (r ∷ rs) st = ground (
  arith,
  arrive_all-held f rs (record st { queue = st.queue ++ (r ∷ []) }),
  total-append f st.queue (r ∷ []),
)

pub arrive_all-burden :
    (ps : List Req) (st : State) → burden (arrive_all ps st) ≡ burden (record st { pending = ps })
unfolding arrive_all total
arrive_all-burden [] st = refl
arrive_all-burden (r ∷ rs) st = ground (
  arith,
  arrive_all-burden rs (record st { queue = st.queue ++ (r ∷ []) }),
  total-append need st.queue (r ∷ []),
)

-- The rest of the state, and the queue, which only grows.
pub arrive_all-rest :
    (ps : List Req) (st : State)
    → let next = arrive_all ps st in
      (next.active ≡ st.active)
      × (next.t ≡ st.t)
      × (next.busy ≡ st.busy)
      × (next.wasted ≡ st.wasted)
      × (next.steps ≡ st.steps)
      × (length st.queue ≤ length next.queue)
unfolding arrive_all
arrive_all-rest [] st = (refl, refl, refl, refl, refl, omega arith)
arrive_all-rest (r ∷ rs) st =
    let ih = arrive_all-rest rs (record st { queue = st.queue ++ (r ∷ []) }) in
    elim (Bool-cases (leb r.arrive st.t)) [
      | inl e ↦
          rw e (ih.0, ih.1, ih.2, ih.3, ih.4, omega (arith, ih.5, length-append st.queue (r ∷ [])))
      | inr e ↦ rw e (refl, refl, refl, refl, refl, omega arith)
    ]

-- Where nothing has arrived, either nothing is left or the next arrival is ahead.
pub arrive_all-ahead :
    (ps : List Req) (st : State)
    → length (arrive_all ps st).queue ≡ 0
    → ((arrive_all ps st).pending ≡ []) ⊎ (ahead ps st.t ≡ 1)
unfolding arrive_all
arrive_all-ahead [] st h = inl refl
arrive_all-ahead (r ∷ rs) st h = elim (Bool-cases (leb r.arrive st.t)) [
  | inl e ↦ absurd (
      ground (
        arith,
        e,
        h,
        (arrive_all-rest rs (record st { queue = st.queue ++ (r ∷ []) })).5,
        length-append st.queue (r ∷ []),
      ))
  | inr e ↦ inr (ground (arith, e))
]
