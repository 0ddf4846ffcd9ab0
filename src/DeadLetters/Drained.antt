-- ===== src/DeadLetters/Drained.antt =====
-- The queue of dead letters drains, under each policy.
use mastery.Prelude.{
  ℕ, zero, suc, ◌+◌, ◌-◌, ◌*◌, ◌≤◌, ◌≡◌, refl, Bool, none, some, List, [], ◌∷◌, if◌then◌else◌,
  arith,
}
use mastery.DeadLetters.{
  Policy, park_now, retry_three, retry_forever, Entry, State, pop_least, last_attempt, handle,
  drain, all_items, opening, simulate,
}

unfoldable sum_of : (Entry → ℕ) → List Entry → ℕ
sum_of f [] = 0
sum_of f (e ∷ es) = f e + sum_of f es

pop_least-sum :
    (f : Entry → ℕ) (e : Entry) (es : List Entry)
    → f (pop_least e es).0 + sum_of f (pop_least e es).1 ≡ f e + sum_of f es
unfolding pop_least sum_of
pop_least-sum f e [] = omega arith
pop_least-sum f e (g ∷ gs) = ground (arith, pop_least-sum f g gs)

module _ (policy : Policy) (poison : ℕ → Bool) (service : ℕ → ℕ) where
  -- The turns that an entry may still take: a poison item all up to the last attempt, another one.
  abbrev to_come : Entry → ℕ
  to_come e = if poison e.item then suc (last_attempt policy) - e.attempt else 1

  abbrev is_poison : Entry → ℕ
  is_poison e = if poison e.item then 1 else 0

  abbrev is_sound : Entry → ℕ
  is_sound e = if poison e.item then 0 else 1

  abbrev poison_turns : Entry → ℕ
  poison_turns e = if poison e.item then suc (last_attempt policy) - e.attempt else 0

  abbrev late : Entry → ℕ
  late e = e.attempt - last_attempt policy

  abbrev measure : State → ℕ
  measure st = sum_of to_come st.ready

  handle-balance :
      (e : Entry) (st : State)
      → e.attempt ≤ last_attempt policy
      → let next = handle policy poison service e st in
        (measure next + 1 ≡ measure st + to_come e)
        × (next.parked + sum_of is_poison next.ready
            ≡ st.parked + sum_of is_poison st.ready + is_poison e)
        × (next.completed + sum_of is_sound next.ready
            ≡ st.completed + sum_of is_sound st.ready + is_sound e)
        × (next.retries + (sum_of poison_turns next.ready)
            ≡ st.retries + sum_of poison_turns st.ready + poison_turns e)
        × (sum_of late next.ready ≡ sum_of late st.ready)
  unfolding sum_of
  handle-balance e st h = ground (arith, h)

  -- What comes of a state: all is completed or parked, after so many retries.
  abbrev Drains : State → State → Type 0
  Drains st end =
      (end.ready ≡ [])
      × (end.completed ≡ st.completed + sum_of is_sound st.ready)
      × (end.parked ≡ st.parked + sum_of is_poison st.ready)
      × (end.retries ≡ st.retries + sum_of poison_turns st.ready)

  drain-Drains :
      (n : ℕ) (entries : List Entry) (st : State)
      → sum_of to_come entries ≤ n
      → sum_of late entries ≡ 0
      → Drains
          (record st { ready = entries })
          (drain policy poison service n (record st { ready = entries }))
  unfolding drain sum_of
  drain-Drains zero [] st m l = (refl, omega arith, omega arith, omega arith)
  drain-Drains zero (e ∷ es) st m l = absurd (ground (arith, m, l))
  drain-Drains (suc n) [] st m l = (refl, omega arith, omega arith, omega arith)
  drain-Drains (suc n) (e ∷ es) st m l =
      let q = pop_least e es in
      let st2 : State = record st { ready = q.1 } in
      let next = handle policy poison service q.0 st2 in
      let fits = pop_least-sum late e es in
      let b = handle-balance q.0 st2 (omega (arith, fits, l)) in
      let ih =
        drain-Drains n next.ready next (omega (arith, b.0, pop_least-sum to_come e es, m))
          (omega (arith, b.4, fits, l)) in
      (
        ih.0,
        omega (arith, ih.1, b.2, pop_least-sum is_sound e es),
        omega (arith, ih.2, b.1, pop_least-sum is_poison e es),
        omega (arith, ih.3, b.3, pop_least-sum poison_turns e es),
      )

  last_attempt-bound : (p : Policy) → last_attempt p ≤ 40
  last_attempt-bound park_now = omega arith
  last_attempt-bound retry_three = omega arith
  last_attempt-bound retry_forever = omega arith

  -- How many items are poison.
  abbrev pub poison_items : ℕ → ℕ
  poison_items zero = 0
  poison_items (suc n) = let rest = poison_items n in if poison n then suc rest else rest

  all_items-sums :
      (n : ℕ)
      → let items = all_items policy poison service n in
        (sum_of to_come items ≤ n * 41)
        × (sum_of late items ≡ 0)
        × (sum_of is_sound items + poison_items n ≡ n)
        × (sum_of is_poison items ≡ poison_items n)
        × (sum_of poison_turns items ≡ poison_items n * suc (last_attempt policy))
  unfolding sum_of
  all_items-sums zero = (omega arith, refl, refl, refl, omega arith)
  all_items-sums (suc n) =
      let ih = all_items-sums n in
      (
        ground (arith, ih.0, last_attempt-bound policy),
        omega (arith, ih.1),
        ground (arith, ih.2),
        ground (arith, ih.3),
        grind (arith, ih.4),
      )

  -- The loop ends with nothing left to do, and so much has been done.
  abbrev pub IsDrained : ℕ → State → Type 0
  IsDrained n_items end =
      (end.ready ≡ [])
      × (end.completed + poison_items n_items ≡ n_items)
      × (end.parked ≡ poison_items n_items)
      × (end.retries ≡ poison_items n_items * suc (last_attempt policy))

  drain-IsDrained :
      (n_items workers : ℕ)
      → IsDrained n_items (
          drain policy poison service
            (n_items * 41)
            (opening policy poison service n_items workers))
  drain-IsDrained n_items workers =
      let h = all_items-sums n_items in
      let d =
        drain-Drains (n_items * 41) (all_items policy poison service n_items)
          (opening policy poison service n_items workers) h.0 h.1 in
      (d.0, omega (arith, d.1, h.2), omega (arith, d.2, h.3), omega (arith, d.3, h.4))

  -- Whatever is drawn: with items and no worker the simulation fails. With a worker the loop ends
  -- with nothing left to do, as many items are completed as are not poison, and as many parked as are
  -- poison. The failed tries are, in all, as many as the poison items times one more than the
  -- policy's last attempt.
  pub simulate-Drains :
      (n_items workers : ℕ)
      → (simulate policy poison service (suc n_items) 0 ≡ none)
        × ((end : State) × ((simulate policy poison service n_items (suc workers) ≡ some end)
              × IsDrained n_items end))
  unfolding simulate
  simulate-Drains zero workers = (
    refl,
    (opening policy poison service 0 (suc workers), (refl, (refl, refl, refl, omega arith))),
  )
  simulate-Drains (suc n) workers = (refl, (_, (refl, drain-IsDrained (suc n) (suc workers))))
