-- ===== src/Batching/Rounds.antt =====
-- A round serves something, or goes to the next arrival, and counts its slots.
use mastery.Prelude.{
  ℕ, ◌+◌, ◌-◌, ◌*◌, ◌≤◌, ◌<◌, ◌≡◌, refl, Bool, true, false, List, [], ◌∷◌, length, arith, inl, inr,
  ◌⊎◌, ap, subst, sym, ◌∙◌,
}
use mastery.Batching.{
  Policy, unbatched, static, continuous, Req, Seq, State, arrive_all, total, can_admit, admit_all,
  timed, decode_step, admit_if, round, iterate, need,
}
use mastery.Batching.Arrivals.{
  held, left_of, burden, ahead, arrive_all-held, arrive_all-burden, arrive_all-rest,
  arrive_all-ahead,
}
use mastery.Batching.Loops.{slots, admit_all-held, admit_all-first, retire_held}

next_step : (s c : ℕ) → (s + 1) * c ≡ s * c + c
next_step s c = grind arith

all_counted :
    (b w s n c b2 w2 s2 : ℕ)
    → n ≤ c
    → b + w ≡ s * c
    → b2 ≡ b + n
    → w2 ≡ w + (c - n)
    → s2 ≡ s + 1
    → b2 + w2 ≡ s2 * c
all_counted b w s n c b2 w2 s2 le e eb ew es =
    omega (arith, le, e, eb, ew, ap (λ x. x * c) es, next_step s c)

all_kept : (b w s c b2 w2 s2 : ℕ) → b + w ≡ s * c → b2 ≡ b → w2 ≡ w → s2 ≡ s → b2 + w2 ≡ s2 * c
all_kept b w s c b2 w2 s2 e eb ew es = omega (arith, e, eb, ew, ap (λ x. x * c) es)

module _ (prefill : ℕ → ℕ) (decode : ℕ → ℕ → ℕ) (chunk : ℕ) (policy : Policy) (max_batch : ℕ)
    (chunked : Bool) where
  abbrev pub cap : ℕ
  cap = slots prefill decode chunk policy max_batch chunked

  -- The slots are enough for what runs, and each step has counted all of them.
  abbrev pub Books : State → Type 0
  Books st = (length st.active ≤ cap) × (st.busy + st.wasted ≡ st.steps * cap)

  can_admit-full :
      (p : Policy) (ss : List Seq)
      → can_admit prefill decode chunk policy max_batch chunked p ss ≡ false
      → 1 ≤ length ss
  can_admit-full static [] e = absurd (ground arith)
  can_admit-full static (s ∷ ss) e = omega arith
  can_admit-full unbatched ss e = absurd (ground arith)
  can_admit-full continuous ss e = absurd (ground arith)

  admit_all-some :
      (rs : List Req) (st : State)
      → 0 < cap
      → 1 ≤ length st.active + length rs
      → 1 ≤ length (admit_all prefill decode chunk policy max_batch chunked rs st).active
  unfolding admit_all
  admit_all-some [] st pos some_left = omega (arith, some_left)
  admit_all-some (r ∷ rs) st pos some_left =
      admit_all-first prefill decode chunk policy max_batch chunked r rs st pos

  admit_if-Books :
      (b : Bool) (f : Req → ℕ) (st : State)
      → 0 < cap
      → 1 ≤ length st.active + length st.queue
      → (b ≡ false → 1 ≤ length st.active)
      → Books st
      → let next = admit_if prefill decode chunk policy max_batch chunked b st in
        (held f next ≡ held f st)
        × (burden next ≤ burden st)
        × (Books next)
        × (1 ≤ length next.active)
  admit_if-Books false f st pos some_left full books = (refl, omega arith, books, full refl)
  admit_if-Books true f st pos some_left full books =
      let h = admit_all-held prefill decode chunk policy max_batch chunked f st.queue st books.0 in
      (
        h.0,
        h.1,
        (h.2, h.3 ∙ books.1 ∙ ap (λ n. n * cap) (sym h.4)),
        admit_all-some st.queue st pos some_left,
      )

  -- One step of the engine.
  decode_step-Books :
      (ss : List Seq) (f : Req → ℕ) (st : State)
      → 0 < chunk
      → 1 ≤ length ss
      → st.active ≡ ss
      → Books st
      → let next = decode_step prefill decode chunk policy max_batch chunked ss st in
        (held f next ≡ held f st) × (burden next + 1 ≤ burden st) × (Books next)
  decode_step-Books [] f st pos some_active e books = absurd (omega (arith, some_active))
  decode_step-Books (s ∷ ss) f st pos some_active e books =
      let mid = timed prefill decode chunk policy max_batch chunked st in
      let h =
        retire_held prefill decode chunk policy max_batch chunked policy f mid pos
          (subst (λ (xs : List Seq). 1 ≤ length xs) (sym e) some_active) in
      (
        h.0,
        h.1,
        (
          omega (arith, h.2, books.0),
          all_counted st.busy st.wasted st.steps (length st.active) cap _ _ _ books.0 books.1 h.3
              h.4 h.5,
        ),
      )

  -- The rounds to come: two for each unit of what is left, and one to go to the next arrival.
  abbrev pub to_go : State → ℕ
  to_go st = 2 * burden st + ahead st.pending st.t

  abbrev pub Round : (Req → ℕ) → ℕ → State → State → Type 0
  Round f n st next =
      (held f next ≡ held f st)
      × Books next
      × ((to_go next + 1 ≤ n) ⊎ ((burden next ≡ 0) × (to_go next ≡ 0)))

  pub ahead-le : (rs : List Req) (t : ℕ) → ahead rs t ≤ 1
  ahead-le [] t = omega arith
  ahead-le (r ∷ rs) t = ground arith

  step-Round :
      (f : Req → ℕ) (n : ℕ) (st : State)
      → 0 < chunk
      → 0 < cap
      → 1 ≤ length st.active + length st.queue
      → 2 * burden st ≤ n
      → Books st
      → let st2 =
          admit_if prefill decode chunk policy max_batch chunked
            (can_admit prefill decode chunk policy max_batch chunked policy st.active)
            st in
        Round f n st (decode_step prefill decode chunk policy max_batch chunked st2.active st2)
  step-Round f n st pos free some_left le books =
      let st2 =
        admit_if prefill decode chunk policy max_batch chunked
          (can_admit prefill decode chunk policy max_batch chunked policy st.active) st in
      let a =
        admit_if-Books (can_admit prefill decode chunk policy max_batch chunked policy st.active) f
          st free some_left (can_admit-full policy st.active) books in
      let d = decode_step-Books st2.active f st2 pos a.3 refl a.2 in
      let next = decode_step prefill decode chunk policy max_batch chunked st2.active st2 in
      (d.0 ∙ a.0, d.2, inl (omega (arith, d.1, a.1, le, ahead-le next.pending next.t)))

  round-Round :
      (active : List Seq) (queue pending : List Req) (f : Req → ℕ) (n : ℕ) (st : State)
      → st.active ≡ active
      → st.queue ≡ queue
      → st.pending ≡ pending
      → 0 < chunk
      → 0 < cap
      → 2 * burden st ≤ n
      → (length queue ≡ 0 → (pending ≡ []) ⊎ (2 * burden st + 1 ≤ n))
      → Books st
      → Round f n st (round prefill decode chunk policy max_batch chunked active queue pending st)
  unfolding total
  round-Round [] [] [] f n st ea eq ep pos free le idle books =
      let none_left : burden st ≡ 0 =
        omega (arith, ap (total left_of) ea, ap (total need) eq, ap (total need) ep) in
      (refl, books, inr (none_left, omega (arith, none_left, ap (λ ps. ahead ps st.t) ep)))
  round-Round [] [] (r ∷ rs) f n st ea eq ep pos free le idle books =
      let at_arrival : ahead st.pending r.arrive ≡ 0 =
        ap (λ ps. ahead ps r.arrive) ep ∙ ground arith in
      elim (idle refl) [
        | inl absent ↦ absurd (omega (arith, ap (λ (ps : List Req). length ps) absent))
        | inr le2 ↦ (refl, books, inl (omega (arith, le2, at_arrival)))
      ]
  round-Round [] (q ∷ qs) pending f n st ea eq ep pos free le idle books =
      step-Round f n st pos free (omega (arith, ap (λ (xs : List Req). length xs) eq)) le books
  round-Round (s ∷ ss) queue pending f n st ea eq ep pos free le idle books =
      step-Round f n st pos free (omega (arith, ap (λ (xs : List Seq). length xs) ea)) le books

  pub iterate-Round :
      (f : Req → ℕ) (st : State)
      → 0 < chunk
      → 0 < cap
      → Books st
      → Round f (to_go st) st (iterate prefill decode chunk policy max_batch chunked st)
  unfolding iterate
  iterate-Round f st pos free books =
      let st2 = arrive_all st.pending st in
      let rest = arrive_all-rest st.pending st in
      let b = arrive_all-burden st.pending st in
      let r =
        round-Round st2.active st2.queue st2.pending f (to_go st) st2 refl refl refl pos free
          (omega (arith, b))
          (λ e. elim (arrive_all-ahead st.pending st e) [
            | inl absent ↦ inl absent
            | inr ahead_1 ↦ inr (omega (arith, b, ahead_1))
          ])
          (
            subst (λ (xs : List Seq). length xs ≤ cap) (sym rest.0) books.0,
            all_kept st.busy st.wasted st.steps cap _ _ _ books.1 rest.2 rest.3 rest.4,
          ) in
      (r.0 ∙ arrive_all-held f st.pending st, r.1, r.2)
