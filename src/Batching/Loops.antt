-- ===== src/Batching/Loops.antt =====
-- What admission and a step of the engine do to the requests, to what is left of them, and to the slots.
use mastery.Prelude.{
  ℕ, ◌+◌, ◌≤◌, ◌<◌, ◌≡◌, refl, Bool, true, false, List, [], ◌∷◌, ◌++◌, length, ltb, ◌==◌, arith,
  Bool-cases, inl, inr, length-append,
}
use mastery.Batching.{
  Policy, unbatched, static, continuous, Req, Seq, State, total, tick, finishes, tick_all, ended,
  going, slots_of, admitted, admit_all, retire, need,
}
use mastery.Batching.Arrivals.{total-append, held, left_of, burden}

module _ (prefill : ℕ → ℕ) (decode : ℕ → ℕ → ℕ) (chunk : ℕ) (policy : Policy) (max_batch : ℕ)
    (chunked : Bool) where
  abbrev pub slots : ℕ
  slots = slots_of prefill decode chunk policy max_batch chunked policy

  joined :
      (f : Req → ℕ) (s : Seq) (ss : List Seq)
      → (total (λ (x : Seq). f x.req) (ss ++ (s ∷ [])) ≡ total (λ (x : Seq). f x.req) ss + f s.req)
        × (total left_of (ss ++ (s ∷ [])) ≡ total left_of ss + left_of s)
        × (length (ss ++ (s ∷ [])) ≡ length ss + 1)
  unfolding total
  joined f s ss = (
    omega (arith, total-append (λ (x : Seq). f x.req) ss (s ∷ [])),
    omega (arith, total-append left_of ss (s ∷ [])),
    omega (arith, length-append ss (s ∷ [])),
  )

  admitted-held :
      (b : Bool) (f : Req → ℕ) (r : Req) (rs : List Req) (st : State)
      → let next = record (admitted prefill decode chunk policy max_batch chunked b r st) {
        queue = rs;
      } in
        let old = record st { queue = rs } in
        (held f next ≡ held f old + f r)
        × (burden next ≤ burden old + need r)
        × (length next.active ≡ length st.active + 1)
        × (next.busy + next.wasted ≡ st.busy + st.wasted)
        × (next.steps ≡ st.steps)
  admitted-held true f r rs st =
      let j = joined f _ st.active in (omega (arith, j.0), omega (arith, j.1), j.2, refl, refl)
  admitted-held false f r rs st =
      let j = joined f _ st.active in (omega (arith, j.0), omega (arith, j.1), j.2, refl, refl)

  -- Admission keeps the requests and the bound on the slots.
  pub admit_all-held :
      (f : Req → ℕ) (rs : List Req) (st : State)
      → length st.active ≤ slots
      → let next = admit_all prefill decode chunk policy max_batch chunked rs st in
        (held f next ≡ held f (record st { queue = rs }))
        × (burden next ≤ burden (record st { queue = rs }))
        × (length next.active ≤ slots)
        × (next.busy + next.wasted ≡ st.busy + st.wasted)
        × (next.steps ≡ st.steps)
        × (length st.active ≤ length next.active)
  unfolding admit_all total
  admit_all-held f [] st h = (refl, omega arith, h, refl, refl, omega arith)
  admit_all-held f (r ∷ rs) st h = elim (Bool-cases (ltb (length st.active) slots)) [
    | inl e ↦
        let one = admitted-held chunked f r rs st in
        let ih =
          admit_all-held f rs (admitted prefill decode chunk policy max_batch chunked chunked r st)
            (ground (arith, e, one.2)) in
        rw e (
          omega (arith, ih.0, one.0),
          omega (arith, ih.1, one.1),
          ih.2,
          omega (arith, ih.3, one.3),
          omega (arith, ih.4, one.4),
          omega (arith, ih.5, one.2),
        )
    | inr e ↦ rw e (refl, omega arith, h, refl, refl, omega arith)
  ]

  -- With a slot, something runs after an admission from a queue.
  pub admit_all-first :
      (r : Req) (rs : List Req) (st : State)
      → 0 < slots
      → 1 ≤ length (admit_all prefill decode chunk policy max_batch chunked (r ∷ rs) st).active
  unfolding admit_all
  admit_all-first r rs st h = elim (Bool-cases (ltb (length st.active) slots)) [
    | inl e ↦
        let one = admitted-held chunked (λ x. 0) r rs st in
        let all =
          admit_all-held (λ x. 0) rs
            (admitted prefill decode chunk policy max_batch chunked chunked r st)
            (ground (arith, e, one.2)) in
        rw e (omega (arith, all.5, one.2))
    | inr e ↦ rw e (ground (arith, e, h))
  ]

  -- One step for one sequence that it does not finish, and for any.
  tick-left :
      (t : ℕ) (s : Seq) → 0 < chunk → finishes s ≡ false → left_of (tick chunk t s) + 1 ≤ left_of s
  tick-left t s pos e = ground (arith, pos, e)

  tick-le : (t : ℕ) (s : Seq) → left_of (tick chunk t s) ≤ left_of s
  tick-le t s = ground arith

  tick-req : (f : Req → ℕ) (t : ℕ) (s : Seq) → f (tick chunk t s).req ≡ f s.req
  tick-req f t s = ground arith

  going-left :
      (f : Req → ℕ) (t : ℕ) (ss : List Seq)
      → 0 < chunk
      → (total (λ (x : Seq). f x.req) (ended chunk t ss)
            + total (λ (x : Seq). f x.req) (going chunk t ss)
          ≡ total (λ (x : Seq). f x.req) ss)
        × (total left_of (going chunk t ss) + length ss ≤ total left_of ss)
        × (length (going chunk t ss) ≤ length ss)
  unfolding total ended going
  going-left f t [] pos = (omega arith, omega arith, omega arith)
  going-left f t (s ∷ ss) pos =
      let ih = going-left f t ss pos in
      (
        ground (arith, ih.0, tick-req f t s),
        elim (Bool-cases (finishes s)) [
          | inl e ↦ rw e (omega (arith, ih.1))
          | inr e ↦ rw e (omega (arith, ih.1, tick-left t s pos e))
        ],
        ground (arith, ih.2),
      )

  tick_all-left :
      (f : Req → ℕ) (t : ℕ) (ss : List Seq)
      → 0 < chunk
      → (total (λ (x : Seq). f x.req) (tick_all chunk t ss) ≡ total (λ (x : Seq). f x.req) ss)
        × (total left_of (tick_all chunk t ss) + length ss
            ≤ total left_of ss + length (ended chunk t ss))
        × (length (tick_all chunk t ss) ≡ length ss)
        × (length (ended chunk t ss) ≤ length ss)
        × (length ss ≤ total left_of ss)
  unfolding total ended tick_all
  tick_all-left f t [] pos = (refl, omega arith, refl, omega arith, omega arith)
  tick_all-left f t (s ∷ ss) pos =
      let ih = tick_all-left f t ss pos in
      (
        omega (arith, ih.0, tick-req f t s),
        elim (Bool-cases (finishes s)) [
          | inl e ↦ rw e (omega (arith, ih.1, tick-le t s))
          | inr e ↦ rw e (omega (arith, ih.1, tick-left t s pos e))
        ],
        omega (arith, ih.2),
        ground (arith, ih.3),
        omega (arith, ih.4),
      )

  -- A step of a batch that is not empty takes something from what is left.
  abbrev pub Steps : (Req → ℕ) → State → State → Type 0
  Steps f st next =
      (held f next ≡ held f st)
      × (burden next + 1 ≤ burden st)
      × (length next.active ≤ length st.active)
      × (next.busy ≡ st.busy)
      × (next.wasted ≡ st.wasted)
      × (next.steps ≡ st.steps)

  retire_going :
      (f : Req → ℕ) (st : State)
      → 0 < chunk
      → 1 ≤ length st.active
      → Steps f st (record st {
        done = st.done ++ ended chunk st.t st.active;
        active = going chunk st.t st.active;
      })
  retire_going f st pos some_active =
      let g = going-left f st.t st.active pos in
      (
        omega
            (arith, g.0, total-append (λ (x : Seq). f x.req) st.done (ended chunk st.t st.active)),
        omega (arith, g.1, some_active),
        g.2,
        refl,
        refl,
        refl,
      )

  pub retire_held :
      (p : Policy) (f : Req → ℕ) (st : State)
      → 0 < chunk
      → 1 ≤ length st.active
      → Steps f st (retire prefill decode chunk policy max_batch chunked p st)
  unfolding total
  retire_held unbatched f st pos some_active = retire_going f st pos some_active
  retire_held continuous f st pos some_active = retire_going f st pos some_active
  retire_held static f st pos some_active =
      let a = tick_all-left f st.t st.active pos in
      elim (Bool-cases (length (ended chunk st.t st.active) == length st.active)) [
        | inl e ↦ rw e (
          omega (
            arith,
            a.0,
            total-append (λ (x : Seq). f x.req) st.done (tick_all chunk st.t st.active),
          ),
          omega (arith, a.4, some_active),
          omega arith,
          refl,
          refl,
          refl,
        )
        | inr e ↦
            rw e (
              omega (arith, a.0),
              ground (arith, a.1, a.3, e),
              omega (arith, a.2),
              refl,
              refl,
              refl,
            )
      ]
