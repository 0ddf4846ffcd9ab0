-- ===== src/Batching/Served.antt =====
-- Every request is served.
use mastery.Prelude.{
  ℕ, zero, suc, ◌+◌, ◌*◌, ◌≤◌, ◌<◌, ◌≡◌, refl, Bool, List, [], ◌∷◌, arith, inl, inr, ◌⊎◌, ◌==◌,
  if◌then◌else◌, ap, ◌∙◌,
}
use mastery.Batching.{Policy, Req, Seq, State, total, iterate, iterates, need, simulate}
use mastery.Batching.Arrivals.{held, burden}
use mastery.Batching.Loops.{slots}
use mastery.Batching.Rounds.{Books, to_go, ahead-le, iterate-Round}

nothing : {A : Type 0} (f : A → ℕ) (xs : List A) → total (λ x. f x + 1) xs ≡ 0 → xs ≡ []
unfolding total
nothing f [] h = refl
nothing f (x ∷ xs) h = absurd (omega (arith, h))

module _ (prefill : ℕ → ℕ) (decode : ℕ → ℕ → ℕ) (chunk : ℕ) (policy : Policy) (max_batch : ℕ)
    (chunked : Bool) where
  left_over :
      (k : ℕ) (st next : State)
      → to_go prefill decode chunk policy max_batch chunked st ≤ suc k
      → (to_go prefill decode chunk policy max_batch chunked next + 1
          ≤ to_go prefill decode chunk policy max_batch chunked st)
        ⊎ ((burden next ≡ 0) × (to_go prefill decode chunk policy max_batch chunked next ≡ 0))
      → to_go prefill decode chunk policy max_batch chunked next ≤ k
  left_over k st next le (inl h) = omega (arith, le, h)
  left_over k st next le (inr h) = omega (arith, h.1)

  iterates-Round :
      (k : ℕ) (f : Req → ℕ) (st : State)
      → 0 < chunk
      → 0 < slots prefill decode chunk policy max_batch chunked
      → Books prefill decode chunk policy max_batch chunked st
      → to_go prefill decode chunk policy max_batch chunked st ≤ k
      → let end = iterates prefill decode chunk policy max_batch chunked k st in
        (held f end ≡ held f st)
        × Books prefill decode chunk policy max_batch chunked end
        × (burden end ≡ 0)
  unfolding iterates
  iterates-Round zero f st pos free books le = (refl, books, omega (arith, le))
  iterates-Round (suc k) f st pos free books le =
      let r = iterate-Round prefill decode chunk policy max_batch chunked f st pos free books in
      let next = iterate prefill decode chunk policy max_batch chunked st in
      let ih = iterates-Round k f next pos free r.1 (left_over k st next le r.2) in
      (ih.0 ∙ r.0, ih.1, ih.2)

  -- Whatever the durations: the loop ends with nothing pending, waiting or running; each request has
  -- been served exactly as often as it stands in the trace; and the steps have counted each slot
  -- once, busy or wasted. There is a slot, and a chunk of prefill is not empty.
  pub simulate-Served :
      (reqs : List Req) (k : ℕ)
      → 0 < chunk
      → 0 < slots prefill decode chunk policy max_batch chunked
      → let end = simulate prefill decode chunk policy max_batch chunked reqs in
        (end.pending ≡ [])
        × (end.queue ≡ [])
        × (end.active ≡ [])
        × (total (λ (s : Seq). if s.req.id == k then 1 else 0) end.done
            ≡ total (λ (r : Req). if r.id == k then 1 else 0) reqs)
        × (end.busy + end.wasted ≡ end.steps * slots prefill decode chunk policy max_batch chunked)
  unfolding simulate total
  simulate-Served reqs k pos free =
      let start : State = record {
        pending = reqs;
        queue = [];
        active = [];
        done = [];
        itl = [];
        t = 0;
        steps = 0;
        busy = 0;
        wasted = 0;
        prefill_time = 0;
        decode_time = 0;
      } in
      let h =
        iterates-Round (2 * total need reqs + 1) (λ r. if r.id == k then 1 else 0) start pos free
          (omega arith, omega arith)
          (omega (arith, ahead-le prefill decode chunk policy max_batch chunked reqs 0)) in
      let end =
        iterates prefill decode chunk policy max_batch chunked (2 * total need reqs + 1) start in
      let none_pending = nothing (λ (r : Req). r.prompt + r.gen) end.pending (omega (arith, h.2)) in
      let none_waits = nothing (λ (r : Req). r.prompt + r.gen) end.queue (omega (arith, h.2)) in
      let none_runs =
        nothing (λ (s : Seq). s.prefill_left + s.left) end.active (omega (arith, h.2)) in
      (
        none_pending,
        none_waits,
        none_runs,
        omega (
          arith,
          h.0,
          ap (total (λ (r : Req). if r.id == k then 1 else 0)) none_pending,
          ap (total (λ (r : Req). if r.id == k then 1 else 0)) none_waits,
          ap (total (λ (s : Seq). if s.req.id == k then 1 else 0)) none_runs,
        ),
        h.1.1,
      )
