-- ===== src/Agent/Loop/Bounds.antt =====
-- What the loop keeps whatever the planner chooses.
use mastery.Prelude.{
  ℕ, zero, suc, ◌+◌, ◌-◌, ◌≤◌, max, ◌≡◌, refl, String, List, [], ◌∷◌, ◌++◌, length, subst,
  length-append, arith, ◌⊎◌, inl, inr,
}
use mastery.Agent.{Event, total_cost}
use mastery.Agent.Steps.{World, Shared, Result, ok, halted, extract_estimate}
use mastery.Agent.Loop.{
  Action, do_retrieve, do_extract, Progress, start, Turn, next, done, take_action, rounds,
  run_agent, go_on, Ended,
}

pub total_cost-append : (es fs : List Event) → total_cost (es ++ fs) ≡ total_cost es + total_cost fs
unfolding total_cost
total_cost-append [] fs = omega arith
total_cost-append (e ∷ es) fs = omega (arith, total_cost-append es fs)

-- The trace accounts for the money and has at most `n` entries. The limits stay as they are. The
-- calls stay within the budget, or as many as they were. The cost stays what it was, or at most the
-- limit and the price of an answer less its estimate. If there was a call, the clock was within the
-- limit when the last one was allowed.
pub record Accounts {R : Type 0} (w : World R) (doc_id : String) (n : ℕ) (s : Shared R)
    (es : List Event) (t : Shared R) : Type 0 where
  pub money : t.budget.cost ≡ s.budget.cost + total_cost es
  pub entries : length es ≤ n
  pub same_calls : t.budget.max_calls ≡ s.budget.max_calls
  pub same_cost : t.budget.max_cost ≡ s.budget.max_cost
  pub same_end : t.budget.started + t.budget.max_seconds ≡ s.budget.started + s.budget.max_seconds
  pub within : t.budget.calls ≤ max s.budget.calls s.budget.max_calls
  pub affordable :
      t.budget.cost + extract_estimate
      ≤ max (s.budget.cost + extract_estimate) (s.budget.max_cost + (w.answer doc_id).1)
  pub in_time :
      (t.budget.calls ≡ s.budget.calls)
      ⊎ (w.clock (t.budget.calls - 1) ≤ s.budget.started + s.budget.max_seconds)

module _ {R : Type 0} (w : World R) (doc_id key : String) where
  in_time_after :
      (c d e limit : ℕ)
      → (d ≡ c) ⊎ (w.clock (d - 1) ≤ limit)
      → (e ≡ d) ⊎ (w.clock (e - 1) ≤ limit)
      → (e ≡ c) ⊎ (w.clock (e - 1) ≤ limit)
  in_time_after c d e limit (inl h) (inl k) = inl (omega (arith, h, k))
  in_time_after c d e limit (inr h) (inl k) =
      inr (subst (λ x. w.clock (x - 1) ≤ limit) {x = d} {y = e} (omega (arith, k)) h)
  in_time_after c d e limit h (inr k) = inr k

  Accounts-append :
      {n m : ℕ} {s t u : Shared R} {es fs : List Event}
      → Accounts w doc_id n s es t
      → Accounts w doc_id m t fs u
      → Accounts w doc_id (n + m) s (es ++ fs) u
  Accounts-append {s} {t} {u} {es} {fs} a b = record {
    money = omega (arith, a, b, total_cost-append es fs);
    entries = omega (arith, a, b, length-append es fs);
    same_calls = omega (arith, a, b);
    same_cost = omega (arith, a, b);
    same_end = omega (arith, a, b);
    within = ground (arith, a, b);
    affordable = omega (arith, a.affordable, b.affordable, a.same_cost);
    in_time =
        in_time_after s.budget.calls t.budget.calls u.budget.calls
          (s.budget.started + s.budget.max_seconds) a.in_time
          (subst (λ l. (u.budget.calls ≡ t.budget.calls) ⊎ (w.clock (u.budget.calls - 1) ≤ l))
            a.same_end b.in_time);
  }

  nothing_done : (n : ℕ) (u : Shared R) → Accounts w doc_id n u [] u
  unfolding total_cost
  nothing_done n u = record {
    money = omega arith;
    entries = omega arith;
    same_calls = refl;
    same_cost = refl;
    same_end = refl;
    within = omega arith;
    affordable = omega arith;
    in_time = inl refl;
  }

  more_entries :
      {n m : ℕ} {s t : Shared R} {es : List Event}
      → n ≤ m
      → Accounts w doc_id n s es t
      → Accounts w doc_id m s es t
  more_entries le h = record {
    money = h.money;
    entries = omega (arith, h.entries, le);
    same_calls = h.same_calls;
    same_cost = h.same_cost;
    same_end = h.same_end;
    within = h.within;
    affordable = h.affordable;
    in_time = h.in_time;
  }

  go_on-Accounts :
      (n m : ℕ) (p : Progress R) (s : Shared R) (r : Result (Turn R)) (es : List Event)
      (t : Shared R) (again : Progress R → Shared R → Ended R)
      → Accounts w doc_id n s es t
      → ((q : Progress R) (u : Shared R) → Accounts w doc_id m u (again q u).1 (again q u).2)
      → Accounts w doc_id (n + m) s (go_on p again (r, es, t)).1 (go_on p again (r, es, t)).2
  go_on-Accounts n m p s (ok (next q)) es t again h k = Accounts-append h (k q t)
  go_on-Accounts n m p s (ok (done o q)) es t again h k = more_entries (omega arith) h
  go_on-Accounts n m p s (halted x) es t again h k = more_entries (omega arith) h

  take_action-Accounts :
      (a : Action) (p : Progress R) (s : Shared R)
      → Accounts w doc_id 1 s (take_action w doc_id key a p s).1 (take_action w doc_id key a p s).2
  unfolding take_action total_cost
  take_action-Accounts do_retrieve p s = ground arith
  take_action-Accounts do_extract p s = ground arith
  take_action-Accounts _ p s = ground arith

  module _ (choose : ℕ → Progress R → Action) where
    rounds-Accounts :
        (left : ℕ) (p : Progress R) (s : Shared R)
        → Accounts w doc_id left s
            (rounds w doc_id key choose left p s).1
            (rounds w doc_id key choose left p s).2
    unfolding rounds
    rounds-Accounts zero p s = nothing_done 0 s
    rounds-Accounts (suc left) p s =
        let (r, es, t) = take_action w doc_id key (choose left p) p s in
        let all =
          go_on-Accounts 1 left p s r es t (rounds w doc_id key choose left)
            (take_action-Accounts (choose left p) p s) (rounds-Accounts left) in
        more_entries (omega arith) all

    -- Whatever the planner chooses, a run of the loop makes at most twelve steps and its trace
    -- accounts for each unit spent. The calls never exceed the budget's count, or what they were
    -- before. The cost stays what it was, or is at most the limit and the price of the document's
    -- answer less the estimate. If there was a call, the clock was within the limit when the last one
    -- was allowed.
    pub run_agent-Accounts :
        (s : Shared R)
        → Accounts w doc_id 12 s
            (run_agent w doc_id key choose s).1
            (run_agent w doc_id key choose s).2
    unfolding run_agent
    run_agent-Accounts s = rounds-Accounts 12 start s
