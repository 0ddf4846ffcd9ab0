-- ===== src/Cache/Recent.antt =====
-- The newest key survives the eviction that it causes.
use mastery.Prelude.{
  ℕ, zero, suc, ◌+◌, ◌≤◌, ◌<◌, ◌/◌, max, ◌≡◌, refl, ◌≢◌, sym, ap, ◌∙◌, subst, String, Bool, true,
  false, Option, none, some, List, [], ◌∷◌, ◌++◌, length, length-append, ltb, ◌||◌, ◌&&◌, arith,
  inl, inr, if◌then◌else◌,
}
use mastery.Prelude.Dict.{lookup, lookup-put_self, lookup-delete}
use mastery.Cache.{
  Cache, is_in, remove_first, first_of, cheapest_of, victim, drop_key, evict, write, put_value,
  get_or_load,
}
use mastery.Cache.Sound.{
  occurs, occurs-is_in, occurs-remove_first, held, IsSound, put_value-IsSound,
}
use mastery.Cache.Bound.{cheapest-occurs, length-cases}

older_half :
    (k : String) (n : ℕ) (xs : List String)
    → n ≤ length xs
    → occurs k xs ≡ 0
    → occurs k (first_of n (xs ++ (k ∷ []))) ≡ 0
unfolding first_of occurs
older_half k zero xs le h = refl
older_half k (suc n) [] le h = omega arith
older_half k (suc n) (x ∷ xs) le h = ground (arith, h, older_half k n xs (omega (arith, le)))

cheapest_of-other :
    (cost : String → ℕ) (k : String) (ks : List String)
    → occurs k ks ≡ 0
    → cheapest_of cost ks ≢ some k
cheapest_of-other cost k [] h e = cc
cheapest_of-other cost k (j ∷ js) h e = ground (arith, h, e, cheapest-occurs cost j js)

half_le : (n : ℕ) → 1 ≤ n → max 1 ((n + 1) / 2) ≤ n
half_le n h = omega arith

victim-other :
    (cost : Option (String → ℕ)) (k : String) (xs : List String)
    → 1 ≤ length xs
    → occurs k xs ≡ 0
    → victim cost (xs ++ (k ∷ [])) ≢ some k
unfolding victim occurs
victim-other cost k [] le h e = omega arith
victim-other none k (x ∷ xs) le h e = ground arith
victim-other (some cost) k (x ∷ xs) le h e =
    let m : ℕ = max 1 (length ((x ∷ xs) ++ (k ∷ [])) / 2) in
    cheapest_of-other cost k (first_of m ((x ∷ xs) ++ (k ∷ [])))
      (older_half k m (x ∷ xs) (omega (arith, length-append (x ∷ xs) (k ∷ []))) h) e

remove_first-last :
    (v k : String) (xs : List String)
    → v ≢ k
    → remove_first v (xs ++ (k ∷ [])) ≡ remove_first v xs ++ (k ∷ [])
unfolding remove_first
remove_first-last v k [] h = ground arith
remove_first-last v k (x ∷ xs) h = ground (arith, remove_first-last v k xs h)

held-le : {A : Type 0} (o : Option A) → held o ≤ 1
held-le none = omega arith
held-le (some a) = omega arith

taken_out :
    (k : String) (order : List String)
    → occurs k order ≤ 1
    → occurs k (if is_in k order then remove_first k order else order) ≡ 0
taken_out k order h = ground (arith, h, occurs-is_in k order, occurs-remove_first k k order)

module _ {V : Type 0} where
  -- Dropping another key keeps this one's entry, and its place at the end.
  drop_other :
      (v : Option String) (k : String) (c : Cache V) (xs : List String)
      → v ≢ some k
      → c.order ≡ xs ++ (k ∷ [])
      → occurs k xs ≡ 0
      → (ys : List String) × ((drop_key v c).order ≡ ys ++ (k ∷ []))
        × (occurs k ys ≡ 0)
        × (lookup k (drop_key v c).entries ≡ lookup k c.entries)
        × ((drop_key v c).capacity ≡ c.capacity)
  drop_other none k c xs n e h = (xs, e, h, refl, refl)
  drop_other (some v) k c xs n e h =
      let other : v ≢ k = λ same. n (ap some same) in
      (
        remove_first v xs,
        ap (remove_first v) e ∙ remove_first-last v k xs other,
        ground (arith, h, occurs-remove_first v k xs),
        ground (arith, other, lookup-delete v k c.entries),
        refl,
      )

  victim_not :
      (k : String) (c : Cache V) (xs : List String)
      → c.order ≡ xs ++ (k ∷ [])
      → occurs k xs ≡ 0
      → 1 < length c.order
      → victim c.cost_of c.order ≢ some k
  victim_not k c xs e h l =
      subst (λ o. victim c.cost_of o ≢ some k) (sym e)
        (victim-other c.cost_of k xs (omega (arith, l, ap length e, length-append xs (k ∷ []))) h)

  evict-lookup :
      (n : ℕ) (k : String) (c : Cache V) (xs : List String)
      → 1 ≤ c.capacity
      → c.order ≡ xs ++ (k ∷ [])
      → occurs k xs ≡ 0
      → lookup k (evict n c).entries ≡ lookup k c.entries
  unfolding evict
  evict-lookup zero k c xs le e h = refl
  evict-lookup (suc n) k c xs le e h = elim (length-cases c) [
    | inl l ↦
        let d =
          drop_other (victim c.cost_of c.order) k c xs
            (victim_not k c xs e h (omega (arith, l, le))) e h in
        ground (
          arith,
          l,
          d.3,
          evict-lookup n k (drop_key (victim c.cost_of c.order) c) d.0 (omega (arith, d.4, le)) d.1
              d.2,
        )
    | inr l ↦ ground (arith, l)
  ]

  dropped-fields :
      (v : Option String) (c : Cache V)
      → ((drop_key v c).ttl ≡ c.ttl) × ((drop_key v c).single_flight ≡ c.single_flight)
  dropped-fields none c = (refl, refl)
  dropped-fields (some k) c = (refl, refl)

  evict-fields :
      (n : ℕ) (c : Cache V)
      → ((evict n c).ttl ≡ c.ttl) × ((evict n c).single_flight ≡ c.single_flight)
  unfolding evict
  evict-fields zero c = (refl, refl)
  evict-fields (suc n) c = ground (
    arith,
    dropped-fields (victim c.cost_of c.order) c,
    evict-fields n (drop_key (victim c.cost_of c.order) c),
  )

  put_value-lookup :
      (key : String) (v : V) (at : ℕ) (c : Cache V)
      → IsSound c
      → 1 ≤ c.capacity
      → lookup key (put_value key v at c).entries ≡ some (v, at)
  unfolding put_value
  put_value-lookup key v at c h le =
      let d : Cache V = write key v at c in
      evict-lookup (length d.order) key d
        (if is_in key c.order then remove_first key c.order else c.order) le refl
        (taken_out key c.order (omega (arith, h key, held-le (lookup key c.entries))))
      ∙ lookup-put_self key (v, at) c.entries

  put_value-is_in :
      (key : String) (v : V) (at : ℕ) (c : Cache V)
      → IsSound c
      → 1 ≤ c.capacity
      → is_in key (put_value key v at c).order ≡ true
  put_value-is_in key v at c h le = ground (
    arith,
    put_value-lookup key v at c h le,
    put_value-IsSound key v at c h key,
    occurs-is_in key (put_value key v at c).order,
  )

  -- What the value given is, if there is one, and whether it was a hit.
  abbrev pub given : Option (Cache V × V × Bool) → Option (V × Bool)
  given none = none
  given (some (c, v, hit)) = some (v, hit)

  -- What `get_or_load` gives for a value put at `at`: the value, as long as the first look or, with
  -- single flight, the second is before its ttl has run out.
  abbrev pub due : V → V → ℕ → ℕ → ℕ → ℕ → Bool → V × Bool
  due v loaded at ttl now again single_flight =
      if ltb now (at + ttl) || (single_flight && ltb again (at + ttl))
      then (v, true)
      else (loaded, false)

  gives :
      (key : String) (v loaded : V) (at now again later : ℕ) (p : Cache V)
      → lookup key p.entries ≡ some (v, at)
      → is_in key p.order ≡ true
      → given (get_or_load key loaded now again later p)
        ≡ some (due v loaded at p.ttl now again p.single_flight)
  unfolding get_or_load
  gives key v loaded at now again later p l i = ground (arith, l, i)

  -- In a sound cache of a capacity of at least one, with either way to evict: after a `put` of a
  -- value, `get_or_load` gives that value as a hit if it looks before the ttl has run out, the second
  -- look under single flight included, and else the loader's value as a miss.
  pub put_value-get_or_load :
      (key : String) (v loaded : V) (at now again later : ℕ) (c : Cache V)
      → ((k : String) → occurs k c.order ≡ held (lookup k c.entries))
      → 1 ≤ c.capacity
      → given (get_or_load key loaded now again later (put_value key v at c))
        ≡ some (due v loaded at c.ttl now again c.single_flight)
  unfolding put_value
  put_value-get_or_load key v loaded at now again later c h le =
      let f = evict-fields (length (write key v at c).order) (write key v at c) in
      gives key v loaded at now again later (put_value key v at c)
        (put_value-lookup key v at c h le) (put_value-is_in key v at c h le)
      ∙ rw (f.0, f.1)
