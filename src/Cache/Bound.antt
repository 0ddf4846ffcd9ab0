-- ===== src/Cache/Bound.antt =====
-- The cache keeps to its capacity, and no operation raises.
use mastery.Prelude.{
  ℕ, zero, suc, ◌+◌, ◌≤◌, ◌<◌, ◌/◌, max, ◌≡◌, refl, ◌∙◌, String, Bool, true, false, Option, none,
  some, List, [], ◌∷◌, ◌++◌, length, length-append, ltb, arith, ◌⊎◌, inl, inr, if◌then◌else◌,
}
use mastery.Prelude.Dict.{lookup}
use mastery.Cache.{
  Cache, is_in, remove_first, first_of, cheapest, cheapest_of, victim, empty, drop_key, evict,
  write, put_value, invalidate, fresh, get_or_load, answer, recheck, load_value,
}
use mastery.Cache.Sound.{
  occurs, occurs-append, occurs-is_in, occurs-remove_first, length-remove_first, held,
  put_value-IsSound, invalidate-IsSound,
}

first_of-occurs : (k : String) (n : ℕ) (ks : List String) → occurs k (first_of n ks) ≤ occurs k ks
unfolding first_of occurs
first_of-occurs k zero ks = omega arith
first_of-occurs k (suc n) [] = omega arith
first_of-occurs k (suc n) (j ∷ ks) = ground (arith, first_of-occurs k n ks)

pub cheapest-occurs :
    (cost : String → ℕ) (k : String) (ks : List String) → 0 < occurs (cheapest cost k ks) (k ∷ ks)
unfolding cheapest occurs
cheapest-occurs cost k [] = ground arith
cheapest-occurs cost k (j ∷ ks) =
    ground (arith, cheapest-occurs cost (if ltb (cost j) (cost k) then j else k) ks)

-- The victim is one of the keys of the order.
abbrev Chosen : Option String → List String → Type 0
Chosen none order = ⊥
Chosen (some k) order = 0 < occurs k order

half-Chosen :
    (cost : String → ℕ) (n : ℕ) (k : String) (ks : List String)
    → 0 < n
    → Chosen (cheapest_of cost (first_of n (k ∷ ks))) (k ∷ ks)
unfolding first_of
half-Chosen cost zero k ks h = omega arith
half-Chosen cost (suc n) k ks h = omega (
  arith,
  cheapest-occurs cost k (first_of n ks),
  first_of-occurs (cheapest cost k (first_of n ks)) (suc n) (k ∷ ks),
)

victim-Chosen :
    (cost : Option (String → ℕ)) (order : List String)
    → 0 < length order
    → Chosen (victim cost order) order
unfolding victim occurs
victim-Chosen none [] h = omega arith
victim-Chosen (some cost) [] h = omega arith
victim-Chosen none (k ∷ ks) h = ground arith
victim-Chosen (some cost) (k ∷ ks) h =
    half-Chosen cost (max 1 (length (k ∷ ks) / 2)) k ks (omega arith)

moved_to_end :
    (key j : String) (order : List String)
    → is_in key order ≡ true
    → occurs j (remove_first key order ++ (key ∷ [])) ≡ occurs j order
unfolding occurs
moved_to_end key j order h = ground (
  arith,
  h,
  occurs-is_in key order,
  occurs-remove_first key j order,
  occurs-append j (remove_first key order) (key ∷ []),
)

occurs_lem : (key : String) (order : List String) → is_in key order ≡ true → 0 < occurs key order
occurs_lem key order h = ground (arith, h, occurs-is_in key order)

same_length :
    (key : String) (order : List String)
    → is_in key order ≡ true
    → length (remove_first key order ++ (key ∷ [])) ≡ length order
same_length key order h = ground (
  arith,
  length-append (remove_first key order) (key ∷ []),
  length-remove_first key order (occurs_lem key order h),
)

shorter : (key : String) (order : List String) → length (remove_first key order) ≤ length order
unfolding remove_first
shorter key [] = omega arith
shorter key (k ∷ ks) = ground (arith, shorter key ks)

pub data Op (V : Type 0) : Type 0 where
  get : String → V → ℕ → ℕ → ℕ → Op V
  put_op : String → V → ℕ → Op V
  invalidate_op : String → Op V

module _ {V : Type 0} where
  drop-shrinks :
      (v : Option String) (c : Cache V)
      → Chosen v c.order
      → (length (drop_key v c).order + 1 ≡ length c.order) × ((drop_key v c).capacity ≡ c.capacity)
  drop-shrinks none c h = absurd h
  drop-shrinks (some k) c h = (length-remove_first k c.order h, refl)

  pub length-cases : (c : Cache V) → (c.capacity < length c.order) ⊎ (length c.order ≤ c.capacity)
  length-cases c = ground arith

  evict-length :
      (n : ℕ) (c : Cache V)
      → length c.order ≤ c.capacity + n
      → (length (evict n c).order ≤ c.capacity) × ((evict n c).capacity ≡ c.capacity)
  unfolding evict
  evict-length zero c h = (omega (arith, h), refl)
  evict-length (suc n) c h = elim (length-cases c) [
    | inl l ↦
        let d =
          drop-shrinks (victim c.cost_of c.order) c
            (victim-Chosen c.cost_of c.order (omega (arith, l))) in
        ground (
          arith,
          l,
          d,
          evict-length n (drop_key (victim c.cost_of c.order) c) (omega (arith, d, h)),
        )
    | inr l ↦ ground (arith, l)
  ]

  -- What holds after each operation: it has not raised, the cache is sound and within a capacity.
  abbrev pub Holds : ℕ → Option (Cache V) → Type 0
  Holds n none = ⊥
  Holds n (some c) =
      (c.capacity ≡ n)
      × (length c.order ≤ n)
      × ((k : String) → occurs k c.order ≡ held (lookup k c.entries))

  abbrev pub cache_of : Option (Cache V × V × Bool) → Option (Cache V)
  cache_of none = none
  cache_of (some (c, v, hit)) = some c

  abbrev pub step : Op V → Cache V → Option (Cache V)
  step (get key loaded now again at) c = cache_of (get_or_load key loaded now again at c)
  step (put_op key v now) c = some (put_value key v now c)
  step (invalidate_op key) c = some (invalidate key c)

  abbrev pub then_step : Op V → Option (Cache V) → Option (Cache V)
  then_step o none = none
  then_step o (some c) = step o c

  -- The operations, the last one first.
  unfoldable pub run : List (Op V) → Option (Cache V) → Option (Cache V)
  run [] c = c
  run (o ∷ os) c = then_step o (run os c)

  put_value-Holds :
      (n : ℕ) (key : String) (v : V) (now : ℕ) (c : Cache V)
      → Holds n (some c)
      → Holds n (some (put_value key v now c))
  unfolding put_value
  put_value-Holds n key v now c h =
      let e = evict-length (length (write key v now c).order) (write key v now c) (omega arith) in
      (omega (arith, e, h.0), omega (arith, e, h.0), put_value-IsSound key v now c h.2)

  recheck-Holds :
      (n : ℕ) (key : String) (v : V) (at : ℕ) (o : Option V) (c : Cache V)
      → Holds n (some c)
      → Holds n (some (recheck key v at o c).0)
  recheck-Holds n key v at none c h = put_value-Holds n key v at c h
  recheck-Holds n key v at (some x) c h = h

  either-Holds :
      (n : ℕ) (b : Bool) (x y : Cache V × V × Bool)
      → Holds n (some x.0)
      → Holds n (some y.0)
      → Holds n (some (if b then x else y).0)
  either-Holds n true x y h k = h
  either-Holds n false x y h k = k

  tested-Holds :
      (n : ℕ) (b : Bool) (c : Cache V) (x : V)
      → b ≡ true
      → Holds n (some c)
      → Holds n (cache_of (if b then some (c, x, true) else none))
  tested-Holds n true c x e h = h
  tested-Holds n false c x e h = cc

  answer-Holds :
      (n : ℕ) (key : String) (v : V) (again at : ℕ) (o : Option V) (c : Cache V)
      → (o ≡ none) ⊎ (is_in key c.order ≡ true)
      → Holds n (some c)
      → Holds n (cache_of (answer key v again at o c))
  answer-Holds n key v again at none c p h =
      let missed : Cache V = record c { misses = c.misses + 1 } in
      either-Holds n c.single_flight (recheck key v at (fresh key again missed) missed)
        (load_value key v at missed) (recheck-Holds n key v at (fresh key again missed) missed h)
        (put_value-Holds n key v at missed h)
  answer-Holds n key v again at (some x) c (inl e) h = cc
  answer-Holds n key v again at (some x) c (inr e) h =
      tested-Holds n (is_in key c.order)
        (record c { hits = c.hits + 1; order = remove_first key c.order ++ (key ∷ []) }) x e
        (
          h.0,
          ground (arith, h, e, same_length key c.order e),
          λ j. moved_to_end key j c.order e ∙ h.2 j,
        )

  fresh_known :
      (n : ℕ) (key : String) (now : ℕ) (c : Cache V)
      → Holds n (some c)
      → (fresh key now c ≡ none) ⊎ (is_in key c.order ≡ true)
  unfolding fresh
  fresh_known n key now c h = ground (arith, h.2 key, occurs-is_in key c.order)

  invalidate-length :
      (key : String) (c : Cache V) → length (invalidate key c).order ≤ length c.order
  unfolding invalidate
  invalidate-length key c = ground (arith, shorter key c.order)

  step-Holds : (n : ℕ) (o : Op V) (c : Cache V) → Holds n (some c) → Holds n (step o c)
  unfolding get_or_load invalidate
  step-Holds n (get key v now again at) c h =
      answer-Holds n key v again at (fresh key now c) c (fresh_known n key now c h) h
  step-Holds n (put_op key v now) c h = put_value-Holds n key v now c h
  step-Holds n (invalidate_op key) c h =
      (h.0, omega (arith, h, invalidate-length key c), invalidate-IsSound key c h.2)

  then_step-Holds : (n : ℕ) (o : Op V) (c : Option (Cache V)) → Holds n c → Holds n (then_step o c)
  then_step-Holds n o none h = h
  then_step-Holds n o (some c) h = step-Holds n o c h

  -- Whatever the operations on a new cache, with either way to evict and with any clock: no
  -- operation raises, the order has no more keys than the capacity, and it has each key of the
  -- data once and no other.
  pub run-Holds :
      (capacity ttl : ℕ) (single_flight : Bool) (cost_of : Option (String → ℕ)) (ops : List (Op V))
      → Holds capacity (run ops (some (empty capacity ttl single_flight cost_of)))
  unfolding run occurs lookup
  run-Holds capacity ttl single_flight cost_of [] = (refl, omega arith, λ k. refl)
  run-Holds capacity ttl single_flight cost_of (o ∷ os) =
      then_step-Holds capacity o (run os (some (empty capacity ttl single_flight cost_of)))
        (run-Holds capacity ttl single_flight cost_of os)
