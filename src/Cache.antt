-- ===== src/Cache.antt =====
-- The class `Cache` of modules/service-lab/cache_lab.py, as one thread uses it: the locks are left
-- out. Each reading of `time.time()` is an argument, in ticks, and so is what the loader returns;
-- a loaded value is not None.
pub mod Sound
pub mod Bound
pub mod Recent
use mastery.Prelude.{
  ℕ, zero, suc, ◌+◌, ◌/◌, max, String, String_discrete, ite, Bool, true, false, Option, none, some,
  List, [], ◌∷◌, ◌++◌, length, ltb, if◌then◌else◌,
}
use mastery.Prelude.Dict.{lookup, put, delete}

pub record Cache (V : Type 0) : Type 0 where
  pub capacity : ℕ
  pub ttl : ℕ
  pub single_flight : Bool
  pub cost_of : Option (String → ℕ)
  pub entries : List (String × (V × ℕ))
  pub order : List String
  pub hits : ℕ
  pub misses : ℕ

-- `key in self.order`
unfoldable pub is_in : String → List String → Bool
unfolding String_discrete
is_in k [] = false
is_in k (j ∷ js) = ite (String_discrete j k) true (is_in k js)

-- `self.order.remove(key)`, on a key that is there: each call of it stands behind a test.
unfoldable pub remove_first : String → List String → List String
unfolding String_discrete
remove_first k [] = []
remove_first k (j ∷ js) = ite (String_discrete j k) js (j ∷ remove_first k js)

unfoldable pub first_of : ℕ → List String → List String
first_of zero ks = []
first_of (suc n) [] = []
first_of (suc n) (k ∷ ks) = k ∷ first_of n ks

-- `min(half, key=self.cost_of)`, the first of the cheapest.
unfoldable pub cheapest : (String → ℕ) → String → List String → String
cheapest cost k [] = k
cheapest cost k (j ∷ js) = cheapest cost (if ltb (cost j) (cost k) then j else k) js

abbrev pub cheapest_of : (String → ℕ) → List String → Option String
cheapest_of cost [] = none
cheapest_of cost (k ∷ ks) = some (cheapest cost k ks)

abbrev pub head_of : List String → Option String
head_of [] = none
head_of (k ∷ ks) = some k

-- The key that a round of the loop drops: the first, or the cheapest of the older half.
unfoldable pub victim : Option (String → ℕ) → List String → Option String
unfolding first_of cheapest
victim none order = head_of order
victim (some cost) order = cheapest_of cost (first_of (max 1 (length order / 2)) order)

abbrev pub to_end : String → List String → List String
to_end key order = (if is_in key order then remove_first key order else order) ++ (key ∷ [])

module _ {V : Type 0} where
  abbrev pub empty : ℕ → ℕ → Bool → Option (String → ℕ) → Cache V
  empty capacity ttl single_flight cost_of = record {
    capacity = capacity;
    ttl = ttl;
    single_flight = single_flight;
    cost_of = cost_of;
    entries = [];
    order = [];
    hits = 0;
    misses = 0;
  }

  abbrev pub drop_key : Option String → Cache V → Cache V
  drop_key none c = c
  drop_key (some k) c = record c { order = remove_first k c.order; entries = delete k c.entries }

  -- The `while`, with as many rounds as there are keys at most.
  unfoldable pub evict : ℕ → Cache V → Cache V
  unfolding victim remove_first delete
  evict zero c = c
  evict (suc n) c =
      let rest = evict n (drop_key (victim c.cost_of c.order) c) in
      if ltb c.capacity (length c.order) then rest else c

  -- `put` before the loop.
  abbrev pub write : String → V → ℕ → Cache V → Cache V
  write key value now c = record c {
    entries = put key (value, now) c.entries;
    order = to_end key c.order;
  }

  unfoldable pub put_value : String → V → ℕ → Cache V → Cache V
  unfolding is_in put evict
  put_value key value now c = evict (length (write key value now c).order) (write key value now c)

  unfoldable pub invalidate : String → Cache V → Cache V
  unfolding is_in remove_first delete
  invalidate key c = record c {
    entries = delete key c.entries;
    order = if is_in key c.order then remove_first key c.order else c.order;
  }

  abbrev pub young : ℕ → ℕ → Option (V × ℕ) → Option V
  young ttl now none = none
  young ttl now (some (v, at)) = if ltb now (at + ttl) then some v else none

  -- `_fresh`; `now - at < ttl` is written as a sum.
  unfoldable pub fresh : String → ℕ → Cache V → Option V
  unfolding lookup
  fresh key now c = young c.ttl now (lookup key c.entries)

  abbrev pub load_value : String → V → ℕ → Cache V → Cache V × V × Bool
  load_value key loaded at c = (put_value key loaded at c, loaded, false)

  abbrev pub recheck : String → V → ℕ → Option V → Cache V → Cache V × V × Bool
  recheck key loaded at (some v) c = (c, v, true)
  recheck key loaded at none c = load_value key loaded at c

  -- A hit, at which `remove` raises if the key is not in the order, or a miss. The clock is read
  -- for the first look, for the look under the key's lock, and by `put`.
  abbrev pub answer : String → V → ℕ → ℕ → Option V → Cache V → Option (Cache V × V × Bool)
  answer key loaded again at (some v) c =
      if is_in key c.order
      then some
          (record c { hits = c.hits + 1; order = remove_first key c.order ++ (key ∷ []) }, v, true)
      else none
  answer key loaded again at none c =
      let missed = record c { misses = c.misses + 1 } in
      some (
        if c.single_flight
        then recheck key loaded at (fresh key again missed) missed
        else load_value key loaded at missed)

  unfoldable pub get_or_load : String → V → ℕ → ℕ → ℕ → Cache V → Option (Cache V × V × Bool)
  unfolding fresh put_value is_in remove_first
  get_or_load key loaded now again at c = answer key loaded again at (fresh key now c) c
