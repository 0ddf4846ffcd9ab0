-- ===== src/Cache/Sound.antt =====
-- The keys in order are the keys of the data, each of them once.
use mastery.Prelude.{
  ℕ, zero, suc, ◌+◌, ◌-◌, ◌<◌, ◌≡◌, refl, ◌≢◌, subst, String, String_discrete, ite, Option, none,
  some, List, [], ◌∷◌, ◌++◌, length, ltb, arith,
}
use mastery.Prelude.Dict.{lookup, lookup-put, lookup-delete}
use mastery.Cache.{
  Cache, is_in, remove_first, victim, drop_key, evict, write, put_value, invalidate,
}

-- How often a key stands in the order.
unfoldable pub occurs : String → List String → ℕ
unfolding String_discrete
occurs k [] = 0
occurs k (j ∷ js) = let rest = occurs k js in ite (String_discrete j k) (rest + 1) rest

pub occurs-append :
    (k : String) (xs ys : List String) → occurs k (xs ++ ys) ≡ occurs k xs + occurs k ys
unfolding occurs
occurs-append k [] ys = omega arith
occurs-append k (x ∷ xs) ys = ground (arith, occurs-append k xs ys)

occurs-remove_first_same :
    (k : String) (xs : List String) → occurs k (remove_first k xs) ≡ occurs k xs - 1
unfolding occurs remove_first
occurs-remove_first_same k [] = omega arith
occurs-remove_first_same k (x ∷ xs) = ground (arith, occurs-remove_first_same k xs)

occurs-remove_first_other :
    (k j : String) (xs : List String) → k ≢ j → occurs j (remove_first k xs) ≡ occurs j xs
unfolding occurs remove_first
occurs-remove_first_other k j [] h = refl
occurs-remove_first_other k j (x ∷ xs) h = ground (arith, occurs-remove_first_other k j xs h)

pub occurs-remove_first :
    (k j : String) (xs : List String)
    → occurs j (remove_first k xs) ≡ ite (String_discrete k j) (occurs j xs - 1) (occurs j xs)
occurs-remove_first k j xs = elim (String_discrete k j) [
  | yes e ↦ ground (
    arith,
    e,
    subst (λ i. occurs i (remove_first k xs) ≡ occurs i xs - 1) e (occurs-remove_first_same k xs),
  )
  | no h ↦ ground (arith, h, occurs-remove_first_other k j xs h)
]

pub occurs-is_in : (k : String) (xs : List String) → is_in k xs ≡ ltb 0 (occurs k xs)
unfolding occurs is_in
occurs-is_in k [] = refl
occurs-is_in k (x ∷ xs) = ground (arith, occurs-is_in k xs)

pub length-remove_first :
    (k : String) (xs : List String) → 0 < occurs k xs → length (remove_first k xs) + 1 ≡ length xs
unfolding occurs remove_first
length-remove_first k [] h = omega arith
length-remove_first k (x ∷ xs) h = ground (arith, length-remove_first k xs)

abbrev pub held : {A : Type 0} → Option A → ℕ
held none = 0
held (some a) = 1

module _ {V : Type 0} where
  abbrev pub IsSound : Cache V → Type 0
  IsSound c = (k : String) → occurs k c.order ≡ held (lookup k c.entries)

  pub drop_key-IsSound : (k : Option String) (c : Cache V) → IsSound c → IsSound (drop_key k c)
  drop_key-IsSound none c h j = h j
  drop_key-IsSound (some k) c h j =
      ground (arith, h j, occurs-remove_first k j c.order, lookup-delete k j c.entries)

  evict-IsSound : (n : ℕ) (c : Cache V) → IsSound c → IsSound (evict n c)
  unfolding evict
  evict-IsSound zero c h j = h j
  evict-IsSound (suc n) c h j = ground (
    arith,
    evict-IsSound n (drop_key (victim c.cost_of c.order) c)
        (drop_key-IsSound (victim c.cost_of c.order) c h) j,
    h j,
  )

  pub write-IsSound :
      (key : String) (v : V) (now : ℕ) (c : Cache V) → IsSound c → IsSound (write key v now c)
  unfolding occurs
  write-IsSound key v now c h j = ground (
    arith,
    h j,
    occurs-is_in key c.order,
    occurs-remove_first key j c.order,
    occurs-append j c.order (key ∷ []),
    occurs-append j (remove_first key c.order) (key ∷ []),
    lookup-put key j (v, now) c.entries,
  )

  pub put_value-IsSound :
      (key : String) (v : V) (now : ℕ) (c : Cache V) → IsSound c → IsSound (put_value key v now c)
  unfolding put_value
  put_value-IsSound key v now c h =
      evict-IsSound (length (write key v now c).order) (write key v now c)
        (write-IsSound key v now c h)

  pub invalidate-IsSound : (key : String) (c : Cache V) → IsSound c → IsSound (invalidate key c)
  unfolding invalidate
  invalidate-IsSound key c h j = ground (
    arith,
    h j,
    occurs-is_in key c.order,
    occurs-remove_first key j c.order,
    lookup-delete key j c.entries,
  )
