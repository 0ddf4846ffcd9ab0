-- ===== src/Resilience/Limiter/TokenBucket.antt =====
-- The token bucket.
use mastery.Prelude.{
  ℕ, suc, ◌+◌, ◌-◌, ◌*◌, ◌≤◌, min, ◌≡◌, refl, ap, Bool, some, List, [], ◌∷◌, ◌++◌, length, take,
  drop, count, leb, sym, ◌∙◌, subst, arith, if◌then◌else◌, Bool-cases, inl, inr, leb→le,
}
use mastery.Resilience.Limiter.{bucket_from, token_bucket}
use mastery.Resilience.Limiter.SlidingLog.{InOrder}

abbrev pub passed : List Bool → ℕ
passed = count (λ a. a)

abbrev pub last_of : ℕ → List ℕ → ℕ
last_of last [] = last
last_of last (t ∷ ts) = last_of t ts

-- Time that passes is worth `rate` units a tick.
refill : (rate last t : ℕ) → last ≤ t → (t - last) * rate + rate * last ≡ rate * t
refill rate last t h =
    let e : t ≡ (t - last) + last = omega arith in omega (arith, ap (λ (n : ℕ). n * rate) e)

length-bucket_from :
    (unit rate capacity tokens last : ℕ) (ts : List ℕ)
    → length (bucket_from unit rate capacity tokens last ts) ≡ length ts
unfolding bucket_from
length-bucket_from unit rate capacity tokens last [] = refl
length-bucket_from unit rate capacity tokens last (t ∷ ts) =
    let filled = min capacity (tokens + (t - last) * rate) in
    ap suc (
      length-bucket_from unit rate capacity (if leb unit filled then filled - unit else filled) t
        ts)

bucket_from-spent :
    (unit rate capacity tokens last : ℕ) (ts : List ℕ)
    → InOrder last ts
    → unit * passed (bucket_from unit rate capacity tokens last ts) + rate * last
      ≤ tokens + rate * last_of last ts
unfolding bucket_from
bucket_from-spent unit rate capacity tokens last [] o = omega arith
bucket_from-spent unit rate capacity tokens last (t ∷ ts) o =
    let filled = min capacity (tokens + (t - last) * rate) in
    let gained = refill rate last t o.0 in
    elim (Bool-cases (leb unit filled)) [
      | inl enough ↦ rw enough (
          omega
            (arith, leb→le, gained, bucket_from-spent unit rate capacity (filled - unit) t ts o.1))
      | inr short ↦
          rw short (omega (arith, gained, bucket_from-spent unit rate capacity filled t ts o.1))
    ]

-- The answers to the first of the requests do not depend on the later ones.
take-bucket_from :
    (unit rate capacity tokens last : ℕ) (ts after : List ℕ)
    → take (length ts) (bucket_from unit rate capacity tokens last (ts ++ after))
      ≡ bucket_from unit rate capacity tokens last ts
unfolding bucket_from
take-bucket_from unit rate capacity tokens last [] after = refl
take-bucket_from unit rate capacity tokens last (t ∷ ts) after =
    let filled = min capacity (tokens + (t - last) * rate) in
    ap (λ flags. leb unit filled ∷ flags)
      (take-bucket_from unit rate capacity (if leb unit filled then filled - unit else filled) t ts
        after)

-- The answers to later requests are those of a bucket that is not above its capacity.
drop-bucket_from :
    (unit rate capacity tokens last : ℕ) (before ts : List ℕ)
    → tokens ≤ capacity
    → InOrder last (before ++ ts)
    → (left since : ℕ) × ((left ≤ capacity)
        × InOrder since ts
        × (since ≡ last_of last before)
        × (drop (length before) (bucket_from unit rate capacity tokens last (before ++ ts))
            ≡ bucket_from unit rate capacity left since ts))
unfolding bucket_from
drop-bucket_from unit rate capacity tokens last [] ts h o = (tokens, last, (h, o, refl, refl))
drop-bucket_from unit rate capacity tokens last (t ∷ before) ts h o =
    let filled = min capacity (tokens + (t - last) * rate) in
    drop-bucket_from unit rate capacity (if leb unit filled then filled - unit else filled) t before
      ts (ground arith) o.1

stretch-spent :
    (unit rate capacity tokens last u : ℕ) (during : List ℕ)
    → InOrder u during
    → unit * passed (bucket_from unit rate capacity tokens last (u ∷ during)) + rate * u
      ≤ capacity + rate * last_of u during
unfolding bucket_from
stretch-spent unit rate capacity tokens last u during o =
    let filled = min capacity (tokens + (u - last) * rate) in
    elim (Bool-cases (leb unit filled)) [
      | inl enough ↦
          rw enough
            (omega (arith, leb→le, bucket_from-spent unit rate capacity (filled - unit) u during o))
      | inr short ↦ rw short (omega (arith, bucket_from-spent unit rate capacity filled u during o))
    ]

InOrder-front : (since : ℕ) (ts us : List ℕ) → InOrder since (ts ++ us) → InOrder since ts
InOrder-front since [] us o = tt
InOrder-front since (t ∷ ts) us o = (o.0, InOrder-front t ts us o.1)

-- A request that comes when the refill since the one before is worth it gets through.
first-passed :
    (unit rate capacity tokens last u x : ℕ) (ts : List ℕ)
    → min capacity x ≤ min capacity (tokens + (u - last) * rate)
    → (if leb unit (min capacity x) then 1 else 0)
      ≤ passed (take 1 (bucket_from unit rate capacity tokens last (u ∷ ts)))
unfolding bucket_from
first-passed unit rate capacity tokens last u x ts h = ground (arith, h)

-- What the bucket's answers are like, over the requests `before`, `u`, `during` and `after`.
abbrev pub IsLimited : ℕ → ℕ → ℕ → List ℕ → ℕ → List ℕ → List ℕ → List Bool → Type 0
IsLimited unit rate capacity before u during after flags =
    (length flags ≡ length (before ++ (u ∷ (during ++ after))))
    × (unit * passed (take (suc (length during)) (drop (length before) flags)) + rate * u
        ≤ capacity + rate * last_of u during)

-- The request at `u` gets through if the refill since the one before it, up to the capacity, is worth
-- a request.
abbrev pub GetsThrough : ℕ → ℕ → ℕ → List ℕ → ℕ → List Bool → Type 0
GetsThrough unit rate capacity before u flags =
    (if leb unit (min capacity ((u - last_of 0 before) * rate)) then 1 else 0)
    ≤ passed (take 1 (drop (length before) flags))

bucket_from-GetsThrough :
    (unit rate capacity t : ℕ) (before : List ℕ) (u : ℕ) (ts : List ℕ)
    → InOrder t (before ++ (u ∷ ts))
    → (if leb unit (min capacity ((u - last_of t before) * rate)) then 1 else 0)
      ≤ passed (
          take 1
            (drop (length before) (bucket_from unit rate capacity capacity t (before ++ (u ∷ ts)))))
bucket_from-GetsThrough unit rate capacity t before u ts o =
    let (left, since, (within, order, previous, same)) =
      drop-bucket_from unit rate capacity capacity t before (u ∷ ts) (omega arith) o in
    subst
      (λ flags.
        (if leb unit (min capacity ((u - last_of t before) * rate)) then 1 else 0)
        ≤ passed (take 1 flags))
      (sym same)
      (subst
        (λ l.
          (if leb unit (min capacity ((u - l) * rate)) then 1 else 0)
          ≤ passed (take 1 (bucket_from unit rate capacity left since (u ∷ ts))))
        previous
        (first-passed unit rate capacity left since u ((u - since) * rate) ts (omega arith)))

from-IsLimited :
    (unit rate capacity t : ℕ) (before : List ℕ) (u : ℕ) (during after : List ℕ)
    → InOrder t (before ++ (u ∷ (during ++ after)))
    → IsLimited unit rate capacity before u during after
        (bucket_from unit rate capacity capacity t (before ++ (u ∷ (during ++ after))))
from-IsLimited unit rate capacity t before u during after o =
    let (left, since, (within, order, previous, same)) =
      drop-bucket_from unit rate capacity capacity t before (u ∷ (during ++ after)) (omega arith)
        o in
    (
      length-bucket_from unit rate capacity capacity t (before ++ (u ∷ (during ++ after))),
      subst (λ flags. unit * passed flags + rate * u ≤ capacity + rate * last_of u during)
          (sym (
            ap (take (suc (length during))) same
            ∙ take-bucket_from unit rate capacity left since (u ∷ during) after))
          (stretch-spent unit rate capacity left since u during
            (InOrder-front u during after order.1)),
    )

-- The requests come in order, and any stretch of them is looked at, from `u` over those in `during`,
-- with any requests before and after it. The bucket answers each request, and the tokens of those
-- that it lets through in the stretch are at most the capacity and the refill between the first and
-- the last of them. The request at `u` gets through if the refill since the request before it, or
-- since time 0 for the first request, is worth a request, and the capacity too.
pub token_bucket-rate :
    (unit rate capacity : ℕ) (before : List ℕ) (u : ℕ) (during after : List ℕ)
    → InOrder 0 (before ++ (u ∷ (during ++ after)))
    → (flags : List Bool) × ((token_bucket unit rate capacity (before ++ (u ∷ (during ++ after)))
          ≡ some flags)
        × IsLimited unit rate capacity before u during after flags
        × GetsThrough unit rate capacity before u flags)
unfolding token_bucket
token_bucket-rate unit rate capacity [] u during after o = (
  _,
  (
    refl,
    from-IsLimited unit rate capacity u [] u during after (omega arith, o.1),
    first-passed unit rate capacity capacity u u ((u - 0) * rate) (during ++ after) (omega arith),
  ),
)
token_bucket-rate unit rate capacity (t ∷ before) u during after o = (
  _,
  (
    refl,
    from-IsLimited unit rate capacity t (t ∷ before) u during after (omega arith, o.1),
    bucket_from-GetsThrough unit rate capacity t (t ∷ before) u (during ++ after)
        (omega arith, o.1),
  ),
)
