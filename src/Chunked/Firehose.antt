-- ===== src/Chunked/Firehose.antt =====
-- The endpoint `firehose` of modules/service-lab/http_lab.py: payloads until the budget is spent or
-- the peer leaves. It has as many rounds as the budget has bytes, which is enough for a payload of
-- one byte.
use mastery.Prelude.{
  ℕ, zero, suc, ◌+◌, ◌*◌, ◌≤◌, ◌<◌, ◌≡◌, ◌≢◌, Option, none, some, List, [], ◌∷◌, length, ltb, arith,
  Bool-cases, inl, inr, if◌then◌else◌, length-append, ap, ◌∙◌,
}
use mastery.Chunked.{Wire, Ending, ended, upstream_failed, os_error, fresh, chunk}
use mastery.Chunked.Whole.{Adds, chunk-Adds}

-- `b"x" * self.chunk_bytes`
unfoldable pub payload : ℕ → List ℕ
payload zero = []
payload (suc n) = b'x' ∷ payload n

-- The loop, with the bytes that were written; `PROBE` has these and whether there was an OSError.
abbrev pub fire_step : (Wire → Wire × ℕ × Ending) → ℕ → Wire → Option Wire → Wire × ℕ × Ending
fire_step again sent w none = (w, sent, os_error)
fire_step again sent w (some v) = again v

unfoldable pub fire_from : ℕ → ℕ → ℕ → ℕ → Wire → Wire × ℕ × Ending
unfolding chunk payload
fire_from zero size budget sent w = (w, sent, ended)
fire_from (suc n) size budget sent w =
    let rest = fire_step (fire_from n size budget (sent + size)) sent w (chunk (payload size) w) in
    if ltb sent budget then rest else (w, sent, ended)

-- `firehose`
unfoldable pub firehose : ℕ → ℕ → Option ℕ → Wire × ℕ × Ending
unfolding fire_from
firehose size budget room = fire_from budget size budget 0 (fresh room)

-- Less than a payload over the budget, which is spent unless the peer leaves; and as many bytes as
-- the chunks have.
abbrev pub Spends : ℕ → ℕ → Option ℕ → Wire × ℕ × Ending → Type 0
Spends size budget room (w, sent, ended) =
    (budget ≤ sent) × (sent < budget + size) × (sent ≡ length w.chunks * size)
Spends size budget room (w, sent, upstream_failed) = ⊥
Spends size budget room (w, sent, os_error) =
    (room ≢ none) × (sent < budget + size) × (sent ≡ length w.chunks * size)

one_more : (m size : ℕ) → (m + 1) * size ≡ m * size + size
one_more m size = grind arith

fire_from-Spends :
    (n size budget sent : ℕ) (room : Option ℕ) (w : Wire)
    → 0 < size
    → budget ≤ sent + n
    → sent < budget + size
    → sent ≡ length w.chunks * size
    → (w.room ≢ none → room ≢ none)
    → Spends size budget room (fire_from n size budget sent w)
unfolding fire_from
fire_from-Spends zero size budget sent room w pos le less e f = (omega (arith, le), less, e)
fire_from-Spends (suc n) size budget sent room w pos le less e f =
    elim (Bool-cases (ltb sent budget)) [
      | inl on ↦ rw on (
          (elim (chunk (payload size) w)
              as (λ o.
                Adds (payload size) w o
                → Spends size budget room
                    (fire_step (fire_from n size budget (sent + size)) sent w o)) [
                      | none ↦ λ left. (f left, less, e)
                      | some v ↦ λ added.
                          fire_from-Spends n size budget (sent + size) room v pos
                            (omega (arith, le, pos)) (ground (arith, on))
                            (omega (
                              arith,
                              e,
                              one_more (length w.chunks) size,
                              ap (λ (m : ℕ). m * size)
                                  (ap (λ (cs : List (List ℕ)). length cs) added.0
                                    ∙ length-append w.chunks (payload size ∷ [])),
                            ))
                            (λ h. f (added.2 h))
                    ])
            (chunk-Adds (payload size) w))
      | inr off ↦ rw off (ground (arith, off), less, e)
    ]

-- Where a payload is not empty, what `firehose` reports to have written is what its chunks have,
-- less than a payload over the budget, and the budget is spent unless the peer leaves.
pub firehose-Spends :
    (size budget : ℕ) (room : Option ℕ)
    → 0 < size
    → Spends size budget room (firehose size budget room)
unfolding firehose
firehose-Spends size budget room pos =
    fire_from-Spends budget size budget 0 room (fresh room) pos (omega arith) (omega (arith, pos))
      (omega arith) (λ h. h)
