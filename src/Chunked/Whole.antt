-- ===== src/Chunked/Whole.antt =====
-- What a client of the streams receives.
use mastery.Prelude.{
  append_nil, append_assoc, ℕ, zero, suc, ◌+◌, ◌≤◌, ◌≡◌, ◌≢◌, refl, true, Option, none, some, List,
  [], ◌∷◌, ◌++◌, length, leb, arith, ap, ◌∙◌, sym, subst, Bool-cases, inl, inr,
}
use mastery.Chunked.{
  Wire, Ending, ended, upstream_failed, os_error, fresh, written, add_chunk, chunk, closed_if,
  close, join, emptied, flushed, end_work, work_from, work_stream,
}

join-append : (xs ys : List (List ℕ)) → join (xs ++ ys) ≡ join xs ++ join ys
unfolding join
join-append [] ys = refl
join-append (x ∷ xs) ys =
    ap (λ zs. x ++ zs) (join-append xs ys) ∙ sym (append_assoc x (join xs) (join ys))

-- The units from `i` on.
unfoldable pub units_from : (ℕ → List ℕ) → ℕ → ℕ → List ℕ
units_from unit i zero = []
units_from unit i (suc n) = unit i ++ units_from unit (i + 1) n

-- What one write does: it fails only if the peer may leave, and adds the chunk.
abbrev pub Adds : List ℕ → Wire → Option Wire → Type 0
Adds bytes w none = w.room ≢ none
Adds bytes w (some v) =
    (v.chunks ≡ w.chunks ++ (bytes ∷ [])) × (v.closed ≡ w.closed) × (v.room ≢ none → w.room ≢ none)

written-Adds :
    (bytes : List ℕ) (room : Option ℕ) (w : Wire)
    → w.room ≡ room
    → Adds bytes w (add_chunk bytes (written room w))
written-Adds bytes none w e = (refl, refl, λ h. h)
written-Adds bytes (some zero) w e = λ n. cc
written-Adds bytes (some (suc m)) w e = (refl, refl, λ h n. cc)

pub chunk-Adds : (bytes : List ℕ) (w : Wire) → Adds bytes w (chunk bytes w)
unfolding chunk
chunk-Adds bytes w = written-Adds bytes w.room w refl

-- Of a stream: all of `whole` was sent, or the peer left and a first part of it was.
abbrev pub Sent : List ℕ → ℕ → Option ℕ → Wire × ℕ × Ending → Type 0
Sent whole units room (w, done, ended) =
    (join w.chunks ≡ whole) × (done ≡ units) × (w.closed ≡ true)
Sent whole units room (w, done, upstream_failed) = ⊥
Sent whole units room (w, done, os_error) =
    (room ≢ none) × (done ≤ units) × ((rest : List ℕ) × (join w.chunks ++ rest ≡ whole))

closed_if-Sent :
    (whole : List ℕ) (units : ℕ) (room : Option ℕ) (w : Wire) (r : Option ℕ)
    → w.room ≡ r
    → join w.chunks ≡ whole
    → (w.room ≢ none → room ≢ none)
    → let (v, e) = closed_if ended (written r w) w in Sent whole units room (v, units, e)
closed_if-Sent whole units room w none e j f = (j, refl, refl)
closed_if-Sent whole units room w (some zero) e j f =
    (f (λ n. cc), omega arith, ([], append_nil (join w.chunks) ∙ j))
closed_if-Sent whole units room w (some (suc m)) e j f = (j, refl, refl)

close-Sent :
    (whole : List ℕ) (units : ℕ) (room : Option ℕ) (w : Wire)
    → join w.chunks ≡ whole
    → (w.room ≢ none → room ≢ none)
    → let (v, e) = close ended w in Sent whole units room (v, units, e)
unfolding close
close-Sent whole units room w j f = closed_if-Sent whole units room w w.room refl j f

joined-Adds :
    (bytes : List ℕ) (w v : Wire)
    → v.chunks ≡ w.chunks ++ (bytes ∷ [])
    → join v.chunks ≡ join w.chunks ++ bytes
unfolding join
joined-Adds bytes w v e =
    ap join e
    ∙ join-append w.chunks (bytes ∷ [])
    ∙ ap (λ ys. join w.chunks ++ ys) (append_nil bytes)

end_pending-Sent :
    (bytes : List ℕ) (o : Option Wire) (whole : List ℕ) (units : ℕ) (room : Option ℕ) (w : Wire)
    → Adds bytes w o
    → join w.chunks ++ bytes ≡ whole
    → (w.room ≢ none → room ≢ none)
    → Sent whole units room (elim o [
      | none ↦ (w, units, os_error)
      | some v ↦ let (u, e) = close ended v in (u, units, e)
    ])
end_pending-Sent bytes none whole units room w a j f = (f a, omega arith, (bytes, j))
end_pending-Sent bytes (some v) whole units room w a j f =
    close-Sent whole units room v (joined-Adds bytes w v a.0 ∙ j) (λ h. f (a.2 h))

end_work-Sent :
    (pending : List (List ℕ)) (whole : List ℕ) (units : ℕ) (room : Option ℕ) (w : Wire)
    → join w.chunks ++ join pending ≡ whole
    → (w.room ≢ none → room ≢ none)
    → Sent whole units room (end_work pending units w)
unfolding join
end_work-Sent [] whole units room w j f =
    close-Sent whole units room w (sym (append_nil (join w.chunks)) ∙ j) f
end_work-Sent (x ∷ xs) whole units room w j f =
    end_pending-Sent (join (x ∷ xs)) (chunk (join (x ∷ xs)) w) whole units room w
      (chunk-Adds (join (x ∷ xs)) w) j f

-- What `flushed` does: nothing where it raises, else the same bytes are sent or pending.
abbrev Flushes : List (List ℕ) → Wire → Option (List (List ℕ) × Wire) → Type 0
Flushes pending w none = w.room ≢ none
Flushes pending w (some (rest, v)) =
    (join v.chunks ++ join rest ≡ join w.chunks ++ join pending) × (v.room ≢ none → w.room ≢ none)

emptied-Flushes :
    (pending : List (List ℕ)) (w : Wire) (o : Option Wire)
    → Adds (join pending) w o
    → Flushes pending w (emptied o)
unfolding join
emptied-Flushes pending w none a = a
emptied-Flushes pending w (some v) a =
    (append_nil (join v.chunks) ∙ joined-Adds (join pending) w v a.0, a.2)

flushed-Flushes :
    (flush_every : ℕ) (pending : List (List ℕ)) (w : Wire)
    → Flushes pending w (flushed flush_every pending w)
unfolding flushed
flushed-Flushes flush_every pending w = elim (Bool-cases (leb flush_every (length pending))) [
  | inl e ↦ rw e (emptied-Flushes pending w (chunk (join pending) w) (chunk-Adds (join pending) w))
  | inr e ↦ rw e (refl, λ h. h)
]

module _ (unit : ℕ → List ℕ) (flush_every : ℕ) (whole : List ℕ) (units : ℕ) (room : Option ℕ) where
  -- What was sent, what is pending and what is to come make up the whole.
  abbrev Parts : ℕ → ℕ → List (List ℕ) → Wire → Type 0
  Parts n i pending w =
      (join w.chunks ++ (join pending ++ units_from unit i n) ≡ whole)
      × (i + n ≡ units)
      × (w.room ≢ none → room ≢ none)

  next-Parts :
      (n i : ℕ) (pending rest : List (List ℕ)) (w v : Wire)
      → Parts (suc n) i pending w
      → join v.chunks ++ join rest ≡ join w.chunks ++ join (pending ++ (unit i ∷ []))
      → (v.room ≢ none → w.room ≢ none)
      → Parts n (i + 1) rest v
  unfolding units_from join
  next-Parts n i pending rest w v (j, u, f) e g = (
    sym (append_assoc (join v.chunks) (join rest) (units_from unit (i + 1) n))
        ∙ ap (λ xs. xs ++ units_from unit (i + 1) n) e
        ∙ append_assoc (join w.chunks) (join (pending ++ (unit i ∷ []))) (units_from unit (i + 1) n)
        ∙ ap (λ xs. join w.chunks ++ (xs ++ units_from unit (i + 1) n))
            (join-append pending (unit i ∷ [])
              ∙ ap (λ xs. join pending ++ xs) (append_nil (unit i)))
        ∙ ap (λ xs. join w.chunks ++ xs)
            (append_assoc (join pending) (unit i) (units_from unit (i + 1) n))
        ∙ j,
    omega (arith, u),
    λ h. f (g h),
  )

  work_from-Sent :
      (n i : ℕ) (pending : List (List ℕ)) (w : Wire)
      → Parts n i pending w
      → Sent whole units room (work_from unit flush_every n i pending w)
  unfolding work_from units_from
  work_from-Sent zero i pending w (j, u, f) =
      subst (λ k. Sent whole k room (end_work pending i w)) (omega (arith, u))
        (end_work-Sent pending whole i room w
          (ap (λ xs. join w.chunks ++ xs) (sym (append_nil (join pending))) ∙ j) f)
  work_from-Sent (suc n) i pending w (j, u, f) =
      let now = pending ++ (unit i ∷ []) in
      elim (flushed flush_every now w)
          as (λ o.
            Flushes now w o
            → Sent whole units room (elim o [
              | none ↦ (w, i + 1, os_error)
              | some (rest, v) ↦ work_from unit flush_every n (i + 1) rest v
            ])) [
              | none ↦
                  λ left. (f left, omega (arith, u), (join pending ++ units_from unit i (suc n), j))
              | some (rest, v) ↦ λ fl.
                  work_from-Sent n (i + 1) rest v
                    (next-Parts n i pending rest w v (j, u, f) fl.0 fl.1)
            ]
        (flushed-Flushes flush_every now w)

-- Whatever is flushed how often: if the stream ends, its chunks joined are the texts of all the
-- units, all were done and it is closed; it ends unless the peer leaves, and then a first part of
-- the texts was sent and no more units were done than there are.
pub work_stream-Sent :
    (unit : ℕ → List ℕ) (flush_every units : ℕ) (room : Option ℕ)
    → Sent (units_from unit 0 units) units room (work_stream unit flush_every units room)
unfolding work_stream join
work_stream-Sent unit flush_every units room =
    work_from-Sent unit flush_every (units_from unit 0 units) units room units 0 [] (fresh room)
      (refl, omega arith, λ h. h)
