-- ===== src/Chunked/Records.antt =====
-- What a client of `records` receives that stays to the end.
use mastery.Prelude.{
  append_nil, append_assoc, ℕ, suc, ◌+◌, ◌≡◌, refl, Bool, true, false, ◌&&◌, Option, none, some,
  List, [], ◌∷◌, ◌++◌, length, if◌then◌else◌, arith, ap, ◌∙◌, sym,
}
use mastery.Chunked.{
  Wire, Ending, ended, upstream_failed, chunk, close, fails_at, try_record, records_from,
  end_records, records,
}

-- The records before the failure, and whether they are all.
abbrev pub before : Option ℕ → ℕ → List (List ℕ) → List (List ℕ)
before fail_after i [] = []
before fail_after i (doc ∷ docs) =
    let rest = before fail_after (i + 1) docs in if fails_at fail_after i then [] else doc ∷ rest

abbrev pub is_whole : Option ℕ → ℕ → List (List ℕ) → Bool
is_whole fail_after i [] = true
is_whole fail_after i (doc ∷ docs) =
    let rest = is_whole fail_after (i + 1) docs in if fails_at fail_after i then false else rest

abbrev wire : List (List ℕ) → Wire
wire cs = record { room = none; chunks = cs; closed = false }

abbrev ending : Bool → Ending
ending b = if b then ended else upstream_failed

abbrev at_end : List (List ℕ) → ℕ → Ending → Wire × ℕ × Ending
at_end cs n e = (wire cs, n, e)

abbrev closed_with : Ending → List (List ℕ) → Wire × Ending
closed_with e cs = (record { room = none; chunks = cs; closed = true }, e)

same_wire :
    (xs ys : List (List ℕ)) (n m : ℕ) (e : Ending) → xs ≡ ys → n ≡ m → at_end xs n e ≡ at_end ys m e
same_wire xs ys n m e h k = ap (λ zs. at_end zs n e) h ∙ ap (λ j. at_end ys j e) k

records_from-before :
    (fail_after : Option ℕ) (docs : List (List ℕ)) (i : ℕ) (cs : List (List ℕ))
    → records_from fail_after i docs (wire cs) ≡ (
      wire (cs ++ before fail_after i docs),
      i + length (before fail_after i docs),
      ending (is_whole fail_after i docs),
    )
unfolding records_from chunk
records_from-before fail_after [] i cs =
    same_wire cs (cs ++ []) i (i + 0) ended (sym (append_nil cs)) (omega arith)
records_from-before fail_after (doc ∷ docs) i cs =
    let rest = before fail_after (i + 1) docs in
    elim (fails_at fail_after i)
      as (λ b.
        (elim (try_record b doc (wire cs)).0 [
          | none ↦ (wire cs, i, (try_record b doc (wire cs)).1)
          | some v ↦ records_from fail_after (i + 1) docs v
        ])
        ≡ at_end (cs ++ (if b then [] else doc ∷ rest)) (i + length (if b then [] else doc ∷ rest))
            (ending (if b then false else is_whole fail_after (i + 1) docs))) [
              | true ↦
                  same_wire cs (cs ++ []) i (i + 0) upstream_failed (sym (append_nil cs))
                    (omega arith)
              | false ↦
                  records_from-before fail_after docs (i + 1) (cs ++ (doc ∷ []))
                  ∙ same_wire ((cs ++ (doc ∷ [])) ++ rest) (cs ++ (doc ∷ rest))
                      (i + 1 + length rest) (i + suc (length rest))
                      (ending (is_whole fail_after (i + 1) docs)) (append_assoc cs (doc ∷ []) rest)
                      (omega arith)
            ]

closed_wire : (cs : List (List ℕ)) (e : Ending) → closed_with e cs ≡ closed_with e (cs ++ [])
closed_wire cs e = ap (closed_with e) (sym (append_nil cs))

end_records-before :
    (sentinel all : Bool) (line : List ℕ) (sent : ℕ) (cs : List (List ℕ))
    → end_records sentinel line (wire cs, sent, ending all) ≡ (
      record {
        room = none;
        chunks = cs ++ (if sentinel && all then line ∷ [] else []);
        closed = true;
      },
      ending all,
    )
unfolding close chunk
end_records-before true true line sent cs = refl
end_records-before false true line sent cs = closed_wire cs ended
end_records-before true false line sent cs = closed_wire cs upstream_failed
end_records-before false false line sent cs = closed_wire cs upstream_failed

characterized :
    (fail_after : Option ℕ) (sentinel : Bool) (line : List ℕ) (docs : List (List ℕ))
    → records fail_after sentinel line docs none ≡ (
      record {
        room = none;
        chunks =
            before fail_after 0 docs
            ++ (if sentinel && is_whole fail_after 0 docs then line ∷ [] else []);
        closed = true;
      },
      ending (is_whole fail_after 0 docs),
    )
unfolding records
characterized fail_after sentinel line docs =
    ap (end_records sentinel line) (records_from-before fail_after docs 0 [])
    ∙ end_records-before sentinel (is_whole fail_after 0 docs) line
        (0 + length (before fail_after 0 docs)) (before fail_after 0 docs)

-- Without a failure all are sent.
before-none : (docs : List (List ℕ)) (i : ℕ) → before none i docs ≡ docs
before-none [] i = refl
before-none (doc ∷ docs) i = ap (λ xs. doc ∷ xs) (before-none docs (i + 1))

-- To a client that stays to the end, `records` sends the records before the failure, then the
-- sentinel if it is asked for and nothing failed, and closes the stream in either case. Without the
-- sentinel, a stream that failed is the stream of just those records.
pub records-before :
    (fail_after : Option ℕ) (sentinel : Bool) (line : List ℕ) (docs : List (List ℕ))
    → ((records fail_after sentinel line docs none).0 ≡ record {
      room = none;
      chunks =
          before fail_after 0 docs
          ++ (if sentinel && is_whole fail_after 0 docs then line ∷ [] else []);
      closed = true;
    })
      × ((records fail_after false line docs none).0
          ≡ (records none false line (before fail_after 0 docs) none).0)
unfolding records
records-before fail_after sentinel line docs =
    let sent = before fail_after 0 docs in
    (
      ap (λ p. p.0) (characterized fail_after sentinel line docs),
      ap (λ p. p.0) (characterized fail_after false line docs)
          ∙ ap (λ xs. record { room = none; chunks = xs ++ []; closed = true })
              (sym (before-none sent 0))
          ∙ sym (ap (λ p. p.0) (characterized none false line sent)),
    )
