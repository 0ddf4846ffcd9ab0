-- ===== src/Streams/Committed.antt =====
-- A record is committed only if the whole text was received, was read and is valid.
use mastery.Prelude.{
  append_nil, append_assoc, ℕ, zero, suc, ◌+◌, ◌-◌, ◌≤◌, ◌<◌, ◌≡◌, ◌≢◌, refl, String, true, Option,
  none, some, List, [], ◌∷◌, ◌++◌, length, arith, Bool-cases, inl, inr, ap, ◌∙◌, sym, subst,
}
use mastery.Streams.{
  Provider, Outcome, scripted, broken, cancelled, bad_json, invalid, committed, Reading, whole,
  cut_off, failed, script_at, first_of, after, reached, items_from, stream, read_from, judged,
  parsed, conclude, received, streamed, extract_streaming,
}

first_of-after : (n : ℕ) (text : List ℕ) → first_of n text ++ after n text ≡ text
first_of-after zero text = refl
first_of-after (suc n) [] = refl
first_of-after (suc n) (c ∷ cs) = ap (λ xs. c ∷ xs) (first_of-after n cs)

length-after : (n : ℕ) (text : List ℕ) → length (after n text) ≤ length text
length-after zero text = omega arith
length-after (suc n) [] = omega arith
length-after (suc n) (c ∷ cs) = omega (arith, length-after n cs)

-- What was read: all of the text, or the stream was cut or failed for the reason given.
abbrev Reads : Option ℕ → Option ℕ → List ℕ → Reading → Type 0
Reads fail_at cancel_after text (whole buffer) = buffer ≡ text
Reads fail_at cancel_after text cut_off = cancel_after ≢ none
Reads fail_at cancel_after text failed = fail_at ≢ none

reached-some : (o : Option ℕ) (n : ℕ) → reached o n ≡ true → o ≢ none
reached-some none n e = absurd (ground arith)
reached-some (some m) n e = λ eq. cc

shorter-after :
    (chunk n c : ℕ) (cs : List ℕ)
    → 0 < chunk
    → length (c ∷ cs) ≤ suc n
    → length (after chunk (c ∷ cs)) ≤ n
shorter-after zero n c cs pos le = absurd (omega (arith, pos))
shorter-after (suc m) n c cs pos le = omega (arith, le, length-after m cs)

read_items-Reads :
    (n chunk : ℕ) (fail_at cancel_after : Option ℕ) (emitted i : ℕ) (buffer text : List ℕ)
    → 0 < chunk
    → length text ≤ n
    → Reads fail_at cancel_after
        (buffer ++ text)
        (read_from cancel_after i buffer (items_from n chunk fail_at emitted text))
unfolding read_from items_from
read_items-Reads zero chunk fail_at cancel_after emitted i buffer [] pos le =
    sym (append_nil buffer)
read_items-Reads zero chunk fail_at cancel_after emitted i buffer (c ∷ cs) pos le =
    absurd (omega (arith, le))
read_items-Reads (suc n) chunk fail_at cancel_after emitted i buffer [] pos le =
    sym (append_nil buffer)
read_items-Reads (suc n) chunk fail_at cancel_after emitted i buffer (c ∷ cs) pos le =
    let piece = first_of chunk (c ∷ cs) in
    let rest = after chunk (c ∷ cs) in
    elim (Bool-cases (reached fail_at emitted)) [
      | inl e ↦ rw e (reached-some fail_at emitted e)
      | inr e ↦ rw e (elim (Bool-cases (reached cancel_after i)) [
        | inl cut ↦ rw cut (reached-some cancel_after i cut)
        | inr on ↦ rw on (
            subst
              (λ (whole_text : List ℕ). Reads fail_at cancel_after whole_text (
                read_from cancel_after (i + 1) (buffer ++ piece)
                  (items_from n chunk fail_at (emitted + length piece) rest)))
              (append_assoc buffer piece rest
                ∙ ap (λ xs. buffer ++ xs) (first_of-after chunk (c ∷ cs)))
              (read_items-Reads n chunk fail_at cancel_after (emitted + length piece) (i + 1)
                (buffer ++ piece) rest pos (shorter-after chunk n c cs pos le)))
      ])
    ]

module _ {R : Type 0} (parse : List ℕ → Option R) (validate : R → List String) where
  -- What each outcome says; `error` is what the script holds for the call.
  abbrev pub Says : Option ℕ → Option ℕ → List ℕ → Option String → Outcome R → Type 0
  Says fail_at cancel_after text error (scripted e) = error ≡ some e
  Says fail_at cancel_after text error broken = fail_at ≢ none
  Says fail_at cancel_after text error cancelled = cancel_after ≢ none
  Says fail_at cancel_after text error bad_json = parse text ≡ none
  Says fail_at cancel_after text error (invalid vs) =
      (r : R) × ((parse text ≡ some r) × (validate r ≡ vs) × (vs ≢ []))
  Says fail_at cancel_after text error (committed r) = (parse text ≡ some r) × (validate r ≡ [])

  -- The one row that is added.
  abbrev pub row_for : String → Outcome R → List (String × R)
  row_for doc_id (committed r) = (doc_id, r) ∷ []
  row_for doc_id _ = []

  judged-Says :
      (fail_at cancel_after : Option ℕ) (text : List ℕ) (error : Option String) (doc_id : String)
      (r : R) (vs : List String) (rows : List (String × R))
      → parse text ≡ some r
      → validate r ≡ vs
      → let end = judged parse validate doc_id r vs rows in
        (end.0 ≡ rows ++ row_for doc_id end.1) × Says fail_at cancel_after text error end.1
  judged-Says fail_at cancel_after text error doc_id r [] rows p v = (refl, (p, v))
  judged-Says fail_at cancel_after text error doc_id r (w ∷ ws) rows p v =
      (sym (append_nil rows), (r, (p, v, λ e. cc)))

  parsed-Says :
      (fail_at cancel_after : Option ℕ) (text : List ℕ) (error : Option String) (doc_id : String)
      (o : Option R) (rows : List (String × R))
      → parse text ≡ o
      → let end = parsed parse validate doc_id o rows in
        (end.0 ≡ rows ++ row_for doc_id end.1) × Says fail_at cancel_after text error end.1
  parsed-Says fail_at cancel_after text error doc_id none rows p = (sym (append_nil rows), p)
  parsed-Says fail_at cancel_after text error doc_id (some r) rows p =
      judged-Says fail_at cancel_after text error doc_id r (validate r) rows p refl

  conclude-Says :
      (fail_at cancel_after : Option ℕ) (text : List ℕ) (error : Option String) (doc_id : String)
      (reading : Reading) (rows : List (String × R))
      → Reads fail_at cancel_after text reading
      → let end = conclude parse validate doc_id reading rows in
        (end.0 ≡ rows ++ row_for doc_id end.1) × Says fail_at cancel_after text error end.1
  conclude-Says fail_at cancel_after text error doc_id (whole buffer) rows h =
      subst
        (λ (b : List ℕ).
          (let end = parsed parse validate doc_id (parse b) rows in
            (end.0 ≡ rows ++ row_for doc_id end.1) × Says fail_at cancel_after text error end.1))
        (sym h) (parsed-Says fail_at cancel_after text error doc_id (parse text) rows refl)
  conclude-Says fail_at cancel_after text error doc_id cut_off rows h = (sym (append_nil rows), h)
  conclude-Says fail_at cancel_after text error doc_id failed rows h = (sym (append_nil rows), h)

  received-Says :
      (chunk : ℕ) (fail_at cancel_after : Option ℕ) (text : List ℕ) (error : Option String)
      (doc_id : String) (q : Provider) (rows : List (String × R))
      → 0 < chunk
      → let s = streamed chunk fail_at text error q in
        let end = received parse validate cancel_after doc_id s.1 s.2 rows in
        (end.0 ≡ rows ++ row_for doc_id end.1) × Says fail_at cancel_after text error end.1
  unfolding items_from
  received-Says chunk fail_at cancel_after text (some e) doc_id q rows pos =
      (sym (append_nil rows), refl)
  received-Says chunk fail_at cancel_after text none doc_id q rows pos =
      conclude-Says fail_at cancel_after text none doc_id
        (read_from cancel_after 0 [] (items_from (length text) chunk fail_at 0 text)) rows
        (read_items-Reads (length text) chunk fail_at cancel_after 0 0 [] text pos (omega arith))

  -- Whatever fails or is cancelled: a row is added only for the outcome `committed`, whose record is
  -- what the whole text reads as, and valid. Another outcome adds nothing, and says why: the script
  -- has an error for the call, the stream was to fail or to be cancelled, the whole text does not
  -- read, or what it reads as has these violations. A piece has a character at least.
  pub extract_streaming-Says :
      (chunk : ℕ) (fail_at cancel_after : Option ℕ) (doc_id : String) (text : List ℕ) (p : Provider)
      (rows : List (String × R))
      → 0 < chunk
      → let end = extract_streaming parse validate chunk fail_at cancel_after doc_id text p rows in
        (end.0 ≡ rows ++ row_for doc_id end.1)
        × Says fail_at cancel_after text (script_at p.script (p.calls + 1)) end.1
  unfolding extract_streaming stream
  extract_streaming-Says chunk fail_at cancel_after doc_id text p rows pos =
      let q = record p { calls = p.calls + 1 + 1 } in
      let here : script_at p.script (p.calls + 1 + 1 - 1) ≡ script_at p.script (p.calls + 1) =
        ap (λ n. script_at p.script n) (omega arith) in
      subst
        (λ (error : Option String).
          (let s = streamed chunk fail_at text (script_at p.script (p.calls + 1 + 1 - 1)) q in
            let end = received parse validate cancel_after doc_id s.1 s.2 rows in
            (end.0 ≡ rows ++ row_for doc_id end.1) × Says fail_at cancel_after text error end.1))
        here
        (received-Says chunk fail_at cancel_after text (script_at p.script (p.calls + 1 + 1 - 1))
          doc_id q rows pos)
