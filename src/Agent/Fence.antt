-- ===== src/Agent/Fence.antt =====
-- What `fence` of modules/agent-workflow-lab/agent.py keeps a document from doing.
use mastery.Prelude.{
  ℕ, ◌+◌, ◌≡◌, refl, sym, ap, ◌∙◌, ◌==◌, List, [], ◌∷◌, ◌++◌, length, length-append, arith,
  if◌then◌else◌,
}
use mastery.Agent.Steps.{opening, closing, escape, fence}

-- How many of the characters are `<`.
abbrev angles : List ℕ → ℕ
angles [] = 0
angles (c ∷ cs) = (if c == b'<' then 1 else 0) + angles cs

angles-append : (us bs : List ℕ) → angles (us ++ bs) ≡ angles us + angles bs
angles-append [] bs = omega arith
angles-append (a ∷ us) bs = omega (arith, angles-append us bs)

angles-escape : (text : List ℕ) → angles (escape text) ≡ 0
unfolding escape
angles-escape [] = refl
angles-escape (c ∷ cs) = ground (arith, angles-escape cs)

first_angle :
    (us bs xs ys : List ℕ)
    → angles us ≡ 0
    → angles bs ≡ 0
    → us ++ (b'<' ∷ xs) ≡ bs ++ (b'<' ∷ ys)
    → xs ≡ ys
first_angle [] [] xs ys a b e = cc
first_angle [] (d ∷ bs) xs ys a b e = ground arith
first_angle (c ∷ us) [] xs ys a b e = ground arith
first_angle (c ∷ us) (d ∷ bs) xs ys a b e = first_angle us bs xs ys (ground arith) (ground arith) cc

longer : (xs post : List ℕ) → xs ≡ xs ++ post → post ≡ []
longer xs [] e = refl
longer xs (p ∷ post) e = ground (arith, length-append xs (p ∷ post), ap length e)

append_assoc : (us bs cs : List ℕ) → (us ++ bs) ++ cs ≡ us ++ (bs ++ cs)
append_assoc [] bs cs = refl
append_assoc (a ∷ us) bs cs = ap (λ x. a ∷ x) (append_assoc us bs cs)

-- The closing delimiter from its `<` on, and the opening one behind its `<`.
abbrev tail_of : List ℕ → List ℕ
tail_of [] = []
tail_of (c ∷ cs) = cs

abbrev closing_rest : List ℕ
closing_rest = tail_of (tail_of closing)

abbrev opening_rest : List ℕ
opening_rest = tail_of opening

split_at_end :
    (body pre post : List ℕ)
    → angles body ≡ 0
    → body ++ closing ≡ pre ++ (closing ++ post)
    → post ≡ []
split_at_end body pre post h e =
    let count = ap angles e in
    longer closing_rest post (
      first_angle (body ++ (10 ∷ [])) (pre ++ (10 ∷ [])) closing_rest (closing_rest ++ post)
        (omega (arith, angles-append body (10 ∷ []), h))
        (omega (
          arith,
          angles-append pre (10 ∷ []),
          angles-append pre (closing ++ post),
          angles-append body closing,
          h,
          count,
        ))
        (append_assoc body (10 ∷ []) (tail_of closing)
          ∙ e
          ∙ sym (append_assoc pre (10 ∷ []) (tail_of closing ++ post))))

-- Wherever the closing delimiter stands in a fenced text, it is at its end: no text of a document
-- can close its own fence.
pub fence-closing : (text pre post : List ℕ) → fence text ≡ pre ++ (closing ++ post) → post ≡ []
unfolding fence
fence-closing text [] post e = ground arith
fence-closing text (c ∷ pre) post e =
    split_at_end (opening_rest ++ escape text) pre post (omega (arith, angles-escape text))
      (ap tail_of e)
