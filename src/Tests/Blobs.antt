-- ===== src/Tests/Blobs.antt =====
-- The store of modules/service-lab/storage_lab.py, where a put crashes after two bytes.
use mastery.Prelude.{
  same, ℕ, ◌≡◌, refl, String, true, false, Option, none, some, [], List, ◌∷◌, length, ◌==◌,
  if◌then◌else◌,
}
use mastery.Prelude.Dict.{lookup, put as put_key}
use mastery.Blobs.{empty, mismatch, absent, found, first_bytes, put_blob, get_blob, put_all}
use mastery.Blobs.Refines.{Call, put, get, stored_as, gave, promised, answers, answers-promised}

program : Unit {0}
unfolding lookup put_key first_bytes put_blob same get_blob put_all promised answers
program = tt

abbrev by_length : List ℕ → String
by_length bytes = if length bytes == 3 then "three" else "other"

abbrev crashed : List (Option ℕ × List ℕ)
crashed = (some 2, 7 ∷ 8 ∷ 9 ∷ []) ∷ []

-- Without the temporary file, the crash leaves two bytes under the digest of three.
torn : get_blob by_length "three" (put_all by_length crashed (empty false true)) ≡ mismatch
unfolding program
torn = refl

abbrev calls : List Call
calls =
    put (some 2) (7 ∷ 8 ∷ 9 ∷ [])
    ∷ get "three"
    ∷ put none (7 ∷ 8 ∷ 9 ∷ [])
    ∷ put none (1 ∷ 2 ∷ 3 ∷ [])
    ∷ get "three"
    ∷ []

-- The crashed put leaves nothing, and the second one under the same digest is not written.
kept :
    promised by_length calls (λ digest. none)
    ≡ stored_as "three"
      ∷ gave absent
      ∷ stored_as "three"
      ∷ stored_as "three"
      ∷ gave (found (7 ∷ 8 ∷ 9 ∷ []))
      ∷ []
unfolding program
kept = refl

answers-promised_example :
    answers by_length calls (empty true true) ≡ promised by_length calls (λ digest. none)
answers-promised_example = answers-promised by_length true calls
