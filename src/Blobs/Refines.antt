-- ===== src/Blobs/Refines.antt =====
-- The store against what it promises: a map from digests to bytes, whose entries never change.
use mastery.Prelude.{
  ℕ, ◌+◌, ◌≡◌, refl, String, String_discrete, ite, Bool, true, Option, none, some, List, [], ◌∷◌,
  sym, ap, ◌∙◌,
}
use mastery.Prelude.Dict.{lookup, lookup-put}
use mastery.Blobs.{
  Blobs, empty, Read, absent, found, put_new, put_if, put_blob, read_file, get_blob,
}
use mastery.Blobs.Intact.{Named, IsIntact, put_if-IsIntact, empty-IsIntact, read_file-found}

-- What a client asks of a store, and what it is told.
pub data Call : Type 0 where
  put : Option ℕ → List ℕ → Call
  get : String → Call

pub data Answer : Type 0 where
  stored_as : String → Answer
  gave : Read → Answer

-- The promise: a map. A put that comes to its end adds its bytes where there are none yet, and one
-- that crashes does nothing.
abbrev pub remember : Option (List ℕ) → List ℕ → String → String → Option (List ℕ) → Option (List ℕ)
remember (some old) bytes digest other now = now
remember none bytes digest other now = ite (String_discrete digest other) (some bytes) now

module _ (hash : List ℕ → String) where
  abbrev pub put_promised :
      Option ℕ → List ℕ → (String → Option (List ℕ)) → String → Option (List ℕ)
  put_promised none bytes f other = remember (f (hash bytes)) bytes (hash bytes) other (f other)
  put_promised (some n) bytes f other = f other

  abbrev pub get_promised : Option (List ℕ) → Read
  get_promised none = absent
  get_promised (some bytes) = found bytes

  unfoldable pub promised : List Call → (String → Option (List ℕ)) → List Answer
  unfolding String_discrete
  promised [] f = []
  promised (put crash_after bytes ∷ calls) f =
      stored_as (hash bytes) ∷ promised calls (put_promised crash_after bytes f)
  promised (get digest ∷ calls) f = gave (get_promised (f digest)) ∷ promised calls f

  -- The calls on a store, the first one first.
  unfoldable pub answers : List Call → Blobs → List Answer
  unfolding put_blob get_blob
  answers [] s = []
  answers (put crash_after bytes ∷ calls) s =
      let r = put_blob hash crash_after bytes s in stored_as r.1 ∷ answers calls r.0
  answers (get digest ∷ calls) s = gave (get_blob hash digest s) ∷ answers calls s

  -- The store reads as the map.
  abbrev Reads : Blobs → (String → Option (List ℕ)) → Type 0
  Reads s f = IsIntact hash s × ((digest : String) → lookup digest s.files ≡ f digest)

  put_new-files :
      (crash_after : Option ℕ) (bytes : List ℕ) (other : String) (s : Blobs)
      (f : String → Option (List ℕ))
      → lookup other s.files ≡ f other
      → f (hash bytes) ≡ none
      → lookup other (put_new hash true crash_after bytes s).files
        ≡ put_promised crash_after bytes f other
  put_new-files none bytes other s f h e =
      lookup-put (hash bytes) other bytes s.files
      ∙ ap (λ now. ite (String_discrete (hash bytes) other) (some bytes) now) h
      ∙ sym (ap (λ o. remember o bytes (hash bytes) other (f other)) e)
  put_new-files (some n) bytes other s f h e = h

  put_if-files :
      (o : Option (List ℕ)) (crash_after : Option ℕ) (bytes : List ℕ) (other : String) (s : Blobs)
      (f : String → Option (List ℕ))
      → s.atomic ≡ true
      → lookup other s.files ≡ f other
      → f (hash bytes) ≡ o
      → lookup other (put_if hash o crash_after bytes s).files
        ≡ put_promised crash_after bytes f other
  put_if-files (some old) none bytes other s f a h e =
      h ∙ sym (ap (λ o. remember o bytes (hash bytes) other (f other)) e)
  put_if-files (some old) (some n) bytes other s f a h e = h
  put_if-files none crash_after bytes other s f a h e =
      let s2 = record s { writes = s.writes + 1 } in
      ap (λ b. lookup other (put_new hash b crash_after bytes s2).files) a
      ∙ put_new-files crash_after bytes other s2 f h e

  read_file-Reads :
      (verify : Bool) (digest : String) (o : Option (List ℕ))
      → Named hash digest o
      → read_file hash verify digest o ≡ get_promised o
  read_file-Reads verify digest none h = refl
  read_file-Reads verify digest (some bytes) h = read_file-found hash verify digest bytes h

  answers-Reads :
      (calls : List Call) (s : Blobs) (f : String → Option (List ℕ))
      → Reads s f
      → answers calls s ≡ promised calls f
  unfolding answers promised put_blob get_blob
  answers-Reads [] s f h = refl
  answers-Reads (put crash_after bytes ∷ calls) s f h =
      let o = lookup (hash bytes) s.files in
      ap (λ rest. stored_as (hash bytes) ∷ rest)
        (answers-Reads calls (put_if hash o crash_after bytes s) (put_promised crash_after bytes f)
          (
            put_if-IsIntact hash o crash_after bytes s h.0,
            λ other.
                put_if-files o crash_after bytes other s f h.0.0 (h.1 other)
                  (sym (h.1 (hash bytes))),
          ))
  answers-Reads (get digest ∷ calls) s f h =
      ap (λ r. gave r ∷ answers calls s)
        (read_file-Reads s.verify digest (lookup digest s.files) (h.0.1 digest)
          ∙ ap get_promised (h.1 digest))
      ∙ ap (λ rest. gave (get_promised (f digest)) ∷ rest) (answers-Reads calls s f h)

  -- Where the temporary file is used, a new store answers any puts, crashed or not, and gets as the
  -- promised map does: a put that comes to its end keeps what it puts, unless its digest is there
  -- already, a crashed put does nothing, and no get raises an error.
  pub answers-promised :
      (verify : Bool) (calls : List Call)
      → answers calls (empty true verify) ≡ promised calls (λ digest. none)
  unfolding lookup
  answers-promised verify calls =
      answers-Reads calls (empty true verify) (λ digest. none)
        (empty-IsIntact hash verify, λ digest. refl)
