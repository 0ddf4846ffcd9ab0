-- ===== src/Blobs/Intact.antt =====
-- With the temporary file, no crash of a `put` can be seen.
use mastery.Prelude.{
  same, ℕ, ◌+◌, ◌≡◌, refl, String, String_discrete, ite, Bool, true, false, Option, none, some,
  List, [], ◌∷◌, arith, subst, ◌⊎◌, inl, inr, sym, ap,
}
use mastery.Prelude.Dict.{lookup, lookup-put}
use mastery.Blobs.{
  Blobs, empty, Read, absent, found, put_new, put_if, put_blob, read_file, get_blob, put_all,
  written,
}

module _ (hash : List ℕ → String) where
  -- A file has the content that its name says.
  abbrev pub Named : String → Option (List ℕ) → Type 0
  Named digest none = Unit
  Named digest (some bytes) = hash bytes ≡ digest

  abbrev pub IsIntact : Blobs → Type 0
  IsIntact s = (s.atomic ≡ true) × ((digest : String) → Named digest (lookup digest s.files))

  put_file-Named :
      (bytes : List ℕ) (digest : String) (o : Option (List ℕ))
      → Named digest o
      → Named digest (ite (String_discrete (hash bytes) digest) (some bytes) o)
  put_file-Named bytes digest o h =
      elim (String_discrete (hash bytes) digest) as (λ d. Named digest (ite d (some bytes) o)) [
        | yes e ↦ e
        | no n ↦ h
      ]

  put_new-IsIntact :
      (crash_after : Option ℕ) (bytes : List ℕ) (s : Blobs)
      → IsIntact s
      → IsIntact (put_new hash true crash_after bytes s)
  put_new-IsIntact none bytes s h = (
    h.0,
    λ digest.
        subst (Named digest) (sym (lookup-put (hash bytes) digest bytes s.files))
          (put_file-Named bytes digest (lookup digest s.files) (h.1 digest)),
  )
  put_new-IsIntact (some n) bytes s h = h

  pub put_if-IsIntact :
      (o : Option (List ℕ)) (crash_after : Option ℕ) (bytes : List ℕ) (s : Blobs)
      → IsIntact s
      → IsIntact (put_if hash o crash_after bytes s)
  put_if-IsIntact (some old) crash_after bytes s h = h
  put_if-IsIntact none crash_after bytes s h =
      subst
        (λ (a : Bool).
          IsIntact (put_new hash a crash_after bytes (record s { writes = s.writes + 1 })))
        (sym h.0) (put_new-IsIntact crash_after bytes (record s { writes = s.writes + 1 }) h)

  put_all-IsIntact :
      (puts : List (Option ℕ × List ℕ)) (s : Blobs) → IsIntact s → IsIntact (put_all hash puts s)
  unfolding put_all put_blob
  put_all-IsIntact [] s h = h
  put_all-IsIntact ((crash_after, bytes) ∷ rest) s h =
      put_if-IsIntact (lookup (hash bytes) (put_all hash rest s).files) crash_after bytes
        (put_all hash rest s) (put_all-IsIntact rest s h)

  -- Whether the file is there.
  abbrev stored : Option (List ℕ) → Bool
  stored none = false
  stored (some bytes) = true

  put_new-stored :
      (atomic : Bool) (crash_after : Option ℕ) (bytes : List ℕ) (digest : String) (s : Blobs)
      → stored (lookup digest s.files) ≡ true
      → stored (lookup digest (put_new hash atomic crash_after bytes s).files) ≡ true
  put_new-stored true none bytes digest s h =
      ground (arith, lookup-put (hash bytes) digest bytes s.files)
  put_new-stored true (some n) bytes digest s h = h
  put_new-stored false crash_after bytes digest s h =
      ground (arith, lookup-put (hash bytes) digest (written crash_after bytes) s.files)

  put_if-stored :
      (o : Option (List ℕ)) (crash_after : Option ℕ) (bytes : List ℕ) (digest : String) (s : Blobs)
      → stored (lookup digest s.files) ≡ true
      → stored (lookup digest (put_if hash o crash_after bytes s).files) ≡ true
  put_if-stored (some old) crash_after bytes digest s h = h
  put_if-stored none crash_after bytes digest s h =
      put_new-stored s.atomic crash_after bytes digest (record s { writes = s.writes + 1 }) h

  put_all-stored :
      (puts : List (Option ℕ × List ℕ)) (digest : String) (s : Blobs)
      → stored (lookup digest s.files) ≡ true
      → stored (lookup digest (put_all hash puts s).files) ≡ true
  unfolding put_all put_blob
  put_all-stored [] digest s h = h
  put_all-stored ((crash_after, bytes) ∷ rest) digest s h =
      put_if-stored (lookup (hash bytes) (put_all hash rest s).files) crash_after bytes digest
        (put_all hash rest s) (put_all-stored rest digest s h)

  put_if-own :
      (atomic : Bool) (o : Option (List ℕ)) (bytes : List ℕ) (s : Blobs)
      → lookup (hash bytes) s.files ≡ o
      → stored (lookup (hash bytes) (put_if hash o none bytes (record s { atomic = atomic })).files)
        ≡ true
  put_if-own atomic (some old) bytes s h = ap stored h
  put_if-own true none bytes s h =
      ground (arith, lookup-put (hash bytes) (hash bytes) bytes s.files)
  put_if-own false none bytes s h =
      ground (arith, lookup-put (hash bytes) (hash bytes) bytes s.files)

  -- What `get` may answer: nothing there, or bytes with that digest.
  abbrev pub Answers : String → Read → Type 0
  Answers digest r = (r ≡ absent) ⊎ ((bytes : List ℕ) × ((r ≡ found bytes) × (hash bytes ≡ digest)))

  pub read_file-found :
      (verify : Bool) (digest : String) (bytes : List ℕ)
      → hash bytes ≡ digest
      → read_file hash verify digest (some bytes) ≡ found bytes
  unfolding same
  read_file-found verify digest bytes h = ground arith

  read_file-Answers :
      (verify : Bool) (digest : String) (o : Option (List ℕ))
      → Named digest o
      → Answers digest (read_file hash verify digest o)
  read_file-Answers verify digest none h = inl refl
  read_file-Answers verify digest (some bytes) h =
      inr (bytes, (read_file-found verify digest bytes h, h))

  read_file-readable :
      (verify : Bool) (digest : String) (o : Option (List ℕ))
      → Named digest o
      → stored o ≡ true
      → (bytes : List ℕ) × ((read_file hash verify digest o ≡ found bytes) × (hash bytes ≡ digest))
  read_file-readable verify digest none h e = absurd (ground arith)
  read_file-readable verify digest (some bytes) h e =
      (bytes, (read_file-found verify digest bytes h, h))

  pub empty-IsIntact : (verify : Bool) → IsIntact (empty true verify)
  unfolding lookup
  empty-IsIntact verify = (refl, λ digest. tt)

  -- Where the temporary file is used, whatever was put before and however it crashed, `get` of any
  -- digest answers that nothing is there or gives bytes with that digest, never an error.
  pub put_all-get_blob :
      (verify : Bool) (puts : List (Option ℕ × List ℕ)) (digest : String)
      → Answers digest (get_blob hash digest (put_all hash puts (empty true verify)))
  unfolding get_blob
  put_all-get_blob verify puts digest =
      let s = put_all hash puts (empty true verify) in
      read_file-Answers s.verify digest (lookup digest s.files)
        ((put_all-IsIntact puts (empty true verify) (empty-IsIntact verify)).1 digest)

  -- Where the temporary file is used, once a `put` has returned, `get` of its digest gives bytes
  -- with that digest, whatever is put before and after and however it crashes.
  pub put_all-put_blob :
      (verify : Bool) (before after : List (Option ℕ × List ℕ)) (bytes : List ℕ)
      → (x : List ℕ) × ((get_blob hash
              (put_blob hash none bytes (put_all hash before (empty true verify))).1
              (put_all hash after
                (put_blob hash none bytes (put_all hash before (empty true verify))).0)
            ≡ found x)
          × (hash x ≡ hash bytes))
  unfolding get_blob put_blob
  put_all-put_blob verify before after bytes =
      let s = put_all hash before (empty true verify) in
      let o = lookup (hash bytes) s.files in
      let s2 = put_if hash o none bytes s in
      let s3 = put_all hash after s2 in
      let intact =
        put_if-IsIntact o none bytes s
          (put_all-IsIntact before (empty true verify) (empty-IsIntact verify)) in
      read_file-readable s3.verify (hash bytes) (lookup (hash bytes) s3.files)
        ((put_all-IsIntact after s2 intact).1 (hash bytes))
        (put_all-stored after (hash bytes) s2 (put_if-own s.atomic o bytes s refl))
