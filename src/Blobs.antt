-- ===== src/Blobs.antt =====
-- The class `Blobs` of modules/service-lab/storage_lab.py: a store whose file names are the hashes of
-- the contents. `path_for` is one-to-one, so a digest stands for its path. SHA-256 is a parameter;
-- bytes are numbers.
pub mod Intact
pub mod Refines
use mastery.Prelude.{
  same, ℕ, zero, suc, ◌+◌, String, String_discrete, ite, Bool, true, false, not, ◌&&◌, Option, none,
  some, List, [], ◌∷◌, if◌then◌else◌,
}
use mastery.Prelude.Dict.{lookup, put}

pub record Blobs : Type 0 where
  pub atomic : Bool
  pub verify : Bool
  pub files : List (String × List ℕ)
  pub parts : List (String × List ℕ)
  pub writes : ℕ
  pub deduped : ℕ

abbrev pub empty : Bool → Bool → Blobs
empty atomic verify = record {
  atomic = atomic;
  verify = verify;
  files = [];
  parts = [];
  writes = 0;
  deduped = 0;
}

-- `data[:n]`
unfoldable pub first_bytes : ℕ → List ℕ → List ℕ
first_bytes zero bs = []
first_bytes (suc n) [] = []
first_bytes (suc n) (b ∷ bs) = b ∷ first_bytes n bs

abbrev pub written : Option ℕ → List ℕ → List ℕ
written none bytes = bytes
written (some n) bytes = first_bytes n bytes

-- What `get` does: nothing there, a ValueError, or the bytes.
pub data Read : Type 0 where
  absent mismatch : Read
  found : List ℕ → Read

module _ (hash : List ℕ → String) where
  -- The temporary file, and the rename that a crash does not reach.
  abbrev pub put_atomic : Option ℕ → List ℕ → Blobs → Blobs
  put_atomic none bytes s = record s { files = put (hash bytes) bytes s.files }
  put_atomic (some n) bytes s = record s { parts = put (hash bytes) (first_bytes n bytes) s.parts }

  abbrev pub put_new : Bool → Option ℕ → List ℕ → Blobs → Blobs
  put_new true crash_after bytes s = put_atomic crash_after bytes s
  put_new false crash_after bytes s = record s {
    files = put (hash bytes) (written crash_after bytes) s.files;
  }

  abbrev pub put_if : Option (List ℕ) → Option ℕ → List ℕ → Blobs → Blobs
  put_if (some old) crash_after bytes s = record s { deduped = s.deduped + 1 }
  put_if none crash_after bytes s =
      put_new s.atomic crash_after bytes (record s { writes = s.writes + 1 })

  -- `put`, and the digest that it returns.
  unfoldable pub put_blob : Option ℕ → List ℕ → Blobs → Blobs × String
  unfolding lookup put first_bytes
  put_blob crash_after bytes s =
      (put_if (lookup (hash bytes) s.files) crash_after bytes s, hash bytes)

  abbrev pub read_file : Bool → String → Option (List ℕ) → Read
  read_file verify digest none = absent
  read_file verify digest (some bytes) =
      if verify && not (same (hash bytes) digest) then mismatch else found bytes

  -- `get`
  unfoldable pub get_blob : String → Blobs → Read
  unfolding lookup same
  get_blob digest s = read_file s.verify digest (lookup digest s.files)

  -- The puts, the last one first.
  unfoldable pub put_all : List (Option ℕ × List ℕ) → Blobs → Blobs
  unfolding put_blob
  put_all [] s = s
  put_all ((crash_after, bytes) ∷ rest) s = (put_blob crash_after bytes (put_all rest s)).0
