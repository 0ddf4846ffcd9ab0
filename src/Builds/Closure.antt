-- ===== src/Builds/Closure.antt =====
-- What `resolve` installs: the pinned names and what they need, each once, and the loop ends.
use mastery.Prelude.{member, ◌≡◌, String, true, Option, some, List, map, All}
use mastery.Prelude.Dict.{lookup}
use mastery.Builds.{is_in, deps_of, version}
use mastery.Builds.Rounds.{owed}

module _ (deps : List (String × List String)) (index : List (String × List String))
    (pinned : List (String × String)) where
  abbrev pub roots : List String
  roots = map (λ (p : String × String). p.0) pinned

  -- What a pinned name needs, directly or not.
  pub data Needed : String → Type 0 where
    root : (name : String) → member name roots ≡ true → Needed name
    dependency :
        (name dep : String) → Needed name → member dep (deps_of deps name) ≡ true → Needed dep

  -- An installation: the pinned names are there, with each name all that it needs, nothing that is
  -- not needed, and of each name the version that is pinned or else the last.
  abbrev pub IsClosed : List (String × String) → Type 0
  IsClosed out =
      All (λ name. is_in (lookup name out) ≡ true) roots
      × (All (λ (p : String × String). All (λ d. is_in (lookup d out) ≡ true) (deps_of deps p.0))
            out
          × (All (λ (p : String × String). Needed p.0) out
              × All (λ (p : String × String). version deps index pinned p.0 ≡ some p.1) out))

  -- The same while names wait.
  abbrev IsClosing : List String → List (String × String) → Type 0
  IsClosing queue out =
      All (λ name. owed out queue name ≡ true) roots
      × (All (λ (p : String × String). All (λ d. owed out queue d ≡ true) (deps_of deps p.0)) out
          × ((All (λ (p : String × String). Needed p.0) out × All Needed queue)
              × All (λ (p : String × String). version deps index pinned p.0 ≡ some p.1) out))

  -- A version of a name can be found.
  abbrev pub HasVersion : String → Type 0
  HasVersion name = is_in (version deps index pinned name) ≡ true

  abbrev Closes : Option (Option (List (String × String))) → Type 0
  Closes o = (out : List (String × String)) × ((o ≡ some (some out)) × IsClosed out)
