-- ===== src/Builds.antt =====
-- The function `resolve` of modules/ops-lab/build_lab.py: which versions an installation gets. The index,
-- the pins and DEPS are dictionaries; `none` is a KeyError or an IndexError.
pub mod Rounds
pub mod Closure
use Prim.Native.String.{compare}
use mathlib.Core.Option.{bind}
use mastery.Prelude.{
  same, ℕ, zero, suc, ◌+◌, String, Bool, true, false, Option, none, some, List, [], ◌∷◌, ◌++◌, map,
  length, if◌then◌else◌,
}
use mastery.Prelude.Dict.{lookup, put}

-- INDEX_T0, and INDEX_T1 three weeks later
abbrev pub index_t0 : List (String × List String)
index_t0 =
    ("httpx", "0.27.0" ∷ "0.27.2" ∷ [])
    ∷ ("pydantic", "2.9.1" ∷ [])
    ∷ ("httpcore", "1.0.5" ∷ "1.0.6" ∷ [])
    ∷ ("certifi", "2024.7.4" ∷ [])
    ∷ ("anyio", "4.4.0" ∷ [])
    ∷ ("idna", "3.7" ∷ [])
    ∷ ("pydantic-core", "2.23.3" ∷ [])
    ∷ ("typing-extensions", "4.12.2" ∷ [])
    ∷ ("sniffio", "1.3.1" ∷ [])
    ∷ ("h11", "0.14.0" ∷ [])
    ∷ []

abbrev pub index_t1 : List (String × List String)
index_t1 =
    ("httpx", "0.27.0" ∷ "0.27.2" ∷ [])
    ∷ ("pydantic", "2.9.1" ∷ [])
    ∷ ("httpcore", "1.0.5" ∷ "1.0.6" ∷ "1.0.7" ∷ [])
    ∷ ("certifi", "2024.7.4" ∷ "2024.8.30" ∷ [])
    ∷ ("anyio", "4.4.0" ∷ "4.6.0" ∷ [])
    ∷ ("idna", "3.7" ∷ [])
    ∷ ("pydantic-core", "2.23.3" ∷ [])
    ∷ ("typing-extensions", "4.12.2" ∷ [])
    ∷ ("sniffio", "1.3.1" ∷ [])
    ∷ ("h11", "0.14.0" ∷ [])
    ∷ []

-- DEPS and PINNED
abbrev pub declared_deps : List (String × List String)
declared_deps =
    ("httpx", "httpcore" ∷ "certifi" ∷ "anyio" ∷ "idna" ∷ [])
    ∷ ("pydantic", "pydantic-core" ∷ "typing-extensions" ∷ [])
    ∷ ("httpcore", "h11" ∷ "certifi" ∷ [])
    ∷ ("anyio", "sniffio" ∷ "idna" ∷ [])
    ∷ ("pydantic-core", "typing-extensions" ∷ [])
    ∷ []

abbrev pub pins : List (String × String)
pins = ("httpx", "0.27.2") ∷ ("pydantic", "2.9.1") ∷ []

-- `index[name][-1]`
abbrev pub last : List String → Option String
last [] = none
last (v ∷ []) = some v
last (v ∷ w ∷ vs) = last (w ∷ vs)

abbrev pub list_or_nil : Option (List String) → List String
list_or_nil none = []
list_or_nil (some ds) = ds

-- The names of a list, the last one first: a queue is popped at its end.
abbrev pub push_all : List String → List String → List String
push_all [] queue = queue
push_all (d ∷ ds) queue = push_all ds (d ∷ queue)

abbrev pub is_in : Option String → Bool
is_in none = false
is_in (some v) = true

-- `index[name][-1]`, for what the index has
abbrev pub latest : Option (List String) → Option String
latest none = none
latest (some versions) = last versions

-- `pinned.get(name) or index[name][-1]`, where the empty text counts as no pin
abbrev pub pin_or : Option String → Option (List String) → Option String
pin_or none versions = latest versions
pin_or (some v) versions = if same v "" then latest versions else some v

-- One round: a name that is there is passed over; else its version is needed.
abbrev pub next_round {ℓ} :
    {A : Type ℓ}
    → Option String
    → Option (Option A)
    → Option String
    → (String → Option (Option A))
    → Option (Option A)
next_round (some v) known version add = known
next_round none known none add = some none
next_round none known (some v) add = add v

-- How many names the dependencies name.
abbrev pub sizes : List (String × List String) → ℕ
sizes [] = 0
sizes ((k, ds) ∷ rest) = length ds + sizes rest

-- `DEPS.get(name, [])`
unfoldable pub deps_of : List (String × List String) → String → List String
unfolding lookup
deps_of deps name = list_or_nil (lookup name deps)

module _ (deps : List (String × List String)) (index : List (String × List String))
    (pinned : List (String × String)) where
  unfoldable pub version : String → Option String
  unfolding lookup same
  version name = pin_or (lookup name pinned) (lookup name index)

  -- The loop, on fuel; the outer `none` is fuel that ran out, the inner one an error.
  unfoldable pub resolve_from :
      ℕ → List String → List (String × String) → Option (Option (List (String × String)))
  unfolding lookup put version deps_of
  resolve_from fuel [] out = some (some out)
  resolve_from zero (name ∷ queue) out = none
  resolve_from (suc fuel) (name ∷ queue) out =
      let known = resolve_from fuel queue out in
      next_round (lookup name out) known (version name)
        (λ v. resolve_from fuel (push_all (deps_of deps name) queue) (put name v out))

  -- `resolve(index, pinned)`; each name is expanded once, so a round is for a pin or for a dependency.
  unfoldable pub resolve : Option (Option (List (String × String)))
  unfolding resolve_from
  resolve =
      let roots = map (λ (p : String × String). p.0) pinned in
      resolve_from (length roots + sizes deps) (push_all roots []) []
