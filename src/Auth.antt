-- ===== src/Auth.antt =====
-- modules/service-lab/auth_lab.py: the bearer token and the six endpoints of `API`. Parameters: how
-- a token is split and decoded, the signature, and SQLite's LIKE. A request arrives as its route,
-- with the path and the query already split; rows stand in the order in which SQLite returns them.
pub mod Isolation
use mastery.Prelude.{
  same, ℕ, suc, ◌+◌, max, String, String_discrete, ite, Bool, true, false, not, ◌&&◌, ◌||◌, Option,
  none, some, List, [], ◌∷◌, ◌++◌, length, ltb, ◌==◌, zero, if◌then◌else◌,
}
use mastery.Jobs.{Document}

pub record Claims : Type 0 where
  pub tenant : String
  pub exp : ℕ

-- The two parts of a token, and its claims.
pub record Token : Type 0 where
  pub body : String
  pub sig : String
  pub claims : Claims

pub record EventRow : Type 0 where
  pub event_id : ℕ
  pub doc_id : String
  pub tenant : String
  pub actors : String

pub record Db : Type 0 where
  pub documents : List Document
  pub events : List EventRow

pub data Route : Type 0 where
  document_of : String → Route
  batch : String → List String → Route
  search : String → ℕ → Route
  export : Route
  event_of : ℕ → Route
  other : Route

pub data Answer : Type 0 where
  unauthenticated not_found forbidden bad_gateway : Answer
  document : String → String → Answer
  rows : List (String × String) → Answer
  found : ℕ → ℕ → List String → Answer
  event : ℕ → String → String → String → Answer
  created : ℕ → String → String → Answer

abbrev pub checked : (String → String) → Bool → ℕ → Token → Option Claims
checked sign check_sig now t =
    if check_sig && not (same t.sig (sign t.body))
    then none
    else (if ltb t.claims.exp now then none else some t.claims)

-- `verify`; `decode` is nothing where an exception is caught.
unfoldable pub verify :
    (String → Option Token) → (String → String) → Bool → ℕ → String → Option Claims
unfolding same
verify decode sign check_sig now token = elim (decode token) [
  | none ↦ none
  | some t ↦ checked sign check_sig now t
]

-- `SELECT ... FROM documents WHERE ...`
unfoldable pub select : {A : Type 0} → (A → Bool) → List A → List A
select p [] = []
select p (x ∷ xs) = let rest = select p xs in if p x then x ∷ rest else rest

-- `fetchone()`
abbrev pub first_row : {A : Type 0} → List A → Option A
first_row [] = none
first_row (x ∷ xs) = some x

abbrev pub one_of : String → List String → Bool
one_of k [] = false
one_of k (j ∷ js) = same j k || one_of k js

-- ` AND tenant=?`, where the query has it.
abbrev pub allowed : Bool → String → String → Bool
allowed fixed tenant t = not fixed || same t tenant

abbrev pub names : List Document → List (String × String)
names [] = []
names (d ∷ ds) = (d.doc_id, d.tenant) ∷ names ds

abbrev pub ids_of : ℕ → List Document → List String
ids_of zero ds = []
ids_of (suc n) [] = []
ids_of (suc n) (d ∷ ds) = d.doc_id ∷ ids_of n ds

abbrev pub get_document : String → Option Document → Answer
get_document tenant none = not_found
get_document tenant (some d) = if same d.tenant tenant then document d.doc_id d.body else forbidden

abbrev pub get_batch : String → Option Document → List (String × String) → Answer
get_batch tenant none rs = forbidden
get_batch tenant (some d) rs = if same d.tenant tenant then rows rs else forbidden

abbrev pub get_event : Option EventRow → Answer
get_event none = not_found
get_event (some e) = event e.event_id e.doc_id e.tenant e.actors

abbrev pub page_of : ℕ → List Document → List Document → Answer
page_of limit rs visible = found (length rs) (length (ids_of limit visible)) (ids_of limit visible)

-- An INTEGER PRIMARY KEY that is not given is one more than the largest in the table.
abbrev pub next_event : List EventRow → ℕ
next_event [] = 1
next_event (e ∷ es) = max (suc e.event_id) (next_event es)

-- `INSERT INTO events`: the row is stamped with the caller's tenant.
abbrev pub add_event : String → Document → Option String → Db → Db × Answer
add_event tenant d none db = (db, bad_gateway)
add_event tenant d (some actors) db =
    let k = next_event db.events in
    let row : EventRow = record {
      event_id = k;
      doc_id = d.doc_id;
      tenant = tenant;
      actors = actors;
    } in
    (record db { events = db.events ++ (row ∷ []) }, created k d.doc_id actors)

abbrev pub post_for : (String → Option String) → String → Option Document → Db → Db × Answer
post_for extract tenant none db = (db, not_found)
post_for extract tenant (some d) db = add_event tenant d (extract d.doc_id) db

-- `do_POST`, with the model's answer to a document as a parameter: the actors, or no record.
unfoldable pub do_post : (String → Option String) → Bool → Option Claims → Db → String → Db × Answer
unfolding same select
do_post extract fixed none db k = (db, unauthenticated)
do_post extract fixed (some who) db k =
    post_for extract who.tenant
      (first_row (select (λ d. same d.doc_id k && allowed fixed who.tenant d.tenant) db.documents))
      db

module _ (like : String → String → Bool) (fixed : Bool) where
  -- `do_GET`, behind the first test.
  unfoldable pub get : String → Db → Route → Answer
  unfolding same select
  get tenant db (document_of k) =
      get_document tenant (first_row (select (λ d. same d.doc_id k) db.documents))
  get tenant db (batch k ks) =
      get_batch tenant (first_row (select (λ d. same d.doc_id k) db.documents)) (
        names
          (select (λ d. one_of d.doc_id (k ∷ ks) && allowed fixed tenant d.tenant) db.documents))
  get tenant db (search q limit) =
      let rs = select (λ d. like q d.body && allowed fixed tenant d.tenant) db.documents in
      page_of limit rs (select (λ d. same d.tenant tenant) rs)
  get tenant db export = rows (names (select (λ d. allowed fixed tenant d.tenant) db.documents))
  get tenant db (event_of k) =
      get_event
        (first_row (select (λ e. e.event_id == k && allowed fixed tenant e.tenant) db.events))
  get tenant db other = not_found

  -- `do_GET`
  unfoldable pub do_get : Option Claims → Db → Route → Answer
  unfolding get
  do_get none db r = unauthenticated
  do_get (some who) db r = get who.tenant db r
