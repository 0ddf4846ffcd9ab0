-- ===== src/Auth/Isolation.antt =====
-- With the tenant in the query, an answer is made of the tenant's own rows.
use mastery.Prelude.{
  same, ◌≡◌, refl, sym, ap, subst, ◌∙◌, String, Bool, true, false, not, ◌&&◌, Option, none, some,
  List, [], ◌∷◌, ◌++◌, ◌==◌, ◌⊎◌, inl, inr, arith,
}
use mastery.Jobs.{Document}
use mastery.Auth.{
  Claims, EventRow, Db, Route, document_of, batch, search, export, event_of, other, not_found,
  forbidden, rows, select, first_row, one_of, allowed, names, get_document, get_batch, get_event,
  page_of, get, next_event, add_event, post_for, do_post,
}

-- The database as it would be if the tenant were alone on it.
abbrev pub own : String → Db → Db
own tenant db = record {
  documents = select (λ d. same d.tenant tenant) db.documents;
  events = select (λ e. same e.tenant tenant) db.events;
}

select-select :
    {A : Type 0} (p q r : A → Bool) (xs : List A)
    → ((x : A) → r x ≡ (p x && q x))
    → select r xs ≡ select r (select q xs)
unfolding select
select-select p q r [] h = refl
select-select p q r (x ∷ xs) h = ground (arith, h x, select-select p q r xs h)

abbrev pub keys_of : List Document → List String
keys_of [] = []
keys_of (d ∷ ds) = d.doc_id ∷ keys_of ds

-- No two documents have one key, as the table's PRIMARY KEY says.
unfoldable pub are_distinct : List Document → Bool
unfolding same
are_distinct [] = true
are_distinct (d ∷ ds) = not (one_of d.doc_id (keys_of ds)) && are_distinct ds

absent :
    (k : String) (q : Document → Bool) (ds : List Document)
    → one_of k (keys_of ds) ≡ false
    → first_row (select (λ d. same d.doc_id k) (select q ds)) ≡ none
unfolding select
absent k q [] h = refl
absent k q (d ∷ ds) h = ground (arith, h, absent k q ds)

same_lem : (a b : String) → same a b ≡ true → a ≡ b
unfolding same
same_lem a b h = ground arith

-- The document that a key finds, by whose it is.
abbrev Found : String → Option Document → Option Document → Type 0
Found tenant o none = (o ≡ none) ⊎ ((d : Document) × (o ≡ some d) × (same d.tenant tenant ≡ false))
Found tenant o (some d) = o ≡ some d

head_distinct :
    (d : Document) (ds : List Document)
    → are_distinct (d ∷ ds) ≡ true
    → one_of d.doc_id (keys_of ds) ≡ false
unfolding are_distinct
head_distinct d ds h = ground (arith, h)

head_cases :
    (tenant k : String) (d : Document) (ds : List Document) (mine is_k : Bool)
    → same d.tenant tenant ≡ mine
    → same d.doc_id k ≡ is_k
    → are_distinct (d ∷ ds) ≡ true
    → Found tenant
        (first_row (select (λ d. same d.doc_id k) ds))
        (first_row (select (λ d. same d.doc_id k) (select (λ d. same d.tenant tenant) ds)))
    → Found tenant
        (first_row (select (λ d. same d.doc_id k) (d ∷ ds)))
        (first_row (select (λ d. same d.doc_id k) (select (λ d. same d.tenant tenant) (d ∷ ds))))
unfolding select are_distinct
head_cases tenant k d ds true true m i h ih = rw (m, i) refl
head_cases tenant k d ds true false m i h ih = rw (m, i) ih
head_cases tenant k d ds false false m i h ih = rw (m, i) ih
head_cases tenant k d ds false true m i h ih =
    rw
      (
        m,
        i,
        absent k (λ d. same d.tenant tenant) ds
            (subst (λ x. one_of x (keys_of ds) ≡ false) (same_lem d.doc_id k i)
              (head_distinct d ds h)),
      )
      (inr (d, refl, m))

lookup_own :
    (tenant k : String) (ds : List Document)
    → are_distinct ds ≡ true
    → Found tenant
        (first_row (select (λ d. same d.doc_id k) ds))
        (first_row (select (λ d. same d.doc_id k) (select (λ d. same d.tenant tenant) ds)))
unfolding select are_distinct
lookup_own tenant k [] h = inl refl
lookup_own tenant k (d ∷ ds) h =
    head_cases tenant k d ds (same d.tenant tenant) (same d.doc_id k) refl refl h
      (lookup_own tenant k ds (ground (arith, h)))

-- How the answer on the whole database and on the tenant's own compare for one document.
document_answer :
    (tenant : String) (o p : Option Document)
    → Found tenant o p
    → (get_document tenant o ≡ get_document tenant p)
      ⊎ ((get_document tenant o ≡ forbidden) × (get_document tenant p ≡ not_found))
document_answer tenant o none (inl e) = inl (ap (get_document tenant) e)
document_answer tenant o none (inr (d, e, m)) = inr (rw (e, m) refl, refl)
document_answer tenant o (some d) e = inl (ap (get_document tenant) e)

batch_answer :
    (tenant : String) (o p : Option Document) (rs : List (String × String))
    → Found tenant o p
    → get_batch tenant o rs ≡ get_batch tenant p rs
batch_answer tenant o none rs (inl e) = ap (λ x. get_batch tenant x rs) e
batch_answer tenant o none rs (inr (d, e, m)) = rw (e, m) refl
batch_answer tenant o (some d) rs e = ap (λ x. get_batch tenant x rs) e

select_idem : {A : Type 0} (q : A → Bool) (xs : List A) → select q (select q xs) ≡ select q xs
unfolding select
select_idem q [] = refl
select_idem q (x ∷ xs) = ground (arith, select_idem q xs)

module _ (like : String → String → Bool) where
  -- With the tenant in the query, on documents of different keys: the answer to a GET is what it
  -- would be if the database held the tenant's rows alone; but for another tenant's document the
  -- answer may be "forbidden" where it would be "not found".
  pub get_fixed-own :
      (tenant : String) (db : Db) (r : Route)
      → are_distinct db.documents ≡ true
      → (get like true tenant db r ≡ get like true tenant (own tenant db) r)
        ⊎ ((get like true tenant db r ≡ forbidden)
            × (get like true tenant (own tenant db) r ≡ not_found))
  unfolding get
  get_fixed-own tenant db (document_of k) h =
      document_answer tenant (first_row (select (λ d. same d.doc_id k) db.documents))
        (first_row
          (select (λ d. same d.doc_id k) (select (λ d. same d.tenant tenant) db.documents)))
        (lookup_own tenant k db.documents h)
  get_fixed-own tenant db (batch k ks) h = inl (
      batch_answer tenant (first_row (select (λ d. same d.doc_id k) db.documents))
        (first_row
          (select (λ d. same d.doc_id k) (select (λ d. same d.tenant tenant) db.documents)))
        (names
          (select (λ d. one_of d.doc_id (k ∷ ks) && allowed true tenant d.tenant) db.documents))
        (lookup_own tenant k db.documents h)
      ∙ ap
          (λ ds.
            get_batch tenant
              (first_row
                (select (λ d. same d.doc_id k) (select (λ d. same d.tenant tenant) db.documents)))
              (names ds))
          (select-select (λ (d : Document). one_of d.doc_id (k ∷ ks)) (λ d. same d.tenant tenant)
            (λ d. one_of d.doc_id (k ∷ ks) && allowed true tenant d.tenant) db.documents
            (λ d. refl)))
  get_fixed-own tenant db (search q limit) h = inl (
      ap (λ rs. page_of limit rs (select (λ d. same d.tenant tenant) rs))
        (select-select (λ (d : Document). like q d.body) (λ d. same d.tenant tenant)
          (λ d. like q d.body && allowed true tenant d.tenant) db.documents (λ d. refl)))
  get_fixed-own tenant db export h = inl (
      ap (λ ds. rows (names ds))
        (sym (select_idem (λ (d : Document). same d.tenant tenant) db.documents)))
  get_fixed-own tenant db (event_of k) h = inl (
      ap (λ es. get_event (first_row es))
        (select-select (λ (e : EventRow). e.event_id == k) (λ e. same e.tenant tenant)
          (λ e. (e.event_id == k) && allowed true tenant e.tenant) db.events (λ e. refl)))
  get_fixed-own tenant db other h = inl refl

select-and :
    {A : Type 0} (p q r : A → Bool) (xs : List A)
    → ((x : A) → r x ≡ (p x && q x))
    → select r xs ≡ select p (select q xs)
unfolding select
select-and p q r [] h = refl
select-and p q r (x ∷ xs) h = ground (arith, h x, select-and p q r xs h)

-- What a POST does to the events: nothing, or one new row, the caller's, for the document given.
abbrev pub Adds : String → Option Document → Db → Db → Type 0
Adds tenant none db after = after.events ≡ db.events
Adds tenant (some d) db after =
    (after.events ≡ db.events)
    ⊎ ((e : EventRow) × (after.events ≡ db.events ++ (e ∷ []))
        × (e.tenant ≡ tenant)
        × (e.doc_id ≡ d.doc_id))

add_event-Adds :
    (tenant : String) (d : Document) (actors : Option String) (db : Db)
    → Adds tenant (some d) db (add_event tenant d actors db).0
add_event-Adds tenant d none db = inl refl
add_event-Adds tenant d (some actors) db = inr (
  record { event_id = next_event db.events; doc_id = d.doc_id; tenant = tenant; actors = actors },
  refl,
  refl,
  refl,
)

post_for-Adds :
    (extract : String → Option String) (tenant : String) (o : Option Document) (db : Db)
    → Adds tenant o db (post_for extract tenant o db).0
post_for-Adds extract tenant none db = refl
post_for-Adds extract tenant (some d) db = add_event-Adds tenant d (extract d.doc_id) db

-- With the tenant in the query, a POST adds no event, or one of the caller's for the first of the
-- caller's own documents that has the key.
pub do_post_fixed-Adds :
    (extract : String → Option String) (who : Claims) (db : Db) (k : String)
    → Adds who.tenant
        (first_row (select (λ d. same d.doc_id k) (own who.tenant db).documents))
        db
        (do_post extract true (some who) db k).0
unfolding do_post
do_post_fixed-Adds extract who db k =
    let o = first_row (
      select (λ (d : Document). same d.doc_id k && allowed true who.tenant d.tenant)
        db.documents) in
    let mine = ap first_row (
      select-and (λ (d : Document). same d.doc_id k) (λ d. same d.tenant who.tenant)
        (λ d. same d.doc_id k && allowed true who.tenant d.tenant) db.documents (λ d. refl)) in
    subst (λ p. Adds who.tenant p db (post_for extract who.tenant o db).0) mine
      (post_for-Adds extract who.tenant o db)
