-- ===== src/Transactions/Boundary.antt =====
-- One transaction around both repositories is all or nothing.
use mastery.Prelude.{
  ◌≡◌, refl, String, Bool, true, false, not, ◌||◌, List, [], ◌∷◌, ◌++◌, count, arith, if◌then◌else◌,
  subst, sym, All, All-append, length, length-append, Option, none, some,
}
use mastery.Jobs.{Document}
use mastery.Jobs.Ingest.{has_document}
use mastery.Auth.{Db, EventRow, next_event}
use mastery.Transactions.{
  Conn, rollback, add_document, ingest_rest, ingest_with, ingest_all, has_event, orphans,
}

has_event-append :
    (k : String) (es fs : List EventRow)
    → has_event k (es ++ fs) ≡ (has_event k es || has_event k fs)
unfolding has_event
has_event-append k [] fs = refl
has_event-append k (e ∷ es) fs = ground (arith, has_event-append k es fs)

-- Every document has an event.
abbrev Covered : List EventRow → List Document → Type 0
Covered es ds = All (λ (d : Document). has_event d.doc_id es ≡ true) ds

Covered-append :
    (es fs : List EventRow) (ds : List Document) → Covered es ds → Covered (es ++ fs) ds
Covered-append es fs [] h = tt
Covered-append es fs (d ∷ ds) h =
    (ground (arith, has_event-append d.doc_id es fs, h.0), Covered-append es fs ds h.1)

Covered-count :
    (es : List EventRow) (ds : List Document)
    → Covered es ds
    → count (λ (d : Document). not (has_event d.doc_id es)) ds ≡ 0
Covered-count es [] h = refl
Covered-count es (d ∷ ds) h = ground (arith, Covered-count es ds h.1, h.0)

both-Covered :
    (d : Document) (e : EventRow) (ds : List Document) (es : List EventRow)
    → e.doc_id ≡ d.doc_id
    → Covered es ds
    → Covered (es ++ (e ∷ [])) (ds ++ (d ∷ []))
unfolding has_event
both-Covered d e ds es same h =
    All-append (λ (d : Document). has_event d.doc_id (es ++ (e ∷ [])) ≡ true) ds (d ∷ [])
      (Covered-append es (e ∷ []) ds h)
      (ground (arith, has_event-append d.doc_id es (e ∷ []), same), tt)

-- Nothing is uncommitted, every document has an event, and there are as many of both.
abbrev IsWhole : Conn → Type 0
IsWhole c =
    (c.current ≡ c.committed)
    × Covered c.committed.events c.committed.documents
    × (length c.committed.documents ≡ length c.committed.events)

ingest_both-IsWhole :
    (d : Document) (actors : String) (c : Conn)
    → IsWhole c
    → IsWhole (
        ingest_rest true d actors false
          (record c { current = record c.current { documents = c.current.documents ++ (d ∷ []) } }))
ingest_both-IsWhole d actors c (same, covered, equal) =
    let row : EventRow = record {
      event_id = next_event c.current.events;
      doc_id = d.doc_id;
      tenant = "acme";
      actors = actors;
    } in
    (
      refl,
      both-Covered d row c.current.documents c.current.events refl
          (subst (λ (x : Db). Covered x.events x.documents) (sym same) covered),
      omega (
        arith,
        length-append c.current.documents (d ∷ []),
        length-append c.current.events (row ∷ []),
        subst (λ (x : Db). length x.documents ≡ length x.events) (sym same) equal,
      ),
    )

abbrev StepWhole : Option Conn → Type 0
StepWhole none = Unit
StepWhole (some c) = IsWhole c

ingest_with-StepWhole :
    (dup : Bool) (d : Document) (actors : String) (fails : Bool) (c : Conn)
    → IsWhole c
    → StepWhole (
        ingest_with true d actors fails (
          if dup
          then none
          else some (record c {
            current = record c.current { documents = c.current.documents ++ (d ∷ []) };
          })))
ingest_with-StepWhole true d actors fails c h = tt
ingest_with-StepWhole false d actors true c h = (refl, h.1, h.2)
ingest_with-StepWhole false d actors false c h = ingest_both-IsWhole d actors c h

ingest_all-IsWhole :
    (items : List (Document × String × Bool)) (c : Conn)
    → IsWhole c
    → IsWhole (ingest_all true items c)
unfolding ingest_all has_document
ingest_all-IsWhole [] c h = h
ingest_all-IsWhole ((d, actors, fails) ∷ ds) c h =
    elim (ingest_with true d actors fails (add_document false d c))
        as (λ o.
          StepWhole o → IsWhole (elim o [ none ↦ rollback c | some c2 ↦ ingest_all true ds c2 ])) [
            | none ↦ λ _. (refl, h.1, h.2)
            | some c2 ↦ λ w. ingest_all-IsWhole ds c2 w
          ]
      (ingest_with-StepWhole (has_document d.doc_id c.current.documents) d actors fails c h)

-- With one transaction around both repositories, from empty tables, whatever is ingested and
-- wherever it fails, every committed document has an event, and there are as many events as documents.
pub ingest_all-orphans :
    (items : List (Document × String × Bool))
    → let none_yet : Db = record { documents = []; events = [] } in
      let c = ingest_all true items (record { committed = none_yet; current = none_yet }) in
      (orphans c.committed ≡ 0) × (length c.committed.documents ≡ length c.committed.events)
unfolding orphans
ingest_all-orphans items =
    let none_yet : Db = record { documents = []; events = [] } in
    let start : Conn = record { committed = none_yet; current = none_yet } in
    let c = ingest_all true items start in
    let h = ingest_all-IsWhole items start (refl, tt, refl) in
    (Covered-count c.committed.events c.committed.documents h.1, h.2)
