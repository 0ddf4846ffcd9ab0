-- ===== src/Tests/Auth.antt =====
-- The endpoints of modules/service-lab/auth_lab.py.
use mastery.Prelude.{same, ◌≡◌, refl, ◌⊎◌, String, Bool, true, false, Option, some, [], ◌∷◌}
use mastery.Jobs.{Document}
use mastery.Auth.{
  Claims, Db, document_of, export, forbidden, not_found, rows, select, first_row, get, do_get,
  do_post,
}
use mastery.Auth.Isolation.{own, are_distinct, get_fixed-own, Adds, do_post_fixed-Adds}

program : Unit {0}
unfolding same select get do_get do_post are_distinct
program = tt

abbrev text_of : String → String → Document
text_of doc_id tenant = record {
  doc_id = doc_id;
  tenant = tenant;
  url = "u";
  body = "text";
  body_sha = "00";
  fetched_at = 0;
}

abbrev two_tenants : Db
two_tenants = record { documents = text_of "N01" "acme" ∷ text_of "N07" "globex" ∷ []; events = [] }

abbrev anything : String → String → Bool
anything pattern body = true

abbrev actors_of : String → Option String
actors_of doc_id = some "[]"

abbrev acme : Claims
acme = record { tenant = "acme"; exp = 300 }

-- Without the tenant in the query, the export hands over everything.
leaking_export :
    get anything false "acme" two_tenants export ≡ rows (("N01", "acme") ∷ ("N07", "globex") ∷ [])
unfolding program
leaking_export = refl

get_fixed-own_example :
    (get anything true "acme" two_tenants (document_of "N07")
      ≡ get anything true "acme" (own "acme" two_tenants) (document_of "N07"))
    ⊎ ((get anything true "acme" two_tenants (document_of "N07") ≡ forbidden)
        × (get anything true "acme" (own "acme" two_tenants) (document_of "N07") ≡ not_found))
unfolding program
get_fixed-own_example = get_fixed-own anything "acme" two_tenants (document_of "N07") refl

do_post_fixed-Adds_example :
    Adds "acme"
      (first_row (select (λ d. same d.doc_id "N07") (own "acme" two_tenants).documents))
      two_tenants
      (do_post actors_of true (some acme) two_tenants "N07").0
do_post_fixed-Adds_example = do_post_fixed-Adds actors_of acme two_tenants "N07"
