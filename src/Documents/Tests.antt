-- ===== src/Documents/Tests.antt =====
-- Runs of the conflict detection: two documents that disagree on the date of loss.
use aegisclaims_ai.Prelude.{
  List, String, [], false, length, refl, true, ℕ, ◌&&◌, ◌==◌, ◌↔◌, ◌∷◌, ◌≡◌,
}
use aegisclaims_ai.Documents.Conflicts.{
  comparable_facts, conflicts, disagree, pairwise, rebuild_conflicts,
}
use aegisclaims_ai.Documents.Conflicts.Rebuild.{rebuild_conflicts-replaces}
use aegisclaims_ai.Documents.Conflicts.Soundness.{Occurs, Precedes, conflict_of, pairwise_iff}
use aegisclaims_ai.Store.{Db, DocumentFact}
use aegisclaims_ai.Workflow.Fixtures.{empty_db}

abbrev fact : ℕ → String → DocumentFact
fact id value = record {
  id = id;
  tenant_id = 1;
  claim_id = 7;
  document_id = id;
  page_number = 1;
  fact_type = "reported_loss_date";
  raw_source_span = value;
  normalized_value = value;
  document_name = "doc";
}

abbrev two_dates : List DocumentFact
two_dates = fact 1 "2024-05-01" ∷ fact 2 "2024-05-02" ∷ []

pairwise_iff_example :
    Occurs (conflict_of 1 7 (fact 1 "2024-05-01") (fact 2 "2024-05-02")) (pairwise 1 7 two_dates)
    ↔ ((left : DocumentFact) × ((right : DocumentFact) × (Precedes left right two_dates
            × ((disagree left right ≡ true)
                × (conflict_of 1 7 (fact 1 "2024-05-01") (fact 2 "2024-05-02")
                    ≡ conflict_of 1 7 left right)))))
pairwise_iff_example =
    pairwise_iff 1 7 (conflict_of 1 7 (fact 1 "2024-05-01") (fact 2 "2024-05-02")) two_dates

one_conflict : length (pairwise 1 7 two_dates) ≡ 1
unfolding pairwise
one_conflict = refl

rebuild_conflicts-replaces_example :
    let db : Db = record empty_db { facts = two_dates } in
    let rebuilt = rebuild_conflicts 7 1 db in
    (conflicts rebuilt 7 1 ≡ pairwise 1 7 (comparable_facts db 7 1))
    × (((claim' tenant' : ℕ)
          → (claim' == 7 && tenant' == 1) ≡ false
          → conflicts rebuilt claim' tenant' ≡ conflicts db claim' tenant')
        × (rebuild_conflicts 7 1 rebuilt ≡ rebuilt))
rebuild_conflicts-replaces_example =
    rebuild_conflicts-replaces 7 1 (record empty_db { facts = two_dates })
