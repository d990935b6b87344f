-- ===== src/Documents/Conflicts.antt =====
-- `DocumentRepository.conflicts` and `rebuild_conflicts` of infrastructure/repositories.py.
pub mod Soundness
pub mod Rebuild
use aegisclaims_ai.Prelude.{
  Bool, List, String, [], filter, if◌then◌else◌, not, str_eq, str_lt, ℕ, ◌&&◌, ◌++◌, ◌==◌, ◌||◌,
  ◌∷◌,
}
use aegisclaims_ai.Store.{Db, DocumentFact, FactConflict}
use aegisclaims_ai.Store.Claims.{sort_by}

-- `conflicts`
unfoldable pub conflicts : Db → ℕ → ℕ → List FactConflict
conflicts db claim_id tenant_id =
    filter (λ c. c.claim_id == claim_id && c.tenant_id == tenant_id) db.fact_conflicts

-- The fact types that are compared.
unfoldable pub is_comparable : String → Bool
is_comparable t =
    str_eq t "reported_loss_date"
    || (str_eq t "property_address" || (str_eq t "policy_identifier" || str_eq t "policy_edition"))

-- The test of the inner loop: the same type, and another value.
abbrev pub disagree : DocumentFact → DocumentFact → Bool
disagree left right =
    str_eq right.fact_type left.fact_type
    && not (str_eq right.normalized_value left.normalized_value)

-- The inner loop: `left` against each later fact.
unfoldable pub conflicts_with : ℕ → ℕ → DocumentFact → List DocumentFact → List FactConflict
conflicts_with tenant claim left [] = []
conflicts_with tenant claim left (right ∷ facts) =
    if disagree left right
    then record {
      tenant_id = tenant;
      claim_id = claim;
      fact_type = left.fact_type;
      left_fact = left;
      right_fact = right;
    }
      ∷ conflicts_with tenant claim left facts
    else conflicts_with tenant claim left facts

-- The outer loop.
unfoldable pub pairwise : ℕ → ℕ → List DocumentFact → List FactConflict
unfolding conflicts_with
pairwise tenant claim [] = []
pairwise tenant claim (left ∷ facts) =
    conflicts_with tenant claim left facts ++ pairwise tenant claim facts

-- Facts in the order of their type; those of one type stay in the order of creation.
unfoldable pub comparable_facts : Db → ℕ → ℕ → List DocumentFact
unfolding is_comparable sort_by
comparable_facts db claim tenant =
    sort_by (λ a b. str_lt a.fact_type b.fact_type)
      (filter (λ f. f.claim_id == claim && (f.tenant_id == tenant && is_comparable f.fact_type))
        db.facts)

-- `rebuild_conflicts`: the claim's conflicts are deleted and detected anew.
unfoldable pub rebuild_conflicts : ℕ → ℕ → Db → Db
unfolding comparable_facts pairwise
rebuild_conflicts claim tenant db = record db {
  fact_conflicts =
      filter (λ c. not (c.claim_id == claim && c.tenant_id == tenant)) db.fact_conflicts
      ++ pairwise tenant claim (comparable_facts db claim tenant);
}
