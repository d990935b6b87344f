-- ===== src/Store/Claims/Tests.antt =====
-- Runs of the scoped queries: two tenants, and an adjuster who is assigned one claim of two.
use aegisclaims_ai.Prelude.{All, [], length, refl, some, ℕ, ◌∷◌, ◌≡◌, ◌≤◌}
use aegisclaims_ai.Domain.{Actor, claims_adjuster}
use aegisclaims_ai.Store.{Claim, Db}
use aegisclaims_ai.Store.Claims.{get_for_actor, list_for_actor}
use aegisclaims_ai.Store.Claims.Isolation.{InScope, get_for_actor-InScope, list_for_actor-InScope}

abbrev adjuster : Actor
adjuster = record {
  user_id = 4;
  tenant_id = 1;
  subject = "a";
  display_name = "Ada";
  roles = claims_adjuster ∷ [];
}

abbrev claim_row : ℕ → ℕ → ℕ → Claim
claim_row id tenant at = record {
  id = id;
  tenant_id = tenant;
  claim_number = "CLM";
  policy_edition = "2024";
  created_at = at;
}

abbrev two_tenants : Db
two_tenants = record {
  users = [];
  user_sessions = [];
  claims = claim_row 1 1 10 ∷ claim_row 2 1 20 ∷ claim_row 3 2 30 ∷ [];
  assignments =
      record { tenant_id = 1; claim_id = 2; user_id = 4; assignment_type = "assigned" } ∷ [];
  documents = [];
  pages = [];
  facts = [];
  fact_conflicts = [];
  processing_events = [];
  indexes = [];
  chunks = [];
  runs = [];
  review_tasks = [];
  checkpoints = [];
  events = [];
  artifacts = [];
  review_actions = [];
  audits = [];
  invocations = [];
  briefs = [];
  oidc_transactions = [];
}

claim_found : get_for_actor two_tenants 2 adjuster ≡ some (claim_row 2 1 20)
unfolding get_for_actor
claim_found = refl

get_for_actor-InScope_example :
    ((claim_row 2 1 20).id ≡ 2) × InScope two_tenants adjuster (claim_row 2 1 20)
get_for_actor-InScope_example =
    get_for_actor-InScope two_tenants 2 adjuster (claim_row 2 1 20) claim_found

list_for_actor-InScope_example :
    (length (list_for_actor two_tenants adjuster 5 0) ≤ 5)
    × All (InScope two_tenants adjuster) (list_for_actor two_tenants adjuster 5 0)
list_for_actor-InScope_example = list_for_actor-InScope two_tenants adjuster 5 0
