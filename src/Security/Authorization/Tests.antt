-- ===== src/Security/Authorization/Tests.antt =====
-- Runs of the permission check.
use aegisclaims_ai.Prelude.{[], refl, ◌↔◌, ◌∷◌, ◌≡◌}
use aegisclaims_ai.Domain.{Actor, compliance_reviewer, supervisor, workflow_review, workflow_start}
use aegisclaims_ai.Prelude.Exec.{ok}
use aegisclaims_ai.Security.Authorization.{authorize, role_permissions}
use aegisclaims_ai.Security.Authorization.Boundaries.{IsReviewer, Some, authorize-IsReviewer}

abbrev supervising : Actor
supervising = record {
  user_id = 3;
  tenant_id = 1;
  subject = "s";
  display_name = "Sam";
  roles = compliance_reviewer ∷ supervisor ∷ [];
}

authorize-IsReviewer_example :
    (authorize supervising workflow_review ≡ ok tt) ↔ Some IsReviewer supervising.roles
authorize-IsReviewer_example = authorize-IsReviewer supervising

supervisor_starts : authorize supervising workflow_start ≡ ok tt
unfolding authorize role_permissions
supervisor_starts = refl
