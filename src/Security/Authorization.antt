-- ===== src/Security/Authorization.antt =====
-- security/authorization.py: the permissions of each role, and the check that every route makes.
pub mod Boundaries
mod Tests
use aegisclaims_ai.Prelude.{Bool, List, [], any, if◌then◌else◌, ℕ, ◌==◌, ◌∷◌}
use aegisclaims_ai.Domain.{
  Action, Actor, RoleName, admin, brief_create, brief_read, claim_read, claims_adjuster,
  compliance_reviewer, dashboard_read, document_read, document_upload, operations_read,
  retrieval_query, review_queue_read, supervisor, system_job_create, workflow_cancel, workflow_read,
  workflow_retry, workflow_review, workflow_start,
}
use aegisclaims_ai.Prelude.Exec.{Result, err, ok}

-- Actions are told apart by their place in the enumeration.
abbrev pub action_index : Action → ℕ
action_index dashboard_read = 0
action_index claim_read = 1
action_index document_read = 2
action_index document_upload = 3
action_index retrieval_query = 4
action_index review_queue_read = 5
action_index operations_read = 6
action_index system_job_create = 7
action_index workflow_start = 8
action_index workflow_read = 9
action_index workflow_review = 10
action_index workflow_retry = 11
action_index workflow_cancel = 12
action_index brief_create = 13
action_index brief_read = 14

-- `action in actions`
abbrev pub action_in : Action → List Action → Bool
action_in a = any (λ b. action_index a == action_index b)

-- `frozenset(Action)`
abbrev pub all_actions : List Action
all_actions =
    dashboard_read ∷ claim_read ∷ document_read ∷ document_upload ∷ retrieval_query
    ∷ review_queue_read ∷ operations_read ∷ system_job_create ∷ workflow_start ∷ workflow_read
    ∷ workflow_review ∷ workflow_retry ∷ workflow_cancel ∷ brief_create ∷ brief_read ∷ []

-- `ROLE_PERMISSIONS`
unfoldable pub role_permissions : RoleName → List Action
role_permissions claims_adjuster =
    dashboard_read ∷ claim_read ∷ document_read ∷ document_upload ∷ retrieval_query ∷ workflow_start
    ∷ workflow_read ∷ workflow_cancel ∷ brief_create ∷ brief_read ∷ []
role_permissions supervisor =
    dashboard_read ∷ claim_read ∷ document_read ∷ document_upload ∷ retrieval_query
    ∷ review_queue_read ∷ workflow_start ∷ workflow_read ∷ workflow_review ∷ workflow_retry
    ∷ workflow_cancel ∷ brief_create ∷ brief_read ∷ []
role_permissions compliance_reviewer =
    dashboard_read ∷ claim_read ∷ document_read ∷ retrieval_query ∷ operations_read ∷ workflow_read
    ∷ brief_read ∷ []
role_permissions admin = all_actions

-- `AuthorizationError`
pub data AuthorizationError : Type 0 where
  not_permitted : Action → AuthorizationError

unfoldable pub authorize : Actor → Action → Result AuthorizationError (Unit {0})
authorize actor action =
    if any (λ role. action_in action (role_permissions role)) actor.roles
    then ok tt
    else err (not_permitted action)
