-- ===== src/Delivery/Routes/Overview.antt =====
-- delivery/routes.py: the dashboard, the workspace of a claim, the review queue and the operations
-- summary.
use aegisclaims_ai.Application
use aegisclaims_ai.Prelude.{ℕ}
use aegisclaims_ai.Delivery.Routes.{
  Response, Services, claim_audit, claim_workspace_view, dashboard_view, operations_view,
  review_queue_view, session_gets,
}
use aegisclaims_ai.Delivery.Types.{Handler, append_audit, not_found, permit}
use aegisclaims_ai.Domain.{Actor, claim_read, dashboard_read, operations_read, review_queue_read}
use aegisclaims_ai.Prelude.Exec.{or_raise, pure, ◌>>=◌, ◌>>◌}
use aegisclaims_ai.Store.Reviews.{operations_counts}

module _ (sv : Services) (actor : Actor) where
  unfoldable pub dashboard : Handler Response
  dashboard = do
    permit actor dashboard_read
    v ← session_gets (λ s. Application.dashboard s.db actor)
    pure (dashboard_view v)

  unfoldable pub claim_workspace : ℕ → Handler Response
  claim_workspace claim = do
    permit actor claim_read
    found ← session_gets (λ s. Application.claim_workspace s.db claim actor)
    workspace ← or_raise found not_found
    append_audit (claim_audit sv actor "claim.workspace.read" claim "success")
    pure (claim_workspace_view workspace)

  unfoldable pub reviews : ℕ → ℕ → Handler Response
  reviews limit offset = do
    permit actor review_queue_read
    tasks ← session_gets (λ s. Application.review_queue s.db actor limit offset)
    pure (review_queue_view tasks)

  unfoldable pub operations : Handler Response
  operations = do
    permit actor operations_read
    counts ← session_gets (λ s. operations_counts s.db actor.tenant_id)
    pure (operations_view counts)
