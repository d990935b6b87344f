-- ===== src/Store/Reviews.antt =====
-- infrastructure/repositories.py: `ReviewRepository` and `OperationsRepository`.
use aegisclaims_ai.Prelude.{Bool, List, count_where, drop, filter, ltb, take, ℕ, ◌&&◌, ◌==◌}
use aegisclaims_ai.Domain.{Actor}
use aegisclaims_ai.Store.{Claim, Db, Document, ReviewTask, WorkflowRun}
use aegisclaims_ai.Store.Claims.{is_active_status, sort_by}

abbrev pub is_open_task : ℕ → ReviewTask → Bool
is_open_task tenant t = t.tenant_id == tenant && is_active_status t.status

-- `list_open`: oldest first
unfoldable pub list_open : Db → Actor → ℕ → ℕ → List ReviewTask
list_open db actor limit offset = take limit (
    drop offset (
      sort_by (λ (a : ReviewTask) (b : ReviewTask). ltb a.created_at b.created_at)
        (filter (is_open_task actor.tenant_id) db.review_tasks)))

-- `count_open`
unfoldable pub count_open : Db → Actor → ℕ
count_open db actor = count_where (is_open_task actor.tenant_id) db.review_tasks

-- The dictionary of `counts`.
pub record OperationsCounts : Type 0 where
  pub claim_count : ℕ
  pub document_count : ℕ
  pub workflow_count : ℕ
  pub review_count : ℕ

unfoldable pub operations_counts : Db → ℕ → OperationsCounts
operations_counts db tenant = record {
  claim_count = count_where (λ (c : Claim). c.tenant_id == tenant) db.claims;
  document_count = count_where (λ (d : Document). d.tenant_id == tenant) db.documents;
  workflow_count = count_where (λ (w : WorkflowRun). w.tenant_id == tenant) db.runs;
  review_count = count_where (λ (t : ReviewTask). t.tenant_id == tenant) db.review_tasks;
}
