-- ===== src/Store/Claims.antt =====
-- infrastructure/repositories.py: `ClaimRepository`, `DocumentRepository.get_for_actor` and
-- `duplicate`. Every query is scoped by tenant, and for those who are not administrators by
-- assignment.
pub mod Isolation
mod Tests
use aegisclaims_ai.Prelude.{
  Bool, List, Option, String, [], any, count_where, drop, false, filter, find, if◌then◌else◌, ltb,
  none, some, str_eq, take, true, ℕ, ◌&&◌, ◌==◌, ◌||◌, ◌∷◌,
}
use aegisclaims_ai.Domain.{Actor, ReviewStatus, is_admin}
use aegisclaims_ai.Store.{Claim, Db, Document, ReviewTask}

-- The join with `ClaimAssignmentModel`. It holds one row for a claim and a user at most.
abbrev pub is_assigned : Db → Actor → ℕ → Bool
is_assigned db actor claim =
    any (λ a. a.claim_id == claim && (a.user_id == actor.user_id && a.tenant_id == actor.tenant_id))
      db.assignments

abbrev pub visible : Db → Actor → Claim → Bool
visible db actor c = c.tenant_id == actor.tenant_id && (is_admin actor || is_assigned db actor c.id)

-- `ClaimRepository.get_for_actor`
unfoldable pub get_for_actor : Db → ℕ → Actor → Option Claim
get_for_actor db claim_id actor = find (λ c. c.id == claim_id && visible db actor c) db.claims

-- Newest first: the row goes above those that were created no later.
unfoldable pub insert_by {ℓ} : {A : Type ℓ} → (A → A → Bool) → A → List A → List A
insert_by before x [] = x ∷ []
insert_by before x (y ∷ ys) =
    let rest = y ∷ ys in if before y x then y ∷ insert_by before x ys else x ∷ rest

-- A stable sort: rows that compare equal keep their order.
unfoldable pub sort_by {ℓ} : {A : Type ℓ} → (A → A → Bool) → List A → List A
unfolding insert_by
sort_by before [] = []
sort_by before (x ∷ xs) = insert_by before x (sort_by before xs)

-- `ClaimRepository.list_for_actor`
unfoldable pub list_for_actor : Db → Actor → ℕ → ℕ → List Claim
unfolding sort_by
list_for_actor db actor limit offset = take limit (
    drop offset
      (sort_by (λ a b. ltb b.created_at a.created_at) (filter (visible db actor) db.claims)))

-- `ClaimRepository.count_for_actor`
unfoldable pub count_for_actor : Db → Actor → ℕ
count_for_actor db actor = count_where (visible db actor) db.claims

-- `ClaimRepository.documents`. Rows are kept in the order of creation.
unfoldable pub documents : Db → ℕ → Actor → List Document
documents db claim_id actor =
    filter (λ d. d.claim_id == claim_id && d.tenant_id == actor.tenant_id) db.documents

abbrev pub document_visible : Db → Actor → Document → Bool
document_visible db actor d =
    d.tenant_id == actor.tenant_id && (is_admin actor || is_assigned db actor d.claim_id)

-- `DocumentRepository.get_for_actor`
unfoldable pub get_document : Db → ℕ → Actor → Option Document
get_document db document_id actor =
    find (λ d. d.id == document_id && document_visible db actor d) db.documents

-- `DocumentRepository.duplicate`
unfoldable pub duplicate : Db → ℕ → ℕ → String → Option Document
duplicate db tenant_id claim_id checksum =
    find
      (λ d.
        d.tenant_id == tenant_id && (d.claim_id == claim_id && str_eq d.checksum_sha256 checksum))
      db.documents

-- `review_status in ["open", "assigned"]`
abbrev pub is_active_status : ReviewStatus → Bool
is_active_status ReviewStatus.open_task = true
is_active_status ReviewStatus.assigned = true
is_active_status _ = false

abbrev pub task_of : ℕ → ℕ → ReviewTask → Bool
task_of tenant claim t = t.claim_id == claim && t.tenant_id == tenant

-- The newest of the rows that a query selects.
unfoldable pub newest : (ReviewTask → Bool) → List ReviewTask → Option ReviewTask
newest p [] = none
newest p (t ∷ ts) =
    let rest = newest p ts in
    if p t
    then elim rest [
      | none ↦ some t
      | some u ↦ if ltb t.created_at u.created_at then some u else some t
    ]
    else rest

-- `ClaimRepository.review_status`; `none` is "not_required".
unfoldable pub review_status : Db → ℕ → Actor → Option ReviewStatus
unfolding newest
review_status db claim_id actor =
    elim (newest (λ t. task_of actor.tenant_id claim_id t && is_active_status t.status)
      db.review_tasks) [
        | some t ↦ some t.status
        | none ↦ elim (newest (task_of actor.tenant_id claim_id) db.review_tasks) [
          | some t ↦ some t.status
          | none ↦ none
        ]
      ]
