-- ===== src/Security/Authorization/Boundaries.antt =====
-- Who may do what: the separation of duties between the roles.
use aegisclaims_ai.Prelude.{
  Bool, Bool-cases, List, [], any, arith, inl, inr, refl, true, ◌↔◌, ◌∷◌, ◌≡◌, ◌≢◌, ◌⊎◌,
}
use aegisclaims_ai.Domain.{
  Action, Actor, RoleName, admin, brief_create, claims_adjuster, compliance_reviewer,
  document_upload, supervisor, system_job_create, workflow_cancel, workflow_retry, workflow_review,
  workflow_start,
}
use aegisclaims_ai.Prelude.Exec.{ok}
use aegisclaims_ai.Security.Authorization.{action_in, authorize, role_permissions}

-- Some role of the list satisfies the predicate.
abbrev pub Some : (RoleName → Type 0) → List RoleName → Type 0
Some P [] = ⊥
Some P (r ∷ rs) = P r ⊎ Some P rs

abbrev pub IsReviewer : RoleName → Type 0
IsReviewer r = (r ≡ supervisor) ⊎ (r ≡ admin)

Some-of-any :
    (P : RoleName → Type 0) (test : RoleName → Bool) (rs : List RoleName)
    → ((r : RoleName) → test r ≡ true → P r)
    → any test rs ≡ true
    → Some P rs
Some-of-any P test [] f h = cc
Some-of-any P test (r ∷ rs) f h = elim (Bool-cases (test r)) [
  | inl e ↦ inl (f r e)
  | inr e ↦ inr (Some-of-any P test rs f (ground arith))
]

any_of_Some :
    (P : RoleName → Type 0) (test : RoleName → Bool) (rs : List RoleName)
    → ((r : RoleName) → P r → test r ≡ true)
    → Some P rs
    → any test rs ≡ true
any_of_Some P test [] f h = absurd h
any_of_Some P test (r ∷ rs) f (inl p) = rw (f r p)
any_of_Some P test (r ∷ rs) f (inr h) = ground (arith, any_of_Some P test rs f h)

may_review : (r : RoleName) → action_in workflow_review (role_permissions r) ≡ true → IsReviewer r
unfolding role_permissions
may_review supervisor h = inl refl
may_review admin h = inr refl
may_review _ h = cc

review_allowed :
    (r : RoleName) → IsReviewer r → action_in workflow_review (role_permissions r) ≡ true
unfolding role_permissions
review_allowed supervisor h = refl
review_allowed admin h = refl
review_allowed _ h = ground arith

authorized_any :
    (actor : Actor) (a : Action)
    → authorize actor a ≡ ok tt
    → any (λ r. action_in a (role_permissions r)) actor.roles ≡ true
unfolding authorize
authorized_any actor a h = ground arith

any_authorized :
    (actor : Actor) (a : Action)
    → any (λ r. action_in a (role_permissions r)) actor.roles ≡ true
    → authorize actor a ≡ ok tt
unfolding authorize
any_authorized actor a h = rw h

-- An actor may review a workflow exactly when one of their roles is supervisor or admin.
pub authorize-IsReviewer :
    (actor : Actor) → (authorize actor workflow_review ≡ ok tt) ↔ Some IsReviewer actor.roles
authorize-IsReviewer actor = (
  λ h. Some-of-any IsReviewer _ actor.roles may_review (authorized_any actor workflow_review h),
  λ h. any_authorized actor workflow_review (any_of_Some IsReviewer _ actor.roles review_allowed h),
)

-- The actions that change something.
abbrev pub IsMutating : Action → Type 0
IsMutating document_upload = Unit
IsMutating system_job_create = Unit
IsMutating workflow_start = Unit
IsMutating workflow_review = Unit
IsMutating workflow_retry = Unit
IsMutating workflow_cancel = Unit
IsMutating brief_create = Unit
IsMutating _ = ⊥

abbrev pub IsOperator : RoleName → Type 0
IsOperator r = r ≢ compliance_reviewer

role_permissions-IsOperator :
    (a : Action) (r : RoleName)
    → IsMutating a
    → action_in a (role_permissions r) ≡ true
    → IsOperator r
unfolding role_permissions
role_permissions-IsOperator document_upload compliance_reviewer m h = cc
role_permissions-IsOperator system_job_create compliance_reviewer m h = cc
role_permissions-IsOperator workflow_start compliance_reviewer m h = cc
role_permissions-IsOperator workflow_review compliance_reviewer m h = cc
role_permissions-IsOperator workflow_retry compliance_reviewer m h = cc
role_permissions-IsOperator workflow_cancel compliance_reviewer m h = cc
role_permissions-IsOperator brief_create compliance_reviewer m h = cc
role_permissions-IsOperator _ claims_adjuster m h = λ e. cc
role_permissions-IsOperator _ supervisor m h = λ e. cc
role_permissions-IsOperator _ admin m h = λ e. cc
role_permissions-IsOperator _ compliance_reviewer m h = absurd m

-- Whoever is permitted an action that changes something has a role besides compliance reviewer:
-- compliance reviewers alone only read.
compliance_only_reads :
    (actor : Actor) (a : Action)
    → IsMutating a
    → authorize actor a ≡ ok tt
    → Some IsOperator actor.roles
compliance_only_reads actor a m h =
    Some-of-any IsOperator _ actor.roles (λ r. role_permissions-IsOperator a r m)
      (authorized_any actor a h)
