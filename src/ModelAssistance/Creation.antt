-- ===== src/ModelAssistance/Creation.antt =====
-- model_assistance/service.py: `create`. `retrieve` is `RetrievalService.retrieve`.
pub mod Settled
pub mod Outcome
pub mod Governance
use aegisclaims_ai.Prelude.{
  Bool, List, Option, String, [], find, if◌then◌else◌, is_empty, is_some, none, not, some, str_eq,
  str_lt, ℕ, ◌+◌, ◌-◌, ◌||◌,
}
use aegisclaims_ai.Documents.Conflicts.{conflicts}
use aegisclaims_ai.Domain.{Actor}
use aegisclaims_ai.ModelAssistance.Generation.{Progress, attempts, not_started}
use aegisclaims_ai.ModelAssistance.Service.{
  BriefEnv, BriefError, BriefLimits, BriefRequest, Briefs, ClaimEvidenceBriefView, add_brief,
  add_invocation, audit, authority_notice, brief_not_found, brief_schema_version, cite,
  evidence_fingerprint, fusion_version, generation_rejected, newest_row, prompt_template_version,
  retrieval_failed, run_of, task_conflict, unknown_citation, used_key, view,
}
use aegisclaims_ai.ModelAssistance.Types.{
  BriefCandidate, ModelGenerationResult, ModelLibrary, ModelProvider, StructuredGenerationRequest,
}
use aegisclaims_ai.ModelAssistance.Validation.{Citations, add_citations, bounded_evidence, handles}
use aegisclaims_ai.Prelude.Exec.{Result, err, gets, ok, or_raise, raise, raise_if, ◌>>=◌, ◌>>◌}
use aegisclaims_ai.Prelude.Python.{Python}
use aegisclaims_ai.Retrieval.Answering.{Retrieve, missing_information, needs_review}
use aegisclaims_ai.Retrieval.Types.{RetrievalError, RetrievalExecution}
use aegisclaims_ai.Store.{
  Citation, Claim, ClaimEvidenceBrief, Db, ModelInvocation, Session, WorkflowRun, commit, write,
}
use aegisclaims_ai.Store.Claims.{get_for_actor, review_status, sort_by}

-- What `create` has computed when the attempts are over.
pub record Prepared : Type 0 where
  pub claim : Claim
  pub citations : Citations
  pub fingerprint : String
  pub workflow_run_id : Option ℕ
  pub prompt_hash : String
  pub progress : Progress

module _ (py : Python) (lib : ModelLibrary) (provider : ModelProvider) (limits : BriefLimits) where
  unfoldable pub generation_request : BriefRequest → Claim → Citations → StructuredGenerationRequest
  generation_request req claim citations = record {
    task = req.task;
    claim_number = claim.claim_number;
    applicable_policy_edition = claim.policy_edition;
    evidence = bounded_evidence limits.max_input_characters citations;
    correlation_id = req.correlation_id;
    prompt_template_version = prompt_template_version;
    response_schema_version = brief_schema_version;
    max_output_tokens = limits.max_output_tokens;
  }

  unfoldable pub prepared : Db → BriefRequest → Claim → Citations → Prepared
  prepared db req claim citations = record {
    claim = claim;
    citations = citations;
    fingerprint = evidence_fingerprint py db req.claim_id req.actor req.task;
    workflow_run_id =
        elim (newest_row (run_of req.actor.tenant_id req.claim_id)
          (λ (w : WorkflowRun). w.created_at) db.runs) [ none ↦ none | some w ↦ some w.id ];
    prompt_hash = py.sha256 (
        lib.dump_prompt req.task claim.claim_number claim.policy_edition
          (sort_by str_lt (handles citations)) prompt_template_version);
    progress =
        attempts py lib provider citations claim.policy_edition
          (generation_request req claim citations) (limits.max_retries + 1) 0 not_started;
  }

  -- The candidate, if no failures are left.
  unfoldable pub accepted : Progress → Option BriefCandidate
  accepted p = if is_empty p.failures then p.candidate else none

  abbrev pub usage : (ModelGenerationResult → Option ℕ) → Progress → Option ℕ
  usage f p = elim p.result [ none ↦ none | some r ↦ f r ]

  unfoldable pub invocation : BriefEnv → BriefRequest → Prepared → ModelInvocation
  invocation env req p = record {
    id = env.invocation_id;
    tenant_id = req.actor.tenant_id;
    claim_id = req.claim_id;
    workflow_run_id = p.workflow_run_id;
    actor_user_id = req.actor.user_id;
    provider = provider.provider_id;
    model_identifier = provider.model_id;
    configuration_version = provider.configuration_version;
    prompt_template_version = prompt_template_version;
    retrieval_configuration = fusion_version;
    response_schema_version = brief_schema_version;
    evidence_fingerprint = p.fingerprint;
    authorized_citation_ids = sort_by str_lt (handles p.citations);
    prompt_hash = p.prompt_hash;
    outcome = if is_some (accepted p.progress) then "valid" else "rejected";
    validation_failures = p.progress.failures;
    input_tokens = usage (λ (r : ModelGenerationResult). r.input_tokens) p.progress;
    output_tokens = usage (λ (r : ModelGenerationResult). r.output_tokens) p.progress;
    retry_count = p.progress.attempts_used - 1;
    correlation_id = req.correlation_id;
  }

  -- The branch of a candidate that is missing or has failures.
  unfoldable pub reject : ModelInvocation → Actor → Briefs ClaimEvidenceBriefView
  reject inv actor = do
    write (audit inv actor "model.brief.rejected")
    commit
    raise generation_rejected

  unfoldable pub brief_row :
      BriefEnv
      → BriefRequest
      → Prepared
      → BriefCandidate
      → Bool
      → List Citation
      → ClaimEvidenceBrief
  brief_row env req p c review_needed cited = record {
    id = env.brief_id;
    tenant_id = req.actor.tenant_id;
    claim_id = req.claim_id;
    workflow_run_id = p.workflow_run_id;
    invocation_id = env.invocation_id;
    created_by_user_id = req.actor.user_id;
    task = req.task;
    status = c.status;
    content = record {
      claim_summary = c.claim_summary;
      evidence_summary = c.evidence_summary;
      applicable_policy_summary = c.applicable_policy_summary;
      missing_information = c.missing_information;
      conflicts = c.conflicts;
      ambiguities = c.ambiguities;
      safety_flags = c.safety_flags;
      human_review_required = review_needed;
      limitations = c.limitations;
      citations = cited;
      authority_notice = authority_notice;
    };
    evidence_fingerprint = p.fingerprint;
    applicable_policy_edition = p.claim.policy_edition;
    idempotency_key = req.idempotency_key;
    validation_state = "valid";
    created_at = env.now;
  }

  -- The branch of an accepted candidate.
  unfoldable pub accept :
      BriefEnv
      → BriefRequest
      → Prepared
      → ModelInvocation
      → BriefCandidate
      → Briefs ClaimEvidenceBriefView
  accept env req p inv c = do
    status ← gets (λ (s : Session). review_status s.db req.claim_id req.actor)
    cited ← or_raise (cite py req.claim_id p.citations c.citation_handles) unknown_citation
    let b = brief_row env req p c (c.human_review_required || needs_review status) cited
    write (λ db. audit inv req.actor "model.brief.created" (add_brief b db))
    commit
    view py req.actor b

  -- From the attempts on.
  unfoldable pub settle : BriefEnv → BriefRequest → Prepared → Briefs ClaimEvidenceBriefView
  settle env req p = do
    let inv = invocation env req p
    write (add_invocation inv)
    elim (accepted p.progress) [ none ↦ reject inv req.actor | some c ↦ accept env req p inv c ]

  -- What follows the retrieval.
  abbrev pub after_retrieval :
      BriefEnv
      → BriefRequest
      → Claim
      → Result RetrievalError RetrievalExecution × Session
      → Result BriefError ClaimEvidenceBriefView × Session
  after_retrieval env req claim (err e, s) = (err (retrieval_failed e), s)
  after_retrieval env req claim (ok retrieval, s) =
      settle env req (prepared s.db req claim (add_citations py retrieval.evidence [])) s

  -- A key that the claim has not used before.
  unfoldable pub create_new :
      Retrieve → BriefEnv → BriefRequest → Claim → Briefs ClaimEvidenceBriefView
  create_new retrieve env req claim s =
      after_retrieval env req claim (retrieve req.claim_id req.actor req.task 5 s)

  -- `create`
  unfoldable pub create : Retrieve → BriefEnv → BriefRequest → Briefs ClaimEvidenceBriefView
  create retrieve env req = do
    found ← gets (λ (s : Session). get_for_actor s.db req.claim_id req.actor)
    claim ← or_raise found brief_not_found
    existing ← gets (λ (s : Session).
        find (used_key req.actor.tenant_id req.claim_id req.idempotency_key) s.db.briefs)
    elim existing [
      | some b ↦ do raise_if (not (str_eq b.task req.task)) task_conflict; view py req.actor b
      | none ↦ create_new retrieve env req claim
    ]
