-- ===== src/Retrieval/Search/Retrieved.antt =====
-- What a retrieval does to the session.
use aegisclaims_ai.Prelude.{Option, String, [], none, some, ℕ, ◌∷◌}
use aegisclaims_ai.Domain.{Actor}
use aegisclaims_ai.Prelude.Exec.{or_raise}
use aegisclaims_ai.Prelude.Python.{Python}
use aegisclaims_ai.Retrieval.Indexing.{Indexer, index_claim}
use aegisclaims_ai.Retrieval.Indexing.Tables.{
  IndexesOnly, IndexesOnly-refl, continue-IndexesOnly, index_claim-IndexesOnly,
  or_raise-IndexesOnly,
}
use aegisclaims_ai.Retrieval.Search.{Scoring, raise_some, retrieve}
use aegisclaims_ai.Retrieval.Types.{claim_not_found}
use aegisclaims_ai.Store.{Session}
use aegisclaims_ai.Store.Claims.{get_for_actor}

pub raise_some-IndexesOnly : (o : Option String) (s : Session) → IndexesOnly (raise_some o s).1 s
raise_some-IndexesOnly none s = IndexesOnly-refl s
raise_some-IndexesOnly (some e) s = IndexesOnly-refl s

pub retrieve-IndexesOnly :
    {F : Type 0} (py : Python) (scoring : Scoring F) (ix : Indexer) (claim_id : ℕ) (actor : Actor)
    (question : String) (limit : ℕ) (s : Session)
    → IndexesOnly (retrieve py scoring ix claim_id actor question limit s).1 s
unfolding retrieve
retrieve-IndexesOnly py scoring ix claim_id actor question limit s =
    let found = get_for_actor s.db claim_id actor in
    continue-IndexesOnly (or_raise found claim_not_found s) _ s
      (or_raise-IndexesOnly found claim_not_found s)
      (λ claim t.
        continue-IndexesOnly (index_claim ix claim.id actor.tenant_id t) _ t
          (index_claim-IndexesOnly ix claim.id actor.tenant_id t)
          (λ n u.
            continue-IndexesOnly (raise_some (ix.embed_error (question ∷ [])) u) _ u
              (raise_some-IndexesOnly (ix.embed_error (question ∷ [])) u)
              (λ x v. IndexesOnly-refl v)))
