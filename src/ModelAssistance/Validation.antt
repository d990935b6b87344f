-- ===== src/ModelAssistance/Validation.antt =====
-- model_assistance/service.py: the citations that a brief may use, the evidence that the model is
-- shown, and `_validate`.
pub mod Grounded
pub mod Bounds
use Prim.Native.String.{count, ◌++◌ as concat}
use aegisclaims_ai.Prelude.{
  Bool, List, Option, String, [], any, any_contains, false, if◌then◌else◌, is_some, ltb, map, none,
  not, some, str_eq, str_take, true, ℕ, ◌++◌, ◌-◌, ◌∷◌,
}
use aegisclaims_ai.ModelAssistance.Types.{BriefCandidate, ModelEvidence}
use aegisclaims_ai.Prelude.Python.{Python}
use aegisclaims_ai.Retrieval.Types.{RetrievedEvidence, stable_citation_id}

-- A Python dictionary with text keys, in the order of insertion.
abbrev pub Citations : Type 0
Citations = List (String × RetrievedEvidence)

-- `d[key] = value`: a key that is present keeps its place.
unfoldable pub set_item : String → RetrievedEvidence → Citations → Citations
set_item key item [] = (key, item) ∷ []
set_item key item ((k, e) ∷ rest) =
    let tail = set_item key item rest in if str_eq k key then (k, item) ∷ rest else (k, e) ∷ tail

-- `d.get(key)`
unfoldable pub get_item : String → Citations → Option RetrievedEvidence
get_item key [] = none
get_item key ((k, e) ∷ rest) = if str_eq k key then some e else get_item key rest

-- `citations`, by `stable_citation_id`
unfoldable pub add_citations : Python → List RetrievedEvidence → Citations → Citations
add_citations py [] acc = acc
add_citations py (e ∷ es) acc =
    add_citations py es (set_item (stable_citation_id py e.chunk.chunk_identifier) e acc)

abbrev pub handles : Citations → List String
handles = map (λ (c : String × RetrievedEvidence). c.0)

-- The loop over `citations.items()`: what fits into `remaining` characters.
unfoldable pub bounded_evidence : ℕ → Citations → List ModelEvidence
bounded_evidence remaining [] = []
bounded_evidence remaining ((handle, item) ∷ rest) = elim (ltb 0 remaining) [
  | true ↦
      let text = str_take remaining item.chunk.normalized_text in
      record {
        handle = handle;
        text = text;
        policy_edition = item.chunk.policy_edition;
        injection_risk = item.chunk.injection_risk;
      }
      ∷ bounded_evidence (remaining - count text) rest
  | false ↦ []
]

abbrev pub prohibited_phrases : List String
prohibited_phrases =
    "approve this claim" ∷ "deny this claim" ∷ "issue payment" ∷ "settlement recommendation"
    ∷ "fraudulent claim" ∷ "liable for" ∷ "send to the claimant" ∷ "close this claim" ∷ []

-- `" ".join(parts)`
abbrev pub join_words : List String → String
join_words [] = ""
join_words (t ∷ []) = t
join_words (t ∷ ts) = concat t (concat " " (join_words ts))

-- `handle not in citations`
abbrev pub is_unauthorized : Citations → String → Bool
is_unauthorized citations handle = not (is_some (get_item handle citations))

-- `policy_edition not in {None, edition}`
abbrev pub is_other_edition : String → Option String → Bool
is_other_edition edition none = false
is_other_edition edition (some e) = not (str_eq e edition)

abbrev pub is_wrong_policy : Citations → String → String → Bool
is_wrong_policy citations edition handle = elim (get_item handle citations) [
  | none ↦ false
  | some e ↦ is_other_edition edition e.chunk.policy_edition
]

-- The text that is searched for prohibited phrases.
abbrev pub searched_text : Python → BriefCandidate → String
searched_text py c = py.lower (join_words (c.claim_summary ∷ c.evidence_summary ∷ c.limitations))

abbrev pub when : Bool → String → List String
when true name = name ∷ []
when false name = []

-- `_validate`
unfoldable pub validate : Python → BriefCandidate → Citations → String → List String
validate py c citations edition =
    when (any (is_unauthorized citations) c.citation_handles) "unauthorized_citation"
    ++ (when (any (is_wrong_policy citations edition) c.citation_handles) "wrong_policy_citation"
        ++ when (any_contains prohibited_phrases (searched_text py c))
            "prohibited_consequential_output")
