-- ===== src/Documents/Extraction.antt =====
-- documents/extraction.py, documents/facts.py and documents/ocr.py. The UTF-8 decoder, the PDF reader
-- and the regular expressions are parameters.
use Prim.Native.String.{◌++◌ as concat}
use aegisclaims_ai.Prelude.{
  Bool, List, Option, String, [], any, false, if◌then◌else◌, map, none, not, some, str_eq, true, ℕ,
  ◌++◌, ◌+◌, ◌||◌, ◌∷◌,
}
use aegisclaims_ai.Documents.Upload.{Bytes}
use aegisclaims_ai.Prelude.Exec.{Result, err, ok}
use aegisclaims_ai.Prelude.Python.{Python}

-- An exception that the processing of a document catches: whether it is a
-- `DocumentExtractionError`, and its text.
pub record Failure : Type 0 where
  pub is_extraction : Bool
  pub text : String

-- How `OcrAdapter.extract_pages` ends; `unavailable` is an `OcrUnavailableError`.
pub data OcrOutcome : Type 0 where
  recognized : List String → OcrOutcome
  unavailable other_error : String → OcrOutcome

pub record OcrAdapter : Type 0 where
  pub name : String
  pub version : String
  pub extract_pages : Bytes → OcrOutcome

-- `UnavailableOcrAdapter`
abbrev pub unavailable_ocr : OcrAdapter
unavailable_ocr = record {
  name = "unavailable";
  version = "phase-2-boundary";
  extract_pages = λ content. unavailable "OCR is not configured; no OCR result was produced";
}

-- `decode("utf-8")`; the texts of the pages that pypdf reads, if it does not raise; the whole match
-- and the first group of each match of a fact type's pattern in a page; `" ".join(text.split())`.
pub record Readers : Type 0 where
  pub decode : Bytes → Option String
  pub read_pdf : Bytes → Option (List (Option String))
  pub find_matches : String → String → List (String × String)
  pub squeeze : String → String

abbrev pub extraction_error : String → Failure
extraction_error text = record { is_extraction = true; text = text }

abbrev pub text_of_page : Python → Option String → String
text_of_page py none = py.strip ""
text_of_page py (some t) = py.strip t

unfoldable pub recognize : OcrAdapter → Bytes → Result Failure (List String × String)
recognize ocr content = elim (ocr.extract_pages content) [
  | recognized pages ↦ ok (pages, concat ocr.name (concat "_" ocr.version))
  | unavailable text ↦ err (extraction_error text)
  | other_error text ↦ err (record { is_extraction = false; text = text })
]

abbrev pub has_text : List String → Bool
has_text = any (λ (p : String). not (str_eq p ""))

-- `extract_pages`: the pages and the method.
unfoldable pub extract_pages :
    Python → Readers → OcrAdapter → Bytes → String → Result Failure (List String × String)
extract_pages py readers ocr content mime =
    if str_eq mime "text/plain"
    then elim (readers.decode content) [
      | some text ↦ ok (text ∷ [], "utf8_text_v1")
      | none ↦ err (extraction_error "text document is not valid UTF-8")
    ]
    else elim (readers.read_pdf content) [
      | none ↦ err (extraction_error "PDF parser could not safely extract this document")
      | some texts ↦
          let pages = map (text_of_page py) texts in
          if has_text pages then ok (pages, "pypdf_text_v1") else recognize ocr content
    ]

-- `ExtractedFact`
pub record ExtractedFact : Type 0 where
  pub page_number : ℕ
  pub fact_type : String
  pub raw_source_span : String
  pub normalized_value : String

-- The keys of `FACT_PATTERNS`.
abbrev pub fact_types : List String
fact_types =
    "reported_loss_date" ∷ "inspection_date" ∷ "loss_type" ∷ "property_address"
    ∷ "policy_identifier" ∷ "policy_edition" ∷ "estimate_amount" ∷ "contractor_identity"
    ∷ "reported_damage" ∷ []

-- One match.
unfoldable pub extracted_fact : Python → Readers → ℕ → String → String × String → ExtractedFact
extracted_fact py readers number fact_type (whole, group) =
    let value = readers.squeeze (py.strip group) in
    record {
      page_number = number;
      fact_type = fact_type;
      raw_source_span = py.strip whole;
      normalized_value =
          if str_eq fact_type "policy_identifier" || str_eq fact_type "policy_edition"
          then py.upper value
          else value;
    }

unfoldable pub facts_of_page : Python → Readers → ℕ → String → List String → List ExtractedFact
facts_of_page py readers number text [] = []
facts_of_page py readers number text (t ∷ ts) =
    map (extracted_fact py readers number t) (readers.find_matches t text)
    ++ facts_of_page py readers number text ts

-- `extract_structured_facts`, from page `number`
unfoldable pub extract_structured_facts : Python → Readers → ℕ → List String → List ExtractedFact
extract_structured_facts py readers number [] = []
extract_structured_facts py readers number (page ∷ pages) =
    facts_of_page py readers number page fact_types
    ++ extract_structured_facts py readers (number + 1) pages
