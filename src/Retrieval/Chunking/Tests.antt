-- ===== src/Retrieval/Chunking/Tests.antt =====
-- Runs of the chunker, with the space and the line feed as white space.
use aegisclaims_ai.Prelude.{All, Bool, String, [], length, refl, true, ℕ, ◌==◌, ◌||◌, ◌∷◌, ◌≡◌}
use aegisclaims_ai.Retrieval.Chunking.{
  Text, chunk_from, chunk_page, lstrip, normalize, proposed_end, replace_cr, replace_crlf,
  rfind_from, rstrip, window_end,
}
use aegisclaims_ai.Retrieval.Chunking.Coverage.{Any, Holds, chunk_page-covers, is_inked}
use aegisclaims_ai.Retrieval.Chunking.Spans.{IsSpan, chunk_page-IsSpan}
use aegisclaims_ai.Workflow.Service.Operations.{start}

abbrev is_blank : ℕ → Bool
is_blank x = x == 32 || x == 10

abbrev numbered : ℕ → ℕ → ℕ → Text → String
numbered ordinal start end text = "chunk"

-- "\r\n a b \n"
abbrev page : Text
page = 13 ∷ 10 ∷ 32 ∷ 97 ∷ 32 ∷ 98 ∷ 32 ∷ 10 ∷ []

chunk_page-IsSpan_example :
    All (IsSpan is_blank numbered (normalize is_blank page)) (chunk_page is_blank numbered page)
chunk_page-IsSpan_example = chunk_page-IsSpan is_blank numbered page

b_is_inked : is_inked is_blank 2 (normalize is_blank page) ≡ true
unfolding is_inked rstrip lstrip replace_cr replace_crlf
b_is_inked = refl

chunk_page-covers_example : Any (Holds 2) (chunk_page is_blank numbered page)
chunk_page-covers_example = chunk_page-covers is_blank numbered page 2 b_is_inked

one_chunk : length (chunk_page is_blank numbered page) ≡ 1
unfolding chunk_page chunk_from window_end proposed_end rstrip lstrip replace_cr replace_crlf
    rfind_from
one_chunk = refl
