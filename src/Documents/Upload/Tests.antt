-- ===== src/Documents/Upload/Tests.antt =====
-- Runs of the upload checks.
use aegisclaims_ai.Prelude.{[], refl, some, true, ◌∷◌, ◌≡◌}
use aegisclaims_ai.Documents.Upload.{
  Library, allowed_extension, clean, detect_mime, forward_slashes, is_allowed, safe_display_name,
  validate_upload,
}
use aegisclaims_ai.Documents.Upload.Accepted.{
  IsAcceptedUpload, IsSafeName, safe_display_name-IsSafeName, validate_upload-IsAcceptedUpload,
}
use aegisclaims_ai.Prelude.Exec.{ok}
use aegisclaims_ai.Retrieval.Chunking.{Text, lstrip, rstrip}

-- A library for names without a directory that end in ".txt".
abbrev flat : Library
flat = record { leaf = λ name. name; suffix = λ _. ".txt"; is_utf8 = λ _. true }

-- "a/b.txt"
abbrev slashed : Text
slashed = 97 ∷ 47 ∷ 98 ∷ 46 ∷ 116 ∷ 120 ∷ 116 ∷ []

-- "a_b.txt"
abbrev shown : Text
shown = 97 ∷ 95 ∷ 98 ∷ 46 ∷ 116 ∷ 120 ∷ 116 ∷ []

safe_display_name-IsSafeName_example : IsSafeName (safe_display_name flat slashed)
safe_display_name-IsSafeName_example = safe_display_name-IsSafeName flat slashed

upload_accepted :
    (validate_upload flat slashed (some "text/plain") (104 ∷ 105 ∷ []) tt).0
    ≡ ok (shown, "text/plain")
unfolding validate_upload safe_display_name forward_slashes clean is_allowed detect_mime
    allowed_extension lstrip rstrip
upload_accepted = refl

validate_upload-IsAcceptedUpload_example :
    IsAcceptedUpload flat slashed (some "text/plain") (104 ∷ 105 ∷ []) shown "text/plain"
validate_upload-IsAcceptedUpload_example =
    validate_upload-IsAcceptedUpload flat slashed (some "text/plain") (104 ∷ 105 ∷ []) shown
      "text/plain" upload_accepted
