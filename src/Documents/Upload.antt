-- ===== src/Documents/Upload.antt =====
-- documents/ingestion.py: the checks on an upload. Contents are lists of bytes and file names lists
-- of code points. `pathlib` and the UTF-8 decoder are parameters.
pub mod Accepted
mod Tests
use aegisclaims_ai.Prelude.{
  Bool, List, Option, String, [], any, false, if◌then◌else◌, is_empty, leb, length, ltb, none, not,
  some, str_eq, take, true, ℕ, ◌&&◌, ◌==◌, ◌||◌, ◌∷◌,
}
use aegisclaims_ai.Prelude.Exec.{Exec, or_raise, pure, raise_if, ◌>>=◌, ◌>>◌}
use aegisclaims_ai.Retrieval.Chunking.{Text, strip}

abbrev pub Bytes : Type 0
Bytes = List ℕ

-- `Path(name).name`, `Path(name).suffix.lower()`, and whether `decode("utf-8")` succeeds.
pub record Library : Type 0 where
  pub leaf : Text → Text
  pub suffix : Text → String
  pub is_utf8 : Bytes → Bool

abbrev pub max_document_bytes : ℕ
max_document_bytes = 5242880

-- The codes of `IngestionRejectedError`.
pub data Rejection : Type 0 where
  document_empty document_too_large file_type_invalid mime_mismatch : Rejection

abbrev pub between : ℕ → ℕ → ℕ → Bool
between low high x = leb low x && leb x high

-- `[A-Za-z0-9._() -]` and the underscore that replaces other characters.
unfoldable pub is_allowed : ℕ → Bool
is_allowed x =
    between 65 90 x
    || (between 97 122 x
        || (between 48 57 x
            || (x == 46 || (x == 95 || (x == 40 || (x == 41 || (x == 32 || x == 45)))))))

-- `re.sub(r"[^A-Za-z0-9._() -]", "_", leaf)`
unfoldable pub clean : Text → Text
clean [] = []
clean (x ∷ xs) = (if is_allowed x then x else 95) ∷ clean xs

-- `filename.replace("\\", "/")`
unfoldable pub forward_slashes : Text → Text
forward_slashes [] = []
forward_slashes (x ∷ xs) = (if x == 92 then 47 else x) ∷ forward_slashes xs

-- What `.strip(" .")` removes.
abbrev pub is_edge : ℕ → Bool
is_edge x = x == 32 || x == 46

-- "uploaded-document"
abbrev pub default_name : Text
default_name =
    117 ∷ 112 ∷ 108 ∷ 111 ∷ 97 ∷ 100 ∷ 101 ∷ 100 ∷ 45 ∷ 100 ∷ 111 ∷ 99 ∷ 117 ∷ 109 ∷ 101 ∷ 110 ∷ 116
    ∷ []

-- `cleaned or "uploaded-document"`
abbrev pub or_default : Text → Text
or_default [] = default_name
or_default (x ∷ xs) = x ∷ xs

module _ (lib : Library) where
  -- `safe_display_name`
  unfoldable pub safe_display_name : Text → Text
  safe_display_name filename =
      take 240 (or_default (strip is_edge (clean (lib.leaf (forward_slashes filename)))))

  -- `content.startswith(prefix)`
  abbrev pub starts_with_bytes : Bytes → Bytes → Bool
  starts_with_bytes [] content = true
  starts_with_bytes (b ∷ bs) [] = false
  starts_with_bytes (b ∷ bs) (c ∷ cs) = b == c && starts_with_bytes bs cs

  -- `detect_mime`
  unfoldable pub detect_mime : Bytes → String
  detect_mime content =
      if starts_with_bytes (37 ∷ 80 ∷ 68 ∷ 70 ∷ 45 ∷ []) content
      then "application/pdf"
      else if not (any (λ b. b == 0) content) && lib.is_utf8 content
      then "text/plain"
      else "application/octet-stream"

  -- `ALLOWED_EXTENSIONS.get`
  unfoldable pub allowed_extension : String → Option String
  allowed_extension suffix =
      if str_eq suffix ".pdf"
      then some "application/pdf"
      else if str_eq suffix ".txt"
      then some "text/plain"
      else none

  -- `declared_mime in {expected, None, "application/octet-stream"}`
  abbrev pub agrees : String → Option String → Bool
  agrees expected none = true
  agrees expected (some declared) =
      str_eq declared expected || str_eq declared "application/octet-stream"

  -- `validate_upload`: the display name and the type, or the rejection.
  unfoldable pub validate_upload :
      Text → Option String → Bytes → Exec Rejection (Unit {0}) (Text × String)
  validate_upload filename declared content = do
    raise_if (is_empty content) document_empty
    raise_if (ltb max_document_bytes (length content)) document_too_large
    let display_name = safe_display_name filename
    expected ← or_raise (allowed_extension (lib.suffix display_name)) file_type_invalid
    let detected = detect_mime content
    raise_if (not (str_eq detected expected) || not (agrees expected declared)) mime_mismatch
    pure (display_name, detected)
