-- ===== src/Documents/Upload/Accepted.antt =====
-- What an upload that was accepted is, and what its display name can hold.
use aegisclaims_ai.Prelude.{
  All, All-take, Bool, Bool-cases, Option, Option-cases, String, [], ap, arith, eq_iff, false, inl,
  inr, is_empty, length, length-take, ltb, not, refl, some, str_eq, suc, sym, take, true,
  true≢false, zero, ℕ, ◌&&◌, ◌<◌, ◌||◌, ◌∙◌, ◌∷◌, ◌≡◌, ◌≤◌,
}
use aegisclaims_ai.Documents.Upload.{
  Bytes, Library, agrees, allowed_extension, clean, detect_mime, forward_slashes, is_allowed,
  is_edge, max_document_bytes, or_default, safe_display_name, validate_upload,
}
use aegisclaims_ai.Prelude.Exec.{err≢ok, ok, ok-injective}
use aegisclaims_ai.Retrieval.Chunking.{Text, lstrip, rstrip, strip}

-- A name that is safe to show and to store: not empty, at most 240 characters, and of letters,
-- digits and the six other characters that are allowed, so without a slash or a control character.
pub record IsSafeName (name : Text) : Type 0 where
  pub not_empty : 0 < length name
  pub short : length name ≤ 240
  pub allowed : All (λ x. is_allowed x ≡ true) name

abbrev Allowed : Text → Type 0
Allowed = All (λ x. is_allowed x ≡ true)

clean-Allowed : (xs : Text) → Allowed (clean xs)
unfolding clean
clean-Allowed [] = tt
clean-Allowed (x ∷ xs) = elim (Bool-cases (is_allowed x)) [
  | inl e ↦ rw e (e, clean-Allowed xs)
  | inr e ↦ rw e (unfold is_allowed in refl, clean-Allowed xs)
]

lstrip-Allowed : (p : ℕ → Bool) (xs : Text) → Allowed xs → Allowed (lstrip p xs)
unfolding lstrip
lstrip-Allowed p [] h = tt
lstrip-Allowed p (x ∷ xs) h = elim (Bool-cases (p x)) [
  | inl e ↦ rw e (lstrip-Allowed p xs h.1)
  | inr e ↦ rw e h
]

rstrip-Allowed : (p : ℕ → Bool) (xs : Text) → Allowed xs → Allowed (rstrip p xs)
unfolding rstrip
rstrip-Allowed p [] h = tt
rstrip-Allowed p (x ∷ xs) h = elim (Bool-cases (p x && is_empty (rstrip p xs))) [
  | inl e ↦ rw e tt
  | inr e ↦ rw e (h.0, rstrip-Allowed p xs h.1)
]

or_default-Allowed :
    (xs : Text) → Allowed xs → Allowed (or_default xs) × (0 < length (or_default xs))
unfolding is_allowed
or_default-Allowed [] h = (
  (
    refl,
    (
      refl,
      (
        refl,
        (
          refl,
          (
            refl,
            (
              refl,
              (
                refl,
                (refl, (refl, (refl, (refl, (refl, (refl, (refl, (refl, (refl, (refl, tt)))))))))),
              ),
            ),
          ),
        ),
      ),
    ),
  ),
  omega arith,
)
or_default-Allowed (x ∷ xs) h = (h, omega arith)

take-positive : (n : ℕ) (xs : Text) → 0 < n → 0 < length xs → 0 < length (take n xs)
take-positive zero xs n h = n
take-positive (suc k) [] n h = h
take-positive (suc k) (x ∷ xs) n h = omega arith

-- Whatever the client calls its file, the display name is safe.
pub safe_display_name-IsSafeName :
    (lib : Library) (filename : Text) → IsSafeName (safe_display_name lib filename)
unfolding safe_display_name
safe_display_name-IsSafeName lib filename =
    let raw = clean (lib.leaf (forward_slashes filename)) in
    let stripped = strip is_edge raw in
    let named = or_default-Allowed stripped (
      rstrip-Allowed is_edge (lstrip is_edge raw)
        (lstrip-Allowed is_edge raw (clean-Allowed (lib.leaf (forward_slashes filename))))) in
    record {
      not_empty = take-positive 240 (or_default stripped) (omega arith) named.1;
      short = length-take 240 (or_default stripped);
      allowed = All-take (λ x. is_allowed x ≡ true) 240 (or_default stripped) named.0;
    }

-- What held when an upload was accepted with this name and type.
pub record IsAcceptedUpload (lib : Library) (filename : Text) (declared : Option String)
    (content : Bytes) (name : Text) (mime : String) : Type 0 where
  pub bytes_present : 0 < length content
  pub bytes_bounded : length content ≤ max_document_bytes
  pub named : name ≡ safe_display_name lib filename
  pub extension : allowed_extension lib (lib.suffix name) ≡ some mime
  pub content_type : detect_mime lib content ≡ mime
  pub declared_type : agrees lib mime declared ≡ true

present : (xs : Bytes) → is_empty xs ≡ false → 0 < length xs
present [] h = absurd (true≢false h)
present (x ∷ xs) h = omega arith

or_false : (a b : Bool) → (not a || not b) ≡ false → (a ≡ true) × (b ≡ true)
or_false true true h = (refl, refl)
or_false a b h = cc

-- An upload is accepted only with one byte to 5 MiB, under its safe display name, with an extension
-- that is allowed, whose type is that of the content, and which the declared type does not deny.
pub validate_upload-IsAcceptedUpload :
    (lib : Library) (filename : Text) (declared : Option String) (content : Bytes) (name : Text)
    (mime : String)
    → (validate_upload lib filename declared content tt).0 ≡ ok (name, mime)
    → IsAcceptedUpload lib filename declared content name mime
unfolding validate_upload
validate_upload-IsAcceptedUpload lib filename declared content name mime h =
    let display_name = safe_display_name lib filename in
    elim (Bool-cases (is_empty content)) [
      | inl e ↦ absurd (err≢ok (rw e at h))
      | inr e ↦ elim (Bool-cases (ltb max_document_bytes (length content))) [
        | inl big ↦ absurd (err≢ok (rw (e, big) at h))
        | inr fits ↦ elim (Option-cases (allowed_extension lib (lib.suffix display_name))) [
          | inl unknown ↦ absurd (err≢ok (rw (e, fits, unknown) at h))
          | inr (expected, known) ↦
              elim (Bool-cases (
                not (str_eq (detect_mime lib content) expected)
                || not (agrees lib expected declared))) [
                  | inl differs ↦ absurd (err≢ok (rw (e, fits, known, differs) at h))
                  | inr agreed ↦
                      let both = or_false _ _ agreed in
                      let same =
                        ok-injective (display_name, detect_mime lib content) (name, mime)
                          (rw (e, fits, known, agreed) at h) in
                      let detected : detect_mime lib content ≡ expected = (eq_iff _ _).0 both.0 in
                      let typed : detect_mime lib content ≡ mime =
                        ap (λ (p : Text × String). p.1) same in
                      let expects : expected ≡ mime = sym detected ∙ typed in
                      let named : display_name ≡ name = ap (λ (p : Text × String). p.0) same in
                      record {
                        bytes_present = present content e;
                        bytes_bounded = ground (arith, fits);
                        named = sym named;
                        extension =
                            ap (λ n. allowed_extension lib (lib.suffix n)) (sym named)
                            ∙ (known ∙ ap (λ m. some m) expects);
                        content_type = typed;
                        declared_type = ap (λ m. agrees lib m declared) (sym expects) ∙ both.1;
                      }
                ]
        ]
      ]
    ]
